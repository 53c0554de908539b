-- ===== src/Stellar.antt =====
-- apps/api/src/shared/blockchain/stellar.service.ts: the service that signs and submits transactions.
pub mod Bytes
pub mod Sdk
pub mod Net
pub mod Submit
pub mod Wallets
pub mod Contracts
pub mod Pool
pub mod Client
