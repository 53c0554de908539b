-- ===== src/Pix.antt =====
-- apps/api/src/modules/pix/: the Pix orders and the callbacks of the Pix microservice.
pub mod Dto
pub mod Orders
pub mod Withdrawals
pub mod Callbacks
pub mod Collections
pub mod Signature
