-- ===== src/Lib.antt =====
-- CredBridge: the financial core of the API, a NestJS service over a Prisma database, the Stellar
-- network and a Pix microservice. Small companies register receivables, an operator approves them,
-- they are tokenized and assigned to a pool, investors buy them, and deposits and withdrawals go
-- through Pix.
--
-- Files and sources (paths from the repository's root):
-- - Schema: the tables of apps/api/prisma/schema.prisma as records.
-- - Ports: the requests to and replies from the outside, of
--   apps/api/src/modules/pix/pix.client.ts and apps/api/src/shared/blockchain/.
-- - Env: the parameters. Env/Lookup: what a lookup finds after a write.
-- - World: the state that the handlers share (the tables, the calls that have left the process, the
--   count of clock readings and generated ids) and the actions on it; the entry of
--   apps/api/src/modules/audit/audit.service.ts. World/Rules, World/Preserves: their proof rules.
-- - Result: exceptions as values, the actions' do blocks. Result/Rules, Result/Preserves: proof rules.
-- - Settlements: apps/api/src/modules/settlements/settlements.service.ts.
-- - Pix/Orders, Pix/Withdrawals, Pix/Callbacks, Pix/Collections:
--   apps/api/src/modules/pix/pix.service.ts. Pix/Dto: apps/api/src/modules/pix/dto/.
--   Pix/Signature: pix-signature.ts and the webhook endpoint of pix.controller.ts, beside it.
-- - Authorizations: apps/api/src/modules/financial-authorizations/.
-- - Receivables: apps/api/src/modules/receivables/. Receivables/Lifecycle: the statuses of a
--   receivable as steps, through its own operations, the operators' decisions and the settlement.
-- - Investments: apps/api/src/modules/investments/.
-- - Marketplace: what is on sale and statistics, of the repositories of the last two.
-- - Admin: apps/api/src/modules/admin/admin.service.ts.
-- - StellarWallet: apps/api/src/modules/stellar-wallet/stellar-wallet.service.ts.
-- - Stellar: apps/api/src/shared/blockchain/stellar.service.ts. Stellar/Sdk: transactions, requests
--   and the parameters for the SDK; Stellar/Net: the service's state (the tables, the requests that
--   have left the process, the time it has slept) and its actions; Stellar/Bytes: toBytes32;
--   Stellar/Submit: invokeContract, waitForConfirmation, submitWithDetail, buildAndAssemble;
--   Stellar/Wallets: custodial wallets and their funding; Stellar/Contracts: the contract of the
--   invoices and the payments; Stellar/Pool: the contracts of the pool and of BRLT; Stellar/Client:
--   transactions that users sign, and the reads.
-- - Auth and Auth/Accounts: apps/api/src/modules/auth/auth.service.ts. Auth/Clients: parameters for
--   bcrypt, the tokens, Google and Privy. Auth/Privy: privy-auth.service.ts and the Privy endpoint of
--   auth.controller.ts.
-- - ExceptionFilter: apps/api/src/common/filters/http-exception.filter.ts.
-- - Tests: a database client and the other parameters at concrete values, and the theorems there.
--
-- A handler is a function from the state to a result and a state. An exception keeps the writes made
-- before it, as it does in the source, but for those inside `$transaction`: the tables are taken back,
-- calls that have left the process are not. A handler is one step: handlers that run at the same time
-- are not interleaved, except that the update that consumes an authorization is also considered from a
-- row that was read earlier.
--
-- Parameters: JavaScript numbers and their operations, the clock, generated ids, configuration, the
-- SHA-256 and HMAC functions, the Stellar key pair, the answers of the Stellar service and of the Pix
-- microservice (arbitrary functions of the calls made so far) and the database client. Of the client
-- the laws in Env/DatabaseLaws are assumed: a unique column refuses a second row, an update changes
-- the row of its key alone, a conditional update counts the rows it changed. Any write may fail.
--
-- The one loop that waits, of waitForConfirmation, has 31 rounds in the model: a round that does not
-- end it sleeps two seconds, and its deadline is sixty, so that the last round finds the deadline passed
-- where the clock does not run backwards. Everything else recurses on a text or a list.
--
-- The endpoint of the callbacks takes the raw body, as decoded text, or none. apps/api/src/main.ts
-- creates the application without the option rawBody, so that it is missing in every request of the
-- program as it stands. The transactions that submitWithdrawal and submitAssignment pass on are texts to
-- them, and to the model.
--
-- The Stellar service is modelled by itself: the handlers of the other components see it by its answers
-- to their calls (Env.chain), and what it writes to the table of the users is not seen there. The
-- reads that it starts together stand one after the other. Its texts are cut and padded by characters.
--
-- Not modelled: logging, the order and the paging of listings, the HTTP client of the Pix
-- microservice, guards and throttling, documents, the web application, the Soroban contracts (Rust) and
-- the Pix microservice (Python).
pub mod Prelude
pub mod Result
pub mod Schema
pub mod Ports
pub mod Env
pub mod World
pub mod Settlements
pub mod Pix
pub mod Authorizations
pub mod Receivables
pub mod Investments
pub mod Admin
pub mod StellarWallet
pub mod Stellar
pub mod Auth
pub mod ExceptionFilter
pub mod Marketplace
pub mod Tests
