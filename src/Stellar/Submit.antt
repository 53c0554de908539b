-- ===== src/Stellar/Submit.antt =====
-- apps/api/src/shared/blockchain/stellar.service.ts: how a transaction is built, simulated, signed,
-- sent and waited for.
pub mod Polling
pub mod Noticed
pub mod Invocation
use cred_bridge.Prelude.{
  ℕ, zero, suc, ◌+◌, ◌*◌, String, Bool, true, false, Option, none, some, List, [], ◌∷◌, ltb,
  or_else, coalesce, concat,
}
use cred_bridge.Result.{
  Error, Result, ok, err, failure, message, pure, throw, branch, if_some, try_catch, ◌>>=◌, ◌>>◌,
}
use cred_bridge.Env.{Env}
use cred_bridge.Ports.{UnsignedSorobanTx}
use cred_bridge.Stellar.Sdk.{
  ScVal, Operation, contract_call, Tx, Envelope, signed, Simulation, simulated, not_simulated, Sent,
  TxStatus, success, failed, other, Sdk, load_account, get_account, submit_transaction,
  simulate_transaction, send_transaction, get_transaction,
}
use cred_bridge.Stellar.Net.{N, ask, now, sleep, configured}

abbrev pub base_fee : String
base_fee = "1000000"

abbrev pub tx_timeout_seconds : ℕ
tx_timeout_seconds = 30

abbrev pub client_signed_tx_timeout_seconds : ℕ
client_signed_tx_timeout_seconds = 180

abbrev pub poll_interval_ms : ℕ
poll_interval_ms = 2000

abbrev pub poll_deadline_ms : ℕ
poll_deadline_ms = 60000

-- More rounds than the loop of `waitForConfirmation` has time for.
abbrev pub poll_rounds : ℕ
poll_rounds = 31

-- `new Error(m)`
abbrev pub plain_error : String → Error
plain_error m = failure "Error" m

abbrev pub failed_on_chain : String → Error
failed_on_chain hash = plain_error (concat "Stellar tx failed on-chain: " hash)

abbrev pub timed_out : String → Error
timed_out hash = plain_error (concat "Stellar tx timed out after 60s: " hash)

-- No error of the code: the loop of the model has no rounds left.
abbrev pub out_of_rounds : Error
out_of_rounds = failure "OutOfRounds" ""

-- A transaction as the builder makes it, before it is assembled or signed.
abbrev pub build : String → Operation → Option String → ℕ → Tx
build source operation memo timeout = record {
  source = source;
  operation = operation;
  fee = base_fee;
  memo = memo;
  timeout = timeout;
  assembled = false;
  signed_by = none;
}

abbrev pub assemble : Tx → Tx
assemble tx = record tx { assembled = true }

abbrev pub sign : String → Tx → Tx
sign key tx = record tx { signed_by = some key }

module _ (e : Env) (sdk : Sdk e) where
  -- `submitWithDetail`
  unfoldable pub submit_with_detail : Tx → String → N e String
  submit_with_detail tx label =
      try_catch (ask e (λ rs. sdk.submitted rs (signed tx)) (submit_transaction (signed tx))) (λ x.
        throw (
          plain_error (
            concat "Horizon " (
              concat label (
                concat " failed: " (
                  concat (or_else (sdk.horizon_detail x) (message x))
                    (concat " (codes=" (concat (or_else (sdk.horizon_codes x) "n/a") ")"))))))))

  -- What a round of `waitForConfirmation` does with the status: `again` is the rest of the loop.
  unfoldable pub after_status : String → N e (Unit {0}) → TxStatus → N e (Unit {0})
  after_status hash again success = pure tt
  after_status hash again failed = throw (failed_on_chain hash)
  after_status hash again other = do sleep e poll_interval_ms; again

  -- The loop of `waitForConfirmation`, with the rounds that are left.
  unfoldable pub poll : ℕ → ℕ → String → N e (Unit {0})
  unfolding after_status
  poll zero deadline hash = throw out_of_rounds
  poll (suc rounds) deadline hash = do
    time ← now e
    branch (ltb time deadline)
        (do
          status ← ask e (λ rs. sdk.status rs hash) (get_transaction hash)
          after_status hash (poll rounds deadline hash) status)
        (throw (timed_out hash))

  unfoldable pub wait_for_confirmation : String → N e (Unit {0})
  unfolding poll
  wait_for_confirmation hash = do time ← now e; poll poll_rounds (time + poll_deadline_ms) hash

  -- The simulation that a transaction is assembled from.
  abbrev pub accept_simulation : String → Simulation sdk.Value → N e (Option sdk.Value)
  accept_simulation label (simulated v) = pure v
  accept_simulation label (not_simulated text) = throw (plain_error (concat label text))

  abbrev pub accept_sent : String → Sent → N e String
  accept_sent label sent =
      if_some sent.rejected (λ text. throw (plain_error (concat label text))) (pure sent.hash)

  -- Sends, waits, and gives the hash.
  unfoldable pub send_and_wait : Envelope → String → N e String
  unfolding wait_for_confirmation
  send_and_wait envelope label = do
    sent ← ask e (λ rs. sdk.sent rs envelope) (send_transaction envelope)
    hash ← accept_sent label sent
    wait_for_confirmation hash
    pure hash

  unfoldable pub invoke_contract : sdk.Keypair → String → String → List ScVal → N e String
  unfolding send_and_wait
  invoke_contract signer contract_id method args = do
    let key : String = sdk.public_key signer
    ask e (λ rs. sdk.account rs key) (load_account key)
    let tx : Tx = build key (contract_call contract_id method args) none tx_timeout_seconds
    answer ← ask e (λ rs. sdk.simulation rs tx) (simulate_transaction tx)
    accept_simulation (concat "Soroban simulation failed [" (concat method "]: ")) answer
    send_and_wait (signed (sign key (assemble tx)))
        (concat "Stellar RPC rejected tx [" (concat method "]: "))

  -- `buildAndAssemble`: a transaction that the user's wallet is to sign.
  unfoldable pub build_and_assemble : String → String → String → List ScVal → N e UnsignedSorobanTx
  build_and_assemble address contract_id method args =
      if_some (configured e sdk)
        (λ c. do
          ask e (λ rs. sdk.rpc_account rs address) (get_account address)
          let tx : Tx =
              build address (contract_call contract_id method args) none
                client_signed_tx_timeout_seconds
          answer ← ask e (λ rs. sdk.simulation rs tx) (simulate_transaction tx)
          accept_simulation (concat "Simulation failed for " (concat method ": ")) answer
          pure (record {
            xdr = sdk.to_xdr (assemble tx);
            hash_to_sign = sdk.hash_of (assemble tx);
            signer_public_key = address;
          }))
        (throw (plain_error "Stellar RPC server not configured"))
