-- ===== src/Stellar/Contracts.antt =====
-- apps/api/src/shared/blockchain/stellar.service.ts: the contract of the invoices, and the payments
-- in TESOURO.
pub mod Charges
pub mod Tokens
use Prim.Native.Char.{Char}
use Prim.Native.String
use cred_bridge.Prelude.{
  ℕ, zero, suc, String, Bool, true, false, not, ◌&&◌, ◌||◌, Option, none, some, List, [], ◌∷◌, ◌==◌,
  truthy, coalesce, or_else, concat, is_some, if◌then◌else◌,
}
use cred_bridge.Result.{
  Error, Result, ok, err, conflict, message, pure, throw, lift, or_throw, throw_if, branch, if_some,
  try_catch, ◌>>=◌, ◌>>◌,
}
use cred_bridge.Authorizations.Hex.{strip_0x}
use cred_bridge.Schema.{User}
use cred_bridge.Env.{Env}
use cred_bridge.World.{users, find_unique}
use cred_bridge.Stellar.Bytes.{hex_bytes, slice_to, to_bytes32}
use cred_bridge.Stellar.Sdk.{
  ScVal, string, address, i128, u64, bytes, contract_call, payment, Tx, fee_bump, Simulation,
  simulated, not_simulated, Sdk, load_account, simulate_transaction,
}
use cred_bridge.Stellar.Net.{
  N, ask, on_world, setting, now, ContractConfig, require_contract_config,
}
use cred_bridge.Stellar.Submit.{
  plain_error, build, sign, assemble, tx_timeout_seconds, submit_with_detail, send_and_wait,
  invoke_contract,
}
use cred_bridge.Stellar.Wallets.{
  tesouro, Wallet, submit_operation, ensure_custodial_wallet_for_user,
}

abbrev starts_with : String → String → Bool
starts_with String.[] s = true
starts_with (String.◌∷◌ c p) String.[] = false
starts_with (String.◌∷◌ c p) (String.◌∷◌ d s) =
    String.◌∷◌ c String.[] == String.◌∷◌ d String.[] && starts_with p s

-- `s.includes(p)`
abbrev pub includes : String → String → Bool
includes p String.[] = starts_with p String.[]
includes p (String.◌∷◌ c s) = starts_with p (String.◌∷◌ c s) || includes p s

abbrev take_bytes : ℕ → List ℕ → List ℕ
take_bytes zero bs = []
take_bytes (suc n) [] = []
take_bytes (suc n) (b ∷ bs) = b ∷ take_bytes n bs

abbrev pub already_tokenized : Error
already_tokenized = conflict "Esta NF-e já foi tokenizada on-chain (key ou hash XML já existe)."

abbrev pub not_in_contract : String → Error
not_in_contract key = conflict (
    concat "Receivable " (
      concat key
        " is marked as tokenized locally, but was not found in the configured Stellar contract. Retokenize it or check STELLAR_NFE_CONTRACT_ID and STELLAR_NETWORK."))

-- `TokenizeNfeInput`
pub record TokenizeNfeInput (N : Type 0) : Type 0 where
  pub key : String
  pub value : N
  pub due_date : ℕ
  pub xml_hash : Option String
  pub owner_user_id : String

-- The wallet of the owner: the Privy address, or else the older one.
abbrev pub pme_address : {N : Type 0} → Option (User N) → Option String
pme_address none = none
pme_address (some user) = truthy (coalesce user.privy_stellar_wallet_address user.stellar_wallet_id)

module _ (e : Env) (sdk : Sdk e) where
  -- The mocks that are not implemented.
  unfoldable pub register_proof : String → N e String
  register_proof hash = do
    time ← now e
    pure (concat "stellar-proof-" (e.to_fixed (e.of_nat time) 0))

  unfoldable pub settle_payment : String → e.Number → String → N e String
  settle_payment receivable_id amount destination = do
    time ← now e
    pure (concat "stellar-settle-" (e.to_fixed (e.of_nat time) 0))

  -- The hash of the invoice, or one of its key where it has none.
  abbrev pub invoice_hash : Option String → String → List ℕ
  invoice_hash xml_hash key = elim (truthy xml_hash) [
    | none ↦ sdk.sha256 key
    | some h ↦ to_bytes32 (some h)
  ]

  unfoldable pub tokenize_nfe : TokenizeNfeInput e.Number → N e String
  unfolding require_contract_config invoke_contract
  tokenize_nfe input = do
    c ← require_contract_config e sdk
    user ← on_world e (find_unique e (users e) input.owner_user_id)
    pme ← or_throw (pme_address user) (
        conflict
          (concat "PME " (concat input.owner_user_id " has no Stellar wallet — cannot tokenize")))
    value ← lift (sdk.big_round (e.mul input.value (e.of_nat 100)))
    try_catch
        (invoke_contract e sdk c.platform_keypair c.contract_id "tokenize_nfe" (
          string input.key
          ∷ i128 value
          ∷ u64 (sdk.unix_seconds input.due_date)
          ∷ bytes (invoice_hash input.xml_hash input.key)
          ∷ address pme
          ∷ address (sdk.public_key c.platform_keypair)
          ∷ []))
        (λ x.
          branch (includes "Error(Contract, #1)" (message x)) (throw already_tokenized) (throw x))

  unfoldable pub transfer_nft_to_platform : String → N e String
  unfolding require_contract_config invoke_contract
  transfer_nft_to_platform receivable_key = do
    c ← require_contract_config e sdk
    let platform : String = sdk.public_key c.platform_keypair
    invoke_contract e sdk c.platform_keypair c.contract_id "transfer_ownership"
        (string receivable_key ∷ address platform ∷ address platform ∷ [])

  -- The inner transaction of an assignment: the simulation's failure where the key is unknown.
  abbrev pub accept_assignment : String → Simulation sdk.Value → N e (Unit {0})
  accept_assignment key (simulated v) = pure tt
  accept_assignment key (not_simulated text) =
      branch (includes "Error(Contract, #2)" text) (throw (not_in_contract key))
        (throw (plain_error (concat "Soroban simulation failed for prepareAssignment: " text)))

  -- `{ unsignedXdr, hashToSign }`
  unfoldable pub prepare_assignment : String → String → N e (String × String)
  unfolding require_contract_config
  prepare_assignment receivable_key pme = do
    c ← require_contract_config e sdk
    ask e (λ rs. sdk.account rs pme) (load_account pme)
    let tx : Tx =
        record (build pme
          (contract_call c.contract_id "transfer_ownership"
            (string receivable_key ∷ address (sdk.public_key c.platform_keypair) ∷ []))
          none tx_timeout_seconds) { fee = "100000" }
    answer ← ask e (λ rs. sdk.simulation rs tx) (simulate_transaction tx)
    accept_assignment receivable_key answer
    pure (sdk.to_xdr (assemble tx), sdk.hash_of (assemble tx))

  unfoldable pub submit_signed_assignment : String → String → String → N e String
  unfolding require_contract_config send_and_wait
  submit_signed_assignment unsigned_xdr signature_hex pme = do
    c ← require_contract_config e sdk
    inner ← lift (sdk.from_xdr unsigned_xdr)
    let signature : List ℕ = take_bytes 64 (hex_bytes (strip_0x signature_hex))
    inner' ← lift (sdk.add_signature inner pme signature)
    send_and_wait e sdk (fee_bump (sdk.public_key c.platform_keypair) inner')
        "Stellar RPC rejected Fee Bump assignment: "

  unfoldable pub pay_pme : String → e.Number → String → N e String
  unfolding require_contract_config ensure_custodial_wallet_for_user submit_operation
  pay_pme pme_user_id amount_brl memo = do
    c ← require_contract_config e sdk
    wallet ← ensure_custodial_wallet_for_user e sdk pme_user_id
    submit_operation e sdk c.platform_keypair
        (payment wallet.public_key tesouro (e.to_fixed amount_brl 7)) (some (slice_to 28 memo))
        "payPme"

  unfoldable pub transfer_nft_to_investor : String → String → N e String
  unfolding require_contract_config ensure_custodial_wallet_for_user invoke_contract
  transfer_nft_to_investor receivable_key investor_user_id = do
    c ← require_contract_config e sdk
    wallet ← ensure_custodial_wallet_for_user e sdk investor_user_id
    invoke_contract e sdk c.platform_keypair c.contract_id "transfer_ownership" (
        string receivable_key
        ∷ address wallet.public_key
        ∷ address (sdk.public_key c.platform_keypair)
        ∷ [])

  abbrev pub privy_must_sign : String → Error
  privy_must_sign user_id =
      plain_error (
        concat "Investor " (concat user_id " uses a Privy wallet; payment must be signed by Privy"))

  unfoldable pub charge_investor : String → e.Number → String → N e String
  unfolding require_contract_config ensure_custodial_wallet_for_user submit_operation
  charge_investor investor_user_id amount_brl memo = do
    c ← require_contract_config e sdk
    wallet ← ensure_custodial_wallet_for_user e sdk investor_user_id
    keypair ← or_throw wallet.keypair (privy_must_sign investor_user_id)
    submit_operation e sdk keypair
        (payment (sdk.public_key c.platform_keypair) tesouro (e.to_fixed amount_brl 7))
        (some (slice_to 28 memo)) "chargeInvestor"
