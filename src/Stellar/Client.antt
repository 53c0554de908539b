-- ===== src/Stellar/Client.antt =====
-- apps/api/src/shared/blockchain/stellar.service.ts: transactions that a user's own wallet signs, and
-- what is read of the chain. The reads that the source starts together stand in the order in which
-- they are started.
pub mod Signatures
use cred_bridge.Prelude.{
  ℕ, ◌+◌, ◌-◌, String, Bool, not, Option, none, some, List, [], ◌∷◌, leb, concat, if◌then◌else◌,
}
use cred_bridge.Result.{
  Error, Result, failure, pure, throw, lift, or_throw, throw_if, if_some, ◌>>=◌, ◌>>◌,
}
use cred_bridge.Authorizations.Hex.{strip_0x}
use cred_bridge.Pix.Signature.{Integer, positive, negative}
use cred_bridge.Ports.{UnsignedSorobanTx}
use cred_bridge.Env.{Env}
use cred_bridge.Stellar.Bytes.{hex_bytes}
use cred_bridge.Stellar.Sdk.{
  ScVal, address, i128, contract_call, Tx, fee_bump, TxStatus, success, failed, other, PoolState,
  Sdk, get_account, simulate_transaction, get_transaction,
}
use cred_bridge.Stellar.Net.{N, ask, setting, configured, ContractConfig, require_contract_config}
use cred_bridge.Stellar.Submit.{
  plain_error, build, tx_timeout_seconds, accept_simulation, send_and_wait, build_and_assemble,
}
use cred_bridge.Stellar.Pool.{stroops, live_until, approve_args, deposit_args}

abbrev no_setting : String → Error
no_setting name = plain_error (concat name " not configured")

abbrev pub wrong_signature : Error
wrong_signature = plain_error "Signature does not match transaction hash"

abbrev pub status_text : TxStatus → String
status_text success = "success"
status_text failed = "failed"
status_text other = "pending"

-- `a - b` on BigInt
abbrev pub subtract : ℕ → ℕ → Integer
subtract a b = if leb b a then positive (a - b) else negative (b - a)

abbrev pub minus : Integer → Integer → Integer
minus (positive a) (positive b) = subtract a b
minus (positive a) (negative b) = positive (a + b)
minus (negative a) (positive b) = negative (a + b)
minus (negative a) (negative b) = subtract b a

-- `Scaled`
pub record Scaled (N : Type 0) : Type 0 where
  pub raw : String
  pub value : N

pub record PoolStatus (N : Type 0) : Type 0 where
  pub pool_contract_id : String
  pub brlt_token_id : String
  pub share_token_id : String
  pub admin : String
  pub operator : String
  pub paused : Bool
  pub brlt_decimals : N
  pub share_decimals : N
  pub nav : Scaled N
  pub cash_balance : Scaled N
  pub total_principal : Scaled N
  pub total_shares : Scaled N
  pub share_price : Scaled N

pub record InvestorShares (N : Type 0) : Type 0 where
  pub address : String
  pub shares : Scaled N
  pub estimated_value_brl : N

pub record WalletBalance (N : Type 0) : Type 0 where
  pub address : String
  pub token_id : String
  pub balance : Scaled N

module _ (e : Env) (sdk : Sdk e) where
  unfoldable pub build_approve_tx : String → e.Number → N e UnsignedSorobanTx
  unfolding live_until build_and_assemble
  build_approve_tx investor amount_brl =
      if_some (setting e "STELLAR_POOL_CONTRACT_ID")
        (λ pool.
          if_some (setting e "STELLAR_BRLT_TOKEN_ID")
            (λ brlt. do
              amount ← stroops e sdk amount_brl
              ledger ← live_until e sdk
              build_and_assemble e sdk investor brlt "approve"
                  (approve_args e sdk investor pool amount ledger))
            (throw (no_setting "STELLAR_POOL_CONTRACT_ID / STELLAR_BRLT_TOKEN_ID")))
        (throw (no_setting "STELLAR_POOL_CONTRACT_ID / STELLAR_BRLT_TOKEN_ID"))

  unfoldable pub build_deposit_tx : String → e.Number → N e UnsignedSorobanTx
  unfolding build_and_assemble
  build_deposit_tx investor amount_brl = do
    pool ← or_throw (setting e "STELLAR_POOL_CONTRACT_ID") (no_setting "STELLAR_POOL_CONTRACT_ID")
    amount ← stroops e sdk amount_brl
    build_and_assemble e sdk investor pool "deposit" (deposit_args e sdk investor amount)

  unfoldable pub build_burn_brlt_tx : String → e.Number → N e UnsignedSorobanTx
  unfolding build_and_assemble
  build_burn_brlt_tx user amount_brl = do
    brlt ← or_throw (setting e "STELLAR_BRLT_TOKEN_ID") (no_setting "STELLAR_BRLT_TOKEN_ID")
    amount ← stroops e sdk amount_brl
    build_and_assemble e sdk user brlt "burn" (ScVal.address user ∷ i128 amount ∷ [])

  unfoldable pub submit_signed_tx : String → String → String → N e String
  unfolding require_contract_config send_and_wait
  submit_signed_tx xdr signer_public_key signature_hex = do
    or_throw (configured e sdk) (plain_error "Stellar RPC server not configured")
    c ← require_contract_config e sdk
    inner ← lift (sdk.from_xdr xdr)
    let signature : List ℕ = hex_bytes (strip_0x signature_hex)
    valid ← lift (sdk.verify inner signer_public_key signature)
    throw_if (not valid) wrong_signature
    send_and_wait e sdk
        (fee_bump (sdk.public_key c.platform_keypair)
          (sdk.add_decorated_signature inner signer_public_key signature))
        "sendTransaction failed: "

  unfoldable pub get_transaction_status : String → N e String
  unfolding require_contract_config
  get_transaction_status tx_hash = do
    require_contract_config e sdk
    status ← ask e (λ rs. sdk.status rs tx_hash) (get_transaction tx_hash)
    pure (status_text status)

  unfoldable pub simulate_read : String → String → List ScVal → N e sdk.Value
  unfolding require_contract_config
  simulate_read contract_id method args = do
    c ← require_contract_config e sdk
    let key : String = sdk.public_key c.platform_keypair
    ask e (λ rs. sdk.rpc_account rs key) (get_account key)
    let tx : Tx = build key (contract_call contract_id method args) none tx_timeout_seconds
    answer ← ask e (λ rs. sdk.simulation rs tx) (simulate_transaction tx)
    value ← accept_simulation e sdk (concat "Simulation failed for " (concat method ": ")) answer
    or_throw value (plain_error (concat "No return value from " method))

  abbrev pub scaled : Integer → e.Number → Scaled e.Number
  scaled raw decimals = record { raw = sdk.big_int_text raw; value = sdk.to_value raw decimals }

  unfoldable pub get_pool_status : N e (PoolStatus e.Number)
  unfolding simulate_read
  get_pool_status = do
    pool ← or_throw (setting e "STELLAR_POOL_CONTRACT_ID") (no_setting "STELLAR_POOL_CONTRACT_ID")
    found ← simulate_read pool "get_pool_state" []
    let state : PoolState = sdk.as_pool_state found
    nav ← simulate_read pool "get_nav" []
    price ← simulate_read pool "get_share_price" []
    brlt ← simulate_read state.asset_address "decimals" []
    share ← simulate_read state.share_token_address "decimals" []
    let brlt_decimals : e.Number = sdk.as_number brlt
    let share_decimals : e.Number = sdk.as_number share
    pure (record {
      pool_contract_id = pool;
      brlt_token_id = state.asset_address;
      share_token_id = state.share_token_address;
      admin = state.admin;
      operator = state.operator;
      paused = state.paused;
      brlt_decimals = brlt_decimals;
      share_decimals = share_decimals;
      nav = scaled (sdk.as_big_int nav) brlt_decimals;
      cash_balance = scaled (minus (sdk.as_big_int nav) state.total_principal) brlt_decimals;
      total_principal = scaled state.total_principal brlt_decimals;
      total_shares = scaled state.total_shares share_decimals;
      share_price = scaled (sdk.as_big_int price) (e.of_nat 9);
    })

  unfoldable pub get_investor_shares : String → N e (InvestorShares e.Number)
  unfolding simulate_read
  get_investor_shares investor = do
    pool ← or_throw (setting e "STELLAR_POOL_CONTRACT_ID") (no_setting "STELLAR_POOL_CONTRACT_ID")
    found ← simulate_read pool "get_pool_state" []
    let token : String = (sdk.as_pool_state found).share_token_address
    decimals ← simulate_read token "decimals" []
    price ← simulate_read pool "get_share_price" []
    balance ← simulate_read token "balance" (ScVal.address investor ∷ [])
    let shares : Scaled e.Number = scaled (sdk.as_big_int balance) (sdk.as_number decimals)
    pure (record {
      address = investor;
      shares = shares;
      estimated_value_brl = e.mul shares.value (sdk.to_value (sdk.as_big_int price) (e.of_nat 9));
    })

  unfoldable pub get_brlt_balance : String → N e (WalletBalance e.Number)
  unfolding simulate_read
  get_brlt_balance owner = do
    brlt ← or_throw (setting e "STELLAR_BRLT_TOKEN_ID") (no_setting "STELLAR_BRLT_TOKEN_ID")
    decimals ← simulate_read brlt "decimals" []
    balance ← simulate_read brlt "balance" (ScVal.address owner ∷ [])
    pure (record {
      address = owner;
      token_id = brlt;
      balance = scaled (sdk.as_big_int balance) (sdk.as_number decimals);
    })
