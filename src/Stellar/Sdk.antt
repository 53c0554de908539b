-- ===== src/Stellar/Sdk.antt =====
-- What the Stellar service uses of the Stellar SDK: transactions as they are built and signed, the
-- requests to Horizon and to the Soroban RPC, and, as parameters, their answers and the keys.
use cred_bridge.Prelude.{ℕ, String, Bool, Option, List}
use cred_bridge.Result.{Error, Result}
use cred_bridge.Env.{Env}
use cred_bridge.Pix.Signature.{Integer}

-- An argument of a contract, by its type.
pub data ScVal : Type 0 where
  string address : String → ScVal
  i128 u64 : Integer → ScVal
  u32 : ℕ → ScVal
  bytes : List ℕ → ScVal

pub data Operation : Type 0 where
  contract_call : String → String → List ScVal → Operation
  -- destination, asset, amount
  payment : String → String → String → Operation
  -- destination, starting balance
  create_account : String → String → Operation
  change_trust : String → Operation

-- A transaction from `TransactionBuilder`: `assembled` is set by `assembleTransaction`, `signed_by`
-- is the public key of the pair that has signed it.
pub record Tx : Type 0 where
  pub source : String
  pub operation : Operation
  pub fee : String
  pub memo : Option String
  pub timeout : ℕ
  pub assembled : Bool
  pub signed_by : Option String

-- What is submitted: a signed transaction, or a fee bump around a transaction that came as XDR.
pub data Envelope : Type 0 where
  signed : Tx → Envelope
  fee_bump : String → String → Envelope

pub data Request : Type 0 where
  -- Horizon
  load_account : String → Request
  ledgers : Request
  submit_transaction : Envelope → Request
  -- Soroban RPC
  get_account : String → Request
  simulate_transaction : Tx → Request
  send_transaction : Envelope → Request
  get_transaction : String → Request

-- `xlm` is the balance of the native line, if there is one.
pub record Account : Type 0 where
  pub xlm : Option String

pub data Simulation (V : Type 0) : Type 0 where
  simulated : Option V → Simulation V
  not_simulated : String → Simulation V

-- `rejected` is the text of `errorResult` where the status is ERROR.
pub record Sent : Type 0 where
  pub hash : String
  pub rejected : Option String

pub data TxStatus : Type 0 where
  success failed other : TxStatus

-- The state of the pool's contract.
pub record PoolState : Type 0 where
  pub admin : String
  pub operator : String
  pub asset_address : String
  pub share_token_address : String
  pub total_principal : Integer
  pub total_shares : Integer
  pub paused : Bool

pub record Sdk (e : Env) : Type 1 where
  pub Keypair : Type 0
  pub from_secret : String → Keypair
  pub public_key : Keypair → String
  -- the key pair whose seed is the HMAC-SHA-256 of a text under a secret
  pub derive : String → String → Keypair
  pub sha256 : String → List ℕ
  -- `<=` on numbers
  pub le : e.Number → e.Number → Bool
  -- `BigInt(Math.round(x))` and `BigInt(Math.floor(x / 1000))`
  pub big_round : e.Number → Result Integer
  pub unix_seconds : ℕ → Integer
  -- the XDR of a transaction, and signatures on it
  pub to_xdr : Tx → String
  pub hash_of : Tx → String
  pub from_xdr : String → Result String
  pub verify : String → String → List ℕ → Result Bool
  pub add_signature : String → String → List ℕ → Result String
  pub add_decorated_signature : String → String → List ℕ → String
  -- what the text of an error of Horizon is made of
  pub horizon_detail : Error → Option String
  pub horizon_codes : Error → Option String
  -- values that a contract returns, and what the unchecked casts make of them
  pub Value : Type 0
  pub as_pool_state : Value → PoolState
  pub as_big_int : Value → Integer
  pub as_number : Value → e.Number
  pub to_value : Integer → e.Number → e.Number
  pub big_int_text : Integer → String
  -- the answers: the requests made so far, the newest first, and the request
  pub account : List Request → String → Result Account
  pub rpc_account : List Request → String → Result (Unit {0})
  pub latest_ledger : List Request → Result (Option ℕ)
  pub submitted : List Request → Envelope → Result String
  pub simulation : List Request → Tx → Result (Simulation Value)
  pub sent : List Request → Envelope → Result Sent
  pub status : List Request → String → Result TxStatus
