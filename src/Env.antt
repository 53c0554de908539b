-- ===== src/Env.antt =====
-- The parameters of the model: everything that the services use and that is not under the modelled
-- source. The database client is an abstract table type with the operations that the services
-- call; the Stellar service and the Pix microservice answer as an arbitrary function of the calls
-- made so far; clock readings and generated ids are arbitrary sequences.
pub mod Lookup
use cred_bridge.Prelude.{
  ℕ, String, Bool, true, Option, none, some, List, ◌≡◌, if◌then◌else◌, ◌==◌, All,
}
use cred_bridge.Result.{Result, ok}
use cred_bridge.Schema.{AuthorizationPayload}
use cred_bridge.Ports.{Call, PixOrderResponse, CollectionOrderResponse, UnsignedSorobanTx}

abbrev pub map_row : {R : Type 0} → (R → R) → Option R → Option R
map_row f none = none
map_row f (some r) = some (f r)

-- How many rows of those found meet a condition.
abbrev pub matches : {R : Type 0} → (R → Bool) → Option R → ℕ
matches p none = 0
matches p (some r) = if p r then 1 else 0

abbrev pub change_if : {R : Type 0} → (R → Bool) → (R → R) → R → R
change_if p f r = if p r then f r else r

pub record Env : Type 1 where
  -- JavaScript numbers
  pub Number : Type 0
  pub lt : Number → Number → Bool
  pub mul : Number → Number → Number
  pub sub : Number → Number → Number
  pub sum : List Number → Number
  pub zero_or_nan : Number → Bool
  pub of_nat : ℕ → Number
  pub to_number : String → Number
  pub to_fixed : Number → ℕ → String
  -- dates, the clock, generated ids
  pub parse_date : String → ℕ
  pub to_iso_string : ℕ → String
  pub clock : ℕ → ℕ
  pub uuid : ℕ → String
  pub config : String → Option String
  -- cryptography
  pub hash_payload : AuthorizationPayload → String
  pub keypair_verify : String → String → String → Result Bool
  pub hmac_sha256_hex : String → String → String
  -- the Stellar service and the Pix microservice: the calls made so far, and the call
  pub chain : List (Call Number) → Call Number → Result String
  pub balance : List (Call Number) → Call Number → Result Number
  pub unsigned_tx : List (Call Number) → Call Number → Result UnsignedSorobanTx
  pub pix_order : List (Call Number) → Call Number → Result (PixOrderResponse Number)
  pub collection_order : List (Call Number) → Call Number → Result (CollectionOrderResponse Number)
  -- the database client; the first argument of each is the unique column of the `where` clause
  pub Rows : Type 0 → Type 0
  pub find_unique : {R : Type 0} → (R → Option String) → String → Rows R → Option R
  pub find_many : {R : Type 0} → (R → Bool) → Rows R → List R
  pub create : {R : Type 0} → (R → Option String) → R → Rows R → Result (Rows R)
  pub update : {R : Type 0} → (R → Option String) → String → (R → R) → Rows R → Result (R × Rows R)
  pub update_many :
      {R : Type 0}
      → (R → Option String)
      → String
      → (R → Bool)
      → (R → R)
      → Rows R
      → Result (ℕ × Rows R)

-- What the services rely on of the database client. A write may fail at any time with any error; the
-- laws speak of writes that succeed.
module _ (e : Env) where
  pub record DatabaseLaws : Type 1 where
    -- a row that is found has the key that was asked for
    pub find_has_key :
        {R : Type 0} (col : R → Option String) (k : String) (t : e.Rows R) (r : R)
        → e.find_unique col k t ≡ some r
        → col r ≡ some k
    -- a unique column refuses a second row with the same value
    pub create_is_new :
        {R : Type 0} (col : R → Option String) (k : String) (r : R) (t t' : e.Rows R)
        → col r ≡ some k
        → e.create col r t ≡ ok t'
        → e.find_unique col k t ≡ none
    pub find-create :
        {R : Type 0} (col : R → Option String) (k j : String) (r : R) (t t' : e.Rows R)
        → col r ≡ some k
        → e.create col r t ≡ ok t'
        → e.find_unique col j t' ≡ (if k == j then some r else e.find_unique col j t)
    -- an update of a missing row fails, and any other changes the row of that key alone
    pub update_result :
        {R : Type 0} (col : R → Option String) (k : String) (f : R → R) (t t' : e.Rows R) (r : R)
        → e.update col k f t ≡ ok (r, t')
        → map_row f (e.find_unique col k t) ≡ some r
    pub find-update :
        {R : Type 0} (col : R → Option String) (k j : String) (f : R → R) (t t' : e.Rows R) (r : R)
        → ((x : R) → col (f x) ≡ col x)
        → e.update col k f t ≡ ok (r, t')
        → e.find_unique col j t' ≡ (if k == j then some r else e.find_unique col j t)
    -- `updateMany` with a unique column in its `where` changes one row if that row meets the rest
    -- of the condition, and none otherwise
    pub update_many_count :
        {R : Type 0} (col : R → Option String) (k : String) (p : R → Bool) (f : R → R)
        (t t' : e.Rows R) (n : ℕ)
        → e.update_many col k p f t ≡ ok (n, t')
        → n ≡ matches p (e.find_unique col k t)
    pub find-update_many :
        {R : Type 0} (col : R → Option String) (k j : String) (p : R → Bool) (f : R → R)
        (t t' : e.Rows R) (n : ℕ)
        → ((x : R) → col (f x) ≡ col x)
        → e.update_many col k p f t ≡ ok (n, t')
        → e.find_unique col j t' ≡ (
            if k == j
            then map_row (change_if p f) (e.find_unique col k t)
            else e.find_unique col j t)
    -- every row of a listing meets the condition
    pub find_many_sound :
        {R : Type 0} (p : R → Bool) (t : e.Rows R) → All (λ r. p r ≡ true) (e.find_many p t)
