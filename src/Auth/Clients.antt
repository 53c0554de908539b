-- ===== src/Auth/Clients.antt =====
-- What the sign-in uses of bcrypt, of the token library, of Google and of Privy: parameters, each with
-- the tick at which it is asked where its answer depends on chance or on the time.
pub mod Rules
use cred_bridge.Prelude.{ℕ, ◌+◌, String, Bool, Option, List, ◌≡◌, true}
use cred_bridge.Result.{Result, ok}
use cred_bridge.Env.{Env}
use cred_bridge.World.{World, M}

pub record JwtPayload : Type 0 where
  pub sub : String
  pub email : String
  pub role : Option String

-- What is read of the payload of an id token of Google.
pub record GooglePayload : Type 0 where
  pub sub : Option String
  pub email : Option String
  pub email_verified : Bool

-- An account linked to a user of Privy: `wallet` has its chain, its client and its address.
pub data LinkedAccount : Type 0 where
  email google_oauth : String → LinkedAccount
  wallet : String → String → String → LinkedAccount
  other : LinkedAccount

pub record AuthClients : Type 0 where
  pub hash_password : ℕ → String → Result String
  pub compare_password : String → String → Result Bool
  pub sign_token : ℕ → JwtPayload → Result String
  pub verify_id_token : ℕ → String → String → Result (Option GooglePayload)
  -- the user of an access token and of an identity token of Privy, and the accounts of a user
  pub verify_access_token : ℕ → String → Result (Option String)
  pub verify_identity_token : ℕ → String → Result (Option String)
  pub linked_accounts : ℕ → String → Result (List LinkedAccount)
  -- `s.toLowerCase()`
  pub to_lower_case : String → String

module _ (clients : AuthClients) where
  -- A hash is a text that is not empty, and accepts the password that it was made of.
  pub record PasswordLaws : Type 0 where
    pub hash_not_empty :
        (tick : ℕ) (password : String) → clients.hash_password tick password ≡ ok "" → ⊥
    pub hash_accepts :
        (tick : ℕ) (password hash : String)
        → clients.hash_password tick password ≡ ok hash
        → clients.compare_password password hash ≡ ok true

module _ (e : Env) where
  -- Asks one of the clients.
  unfoldable pub query : {A : Type 0} → (ℕ → Result A) → M e A
  query answer w = (answer w.ticks, record w { ticks = w.ticks + 1 })
