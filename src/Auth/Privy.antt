-- ===== src/Auth/Privy.antt =====
-- apps/api/src/modules/auth/privy-auth.service.ts, and the sessions that auth.service.ts and
-- auth.controller.ts open with it.
pub mod Linked
pub mod Sessions
use Prim.Native.Char.{Char}
use Prim.Native.String
use cred_bridge.Prelude.{
  String, Bool, true, false, not, ◌&&◌, ◌||◌, Option, none, some, List, [], ◌∷◌, ◌==◌, truthy,
  or_else, is_some, if◌then◌else◌,
}
use cred_bridge.Result.{
  Error, Result, unauthorized, pure, throw, or_throw, throw_if, try_catch, when, if_some, ◌>>=◌,
  ◌>>◌,
}
use cred_bridge.Schema.{User}
use cred_bridge.Ports.{fund_account_from_platform}
use cred_bridge.Env.{Env}
use cred_bridge.World.{M, users, find_unique_by, update, send_off}
use cred_bridge.Pix.Signature.{is_space}
use cred_bridge.Auth.Clients.{AuthClients, LinkedAccount, email, google_oauth, wallet, other, query}
use cred_bridge.Auth.{IssuedToken, email_of, not_registered, issue_token}

abbrev trim_start : String → String
trim_start String.[] = String.[]
trim_start (String.◌∷◌ c s) = let rest = trim_start s in if is_space c then rest else String.◌∷◌ c s

abbrev trim_end : String → String
trim_end String.[] = String.[]
trim_end (String.◌∷◌ c s) =
    let rest = trim_end s in if is_space c && rest == "" then "" else String.◌∷◌ c rest

-- `s.trim()`
abbrev pub trim : String → String
trim s = trim_end (trim_start s)

-- `/^\S+$/`
abbrev no_space : String → Bool
no_space String.[] = true
no_space (String.◌∷◌ c s) = not (is_space c) && no_space s

abbrev pub is_word : String → Bool
is_word s = not (s == "") && no_space s

-- The text after a prefix.
abbrev after_prefix : String → String → Option String
after_prefix String.[] s = some s
after_prefix (String.◌∷◌ c p) String.[] = none
after_prefix (String.◌∷◌ c p) (String.◌∷◌ d s) =
    let rest = after_prefix p s in
    if String.◌∷◌ c String.[] == String.◌∷◌ d String.[] then rest else none

-- `authorization?.match(/^Bearer (\S+)$/)?.[1]`
abbrev pub bearer_token : Option String → Option String
bearer_token none = none
bearer_token (some header) = elim (after_prefix "Bearer " header) [
  | none ↦ none
  | some token ↦ if is_word token then some token else none
]

pub record VerifiedPrivySession : Type 0 where
  pub privy_user_id : String
  pub email : String
  pub stellar_wallet_address : String

pub record PrivySession : Type 0 where
  pub token : IssuedToken
  pub privy_stellar_wallet_address : Option String
  pub privy_wallet_status : Option String
  pub needs_role_selection : Bool

-- The reply of a session.
abbrev pub session_of : {N : Type 0} → IssuedToken → User N → PrivySession
session_of token user = record {
  token = token;
  privy_stellar_wallet_address = user.privy_stellar_wallet_address;
  privy_wallet_status = user.privy_wallet_status;
  needs_role_selection = not (is_some user.role);
}

-- The address that an account is known by, if it has one.
abbrev pub account_email : LinkedAccount → Option String
account_email (email address) = truthy (some (trim address))
account_email (google_oauth address) = truthy (some (trim address))
account_email _ = none

abbrev pub account_wallet : LinkedAccount → Option String
account_wallet (wallet chain client address) =
    if chain == "stellar" && client == "privy" then truthy (some (trim address)) else none
account_wallet _ = none

-- The first account that has what is looked for.
abbrev pub first_of : (LinkedAccount → Option String) → List LinkedAccount → Option String
first_of find [] = none
first_of find (a ∷ rest) = elim (find a) [ none ↦ first_of find rest | some found ↦ some found ]

abbrev pub find_stellar_wallet_address : List LinkedAccount → Option String
find_stellar_wallet_address accounts = first_of account_wallet accounts

-- What a `catch` of `verifySession` throws on.
abbrev pub unauthorized_only : Error → Error
unauthorized_only (unauthorized m) = unauthorized m
unauthorized_only _ = unauthorized "Invalid Privy session"

abbrev pub privy_fields : {N : Type 0} → VerifiedPrivySession → User N → User N
privy_fields identity user = record user {
  provider = "privy";
  privy_user_id = some identity.privy_user_id;
  privy_stellar_wallet_address = some identity.stellar_wallet_address;
  privy_wallet_status = some "ready";
}

module _ (e : Env) (clients : AuthClients) where
  abbrev pub find_email_address : List LinkedAccount → Option String
  find_email_address accounts = elim (first_of account_email accounts) [
    | none ↦ none
    | some address ↦ some (clients.to_lower_case address)
  ]

  -- The `try` block of `verifySession`.
  unfoldable pub check_session : String → String → M e VerifiedPrivySession
  check_session access_token identity_token = do
    claims ← query e (λ tick. clients.verify_access_token tick access_token)
    identity ← query e (λ tick. clients.verify_identity_token tick identity_token)
    claimed ← or_throw (truthy claims) (unauthorized "Privy tokens belong to different users")
    identified ← or_throw (truthy identity) (unauthorized "Privy tokens belong to different users")
    throw_if (not (claimed == identified)) (unauthorized "Privy tokens belong to different users")
    accounts ← query e (λ tick. clients.linked_accounts tick claimed)
    address ←
        or_throw (truthy (find_email_address accounts))
          (unauthorized "Privy account must have a verified email address")
    stellar ←
        or_throw (find_stellar_wallet_address accounts)
          (unauthorized "Privy Stellar embedded wallet must be created before session exchange")
    pure (record { privy_user_id = claimed; email = address; stellar_wallet_address = stellar })

  unfoldable pub verify_session : String → String → M e VerifiedPrivySession
  unfolding check_session
  verify_session access_token identity_token = do
    throw_if (trim access_token == "" || trim identity_token == "")
        (unauthorized "Privy access and identity tokens are required")
    try_catch (check_session access_token identity_token) (λ x. throw (unauthorized_only x))

  abbrev pub is_mainnet : Bool
  is_mainnet = elim (e.config "STELLAR_NETWORK") [ none ↦ false | some n ↦ n == "mainnet" ]

  -- The user of the identity, by the id of Privy or else by email, with the identity's fields.
  unfoldable pub link_user : VerifiedPrivySession → M e (User e.Number)
  link_user identity = do
    found ← find_unique_by e (users e) (λ u. u.privy_user_id) identity.privy_user_id
    if_some found (λ user. update e (users e) user.id (privy_fields identity))
        (do
          by_email ← find_unique_by e (users e) email_of identity.email
          user ← or_throw by_email not_registered
          update e (users e) user.id (privy_fields identity))

  unfoldable pub privy_session : String → String → M e PrivySession
  unfolding verify_session link_user
  privy_session access_token identity_token = do
    identity ← verify_session access_token identity_token
    user ← link_user identity
    when (is_some (truthy (some identity.stellar_wallet_address)) && not is_mainnet)
        (send_off e (fund_account_from_platform identity.stellar_wallet_address "1.0") tt)
    token ← issue_token e clients user
    pure (session_of token user)

  -- `AuthController.privySession`: the headers `authorization` and `privy-id-token`
  unfoldable pub privy_session_endpoint : Option String → Option String → M e PrivySession
  unfolding privy_session
  privy_session_endpoint authorization identity_token = do
    access ←
        or_throw (bearer_token authorization) (unauthorized "Privy session tokens are required")
    identity ← or_throw identity_token (unauthorized "Privy session tokens are required")
    throw_if (not (is_word identity)) (unauthorized "Privy session tokens are required")
    privy_session access identity
