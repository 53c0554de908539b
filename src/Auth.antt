-- ===== src/Auth.antt =====
-- apps/api/src/modules/auth: sign-in by password, by Google and by Privy, and the user's own profile.
pub mod Clients
pub mod Accounts
pub mod Passwords
pub mod Privy
pub mod Roles
pub mod Changes
use cred_bridge.Prelude.{
  concat, String, Bool, true, false, not, ◌||◌, Option, none, some, ◌==◌, coalesce, or_else, truthy,
  is_some,
}
use cred_bridge.Result.{
  Error, Result, unauthorized, bad_request, conflict, forbidden, pure, throw, or_throw, throw_if,
  try_catch, branch, if_some, ◌>>=◌, ◌>>◌,
}
use cred_bridge.Schema.{User, new_user}
use cred_bridge.Env.{Env}
use cred_bridge.World.{M, Table, users, find_unique, find_unique_by, create, update, now, fresh_id}
use cred_bridge.Auth.Clients.{AuthClients, GooglePayload, JwtPayload, query}

pub record RegisterDto : Type 0 where
  pub email : String
  pub password : String
  pub role : Option String

pub record LoginDto : Type 0 where
  pub email : String
  pub password : String

-- `{ accessToken, user }`: the user is the payload of the token.
pub record IssuedToken : Type 0 where
  pub access_token : String
  pub user : JwtPayload

-- The reply of a Google sign-in.
pub record GoogleSession : Type 0 where
  pub token : IssuedToken
  pub stellar_wallet_id : Option String
  pub needs_role_selection : Bool

abbrev pub invalid_credentials : Error
invalid_credentials = unauthorized "Invalid credentials"

abbrev pub invalid_google : Error
invalid_google = unauthorized "Invalid Google credentials"

abbrev pub not_registered : Error
not_registered =
    unauthorized
      "Seu e-mail não está cadastrado na plataforma. Por favor, entre em contato com o administrador."

abbrev pub email_of : {N : Type 0} → User N → Option String
email_of u = some u.email

-- The row that a registration creates.
abbrev pub new_account : {N : Type 0} → String → RegisterDto → String → User N
new_account id dto hash = record (new_user id dto.email "email") {
  password_hash = some hash;
  role = some (or_else dto.role "pme");
}

abbrev pub payload_of : {N : Type 0} → User N → JwtPayload
payload_of u = record { sub = u.id; email = u.email; role = u.role }

module _ (e : Env) where
  -- The table of the users, written by its unique column `email`.
  abbrev pub users_by_email : Table e (User e.Number)
  users_by_email = record {
    get = λ w. w.users;
    set = λ t w. record w { users = t };
    key = email_of;
  }

module _ (e : Env) (clients : AuthClients) where
  -- `issueToken`, for a user's id, email and role
  unfoldable pub issue_token : User e.Number → M e IssuedToken
  issue_token user = do
    token ← query e (λ tick. clients.sign_token tick (payload_of user))
    pure (record { access_token = token; user = payload_of user })

  unfoldable pub register : RegisterDto → M e IssuedToken
  unfolding issue_token
  register dto = do
    existing ← find_unique_by e (users e) email_of dto.email
    throw_if (is_some existing) (conflict "Email already registered")
    hash ← query e (λ tick. clients.hash_password tick dto.password)
    id ← fresh_id e
    user ← create e (users_by_email e) (new_account id dto hash)
    issue_token user

  unfoldable pub login : LoginDto → M e IssuedToken
  unfolding issue_token
  login dto = do
    found ← find_unique_by e (users e) email_of dto.email
    user ← or_throw found invalid_credentials
    hash ← or_throw (truthy user.password_hash) invalid_credentials
    valid ← query e (λ tick. clients.compare_password dto.password hash)
    throw_if (not valid) invalid_credentials
    issue_token user

  abbrev pub google_client_id : String
  google_client_id = or_else (e.config "GOOGLE_CLIENT_ID") ""

  -- The user of a Google account, linked by email the first time.
  unfoldable pub google_user : String → String → M e (User e.Number)
  google_user google_id email = do
    found ← find_unique_by e (users e) (λ u. u.google_id) google_id
    if_some found (λ user. pure user)
        (do
          by_email ← find_unique_by e (users e) email_of email
          user ← or_throw by_email not_registered
          if_some (truthy user.google_id) (λ _. pure user)
              (update e (users e) user.id (λ u. record u { google_id = some google_id })))

  unfoldable pub google_login : String → M e GoogleSession
  unfolding google_user issue_token
  google_login id_token = do
    throw_if (google_client_id == "") (bad_request "Google login not configured")
    ticket ←
        try_catch (query e (λ tick. clients.verify_id_token tick id_token google_client_id))
          (λ _. throw invalid_google)
    payload ← or_throw ticket invalid_google
    sub ← or_throw (truthy payload.sub) invalid_google
    email ← or_throw (truthy payload.email) invalid_google
    throw_if (not payload.email_verified) (forbidden "Google email not verified")
    user ← google_user sub email
    token ← issue_token user
    pure (record {
      token = token;
      stellar_wallet_id = user.stellar_wallet_id;
      needs_role_selection = not (is_some user.role);
    })

  -- The challenge of a Stellar address and its token are placeholders in the source too.
  unfoldable pub get_stellar_challenge : String → M e String
  get_stellar_challenge stellar_address = do
    time ← now e
    pure (concat "challenge-" (e.to_fixed (e.of_nat time) 0))

  unfoldable pub verify_stellar_challenge : String → M e String
  verify_stellar_challenge signed_transaction = do
    time ← now e
    pure (concat "jwt-" (e.to_fixed (e.of_nat time) 0))
