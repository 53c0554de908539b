-- ===== src/Auth/Accounts.antt =====
-- apps/api/src/modules/auth/auth.service.ts: the role, the profile and the password of a user.
use cred_bridge.Prelude.{String, not, Option, some, truthy}
use cred_bridge.Result.{
  Error, unauthorized, bad_request, conflict, pure, throw, or_throw, throw_if, if_some, ◌>>=◌, ◌>>◌,
}
use cred_bridge.Schema.{User}
use cred_bridge.Env.{Env}
use cred_bridge.World.{M, users, find_unique, update}
use cred_bridge.Auth.Clients.{AuthClients, query}
use cred_bridge.Auth.{IssuedToken, issue_token}

pub record ChangePasswordDto : Type 0 where
  pub current_password : String
  pub new_password : String

-- A column of an update: kept where the field is undefined.
pub data Change (A : Type 0) : Type 0 where
  keep : Change A
  set : Option A → Change A

abbrev pub changed : {A : Type 0} → Change A → Option A → Option A
changed keep old = old
changed (set new) old = new

pub record UpdateProfileDto (N : Type 0) : Type 0 where
  pub name : Change String
  pub phone : Change String
  pub address : Change String
  pub company_name : Change String
  pub cnpj : Change String
  pub monthly_revenue : Change N
  pub sector : Change String
  pub investor_type : Change String
  pub risk_profile : Change String
  pub operational_limit : Change N

-- `userSelect`
pub record Profile (N : Type 0) : Type 0 where
  pub id : String
  pub email : String
  pub role : Option String
  pub name : Option String
  pub phone : Option String
  pub address : Option String
  pub company_name : Option String
  pub cnpj : Option String
  pub monthly_revenue : Option N
  pub sector : Option String
  pub investor_type : Option String
  pub risk_profile : Option String
  pub operational_limit : Option N
  pub stellar_wallet_id : Option String
  pub privy_user_id : Option String
  pub privy_stellar_wallet_address : Option String
  pub privy_wallet_status : Option String

abbrev pub profile_of : {N : Type 0} → User N → Profile N
profile_of u = record {
  id = u.id;
  email = u.email;
  role = u.role;
  name = u.name;
  phone = u.phone;
  address = u.address;
  company_name = u.company_name;
  cnpj = u.cnpj;
  monthly_revenue = u.monthly_revenue;
  sector = u.sector;
  investor_type = u.investor_type;
  risk_profile = u.risk_profile;
  operational_limit = u.operational_limit;
  stellar_wallet_id = u.stellar_wallet_id;
  privy_user_id = u.privy_user_id;
  privy_stellar_wallet_address = u.privy_stellar_wallet_address;
  privy_wallet_status = u.privy_wallet_status;
}

abbrev pub changed_profile : {N : Type 0} → UpdateProfileDto N → User N → User N
changed_profile dto u = record u {
  name = changed dto.name u.name;
  phone = changed dto.phone u.phone;
  address = changed dto.address u.address;
  company_name = changed dto.company_name u.company_name;
  cnpj = changed dto.cnpj u.cnpj;
  monthly_revenue = changed dto.monthly_revenue u.monthly_revenue;
  sector = changed dto.sector u.sector;
  investor_type = changed dto.investor_type u.investor_type;
  risk_profile = changed dto.risk_profile u.risk_profile;
  operational_limit = changed dto.operational_limit u.operational_limit;
}

abbrev pub role_already_set : Error
role_already_set = conflict "Role already set"

-- `new UnauthorizedException()`
abbrev pub not_signed_in : Error
not_signed_in = unauthorized "Unauthorized"

module _ (e : Env) (clients : AuthClients) where
  unfoldable pub set_role : String → String → M e IssuedToken
  unfolding issue_token
  set_role user_id role = do
    found ← find_unique e (users e) user_id
    user ← or_throw found not_signed_in
    if_some (truthy user.role) (λ _. throw role_already_set)
        (do
          updated ← update e (users e) user_id (λ u. record u { role = some role })
          issue_token e clients updated)

  unfoldable pub find_me : String → M e (Profile e.Number)
  find_me user_id = do
    found ← find_unique e (users e) user_id
    user ← or_throw found not_signed_in
    pure (profile_of user)

  unfoldable pub update_profile : String → UpdateProfileDto e.Number → M e (Profile e.Number)
  update_profile user_id dto = do
    user ← update e (users e) user_id (changed_profile dto)
    pure (profile_of user)

  unfoldable pub change_password : String → ChangePasswordDto → M e (Unit {0})
  change_password user_id dto = do
    found ← find_unique e (users e) user_id
    user ← or_throw found not_signed_in
    hash ← or_throw (truthy user.password_hash) (bad_request "Conta sem senha cadastrada")
    valid ← query e (λ tick. clients.compare_password dto.current_password hash)
    throw_if (not valid) (bad_request "Senha atual incorreta")
    new_hash ← query e (λ tick. clients.hash_password tick dto.new_password)
    update e (users e) user_id (λ u. record u { password_hash = some new_hash })
    pure tt
