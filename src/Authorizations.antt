-- ===== src/Authorizations.antt =====
-- apps/api/src/modules/financial-authorizations/financial-authorizations.service.ts: a challenge is
-- created for one operation, verified by the wallet's signature and consumed once.
pub mod Hex
pub mod Allowed
pub mod SingleUse
pub mod Verification
use cred_bridge.Prelude.{
  ℕ, ◌+◌, ◌*◌, String, Bool, true, false, not, ◌&&◌, ◌||◌, Option, none, some, List, [], ◌∷◌, ltb,
  eqb, ◌==◌, or_else, truthy, same, is_some, if◌then◌else◌,
}
use cred_bridge.Result.{
  Error, authorization, wallet_required, authorization_required, authorization_expired,
  authorization_invalid, authorization_already_used, authorization_operation_mismatch,
  authorization_resource_mismatch, pure, throw, or_throw, throw_if, if_some, ◌>>=◌, ◌>>◌,
}
use cred_bridge.Schema.{
  Fields, str, str_or_null, User, AuthorizationPayload, FinancialAuthorization,
}
use cred_bridge.Env.{Env}
use cred_bridge.World.{
  World, M, users, authorizations, now, fresh_id, find_unique, create, update, update_many,
  audit_create,
}
use cred_bridge.Pix.Orders.{map_option}
use Hex.{verify_privy_raw_hash_signature}

abbrev pub auth_ttl_ms : ℕ
auth_ttl_ms = 5 * 60 * 1000

abbrev pub financial_auth_domain : String
financial_auth_domain = "credbridge.finance.authorization"

abbrev pub financial_auth_version : String
financial_auth_version = "1"

abbrev pub requires_direct_authorization : String → Bool
requires_direct_authorization operation =
    operation == "receivable.assignment"
    || operation == "pme.withdrawal"
    || operation == "investor.deposit"
    || operation == "investment.purchase"
    || operation == "investor.withdrawal"

pub record ChallengeDto : Type 0 where
  pub operation : String
  pub resource_id : Option String
  pub amount : Option String
  pub destination : Option String

pub record Challenge : Type 0 where
  pub authorization_id : String
  pub payload : AuthorizationPayload
  pub payload_hash : String
  pub expires_at : String

pub record VerifyDto (N : Type 0) : Type 0 where
  pub authorization_id : String
  pub payload_hash : String
  pub assertion : Fields N

-- `FinancialAuthorizationConsumption`
pub record Consumption : Type 0 where
  pub authorization_id : String
  pub user_id : String
  pub operation : String
  pub resource_id : Option String
  pub amount : Option String
  pub destination : Option String

-- The wallet of a user whose Privy wallet is ready.
abbrev pub ready_wallet : {N : Type 0} → Option (User N) → Option String
ready_wallet none = none
ready_wallet (some user) =
    if same user.privy_wallet_status (some "ready")
    then truthy user.privy_stellar_wallet_address
    else none

module _ (e : Env) where
  unfoldable pub audit_metadata : FinancialAuthorization e.Number → Fields e.Number
  audit_metadata a =
      ("operation", str a.operation)
      ∷ ("resourceId", str_or_null a.resource_id)
      ∷ ("amount", str_or_null a.amount)
      ∷ ("destination", str_or_null a.destination)
      ∷ ("walletId", str a.wallet_id)
      ∷ ("payloadHash", str a.payload_hash)
      ∷ []

  -- `createChallenge`, past the check of the wallet.
  unfoldable pub issue_challenge : String → ChallengeDto → String → M e Challenge
  unfolding audit_metadata
  issue_challenge user_id dto wallet_id = do
    issued_at ← now e
    let expires_at : ℕ = issued_at + auth_ttl_ms
    nonce ← fresh_id e
    let payload : AuthorizationPayload = record {
      domain = financial_auth_domain;
      version = financial_auth_version;
      network = or_else (e.config "STELLAR_NETWORK") "testnet";
      operation = dto.operation;
      user_id = user_id;
      wallet_id = wallet_id;
      resource_id = dto.resource_id;
      amount = dto.amount;
      destination = dto.destination;
      nonce = nonce;
      expires_at = e.to_iso_string expires_at;
    }
    let payload_hash : String = e.hash_payload payload
    id ← fresh_id e
    row ← create e (authorizations e) (record {
      id = id;
      user_id = user_id;
      wallet_id = payload.wallet_id;
      operation = payload.operation;
      resource_id = payload.resource_id;
      amount = payload.amount;
      destination = payload.destination;
      nonce = payload.nonce;
      payload_hash = payload_hash;
      payload = payload;
      signature = none;
      expires_at = expires_at;
      verified_at = none;
      consumed_at = none;
    })
    audit_create e "financial_authorization.challenge_created" row.id "financial_authorization"
        user_id none (audit_metadata row)
    pure (record {
      authorization_id = row.id;
      payload = payload;
      payload_hash = payload_hash;
      expires_at = payload.expires_at;
    })

  unfoldable pub create_challenge : String → ChallengeDto → M e Challenge
  unfolding issue_challenge
  create_challenge user_id dto = do
    user ← find_unique e (users e) user_id
    if_some (ready_wallet user) (issue_challenge user_id dto) (do
      audit_create e "wallet.setup_required" user_id "user" user_id none
          (("operation", str dto.operation) ∷ ("resourceId", str_or_null dto.resource_id) ∷ [])
      throw (
          authorization wallet_required
            "Privy Stellar wallet is required before this financial action"))

  -- The row of an id, if it is the user's.
  abbrev pub of_user :
      String → Option (FinancialAuthorization e.Number) → Option (FinancialAuthorization e.Number)
  of_user user_id none = none
  of_user user_id (some a) = if a.user_id == user_id then some a else none

  -- `verify`, up to the write. `include: { user: true }` reads the user with the row.
  unfoldable pub check_assertion :
      String → VerifyDto e.Number → M e (FinancialAuthorization e.Number)
  check_assertion user_id dto = do
    found ← find_unique e (authorizations e) dto.authorization_id
    a ←
        or_throw (of_user user_id found)
          (authorization authorization_invalid "Authorization not found")
    owner ← find_unique e (users e) a.user_id
    throw_if (is_some a.consumed_at)
        (authorization authorization_already_used "Authorization was already consumed")
    time ← now e
    throw_if (ltb a.expires_at time) (authorization authorization_expired "Authorization expired")
    throw_if (not (a.payload_hash == dto.payload_hash))
        (authorization authorization_invalid "Authorization payload hash mismatch")
    verify_privy_raw_hash_signature e
        (elim owner [ none ↦ none | some user ↦ user.privy_stellar_wallet_address ]) a.wallet_id
        dto.assertion a.payload_hash
    pure a

  -- `verify`: the id of the authorization that is now verified.
  unfoldable pub verify : String → VerifyDto e.Number → M e String
  unfolding check_assertion audit_metadata
  verify user_id dto = do
    a ← check_assertion user_id dto
    time ← now e
    updated ←
        update e (authorizations e) a.id
          (λ r. record r { signature = some dto.assertion; verified_at = some time })
    audit_create e "financial_authorization.verified" updated.id "financial_authorization" user_id
        none (audit_metadata updated)
    pure updated.id

  -- The checks of `consume` on the row that it has read.
  unfoldable pub check_consumption :
      Consumption → Option (FinancialAuthorization e.Number) → M e (FinancialAuthorization e.Number)
  check_consumption input found = do
    a ←
        or_throw (of_user input.user_id found)
          (authorization authorization_required "Authorization required")
    throw_if (not (is_some a.verified_at))
        (authorization authorization_required "Authorization must be verified before use")
    throw_if (is_some a.consumed_at)
        (authorization authorization_already_used "Authorization was already consumed")
    time ← now e
    throw_if (ltb a.expires_at time) (authorization authorization_expired "Authorization expired")
    throw_if (not (a.operation == input.operation))
        (authorization authorization_operation_mismatch "Authorization operation mismatch")
    throw_if (not (same a.resource_id input.resource_id))
        (authorization authorization_resource_mismatch "Authorization resource mismatch")
    throw_if (not (same a.amount input.amount))
        (authorization authorization_resource_mismatch "Authorization amount mismatch")
    throw_if (not (same a.destination input.destination))
        (authorization authorization_resource_mismatch "Authorization destination mismatch")
    pure a

  -- The `where` of the conditional update, but for the id.
  abbrev pub is_consumable : Consumption → ℕ → FinancialAuthorization e.Number → Bool
  is_consumable input time a =
      a.user_id == input.user_id
      && a.operation == input.operation
      && same a.resource_id input.resource_id
      && same a.amount input.amount
      && same a.destination input.destination
      && is_some a.verified_at
      && not (is_some a.consumed_at)
      && ltb time a.expires_at

  -- `consume`, from the conditional update on: `a` is the row that was read before.
  unfoldable pub commit_consumption : Consumption → FinancialAuthorization e.Number → M e (Unit {0})
  unfolding audit_metadata
  commit_consumption input a = do
    time ← now e
    consumed_at ← now e
    count ←
        update_many e (authorizations e) a.id (is_consumable input time)
          (λ r. record r { consumed_at = some consumed_at })
    throw_if (not (eqb count 1))
        (authorization authorization_already_used "Authorization was already consumed")
    audit_create e "financial_authorization.consumed" a.id "financial_authorization" input.user_id
        none (audit_metadata a)

  unfoldable pub consume : Consumption → M e (Unit {0})
  unfolding check_consumption commit_consumption
  consume input = do
    found ← find_unique e (authorizations e) input.authorization_id
    a ← check_consumption input found
    commit_consumption input a
