-- ===== src/Authorizations/Allowed.antt =====
-- What an authorization that the conditional update of `consume` takes was stored for.
use cred_bridge.Prelude.{
  ℕ, ◌<◌, ◌==◌, ◌&&◌, String, ◌≡◌, refl, ap, Bool, true, not, Option, none, some, is_some, arith,
  ltb, same, eq_iff,
}
use cred_bridge.Schema.{FinancialAuthorization}
use cred_bridge.Env.{Env}
use cred_bridge.Authorizations.{Consumption, is_consumable}

same_eq : (a b : Option String) → same a b ≡ true → a ≡ b
same_eq none none h = refl
same_eq none (some b) h = cc
same_eq (some a) none h = cc
same_eq (some a) (some b) h = ap some ((eq_iff a b).0 h)

some_inside : {A : Type 0} (o : Option A) → is_some o ≡ true → (a : A) × (o ≡ some a)
some_inside none h = cc
some_inside (some a) h = (a, refl)

not_some : {A : Type 0} (o : Option A) → not (is_some o) ≡ true → o ≡ none
not_some none h = refl
not_some (some a) h = cc

all_eight :
    (a b c d f g h i : Bool)
    → (a && b && c && d && f && g && h && i) ≡ true
    → (a ≡ true)
      × (b ≡ true)
      × (c ≡ true)
      × (d ≡ true)
      × (f ≡ true)
      × (g ≡ true)
      × (h ≡ true)
      × (i ≡ true)
all_eight a b c d f g h i all = ground arith

module _ (e : Env) where
  -- The authorization is the user's, for this operation, resource, amount and destination, verified,
  -- not consumed, and expires after the time.
  abbrev pub Allows : Consumption → ℕ → FinancialAuthorization e.Number → Type 0
  Allows input time a =
      (a.user_id ≡ input.user_id)
      × (a.operation ≡ input.operation)
      × (a.resource_id ≡ input.resource_id)
      × (a.amount ≡ input.amount)
      × (a.destination ≡ input.destination)
      × ((verified_at : ℕ) × (a.verified_at ≡ some verified_at))
      × (a.consumed_at ≡ none)
      × (time < a.expires_at)

  -- The `where` of the update, read.
  pub is_consumable-Allows :
      (input : Consumption) (time : ℕ) (a : FinancialAuthorization e.Number)
      → is_consumable e input time a ≡ true
      → Allows input time a
  is_consumable-Allows input time a h =
      let (user, operation, resource, amount, destination, verified, unused, early) =
        all_eight (a.user_id == input.user_id) (a.operation == input.operation)
          (same a.resource_id input.resource_id) (same a.amount input.amount)
          (same a.destination input.destination) (is_some a.verified_at)
          (not (is_some a.consumed_at)) (ltb time a.expires_at) h in
      (
        (eq_iff _ _).0 user,
        (eq_iff _ _).0 operation,
        same_eq _ _ resource,
        same_eq _ _ amount,
        same_eq _ _ destination,
        some_inside _ verified,
        not_some _ unused,
        ground arith,
      )
