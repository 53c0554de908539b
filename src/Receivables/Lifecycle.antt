-- ===== src/Receivables/Lifecycle.antt =====
-- The life of a receivable as a step relation on its status, and the operations that follow it.
pub mod Handlers
pub mod Histories
use mathlib.Core.Path.{subst}
use cred_bridge.Prelude.{
  String, ◌≡◌, refl, sym, ap, ◌∙◌, Bool-cases, inl, inr, Bool, true, false, not, ◌||◌, ◌==◌, Option,
  none, some, eq_iff, same_text, unrefuted, List, [], ◌∷◌, arith, if◌then◌else◌, str_refl,
}
use cred_bridge.Result.{Error, ok, err, ◌>>=◌}
use cred_bridge.Result.Rules.{
  Post, Ensures, Ensures-pure, Ensures-bind, Ensures-or_throw, Ensures-throw_if, Ensures-branch,
  Ensures-weaken, Ensures-outcome,
}
use cred_bridge.Result.Preserves.{Preserves, Ensures-kept, preserves_rules}
use cred_bridge.Schema.{Receivable}
use cred_bridge.Env.{Env, DatabaseLaws}
use cred_bridge.Env.Lookup.{some_eq, update_found}
use cred_bridge.World.{World, M, receivables, update}
use cred_bridge.World.Rules.{Ensures-find_unique, Ensures-update, Ensures-send}
use cred_bridge.World.Preserves.{world_rules}
use cred_bridge.Authorizations.{Consumption, consume, check_consumption, commit_consumption}
use cred_bridge.Pix.Orders.{create_collection_order}
use cred_bridge.Receivables.{
  assignable, load, set_tokenized, set_assignment_pending, set_active, tokenize, request_assignment,
  assign, load_assignable, pay_out, start_collection, submit_assignment,
}
use cred_bridge.Settlements.{settle_open, settle_invoice}

-- One step of a receivable's life, from a status to the next.
pub data Step : String → String → Type 0 where
  validated : Step "pending" "validated"
  rejected : Step "pending" "rejected"
  tokenized : Step "validated" "tokenized"
  requested : Step "tokenized" "assignment_pending"
  assigned : Step "tokenized" "active"
  assigned_as_requested : Step "assignment_pending" "active"
  settled : {s : String} → Step s "settled"

pub data Life : String → String → Type 0 where
  start : {s : String} → Life s s
  next : {s t u : String} → Life s t → Step t u → Life s u

second : (a b : Bool) → a ≡ false → (a || b) ≡ true → b ≡ true
second a b h k = ground arith

module _ (e : Env) where
  abbrev pub IsRow : String → Receivable e.Number → World e → Type 0
  IsRow id r w = e.find_unique (receivables e).key id w.receivables ≡ some r

  -- Every receivable is still there, and its status has moved along the steps of its life.
  abbrev pub Follows : World e → World e → Type 0
  Follows w s =
      (id : String) (r : Receivable e.Number)
      → IsRow id r w
      → (r' : Receivable e.Number) × IsRow id r' s × Life r.status r'.status

  pub Follows-refl : (w : World e) → Follows w w
  Follows-refl w id r found = (r, found, start)

  -- Besides, this row stands as it was read.
  abbrev pub Reading : World e → String → Receivable e.Number → World e → Type 0
  Reading w id r s = Follows w s × IsRow id r s

  module _ (laws : DatabaseLaws e) where
    pub advance :
        (w v : World e) (id : String) (r : Receivable e.Number)
        (f : Receivable e.Number → Receivable e.Number)
        → ((x : Receivable e.Number) → (f x).id ≡ x.id)
        → Reading w id r v
        → Step r.status (f r).status
        → Ensures (update e (receivables e) id f) v (λ _ s. Follows w s) (λ _ s. Follows w s)
    advance w v id r f keeps (follows, found) step =
        Ensures-update e (receivables e) id f v
          (λ new t wrote j x was.
            let (y, there, life) = follows j x was in
            let law =
              laws.find-update (receivables e).key id j f v.receivables t new
                (λ z. ap some (keeps z)) wrote in
            let is : new ≡ f r =
              update_found e laws (receivables e).key id r f _ t new found wrote in
            elim (Bool-cases (id == j)) [
              | inl same ↦ (
                new,
                law ∙ rw same,
                subst (λ (z : Receivable e.Number). Life x.status z.status) (sym is)
                    (next
                      (subst (λ (z : Receivable e.Number). Life x.status z.status)
                        (some_eq _ _ (
                          sym there
                          ∙ ap (λ k. e.find_unique (receivables e).key k v.receivables)
                              (sym ((eq_iff id j).0 same))
                          ∙ found))
                        life)
                      step),
              )
              | inr other ↦ (y, law ∙ rw (other, there), life)
            ])
          (λ _ _. follows)

    -- The status that a guard has let through.
    pub guarded-Step :
        {x y : String} (status : String) → Step x y → not (status == x) ≡ false → Step status y
    guarded-Step {x} {y} status step passed =
        subst (λ s. Step s y) (sym (same_text _ _ passed)) step

    pub assignable-Step :
        (r : Receivable e.Number) → not (assignable r) ≡ false → Step r.status "active"
    assignable-Step r passed = elim (Bool-cases (r.status == "tokenized")) [
      | inl is ↦ subst (λ s. Step s "active") (sym ((eq_iff _ _).0 is)) assigned
      | inr not ↦
          subst (λ s. Step s "active") (sym ((eq_iff _ _).0 (second _ _ not (unrefuted _ passed))))
            assigned_as_requested
    ]
