-- ===== src/Authorizations/SingleUse.antt =====
-- An authorization is consumed only for the operation it was verified for, and once.
use mathlib.Core.Path.{subst}
use cred_bridge.Prelude.{
  ℕ, String, ◌≡◌, refl, sym, ap, ◌∙◌, Bool, true, false, not, Option, none, some, eqb, is_some,
  arith, ◌+◌,
}
use cred_bridge.Result.{ok}
use cred_bridge.Result.Rules.{
  Post, Ensures, Ensures-pure, Ensures-bind, Ensures-or_throw, Ensures-throw_if, Ensures-returned,
  Ensures-weaken,
}
use cred_bridge.Schema.{FinancialAuthorization}
use cred_bridge.Env.{Env, DatabaseLaws, matches, map_row, change_if}
use cred_bridge.Env.Lookup.{find-update_many_self, some_eq}
use cred_bridge.World.{World, authorizations}
use cred_bridge.World.Rules.{
  Ensures-now, Ensures-find_unique, Ensures-update_many, Ensures-audit_create,
}
use cred_bridge.Authorizations.Allowed.{Allows, is_consumable-Allows}
use cred_bridge.Authorizations.{
  Consumption, of_user, is_consumable, check_consumption, commit_consumption, consume,
}

module _ (e : Env) where
  -- The row of an authorization, now and before.
  abbrev pub IsRow : String → FinancialAuthorization e.Number → World e → Type 0
  IsRow id a w = e.find_unique (authorizations e).key id w.authorizations ≡ some a

  abbrev pub IsSpent : String → World e → Type 0
  IsSpent id w =
      (a : FinancialAuthorization e.Number) × IsRow id a w × (is_some a.consumed_at ≡ true)

  -- The row allowed this input at the second reading of the clock, and is consumed at the third.
  abbrev pub ConsumedFrom : Consumption → World e → World e → Type 0
  ConsumedFrom input w s =
      (a : FinancialAuthorization e.Number) × IsRow input.authorization_id a w
      × Allows e input (e.clock (w.ticks + 1)) a
      × IsRow input.authorization_id (record a { consumed_at = some (e.clock (w.ticks + 1 + 1)) }) s

  abbrev pub Consumed : Consumption → World e → World e → Type 0
  Consumed input w s = ConsumedFrom input w s × (s.calls ≡ w.calls)

module _ (e : Env) (laws : DatabaseLaws e) where
  -- The conditional update counted one row: it was consumable and it is consumed.
  matched_one :
      {R : Type 0} (p : R → Bool) (o : Option R)
      → (not (eqb (matches p o) 1)) ≡ false
      → (r : R) × (o ≡ some r) × (p r ≡ true)
  matched_one p none h = ground arith
  matched_one p (some r) h = (r, refl, ground arith)

  changed_row : {R : Type 0} (p : R → Bool) (f : R → R) (r : R) → p r ≡ true → change_if p f r ≡ f r
  changed_row p f r met = rw met

  row_consumed :
      (k : String) (p : FinancialAuthorization e.Number → Bool) (time n : ℕ)
      (t t' : e.Rows (FinancialAuthorization e.Number))
      → e.update_many (authorizations e).key k p (λ r. record r { consumed_at = some time }) t
        ≡ ok (n, t')
      → (not (eqb n 1)) ≡ false
      → (a : FinancialAuthorization e.Number) × (e.find_unique (authorizations e).key k t ≡ some a)
        × (p a ≡ true)
        × (e.find_unique (authorizations e).key k t' ≡ some (record a { consumed_at = some time }))
  row_consumed k p time n t t' wrote one =
      let count = laws.update_many_count (authorizations e).key k p _ t t' n wrote in
      let (a, was, met) =
        matched_one p (e.find_unique (authorizations e).key k t)
          (ap (λ c. not (eqb c 1)) (sym count) ∙ one) in
      (
        a,
        was,
        met,
        find-update_many_self e laws (authorizations e).key k p _ t t' n (λ x. refl) wrote
            ∙ ap (map_row (change_if p _)) was
            ∙ ap some (changed_row p (λ r. record r { consumed_at = some time }) a met),
      )

  -- The same, one reading of the clock earlier: the update reads it twice.
  abbrev CommittedFrom : Consumption → World e → World e → Type 0
  CommittedFrom input w s =
      ((a : FinancialAuthorization e.Number) × IsRow e input.authorization_id a w
        × Allows e input (e.clock w.ticks) a
        × IsRow e input.authorization_id (record a { consumed_at = some (e.clock (w.ticks + 1)) })
            s)
      × (s.calls ≡ w.calls)

  commit_consumption-CommittedFrom :
      (input : Consumption) (a : FinancialAuthorization e.Number) (w : World e)
      → a.id ≡ input.authorization_id
      → Ensures
          (commit_consumption e input a)
          w
          (λ _. CommittedFrom input w)
          (λ _ s. s.calls ≡ w.calls)
  unfolding commit_consumption
  commit_consumption-CommittedFrom input a w same_id = Ensures-bind _ _ _ (
      Ensures-now e _ (
        Ensures-bind _ _ _ (
          Ensures-now e _ (
            Ensures-bind _ _ _ (
              Ensures-update_many e (authorizations e) _ _ _ _
                (λ n t wrote. Ensures-bind _ _ _ (
                  Ensures-throw_if _ _ _ (λ _. refl)
                    (λ one.
                      Ensures-audit_create e _ _ _ _ _ _ _
                        (λ logs.
                          let (b, was, met, is) = row_consumed _ _ _ _ _ _ wrote one in
                          (
                            (
                              b,
                              ap (λ k. e.find_unique (authorizations e).key k w.authorizations)
                                    (sym same_id)
                                  ∙ was,
                              is_consumable-Allows e input _ b met,
                              ap (λ k. e.find_unique (authorizations e).key k t) (sym same_id) ∙ is,
                            ),
                            refl,
                          ))
                        (λ x. refl))))
                (λ x _. refl))))))

  of_user_row :
      (user_id : String) (o : Option (FinancialAuthorization e.Number))
      (a : FinancialAuthorization e.Number)
      → of_user e user_id o ≡ some a
      → o ≡ some a
  of_user_row user_id none a h = h
  of_user_row user_id (some b) a h = ground arith

  of_user_id :
      (user_id k : String) (t : e.Rows (FinancialAuthorization e.Number))
      (a : FinancialAuthorization e.Number)
      → of_user e user_id (e.find_unique (authorizations e).key k t) ≡ some a
      → a.id ≡ k
  of_user_id user_id k t a h =
      some_eq _ _ (laws.find_has_key (authorizations e).key k t a (of_user_row user_id _ a h))

  check_consumption-same :
      (input : Consumption) (w : World e)
      → Ensures
          (check_consumption e input
            (e.find_unique (authorizations e).key input.authorization_id w.authorizations))
          w
          (λ a s. (a.id ≡ input.authorization_id) × (s ≡ record w { ticks = w.ticks + 1 }))
          (λ _ s. s.calls ≡ w.calls)
  unfolding check_consumption
  check_consumption-same input w = Ensures-bind _ _ _ (
      Ensures-or_throw _ _ _
        (λ a found. Ensures-bind _ _ _ (
          Ensures-throw_if _ _ _ (λ _. refl)
            (λ _. Ensures-bind _ _ _ (
              Ensures-throw_if _ _ _ (λ _. refl)
                (λ _. Ensures-bind _ _ _ (
                  Ensures-now e _ (
                    Ensures-bind _ _ _ (
                      Ensures-throw_if _ _ _ (λ _. refl)
                        (λ _. Ensures-bind _ _ _ (
                          Ensures-throw_if _ _ _ (λ _. refl)
                            (λ _. Ensures-bind _ _ _ (
                              Ensures-throw_if _ _ _ (λ _. refl)
                                (λ _. Ensures-bind _ _ _ (
                                  Ensures-throw_if _ _ _ (λ _. refl)
                                    (λ _. Ensures-bind _ _ _ (
                                      Ensures-throw_if _ _ _ (λ _. refl)
                                        (λ _.
                                          Ensures-pure _ _
                                            (of_user_id _ _ _ a found, refl))))))))))))))))))
        (λ _. refl))

  -- The checks have changed nothing that the update reads.
  from_ticks :
      (input : Consumption) (a : FinancialAuthorization e.Number) (w s : World e)
      → a.id ≡ input.authorization_id
      → s ≡ record w { ticks = w.ticks + 1 }
      → Ensures
          (commit_consumption e input a)
          s
          (λ _. Consumed e input w)
          (λ _ s'. s'.calls ≡ w.calls)
  from_ticks input a w s same_id is =
      Ensures-weaken _ _ (commit_consumption-CommittedFrom input a s same_id)
        (λ _ s' ((b, was, allows, spent), calls). (
          (
            b,
            ap (λ v. e.find_unique (authorizations e).key input.authorization_id v.authorizations)
                  (sym is)
                ∙ was,
            subst (λ v. Allows e input (e.clock v.ticks) b) is allows,
            subst
                (λ v.
                  IsRow e input.authorization_id
                    (record b { consumed_at = some (e.clock (v.ticks + 1)) }) s')
                is spent,
          ),
          calls ∙ ap (λ v. v.calls) is,
        ))
        (λ _ s' calls. calls ∙ ap (λ v. v.calls) is)

  pub consume-Ensures :
      (input : Consumption) (w : World e)
      → Ensures (consume e input) w (λ _. Consumed e input w) (λ _ s. s.calls ≡ w.calls)
  unfolding consume
  consume-Ensures input w = Ensures-bind _ _ _ (
      Ensures-find_unique e (authorizations e) _ _ (
        Ensures-bind _ _ _ (
          Ensures-weaken _ _ (check_consumption-same input w)
            (λ a s (same_id, is). from_ticks input a w s same_id is) (λ x s h. h))))

  Consumed-IsSpent :
      (input : Consumption) (w s : World e)
      → Consumed e input w s
      → IsSpent e input.authorization_id s
  Consumed-IsSpent input w s ((a, was, met, spent), calls) = (_, spent, refl)

  spent_row :
      (input : Consumption) (time : ℕ) (a : FinancialAuthorization e.Number)
      → is_some a.consumed_at ≡ true
      → is_consumable e input time a ≡ false
  spent_row input time a h = ground (arith, h)

  matched_none :
      {R : Type 0} (p : R → Bool) (o : Option R) (r : R) (n : ℕ)
      → o ≡ some r
      → p r ≡ false
      → n ≡ matches p o
      → (not (eqb n 1)) ≡ true
  matched_none p o r n was unmet count = rw (count, was, unmet)

  not_false : (b : Bool) → b ≡ true → b ≡ false → ⊥
  not_false b h k = cc

  -- A row that was read before it was spent is refused by the update.
  commit_consumption-refused :
      (input : Consumption) (a : FinancialAuthorization e.Number) (w : World e)
      → IsSpent e a.id w
      → Ensures (commit_consumption e input a) w (λ _ _. ⊥) (λ _ s. s.calls ≡ w.calls)
  unfolding commit_consumption
  commit_consumption-refused input a w (b, is, spent) = Ensures-bind _ _ _ (
      Ensures-now e _ (
        Ensures-bind _ _ _ (
          Ensures-now e _ (
            Ensures-bind _ _ _ (
              Ensures-update_many e (authorizations e) _ _ _ _
                (λ n t wrote. Ensures-bind _ _ _ (
                  Ensures-throw_if _ _ _ (λ _. refl)
                    (λ one.
                      elim (not_false _
                        (matched_none _ _ b n is (spent_row input _ b spent)
                          (laws.update_many_count (authorizations e).key _ _ _ _ t n wrote))
                        one) [ ])))
                (λ x _. refl))))))

  consume-refused :
      (input : Consumption) (w : World e)
      → IsSpent e input.authorization_id w
      → Ensures (consume e input) w (λ _ _. ⊥) (λ _ s. s ≡ record w { ticks = s.ticks })
  unfolding consume check_consumption
  consume-refused input w (b, is, spent) = Ensures-bind _ _ _ (
      Ensures-find_unique e (authorizations e) _ _ (
        Ensures-bind _ _ _ (
          Ensures-bind _ _ _ (
            Ensures-or_throw _ _ _
              (λ a found. Ensures-bind _ _ _ (
                Ensures-throw_if _ _ _ (λ _. refl)
                  (λ _. Ensures-bind _ _ _ (
                    Ensures-throw_if _ _ _ (λ _. refl)
                      (λ unused.
                        let same_row = some_eq _ _ (sym (of_user_row _ _ a found) ∙ is) in
                        elim (not_false _ (ap (λ r. is_some r.consumed_at) same_row ∙ spent)
                          unused) [ ])))))
              (λ _. refl)))))

  -- What is consumed is what was verified: when `consume` returns, the authorization that was named
  -- was stored for this user, operation, resource, amount and destination, was verified and not
  -- consumed, and expired later than the second of the three times that this call reads the clock;
  -- now it is consumed, at the third reading, and otherwise as it was. Whether it returns or refuses,
  -- no call leaves the process. Assumed: the laws of the database client.
  pub consume-Consumed :
      (input : Consumption) (w : World e)
      → Post
          (λ _. Consumed e input w)
          (λ _ s. s.calls ≡ w.calls)
          (consume e input w).0
          (consume e input w).1
  consume-Consumed input w = (consume-Ensures input w).at

  -- An authorization is consumed once: after a `consume` that returned, any other that names it, for
  -- whatever user and operation, is refused and changes nothing but the count of clock readings and
  -- ids; and the conditional update of a request that had read the row before it was consumed is
  -- refused too, and makes no call.
  pub consumed_once :
      (input again : Consumption) (stale : FinancialAuthorization e.Number) (w s : World e)
      → consume e input w ≡ (ok tt, s)
      → again.authorization_id ≡ input.authorization_id
      → stale.id ≡ input.authorization_id
      → Post
          (λ _ _. ⊥)
          (λ _ s'. s' ≡ record s { ticks = s'.ticks })
          (consume e again s).0
          (consume e again s).1
        × Post
            (λ _ _. ⊥)
            (λ _ s'. s'.calls ≡ s.calls)
            (commit_consumption e again stale s).0
            (commit_consumption e again stale s).1
  consumed_once input again stale w s ran same_id stale_id =
      let spent =
        Consumed-IsSpent input w s (Ensures-returned _ _ _ _ (consume-Ensures input w) ran) in
      (
        (consume-refused again s (subst (λ k. IsSpent e k s) (sym same_id) spent)).at,
        (commit_consumption-refused again stale s
            (subst (λ k. IsSpent e k s) (sym stale_id) spent)).at,
      )
