-- ===== src/Investments/Exclusive.antt =====
-- A receivable is reserved once.
use mathlib.Core.Path.{subst}
use cred_bridge.Prelude.{String, ◌≡◌, refl, sym, ap, ◌∙◌, false, some, Option, is_some}
use cred_bridge.Result.{ok, unique_constraint, Error}
use cred_bridge.Result.Rules.{
  Post, Ensures, Ensures-pure, Ensures-throw, Ensures-bind, Ensures-or_throw, Ensures-throw_if,
  Ensures-try_catch, Ensures-weaken, Ensures-returned,
}
use cred_bridge.Schema.{Investment}
use cred_bridge.Env.{Env, DatabaseLaws}
use cred_bridge.Env.Lookup.{find-create_self, some_eq}
use cred_bridge.World.{World, receivables, investments}
use cred_bridge.World.Rules.{
  SameButTicks, undone, Ensures-find_unique, Ensures-fresh_id, Ensures-create, Ensures-update,
  Ensures-audit_create, Ensures-transactionally,
}
use cred_bridge.Investments.{
  CreateInvestmentDto, Reservation, reserve, or_unavailable, reserve_or_conflict,
}
use cred_bridge.Investments.Purchase.{or_unavailable-same}

module _ (e : Env) where
  -- The receivable has an investment.
  abbrev pub IsReserved : String → World e → Type 0
  IsReserved id w =
      (i : Investment e.Number) × (e.find_unique (investments e).key id w.investments ≡ some i)

module _ (e : Env) (laws : DatabaseLaws e) where
  reserve-IsReserved :
      (investor : String) (dto : CreateInvestmentDto) (w : World e)
      → Ensures
          (reserve e investor dto)
          w
          (λ _ s. IsReserved e dto.receivable_id s)
          (λ _ _. Unit {0})
  unfolding reserve
  reserve-IsReserved investor dto w = Ensures-bind _ _ _ (
      Ensures-find_unique e (receivables e) _ _ (
        Ensures-bind _ _ _ (
          Ensures-or_throw _ _ _
            (λ x found. Ensures-bind _ _ _ (
              Ensures-find_unique e (investments e) _ _ (
                Ensures-bind _ _ _ (
                  Ensures-throw_if _ _ _ (λ _. tt)
                    (λ _. Ensures-bind _ _ _ (
                      Ensures-throw_if _ _ _ (λ _. tt)
                        (λ _. Ensures-bind _ _ _ (
                          Ensures-throw_if _ _ _ (λ _. tt)
                            (λ _. Ensures-bind _ _ _ (
                              Ensures-fresh_id e _ (
                                Ensures-bind _ _ _ (
                                  Ensures-create e (investments e) _ _
                                    (λ t made. Ensures-bind _ _ _ (
                                      Ensures-update e (receivables e) _ _ _
                                        (λ r t' wrote. Ensures-bind _ _ _ (
                                          Ensures-audit_create e _ _ _ _ _ _ _
                                            (λ logs. Ensures-pure _ _ (
                                              subst
                                                (λ id.
                                                  (i : Investment e.Number) × (e.find_unique
                                                      (investments e).key id t
                                                    ≡ some i))
                                                (some_eq _ _ (
                                                  laws.find_has_key (receivables e).key _ _ x
                                                    found))
                                                (
                                                  _,
                                                  find-create_self e laws (investments e).key x.id _
                                                      _ t refl made,
                                                )))
                                            (λ x'. tt)))
                                        (λ x' _. tt)))
                                    (λ x' _. tt)))))))))))))
            (λ _. tt))))

  or_unavailable-fails :
      (x : Error) (s : World e) (P : World e → Type 0)
      → Ensures (or_unavailable e x) s (λ _. P) (λ _ _. Unit {0})
  unfolding or_unavailable
  or_unavailable-fails (unique_constraint m) s P = Ensures-throw _ _ tt
  or_unavailable-fails x s P = Ensures-throw _ _ tt

  pub reserve_or_conflict-IsReserved :
      (investor : String) (dto : CreateInvestmentDto) (w : World e)
      → Ensures
          (reserve_or_conflict e investor dto)
          w
          (λ _ s. IsReserved e dto.receivable_id s)
          (λ _ _. Unit {0})
  unfolding reserve_or_conflict
  reserve_or_conflict-IsReserved investor dto w = Ensures-try_catch _ _ _ (
      Ensures-transactionally e _ _ (
        Ensures-weaken _ _ (reserve-IsReserved investor dto w) (λ r s h. h)
          (λ x s h. or_unavailable-fails x _ (IsReserved e dto.receivable_id))))

  taken :
      (o : Option (Investment e.Number)) (i : Investment e.Number)
      → o ≡ some i
      → is_some o ≡ false
      → ⊥
  taken o i h k = cc

  reserve-refused :
      (investor : String) (dto : CreateInvestmentDto) (w : World e)
      → IsReserved e dto.receivable_id w
      → Ensures (reserve e investor dto) w (λ _ _. ⊥) (λ _ s. s.calls ≡ w.calls)
  unfolding reserve
  reserve-refused investor dto w (i, has) = Ensures-bind _ _ _ (
      Ensures-find_unique e (receivables e) _ _ (
        Ensures-bind _ _ _ (
          Ensures-or_throw _ _ _
            (λ x found. Ensures-bind _ _ _ (
              Ensures-find_unique e (investments e) _ _ (
                Ensures-bind _ _ _ (
                  Ensures-throw_if _ _ _ (λ _. refl)
                    (λ free.
                      elim (taken _ i
                        (ap (λ id. e.find_unique (investments e).key id w.investments)
                            (some_eq _ _ (laws.find_has_key (receivables e).key _ _ x found))
                          ∙ has)
                        free) [ ])))))
            (λ _. refl))))

  reserve_or_conflict-refused :
      (investor : String) (dto : CreateInvestmentDto) (w : World e)
      → IsReserved e dto.receivable_id w
      → Ensures (reserve_or_conflict e investor dto) w (λ _ _. ⊥) (λ _. SameButTicks e w)
  unfolding reserve_or_conflict
  reserve_or_conflict-refused investor dto w reserved = Ensures-try_catch _ _ _ (
      Ensures-transactionally e _ _ (
        Ensures-weaken _ _ (reserve-refused investor dto w reserved) (λ r s never. never)
          (λ x s h. or_unavailable-same e x w _ (undone e w s h) _)))

  -- A receivable is reserved once: after a reservation that returned, any other reservation of the
  -- same receivable, by whatever investor, is refused and changes nothing but generated ids.
  pub reserved_once :
      (investor other : String) (dto again : CreateInvestmentDto) (r : Reservation e.Number)
      (w s : World e)
      → reserve_or_conflict e investor dto w ≡ (ok r, s)
      → again.receivable_id ≡ dto.receivable_id
      → Post
          (λ _ _. ⊥)
          (λ _. SameButTicks e s)
          (reserve_or_conflict e other again s).0
          (reserve_or_conflict e other again s).1
  reserved_once investor other dto again r w s ran same =
      let reserved = Ensures-returned _ _ _ _ (reserve_or_conflict-IsReserved investor dto w) ran in
      (reserve_or_conflict-refused other again s
        (subst (λ k. IsReserved e k s) (sym same) reserved)).at
