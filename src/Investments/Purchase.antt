-- ===== src/Investments/Purchase.antt =====
-- A purchase reserves the receivable, consumes the authorization, and then pays.
use mathlib.Core.Path.{subst}
use cred_bridge.Prelude.{
  ◌+◌, unrefuted, ℕ, String, ◌≡◌, refl, sym, ap, ◌∙◌, ◌⊎◌, inl, inr, true, false, Option, none,
  some, List, ◌∷◌, ◌==◌, is_some,
}
use cred_bridge.Result.{unique_constraint, Error}
use cred_bridge.Result.Rules.{
  Post, Ensures, Ensures-pure, Ensures-throw, Ensures-bind, Ensures-or_throw, Ensures-throw_if,
  Ensures-try_catch, Ensures-weaken,
}
use cred_bridge.Schema.{Receivable, FinancialAuthorization}
use cred_bridge.Ports.{Call, charge_investor, transfer_nft_to_investor}
use cred_bridge.Env.{Env, DatabaseLaws}
use cred_bridge.World.{World, receivables, investments, investments_by_id, authorizations}
use cred_bridge.World.Rules.{
  SameButTicks, undone, Ensures-find_unique, Ensures-fresh_id, Ensures-create, Ensures-update,
  Ensures-send, Ensures-audit_create, Ensures-transactionally,
}
use cred_bridge.Authorizations.{Consumption}
use cred_bridge.Authorizations.Allowed.{Allows}
use cred_bridge.Authorizations.SingleUse.{IsRow, ConsumedFrom, consume-Ensures}
use cred_bridge.Investments.{
  CreateInvestmentDto, Reservation, reserve, or_unavailable, reserve_or_conflict, purchase_of,
  settle_purchase, create_investment,
}

no_investment : {A : Type 0} (o : Option A) → is_some o ≡ false → o ≡ none
no_investment none h = refl
no_investment (some a) h = cc

module _ (e : Env) where
  -- The face value less three per cent, in two places.
  abbrev pub price : e.Number → e.Number
  price value =
      e.to_number (e.to_fixed (e.mul value (e.sub (e.to_number "1") (e.to_number "0.03"))) 2)

  -- The receivable is on sale to this investor.
  abbrev pub IsOnSale : String → CreateInvestmentDto → Receivable e.Number → World e → Type 0
  IsOnSale investor dto r w =
      (e.find_unique (receivables e).key dto.receivable_id w.receivables ≡ some r)
      × (e.find_unique (investments e).key r.id w.investments ≡ none)
      × ((r.status == "active") ≡ true)
      × ((r.user_id == investor) ≡ false)

  abbrev pub Reserved :
      String → CreateInvestmentDto → World e → Reservation e.Number → World e → Type 0
  Reserved investor dto w r s =
      (x : Receivable e.Number) × IsOnSale investor dto x w
      × (r.receivable_id ≡ x.id)
      × (r.amount_paid ≡ price x.value)
      × (s.calls ≡ w.calls)
      × (s.authorizations ≡ w.authorizations)
      × (s.ticks ≡ w.ticks + 1 + 1)

  reserve-Reserved :
      (investor : String) (dto : CreateInvestmentDto) (w : World e)
      → Ensures (reserve e investor dto) w (Reserved investor dto w) (λ _ s. s.calls ≡ w.calls)
  unfolding reserve
  reserve-Reserved investor dto w = Ensures-bind _ _ _ (
      Ensures-find_unique e (receivables e) _ _ (
        Ensures-bind _ _ _ (
          Ensures-or_throw _ _ _
            (λ x found. Ensures-bind _ _ _ (
              Ensures-find_unique e (investments e) _ _ (
                Ensures-bind _ _ _ (
                  Ensures-throw_if _ _ _ (λ _. refl)
                    (λ free. Ensures-bind _ _ _ (
                      Ensures-throw_if _ _ _ (λ _. refl)
                        (λ active. Ensures-bind _ _ _ (
                          Ensures-throw_if _ _ _ (λ _. refl)
                            (λ other. Ensures-bind _ _ _ (
                              Ensures-fresh_id e _ (
                                Ensures-bind _ _ _ (
                                  Ensures-create e (investments e) _ _
                                    (λ t made. Ensures-bind _ _ _ (
                                      Ensures-update e (receivables e) _ _ _
                                        (λ r t' wrote. Ensures-bind _ _ _ (
                                          Ensures-audit_create e _ _ _ _ _ _ _
                                            (λ logs. Ensures-pure _ _ (
                                              x,
                                              (
                                                found,
                                                no_investment _ free,
                                                unrefuted _ active,
                                                other,
                                              ),
                                              refl,
                                              refl,
                                              refl,
                                              refl,
                                              refl,
                                            ))
                                            (λ x'. refl)))
                                        (λ x' _. refl)))
                                    (λ x' _. refl)))))))))))))
            (λ _. refl))))

  pub or_unavailable-same :
      (x : Error) (w s : World e)
      → SameButTicks e w s
      → (Q : Reservation e.Number → World e → Type 0)
      → Ensures (or_unavailable e x) s Q (λ _. SameButTicks e w)
  unfolding or_unavailable
  or_unavailable-same (unique_constraint m) w s same Q = Ensures-throw _ _ same
  or_unavailable-same x w s same Q = Ensures-throw _ _ same

  reserve_or_conflict-Reserved :
      (investor : String) (dto : CreateInvestmentDto) (w : World e)
      → Ensures
          (reserve_or_conflict e investor dto)
          w
          (Reserved investor dto w)
          (λ _. SameButTicks e w)
  unfolding reserve_or_conflict
  reserve_or_conflict-Reserved investor dto w = Ensures-try_catch _ _ _ (
      Ensures-transactionally e _ _ (
        Ensures-weaken _ _ (reserve-Reserved investor dto w) (λ r s h. h)
          (λ x s h. or_unavailable-same x w _ (undone e w s h) _)))

  -- What an authorization of this purchase was stored for.
  abbrev pub wanted : String → CreateInvestmentDto → Receivable e.Number → Consumption
  wanted investor dto x = record {
    authorization_id = dto.authorization_id;
    user_id = investor;
    operation = "investment.purchase";
    resource_id = some x.id;
    amount = some (e.to_fixed (price x.value) 2);
    destination = none;
  }

  -- The authorization that was named allows this purchase, and is consumed now. The reservation takes
  -- two ids, which the count of clock readings counts too.
  abbrev pub IsAllowed :
      String → CreateInvestmentDto → Receivable e.Number → World e → World e → Type 0
  IsAllowed investor dto x w s =
      (a : FinancialAuthorization e.Number) × IsRow e dto.authorization_id a w
      × Allows e (wanted investor dto x) (e.clock (w.ticks + 1 + 1 + 1)) a
      × ((consumed_at : ℕ) × IsRow e dto.authorization_id
            (record a { consumed_at = some consumed_at }) s)

  abbrev pub charge : String → Receivable e.Number → Call e.Number
  charge investor x = charge_investor investor (price x.value) x.id

  abbrev pub transfer : String → Receivable e.Number → Call e.Number
  transfer investor x = transfer_nft_to_investor x.id investor

  abbrev pub Bought : String → CreateInvestmentDto → World e → World e → Type 0
  Bought investor dto w s =
      (x : Receivable e.Number) × IsOnSale investor dto x w
      × IsAllowed investor dto x w s
      × (s.calls ≡ transfer investor x ∷ charge investor x ∷ w.calls)

  abbrev pub NotBought : String → CreateInvestmentDto → World e → World e → Type 0
  NotBought investor dto w s =
      (s.calls ≡ w.calls)
      ⊎ (Bought investor dto w s
          ⊎ ((x : Receivable e.Number) × IsOnSale investor dto x w
              × IsAllowed investor dto x w s
              × (s.calls ≡ charge investor x ∷ w.calls)))

module _ (e : Env) (laws : DatabaseLaws e) where
  ConsumedFrom-IsAllowed :
      (investor : String) (dto : CreateInvestmentDto) (w s s' : World e) (r : Reservation e.Number)
      (x : Receivable e.Number)
      → r.receivable_id ≡ x.id
      → r.amount_paid ≡ price e x.value
      → s.authorizations ≡ w.authorizations
      → s.ticks ≡ w.ticks + 1 + 1
      → ConsumedFrom e (purchase_of e investor dto r) s s'
      → IsAllowed e investor dto x w s'
  ConsumedFrom-IsAllowed investor dto w s s' r x id amount auths ticks
        (a, was, (user, operation, resource, worth, nowhere, verified, unused, early), spent) =
      (
        a,
        ap (λ rows. e.find_unique (authorizations e).key dto.authorization_id rows) (sym auths)
            ∙ was,
        subst (λ n. Allows e (wanted e investor dto x) (e.clock (n + 1)) a) ticks
            (
              user,
              operation,
              resource ∙ ap some id,
              worth ∙ ap (λ n. some (e.to_fixed n 2)) amount,
              nowhere,
              verified,
              unused,
              early,
            ),
        (_, spent),
      )

  charged :
      (investor : String) (w s s1 : World e) (r : Reservation e.Number) (x : Receivable e.Number)
      → r.receivable_id ≡ x.id
      → r.amount_paid ≡ price e x.value
      → s.calls ≡ w.calls
      → s1.calls ≡ s.calls
      → (charge_investor investor r.amount_paid r.receivable_id ∷ s1.calls)
        ≡ (charge e investor x ∷ w.calls)
  charged investor w s s1 r x id amount calls calls1 =
      ap (λ n. charge_investor investor n r.receivable_id ∷ s1.calls) amount
      ∙ ap (λ k. charge_investor investor (price e x.value) k ∷ s1.calls) id
      ∙ ap (λ cs. charge e investor x ∷ cs) (calls1 ∙ calls)

  transferred :
      (investor : String) (x : Receivable e.Number) (id : String) (cs cs' : List (Call e.Number))
      → id ≡ x.id
      → cs ≡ cs'
      → (transfer_nft_to_investor id investor ∷ cs) ≡ (transfer e investor x ∷ cs')
  transferred investor x id cs cs' is same =
      ap (λ k. transfer_nft_to_investor k investor ∷ cs) is
      ∙ ap (λ l. transfer e investor x ∷ l) same

  -- The purchase of a receivable past its reservation.
  settle_purchase-Bought :
      (investor : String) (dto : CreateInvestmentDto) (w s : World e) (r : Reservation e.Number)
      → Reserved e investor dto w r s
      → Ensures
          (settle_purchase e investor dto r)
          s
          (λ _. Bought e investor dto w)
          (λ _. NotBought e investor dto w)
  unfolding settle_purchase
  settle_purchase-Bought investor dto w s r (x, sale, id, amount, calls, auths, ticks) =
      Ensures-bind _ _ _ (
        Ensures-weaken _ _ (consume-Ensures e laws _ _)
          (λ _ s1 (consumed, calls1).
            let allowed =
              ConsumedFrom-IsAllowed investor dto w s s1 r x id amount auths ticks consumed in
            let first = charged investor w s s1 r x id amount calls calls1 in
            let both = transferred investor x r.receivable_id _ _ id first in
            Ensures-bind _ _ _ (
              Ensures-send e _ _ _
                (λ paid _. Ensures-bind _ _ _ (
                  Ensures-send e _ _ _
                    (λ moved _.
                      Ensures-update e (investments_by_id e) _ _ _
                        (λ i t' wrote. (x, sale, allowed, both))
                        (λ x' _. inr (inl (x, sale, allowed, both))))
                    (λ x' _. inr (inl (x, sale, allowed, both)))))
                (λ x' _. inr (inr (x, sale, allowed, first)))))
          (λ x' s1 same. inl (same ∙ calls)))

  -- When `create` returns, the receivable was active, somebody else's and had no investment; the
  -- authorization that was named was stored for this investor, for "investment.purchase" of this
  -- receivable at this price, verified, not consumed and not expired when it was consumed, and it is
  -- consumed now; and the calls are the charge of the price, 97 per cent of the face value, and then
  -- the transfer of the token, each once. When it fails, no call was made, or the charge alone, or
  -- both, and these two only under the same conditions. Assumed: the laws of the database client.
  pub create_investment-Bought :
      (investor : String) (dto : CreateInvestmentDto) (w : World e)
      → Post
          (λ _. Bought e investor dto w)
          (λ _. NotBought e investor dto w)
          (create_investment e investor dto w).0
          (create_investment e investor dto w).1
  unfolding create_investment
  create_investment-Bought investor dto w =
      (Ensures-bind _ _ _ (
        Ensures-weaken _ _ (reserve_or_conflict-Reserved e investor dto w)
          (λ r s reserved. settle_purchase-Bought investor dto w s r reserved)
          (λ x s same. inl (ap (λ v. v.calls) same)))).at

module _ (e : Env) where
  -- A reservation that returns was of a receivable on sale, for its price, and made no call and left
  -- the authorizations alone. One that fails leaves no trace: it made no call, and the tables, which
  -- the database takes back, are those of before.
  pub reservation_all_or_nothing :
      (investor : String) (dto : CreateInvestmentDto) (w : World e)
      → Post
          (Reserved e investor dto w)
          (λ _. SameButTicks e w)
          (reserve_or_conflict e investor dto w).0
          (reserve_or_conflict e investor dto w).1
  reservation_all_or_nothing investor dto w = (reserve_or_conflict-Reserved e investor dto w).at
