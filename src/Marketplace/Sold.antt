-- ===== src/Marketplace/Sold.antt =====
-- A receivable that is sold is no longer listed for sale.
use cred_bridge.Prelude.{
  String, ◌≡◌, ◌≢◌, refl, ap, ◌∙◌, true, not, ◌&&◌, and_right, Option, some, is_some, List, [], ◌∷◌,
  All,
}
use cred_bridge.Result.{ok}
use cred_bridge.Result.Rules.{Post, Ensures, Ensures-bind, Ensures-pure, Ensures-returned}
use cred_bridge.Schema.{Receivable}
use cred_bridge.Env.{Env, DatabaseLaws}
use cred_bridge.World.{World, receivables, investments}
use cred_bridge.World.Rules.{Ensures-find_many}
use cred_bridge.Pix.Collections.{map_list}
use cred_bridge.Receivables.{ReceivableResponse, to_receivable_response}
use cred_bridge.Investments.{CreateInvestmentDto, Reservation, reserve_or_conflict}
use cred_bridge.Investments.Exclusive.{IsReserved, reserve_or_conflict-IsReserved}
use cred_bridge.Marketplace.{unsold, is_active, find_unsold, find_pool}

sold : {A : Type 0} (o : Option A) (a : A) → o ≡ some a → not (is_some o) ≡ true → ⊥
sold o a h k = cc

module _ (e : Env) (laws : DatabaseLaws e) where
  -- No listed receivable has the id.
  abbrev pub NotListed : String → List (ReceivableResponse e.Number) → Type 0
  NotListed id = All (λ r. r.id ≢ id)

  unlisted :
      (id : String) (w : World e)
      → IsReserved e id w
      → (rows : List (Receivable e.Number)) → All (λ r. (is_active e r && unsold e w r) ≡ true) rows
      → NotListed id (map_list to_receivable_response rows)
  unlisted id w reserved [] h = tt
  unlisted id w (i, found) (r ∷ rows) (on_sale, rest) = (
    λ same.
        sold _ i (ap (λ k. e.find_unique (investments e).key k w.investments) same ∙ found)
          (and_right (is_active e r) _ on_sale),
    unlisted id w (i, found) rows rest,
  )

  find_pool-NotListed :
      (id : String) (w : World e)
      → IsReserved e id w
      → Ensures (find_pool e) w (λ rows s. NotListed id rows × (s ≡ w)) (λ _ _. ⊥)
  unfolding find_pool find_unsold
  find_pool-NotListed id w reserved = Ensures-bind _ _ _ (record {
    at =
        (Ensures-find_many e (receivables e) (λ r. is_active e r && unsold e w r) w
          (Ensures-pure _ _ (unlisted id w reserved _ (laws.find_many_sound _ _), refl))).at;
  })

  -- After a reservation of a receivable that returned, under the laws of the database client, the
  -- listing of what is on sale returns, does not contain the receivable and changes nothing.
  pub off_sale_once_sold :
      (investor : String) (dto : CreateInvestmentDto) (r : Reservation e.Number) (w s : World e)
      → reserve_or_conflict e investor dto w ≡ (ok r, s)
      → Post
          (λ rows t. NotListed dto.receivable_id rows × (t ≡ s))
          (λ _ _. ⊥)
          (find_pool e s).0
          (find_pool e s).1
  off_sale_once_sold investor dto r w s ran =
      (find_pool-NotListed dto.receivable_id s
        (Ensures-returned _ _ _ _ (reserve_or_conflict-IsReserved e laws investor dto w) ran)).at
