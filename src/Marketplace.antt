-- ===== src/Marketplace.antt =====
-- What is on sale and what was sold: the listings and statistics of
-- apps/api/src/modules/receivables/receivables.repository.ts and
-- apps/api/src/modules/investments/investments.repository.ts. Rows stand in the order of the table,
-- and a listing is not cut at its limit.
pub mod Sold
use cred_bridge.Prelude.{
  ℕ, ◌+◌, String, Bool, not, ◌&&◌, ◌||◌, List, [], ◌∷◌, ◌==◌, is_some, length,
}
use cred_bridge.Result.{pure, ◌>>=◌}
use cred_bridge.Schema.{Receivable, Investment}
use cred_bridge.Env.{Env}
use cred_bridge.World.{World, M, receivables, investments, find_many}
use cred_bridge.Pix.Collections.{map_list}
use cred_bridge.Receivables.{ReceivableResponse, to_receivable_response}

pub record PoolStats (N : Type 0) : Type 0 where
  pub total_value : N
  pub active_count : ℕ
  pub validated_count : ℕ
  pub pool_count : ℕ

pub record InvestorStats (N : Type 0) : Type 0 where
  pub total_invested : N
  pub expected_return : N
  pub active_positions : ℕ

module _ (e : Env) where
  -- `investment: null` of a receivable
  abbrev pub unsold : World e → Receivable e.Number → Bool
  unsold w r = not (is_some (e.find_unique (investments e).key r.id w.investments))

  -- The receivables without an investment that meet a condition.
  unfoldable pub find_unsold : (Receivable e.Number → Bool) → M e (List (Receivable e.Number))
  find_unsold p w = find_many e (receivables e) (λ r. p r && unsold w r) w

  -- `_sum.column ?? 0`: over no rows the sum is null.
  abbrev total : List e.Number → e.Number
  total [] = e.of_nat 0
  total (n ∷ ns) = e.sum (n ∷ ns)

  abbrev pub is_active : Receivable e.Number → Bool
  is_active r = r.status == "active"

  abbrev pub is_approved : Receivable e.Number → Bool
  is_approved r =
      r.status == "validated" || r.status == "tokenized" || r.status == "assignment_pending"

  unfoldable pub find_pool : M e (List (ReceivableResponse e.Number))
  find_pool = do rows ← find_unsold is_active; pure (map_list to_receivable_response rows)

  unfoldable pub get_pool_stats : M e (PoolStats e.Number)
  get_pool_stats = do
    active ← find_unsold is_active
    validated ← find_unsold is_approved
    pure (record {
      total_value = total (map_list (λ r. r.value) active);
      active_count = length active;
      validated_count = length validated;
      pool_count = length active + length validated;
    })

  unfoldable pub get_my_stats : String → M e (InvestorStats e.Number)
  get_my_stats investor_user_id = do
    positions ←
        find_many e (investments e)
          (λ i. i.investor_user_id == investor_user_id && i.status == "active")
    let invested : e.Number =
        total (map_list (λ (i : Investment e.Number). i.amount_paid) positions)
    pure (record {
      total_invested = invested;
      expected_return =
          e.sub (total (map_list (λ (i : Investment e.Number). i.face_value) positions)) invested;
      active_positions = length positions;
    })
