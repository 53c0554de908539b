-- ===== src/Settlements.antt =====
-- apps/api/src/modules/settlements/settlements.service.ts and settlements.repository.ts: the settlement
-- of a receivable in the pool, and the table of settlements.
pub mod Idempotence
use cred_bridge.Prelude.{String, List, true, Option, none, some, ◌==◌, concat, if◌then◌else◌}
use cred_bridge.Result.{not_found, pure, or_throw, branch, ◌>>=◌, ◌>>◌}
use cred_bridge.Schema.{Receivable, Settlement}
use cred_bridge.Ports.{settle_invoice_in_pool}
use cred_bridge.Env.{Env}
use cred_bridge.World.{
  M, receivables, settlements, now, fresh_id, send, find_unique, find_many, create, update,
}

pub record CreateSettlementDto (N : Type 0) : Type 0 where
  pub receivable_id : String
  pub amount : N
  pub method : String

module _ (e : Env) where
  -- The rest of `settleInvoice`, past the early return.
  unfoldable pub settle_open : String → Receivable e.Number → M e (Option String)
  settle_open receivable_id receivable = do
    tx_hash ← send e e.chain (settle_invoice_in_pool receivable.id receivable.value)
    update e (receivables e) receivable_id
        (λ r. record r { status = "settled"; payment_tx_hash = some tx_hash })
    settled_at ← now e
    id ← fresh_id e
    create e (settlements e) (record {
      id = id;
      receivable_id = receivable_id;
      amount = receivable.value;
      method = "pix";
      status = "completed";
      tx_hash = some tx_hash;
      settled_at = some settled_at;
    })
    pure (some tx_hash)

  -- `settleInvoice`: the hash of the settlement, or the stored one of an earlier settlement.
  unfoldable pub settle_invoice : String → M e (Option String)
  unfolding settle_open
  settle_invoice receivable_id = do
    found ← find_unique e (receivables e) receivable_id
    receivable ←
        or_throw found (not_found (concat "Receivable " (concat receivable_id " not found")))
    branch (receivable.status == "settled") (pure receivable.payment_tx_hash)
        (settle_open receivable_id receivable)

  unfoldable pub create_settlement : CreateSettlementDto e.Number → M e (Settlement e.Number)
  create_settlement dto = do
    id ← fresh_id e
    create e (settlements e) (record {
      id = id;
      receivable_id = dto.receivable_id;
      amount = dto.amount;
      method = dto.method;
      status = "pending";
      tx_hash = none;
      settled_at = none;
    })

  unfoldable pub find_settlements : M e (List (Settlement e.Number))
  find_settlements = find_many e (settlements e) (λ s. true)

  unfoldable pub find_by_receivable : String → M e (List (Settlement e.Number))
  find_by_receivable receivable_id =
      find_many e (settlements e) (λ s. s.receivable_id == receivable_id)
