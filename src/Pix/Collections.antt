-- ===== src/Pix/Collections.antt =====
-- apps/api/src/modules/pix/pix.service.ts: the collections from the debtors of receivables, their
-- callback, and the queries of the service.
use cred_bridge.Prelude.{
  String, Bool, true, false, not, ◌&&◌, ◌||◌, Option, none, some, List, [], ◌∷◌, ◌==◌, or_else,
  truthy, is_some, if◌then◌else◌,
}
use cred_bridge.Result.{not_found, pure, or_throw, when, if_some, branch, ◌>>=◌, ◌>>◌}
use cred_bridge.Schema.{str, num, str_or_null, Receivable, Transaction, ReceivableCollection}
use cred_bridge.Ports.{PixOrderResponse, create_collection, get_order_by_id, refresh_order}
use cred_bridge.Env.{Env}
use cred_bridge.World.{
  M, users, receivables, transactions, events, collections, now, fresh_id, send, find_unique,
  find_unique_by, find_many, update, audit_create,
}
use cred_bridge.Settlements.{settle_invoice}
use cred_bridge.Pix.Dto.{PixCollectionWebhookDto}
use cred_bridge.Pix.Orders.{keep_unless, map_option, with_pix_data}
use cred_bridge.Pix.Callbacks.{record_event}

abbrev pub head? : {A : Type 0} → List A → Option A
head? [] = none
head? (x ∷ xs) = some x

abbrev pub contains : String → List String → Bool
contains k [] = false
contains k (x ∷ xs) = x == k || contains k xs

abbrev pub map_list : {A B : Type 0} → (A → B) → List A → List B
map_list f [] = []
map_list f (x ∷ xs) = f x ∷ map_list f xs

-- A collection with the debtor's columns of its receivable.
pub record CollectionView (N : Type 0) : Type 0 where
  pub collection : ReceivableCollection N
  pub debtor_name : String
  pub debtor_document : String

module _ (e : Env) where
  -- `new Map(receivables.map((r) => [r.id, r])).get(id)`: the last entry of a key stands.
  abbrev pub in_map : String → List (Receivable e.Number) → Option (Receivable e.Number)
  in_map id [] = none
  in_map id (r ∷ rest) = elim (in_map id rest) [
    | some x ↦ some x
    | none ↦ if r.id == id then some r else none
  ]

  -- `processCollectionCallback`: the user whom the audit log of the payment names.
  unfoldable pub payment_log_user : PixCollectionWebhookDto e.Number → M e (Option String)
  payment_log_user dto = do
    receivable ← find_unique e (receivables e) dto.receivable_id
    if_some (truthy (map_option (λ r. r.user_id) receivable)) (λ user_id. pure (some user_id))
        (do
          anyone ← find_many e (users e) (λ u. true)
          pure (truthy (map_option (λ u. u.id) (head? anyone))))

  unfoldable pub log_payment : PixCollectionWebhookDto e.Number → M e (Unit {0})
  unfolding payment_log_user
  log_payment dto = do
    log_user_id ← payment_log_user dto
    if_some log_user_id
        (λ user_id.
          audit_create e "pix.collection.paid" dto.receivable_id "receivable" user_id none (
            ("collectionOrderId", str dto.collection_order_id)
            ∷ ("endToEndId", str_or_null dto.end_to_end_id)
            ∷ ("amount", num dto.amount)
            ∷ []))
        (pure tt)

  unfoldable pub mark_collection_paid :
      Option (ReceivableCollection e.Number) → PixCollectionWebhookDto e.Number → M e (Unit {0})
  mark_collection_paid none dto = pure tt
  mark_collection_paid (some collection) dto = do
    paid_at ← if_some (truthy dto.paid_at) (λ s. pure (e.parse_date s)) (now e)
    update e (collections e) collection.id (λ c. record c {
      status = "paid";
      paid_at = some paid_at;
      end_to_end_id = keep_unless dto.end_to_end_id c.end_to_end_id;
    })
    pure tt

  -- `if (collection && txHash)`
  unfoldable pub store_settlement_hash :
      Option (ReceivableCollection e.Number) → Option String → M e (Unit {0})
  store_settlement_hash (some collection) (some tx_hash) = when (not (tx_hash == "")) (do
    update e (collections e) collection.id (λ c. record c { tx_hash = some tx_hash })
    pure tt)
  store_settlement_hash (some collection) none = pure tt
  store_settlement_hash none tx_hash = pure tt

  -- `processCollectionCallback` for a payment that was recorded.
  unfoldable pub collection_paid : PixCollectionWebhookDto e.Number → M e (Unit {0})
  unfolding mark_collection_paid log_payment store_settlement_hash
  collection_paid dto = do
    collection ← find_unique_by e (collections e) (λ c. c.identifier) dto.identifier
    mark_collection_paid collection dto
    log_payment dto
    tx_hash ← settle_invoice e dto.receivable_id
    store_settlement_hash collection tx_hash

  unfoldable pub process_collection_callback : PixCollectionWebhookDto e.Number → M e (Unit {0})
  unfolding collection_paid
  process_collection_callback dto = do
    already_processed ← find_unique e (events e) dto.event_id
    branch (is_some already_processed) (pure tt) (do
      id ← fresh_id e
      recorded ← record_event e (record {
        id = id;
        event_id = dto.event_id;
        pix_order_id = dto.collection_order_id;
        external_id = dto.receivable_id;
        identifier = some dto.identifier;
        type = "COLLECTION";
        status = dto.status;
        amount = dto.amount;
      })
      branch (recorded && dto.status == "PAID") (collection_paid dto) (pure tt))

  unfoldable pub retry_collection_order : String → String → M e (CollectionView e.Number)
  retry_collection_order collection_id pme_user_id = do
    found ← find_unique e (collections e) collection_id
    collection ← or_throw found (not_found "Cobrança não encontrada")
    found_receivable ← find_unique e (receivables e) collection.receivable_id
    receivable ← or_throw found_receivable (not_found "Recebível associado não encontrado")
    reply ← send e e.collection_order (
        create_collection (record {
          receivable_id = collection.receivable_id;
          pme_user_id = pme_user_id;
          debtor_name = receivable.debtor_name;
          debtor_document = receivable.debtor_document;
          amount = collection.amount;
          due_date = e.to_iso_string collection.due_date;
          payment_deadline = e.to_iso_string collection.due_date;
        }))
    updated ← update e (collections e) collection.id (with_pix_data e reply)
    pure (record {
      collection = updated;
      debtor_name = receivable.debtor_name;
      debtor_document = receivable.debtor_document;
    })

  -- The `filter` and the `map` of `listActiveCollections`.
  unfoldable pub active_views :
      List (Receivable e.Number)
      → List (ReceivableCollection e.Number)
      → List (CollectionView e.Number)
  active_views rs [] = []
  active_views rs (c ∷ cs) =
      let rest = active_views rs cs in
      elim (in_map c.receivable_id rs) [
        | none ↦ rest
        | some r ↦
            record {
              collection = c;
              debtor_name = r.debtor_name;
              debtor_document = r.debtor_document;
            }
            ∷ rest
      ]

  abbrev pub sees : String → Option String → Receivable e.Number → Bool
  sees user_id role r = or_else role "" == "operator" || r.user_id == user_id

  unfoldable pub list_active_collections :
      String → Option String → M e (List (CollectionView e.Number))
  unfolding active_views
  list_active_collections user_id role = do
    cs ← find_many e (collections e) (λ c. true)
    rs ←
        find_many e (receivables e)
          (λ r. contains r.id (map_list (λ c. c.receivable_id) cs) && sees user_id role r)
    pure (active_views rs cs)

  -- `findFirst` by id and user.
  abbrev pub owned_by : String → Option (Transaction e.Number) → Option (Transaction e.Number)
  owned_by user_id none = none
  owned_by user_id (some t) = if t.user_id == user_id then some t else none

  unfoldable pub get_pix_order_for_transaction :
      String → String → M e (Option (PixOrderResponse e.Number))
  get_pix_order_for_transaction transaction_id user_id = do
    found ← find_unique e (transactions e) transaction_id
    transaction ← or_throw (owned_by user_id found) (not_found "Transação não encontrada")
    if_some (truthy transaction.pix_order_id)
        (λ pix_order_id. do
          order ← send e e.pix_order (get_order_by_id pix_order_id)
          pure (some order))
        (pure none)

  unfoldable pub list_user_transactions_with_pix_status : String → M e (List (Transaction e.Number))
  list_user_transactions_with_pix_status user_id =
      find_many e (transactions e) (λ t. t.user_id == user_id)

  abbrev pub order_of : Option (Transaction e.Number) → Option String
  order_of none = none
  order_of (some t) = truthy t.pix_order_id

  unfoldable pub refresh_pix_order : String → String → M e (PixOrderResponse e.Number)
  refresh_pix_order transaction_id user_id = do
    found ← find_unique e (transactions e) transaction_id
    pix_order_id ←
        or_throw (order_of (owned_by user_id found))
          (not_found "Ordem Pix não encontrada para esta transação")
    send e e.pix_order (refresh_order pix_order_id)
