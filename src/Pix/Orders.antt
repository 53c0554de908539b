-- ===== src/Pix/Orders.antt =====
-- apps/api/src/modules/pix/pix.service.ts: the orders that the service creates, and its queries.
use cred_bridge.Prelude.{
  String, Option, none, some, [], ◌∷◌, ◌==◌, coalesce, or_else, truthy, if◌then◌else◌,
}
use cred_bridge.Result.{not_found, pure, throw, or_throw, try_catch, ◌>>=◌, ◌>>◌}
use cred_bridge.Schema.{Json, Fields, str, num, User, Transaction, ReceivableCollection}
use cred_bridge.Ports.{PixOrderResponse, CollectionOrderResponse, create_deposit, create_collection}
use cred_bridge.Env.{Env}
use cred_bridge.World.{
  M, users, transactions, collections, fresh_id, send, find_unique, create, update, audit_create,
}
use cred_bridge.Pix.Dto.{CreatePixDepositDto, CollectionRequest}

-- `x ?? undefined` in the data of an update: an undefined value leaves the column alone.
abbrev pub keep_unless : {A : Type 0} → Option A → Option A → Option A
keep_unless (some new) old = some new
keep_unless none old = old

abbrev pub map_option : {A B : Type 0} → (A → B) → Option A → Option B
map_option f none = none
map_option f (some a) = some (f a)

-- The wallet of `privyStellarWalletAddress ?? stellarWalletId`, if it counts as true.
abbrev pub wallet_of : {N : Type 0} → User N → Option String
wallet_of user = truthy (coalesce user.privy_stellar_wallet_address user.stellar_wallet_id)

-- The same for `user?.`, on a user that may be missing.
abbrev pub wallet_of_found : {N : Type 0} → Option (User N) → Option String
wallet_of_found none = none
wallet_of_found (some user) = wallet_of user

-- A column of JSON data: the value of the last field of that name.
abbrev pub field : {N : Type 0} → String → Fields N → Option (Json N)
field k [] = none
field k ((j, v) ∷ rest) = elim (field k rest) [
  | some u ↦ some u
  | none ↦ if j == k then some v else none
]

module _ (e : Env) where
  -- A new row of the table, with the columns that `create` does not give left null.
  abbrev pub new_transaction :
      String
      → String
      → String
      → e.Number
      → String
      → Option String
      → Option String
      → Transaction e.Number
  new_transaction id user_id type amount status pix_key tx_hash = record {
    id = id;
    user_id = user_id;
    type = type;
    amount = amount;
    status = status;
    pix_key = pix_key;
    tx_hash = tx_hash;
    approved_by = none;
    pix_order_id = none;
    pix_identifier = none;
    pix_txid = none;
    pix_payment_id = none;
    pix_transaction_id = none;
    pix_end_to_end_id = none;
    pix_qr_code_payload = none;
    pix_qr_code_location = none;
    pix_qr_code_base64 = none;
    pix_expires_at = none;
    pix_confirmed_at = none;
    pix_failure_reason = none;
  }

  abbrev pub credited_to : String → String → String
  credited_to requester user_id = if requester == "system" then user_id else requester

  unfoldable pub create_deposit_order :
      CreatePixDepositDto e.Number → String → M e (Transaction e.Number × PixOrderResponse e.Number)
  create_deposit_order dto operator_id = do
    found ← find_unique e (users e) dto.user_id
    investor ← or_throw found (not_found "Investidor não encontrado")
    id ← fresh_id e
    transaction ←
        create e (transactions e)
          (new_transaction id dto.user_id "DEPOSIT" dto.amount "PENDING_PAYMENT" none none)
    audit_create e "pix.deposit.created" transaction.id "transaction"
        (credited_to operator_id dto.user_id) none
        (("amount", num dto.amount) ∷ ("investorId", str dto.user_id) ∷ [])
    pix_order ← send e e.pix_order (
        create_deposit (record {
          external_id = transaction.id;
          owner_id = dto.user_id;
          owner_role = "investor";
          amount = dto.amount;
          description = some (or_else dto.description "Aporte CredBridge");
          expires_in_seconds = some (
              or_else dto.expires_in_seconds
                (e.to_number (or_else (e.config "PIX_DEPOSIT_EXPIRATION_SECONDS") "1800")));
          metadata =
              ("credbridgeEntityType", str "transaction")
              ∷ ("credbridgeEntityId", str transaction.id)
              ∷ or_else dto.metadata [];
        }))
    updated ← update e (transactions e) transaction.id (λ t. record t {
      pix_order_id = some pix_order.pix_order_id;
      pix_identifier = some pix_order.identifier;
      pix_txid = keep_unless pix_order.corpx_txid t.pix_txid;
      pix_qr_code_payload = keep_unless pix_order.qr_code_payload t.pix_qr_code_payload;
      pix_qr_code_location = keep_unless pix_order.qr_code_location t.pix_qr_code_location;
      pix_qr_code_base64 = keep_unless pix_order.qr_code_base64 t.pix_qr_code_base64;
      pix_expires_at =
          keep_unless (map_option e.parse_date (truthy pix_order.expires_at)) t.pix_expires_at;
    })
    pure (updated, pix_order)

  -- What a reply of the microservice writes into the collection's row.
  abbrev pub with_pix_data :
      CollectionOrderResponse e.Number
      → ReceivableCollection e.Number
      → ReceivableCollection e.Number
  with_pix_data reply c = record c {
    pix_order_id = some reply.collection_order_id;
    identifier = some reply.identifier;
    pix_qr_code_payload = keep_unless reply.qr_code_payload c.pix_qr_code_payload;
    pix_qr_code_location = keep_unless reply.qr_code_location c.pix_qr_code_location;
    pix_qr_code_base64 = keep_unless reply.qr_code_base64 c.pix_qr_code_base64;
  }

  -- The `catch` of the source logs the error and throws it again.
  unfoldable pub create_collection_order :
      CollectionRequest e.Number → M e (ReceivableCollection e.Number)
  create_collection_order dto = do
    id ← fresh_id e
    collection ← create e (collections e) (record {
      id = id;
      receivable_id = dto.receivable_id;
      pix_order_id = none;
      identifier = none;
      amount = dto.amount;
      due_date = dto.due_date;
      status = "pending_payment";
      tx_hash = none;
      end_to_end_id = none;
      pix_qr_code_payload = none;
      pix_qr_code_location = none;
      pix_qr_code_base64 = none;
      paid_at = none;
    })
    audit_create e "pix.collection.created" collection.id "receivable_collection" dto.pme_user_id
        none (("amount", num dto.amount) ∷ ("receivableId", str dto.receivable_id) ∷ [])
    try_catch
        (do
          reply ← send e e.collection_order (
              create_collection (record {
                receivable_id = dto.receivable_id;
                pme_user_id = dto.pme_user_id;
                debtor_name = dto.debtor_name;
                debtor_document = dto.debtor_document;
                amount = dto.amount;
                due_date = e.to_iso_string dto.due_date;
                payment_deadline = e.to_iso_string dto.due_date;
              }))
          update e (collections e) collection.id (with_pix_data reply))
        (λ x. throw x)
