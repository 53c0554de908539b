-- ===== src/Receivables.antt =====
-- apps/api/src/modules/receivables/receivables.service.ts, with the writes of
-- receivables.repository.ts: a receivable from its registration to its assignment to the pool.
pub mod Assignment
pub mod Lifecycle
use cred_bridge.Prelude.{
  ℕ, String, Bool, not, ◌||◌, Option, none, some, List, [], ◌∷◌, ◌==◌, or_else, truthy, concat,
}
use cred_bridge.Result.{
  Error, not_found, conflict, message, pure, throw, or_throw, throw_if, try_catch, ◌>>=◌, ◌>>◌,
}
use cred_bridge.Schema.{str, num, str_or_null, User, Receivable}
use cred_bridge.Ports.{
  tokenize_nfe, transfer_nft_to_platform, prepare_assignment, submit_signed_assignment,
  buy_tokenized_invoice_in_pool,
}
use cred_bridge.Env.{Env}
use cred_bridge.World.{
  M, users, receivables, fresh_id, now, send, find_unique, find_many, create, update, audit_create,
}
use cred_bridge.Pix.Orders.{map_option, create_collection_order}
use cred_bridge.Pix.Collections.{map_list}
use cred_bridge.Authorizations.{consume}

pub record CreateReceivableDto (N : Type 0) : Type 0 where
  pub value : N
  pub type : String
  pub debtor_name : String
  pub debtor_document : String
  pub due_date : String

pub record ReceivableResponse (N : Type 0) : Type 0 where
  pub id : String
  pub value : N
  pub type : String
  pub status : String
  pub debtor_name : String
  pub debtor_document : String
  pub due_date : ℕ
  pub created_at : ℕ
  pub tx_hash : Option String
  pub payment_tx_hash : Option String

abbrev pub to_receivable_response : {N : Type 0} → Receivable N → ReceivableResponse N
to_receivable_response r = record {
  id = r.id;
  value = r.value;
  type = r.type;
  status = r.status;
  debtor_name = r.debtor_name;
  debtor_document = r.debtor_document;
  due_date = r.due_date;
  created_at = r.created_at;
  tx_hash = r.tx_hash;
  payment_tx_hash = r.payment_tx_hash;
}

-- What `prepareAssignment` answers.
pub record PreparedAssignment (N : Type 0) : Type 0 where
  pub unsigned_xdr : String
  pub hash_to_sign : String
  pub pme_address : String
  pub receivable : ReceivableResponse N

abbrev pub assignable : {N : Type 0} → Receivable N → Bool
assignable r = r.status == "tokenized" || r.status == "assignment_pending"

abbrev pub privy_wallet_of : {N : Type 0} → Option (User N) → Option String
privy_wallet_of none = none
privy_wallet_of (some user) = truthy user.privy_stellar_wallet_address

abbrev pub receivable_missing : String → Error
receivable_missing id = not_found (concat "Receivable " (concat id " not found"))

abbrev pub not_tokenized : Error
not_tokenized = conflict "Receivable must be tokenized before assignment"

module _ (e : Env) where
  unfoldable pub create_receivable :
      String → CreateReceivableDto e.Number → M e (ReceivableResponse e.Number)
  create_receivable user_id dto = do
    id ← fresh_id e
    created_at ← now e
    receivable ← create e (receivables e) (record {
      id = id;
      user_id = user_id;
      value = dto.value;
      type = dto.type;
      status = "pending";
      debtor_name = dto.debtor_name;
      debtor_document = dto.debtor_document;
      document_hash = none;
      tx_hash = none;
      payment_tx_hash = none;
      due_date = e.parse_date dto.due_date;
      created_at = created_at;
    })
    audit_create e "receivable.created" receivable.id "receivable" user_id none (
        ("value", num receivable.value)
        ∷ ("type", str receivable.type)
        ∷ ("debtorName", str receivable.debtor_name)
        ∷ ("debtorDocument", str receivable.debtor_document)
        ∷ ("dueDate", str (e.to_iso_string receivable.due_date))
        ∷ [])
    pure (to_receivable_response receivable)

  unfoldable pub find_all : String → M e (List (ReceivableResponse e.Number))
  find_all user_id = do
    rows ← find_many e (receivables e) (λ r. r.user_id == user_id)
    pure (map_list to_receivable_response rows)

  unfoldable pub find_one : String → M e (Option (ReceivableResponse e.Number))
  find_one id = do
    found ← find_unique e (receivables e) id
    pure (map_option to_receivable_response found)

  -- `findOne` and the `NotFoundException` of the callers.
  unfoldable pub load : String → M e (Receivable e.Number)
  load id = do found ← find_unique e (receivables e) id; or_throw found (receivable_missing id)

  unfoldable pub set_tokenized : String → String → M e (Receivable e.Number)
  set_tokenized id tx_hash =
      update e (receivables e) id (λ r. record r { status = "tokenized"; tx_hash = some tx_hash })

  unfoldable pub set_assignment_pending : String → M e (Receivable e.Number)
  set_assignment_pending id =
      update e (receivables e) id (λ r. record r { status = "assignment_pending" })

  unfoldable pub set_active : String → M e (Receivable e.Number)
  set_active id = update e (receivables e) id (λ r. record r { status = "active" })

  unfoldable pub tokenize : String → M e (ReceivableResponse e.Number)
  unfolding load set_tokenized
  tokenize id = do
    r ← load id
    throw_if (not (r.status == "validated"))
        (conflict "Receivable must be validated before tokenization")
    audit_create e "receivable.ready_for_blockchain" r.id "receivable" r.user_id none
        (("network", str "stellar") ∷ ("contract", str "soroban-nft") ∷ [])
    audit_create e "receivable.nft_minting" r.id "receivable" r.user_id none
        (("value", num r.value) ∷ ("xmlHash", str_or_null r.document_hash) ∷ [])
    tx_hash ← send e e.chain (tokenize_nfe r.id r.value r.due_date r.document_hash r.user_id)
    tokenized ← set_tokenized id tx_hash
    audit_create e "receivable.tokenized_by_policy" r.id "receivable" r.user_id (some tx_hash)
        (("network", str "stellar") ∷ ("authorization", str "policy") ∷ [])
    audit_create e "receivable.tx_confirmed" r.id "receivable" r.user_id (some tx_hash)
        (("network", str "stellar") ∷ ("status", str "success") ∷ [])
    pure (to_receivable_response tokenized)

  unfoldable pub activate : String → M e (ReceivableResponse e.Number)
  unfolding tokenize
  activate id = tokenize id

  unfoldable pub request_assignment : String → M e (ReceivableResponse e.Number)
  unfolding load set_assignment_pending
  request_assignment id = do
    r ← load id
    throw_if (not (r.status == "tokenized")) not_tokenized
    updated ← set_assignment_pending id
    pure (to_receivable_response updated)

  unfoldable pub assign : String → String → M e (ReceivableResponse e.Number)
  unfolding load set_active
  assign id authorization_id = do
    r ← load id
    throw_if (not (assignable r)) not_tokenized
    consume e (record {
      authorization_id = authorization_id;
      user_id = r.user_id;
      operation = "receivable.assignment";
      resource_id = some r.id;
      amount = some (e.to_fixed r.value 2);
      destination = some "credbridge-pool";
    })
    tx_hash ← send e e.chain (transfer_nft_to_platform r.id)
    updated ← set_active id
    audit_create e "receivable.assignment_signed" r.id "receivable" r.user_id (some tx_hash)
        (("authorizationId", str authorization_id) ∷ [])
    pure (to_receivable_response updated)

  -- The checks that `prepareAssignment` and `submitAssignment` share: the receivable and the
  -- wallet of its owner.
  unfoldable pub load_assignable : String → M e (Receivable e.Number × String)
  unfolding load
  load_assignable id = do
    r ← load id
    throw_if (not (assignable r)) not_tokenized
    owner ← find_unique e (users e) r.user_id
    pme_address ←
        or_throw (privy_wallet_of owner)
          (not_found (concat "Stellar privy wallet for user " (concat r.user_id " not found")))
    pure (r, pme_address)

  unfoldable pub prepare : String → M e (PreparedAssignment e.Number)
  unfolding load_assignable
  prepare id = do
    loaded ← load_assignable id
    prepared ← send e e.unsigned_tx (prepare_assignment loaded.0.id loaded.1)
    pure (record {
      unsigned_xdr = prepared.xdr;
      hash_to_sign = prepared.hash_to_sign;
      pme_address = loaded.1;
      receivable = to_receivable_response loaded.0;
    })

  -- The payout by the pool, with the error that the caller sees.
  unfoldable pub pay_out : Receivable e.Number → String → M e String
  pay_out r pme_address =
      try_catch
        (send e e.chain (
          buy_tokenized_invoice_in_pool pme_address r.id
            (or_else r.document_hash "00000000000000000000000000000000") r.value))
        (λ x. throw (
          conflict (
            concat "Failed to complete financial transfer from Pool: " (
              concat (message x)
                ". Certifique-se de que a Pool possui liquidez suficiente de aportes."))))

  -- The collection from the debtor, whose failure does not stop the assignment.
  unfoldable pub start_collection : Receivable e.Number → M e (Unit {0})
  start_collection r =
      try_catch
        (do
          create_collection_order e (record {
            receivable_id = r.id;
            pme_user_id = r.user_id;
            debtor_name = r.debtor_name;
            debtor_document = r.debtor_document;
            amount = r.value;
            due_date = r.due_date;
          })
          pure tt)
        (λ x. pure tt)

  unfoldable pub submit_assignment : String → String → String → M e (ReceivableResponse e.Number)
  unfolding load_assignable pay_out set_active start_collection
  submit_assignment id unsigned_xdr signature_hex = do
    loaded ← load_assignable id
    tx_hash ← send e e.chain (submit_signed_assignment unsigned_xdr signature_hex loaded.1)
    pool_tx_hash ← pay_out loaded.0 loaded.1
    updated ← set_active id
    start_collection loaded.0
    audit_create e "receivable.assignment_signed" loaded.0.id "receivable" loaded.0.user_id
        (some tx_hash)
        (("source", str "privy_blockchain_signing") ∷ ("poolTxHash", str pool_tx_hash) ∷ [])
    pure (to_receivable_response updated)
