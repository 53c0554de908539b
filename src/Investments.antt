-- ===== src/Investments.antt =====
-- apps/api/src/modules/investments/investments.service.ts, with the writes of
-- investments.repository.ts: the purchase of a receivable and the staged deposit into the pool.
pub mod Purchase
pub mod Exclusive
use cred_bridge.Prelude.{String, not, ◌&&◌, ◌||◌, Option, none, some, List, [], ◌∷◌, ◌==◌, is_some}
use cred_bridge.Result.{
  Error, not_found, conflict, bad_request, unique_constraint, pure, throw, or_throw, throw_if,
  try_catch, ◌>>=◌, ◌>>◌,
}
use cred_bridge.Schema.{str, num, Investment, Transaction}
use cred_bridge.Ports.{
  UnsignedSorobanTx, charge_investor, transfer_nft_to_investor, submit_signed_tx, build_approve_tx,
  build_deposit_tx,
}
use cred_bridge.Env.{Env}
use cred_bridge.World.{
  M, users, receivables, investments, investments_by_id, transactions, fresh_id, send,
  transactionally, find_unique, find_many, create, update, audit_create,
}
use cred_bridge.Pix.Orders.{wallet_of_found}
use cred_bridge.Pix.Collections.{owned_by}
use cred_bridge.Authorizations.{Consumption, consume}

pub record CreateInvestmentDto : Type 0 where
  pub receivable_id : String
  pub authorization_id : String
  pub pix_tx_id : Option String

pub data DepositStage : Type 0 where
  approve deposit : DepositStage

pub record SubmitDepositStageDto : Type 0 where
  pub stage : DepositStage
  pub xdr : String
  pub signature : String

-- What the transaction of `create` returns.
pub record Reservation (N : Type 0) : Type 0 where
  pub id : String
  pub receivable_id : String
  pub amount_paid : N

pub record StageReply : Type 0 where
  pub hash : String
  pub status : String

module _ (e : Env) where
  -- 0.03
  abbrev pub discount_rate : e.Number
  discount_rate = e.to_number "0.03"

  -- `Number((faceValue * (1 - DISCOUNT_RATE)).toFixed(2))`
  abbrev pub price_of : e.Number → e.Number
  price_of face_value =
      e.to_number (e.to_fixed (e.mul face_value (e.sub (e.to_number "1") discount_rate)) 2)

  abbrev pub unavailable : Error
  unavailable = conflict "Recebível indisponível"

  -- The body of the transaction of `create`.
  unfoldable pub reserve : String → CreateInvestmentDto → M e (Reservation e.Number)
  reserve investor_user_id dto = do
    found ← find_unique e (receivables e) dto.receivable_id
    receivable ← or_throw found (not_found "Recebível não encontrado")
    investment ← find_unique e (investments e) receivable.id
    throw_if (is_some investment) unavailable
    throw_if (not (receivable.status == "active")) unavailable
    throw_if (receivable.user_id == investor_user_id)
        (bad_request "Você não pode comprar um recebível que cadastrou")
    id ← fresh_id e
    created ← create e (investments e) (record {
      id = id;
      investor_user_id = investor_user_id;
      receivable_id = receivable.id;
      amount_paid = price_of receivable.value;
      face_value = receivable.value;
      discount_rate = discount_rate;
      status = "active";
      pix_tx_id = dto.pix_tx_id;
      payment_tx_hash = none;
      nft_transfer_tx_hash = none;
    })
    update e (receivables e) receivable.id (λ r. record r { status = "active" })
    audit_create e "investment.created" created.id "investment" investor_user_id none (
        ("receivableId", str receivable.id)
        ∷ ("amountPaid", num (price_of receivable.value))
        ∷ ("faceValue", num receivable.value)
        ∷ [])
    pure (record {
      id = created.id;
      receivable_id = receivable.id;
      amount_paid = price_of receivable.value;
    })

  -- P2002: another investment has taken the receivable.
  unfoldable pub or_unavailable : Error → M e (Reservation e.Number)
  or_unavailable (unique_constraint m) = throw unavailable
  or_unavailable x = throw x

  -- The transaction and its `catch`.
  unfoldable pub reserve_or_conflict : String → CreateInvestmentDto → M e (Reservation e.Number)
  unfolding reserve or_unavailable
  reserve_or_conflict investor_user_id dto =
      try_catch (transactionally e (reserve investor_user_id dto)) or_unavailable

  abbrev pub purchase_of : String → CreateInvestmentDto → Reservation e.Number → Consumption
  purchase_of investor_user_id dto reservation = record {
    authorization_id = dto.authorization_id;
    user_id = investor_user_id;
    operation = "investment.purchase";
    resource_id = some reservation.receivable_id;
    amount = some (e.to_fixed reservation.amount_paid 2);
    destination = none;
  }

  -- `create`, past the transaction.
  unfoldable pub settle_purchase :
      String → CreateInvestmentDto → Reservation e.Number → M e (Investment e.Number)
  settle_purchase investor_user_id dto reservation = do
    consume e (purchase_of investor_user_id dto reservation)
    payment_tx_hash ←
        send e e.chain
          (charge_investor investor_user_id reservation.amount_paid reservation.receivable_id)
    nft_transfer_tx_hash ←
        send e e.chain (transfer_nft_to_investor reservation.receivable_id investor_user_id)
    update e (investments_by_id e) reservation.id (λ i. record i {
      payment_tx_hash = some payment_tx_hash;
      nft_transfer_tx_hash = some nft_transfer_tx_hash;
    })

  unfoldable pub create_investment : String → CreateInvestmentDto → M e (Investment e.Number)
  create_investment investor_user_id dto = do
    reservation ← reserve_or_conflict investor_user_id dto
    settle_purchase investor_user_id dto reservation

  unfoldable pub find_mine : String → M e (List (Investment e.Number))
  find_mine investor_user_id =
      find_many e (investments e) (λ i. i.investor_user_id == investor_user_id)

  unfoldable pub find_my_transactions : String → M e (List (Transaction e.Number))
  find_my_transactions investor_user_id = find_many e (transactions e) (λ t.
      t.user_id == investor_user_id
      && (t.status == "PENDING_PAYMENT"
          || t.status == "PAYMENT_SUBMITTED"
          || t.status == "APPROVED"))

  unfoldable pub load_own : String → String → M e (Transaction e.Number)
  load_own transaction_id investor_user_id = do
    found ← find_unique e (transactions e) transaction_id
    or_throw (owned_by e investor_user_id found) (not_found "Transação não encontrada")

  unfoldable pub mark_as_paid : String → String → M e (Transaction e.Number)
  unfolding load_own
  mark_as_paid transaction_id investor_user_id = do
    transaction ← load_own transaction_id investor_user_id
    throw_if (not (transaction.status == "PENDING_PAYMENT"))
        (bad_request "Esta transação não está pendente de pagamento")
    update e (transactions e) transaction_id (λ t. record t { status = "PAYMENT_SUBMITTED" })

  unfoldable pub resolve_investor_address : String → M e String
  resolve_investor_address investor_user_id = do
    user ← find_unique e (users e) investor_user_id
    or_throw (wallet_of_found user)
        (bad_request "Investidor não possui carteira Stellar configurada")

  unfoldable pub load_approved_deposit : String → String → M e (Transaction e.Number)
  unfolding load_own
  load_approved_deposit transaction_id investor_user_id = do
    transaction ← load_own transaction_id investor_user_id
    throw_if (not (transaction.type == "DEPOSIT")) (bad_request "Transação não é um depósito")
    throw_if (not (transaction.status == "APPROVED"))
        (bad_request "Esta transação ainda não foi aprovada pelo admin")
    pure transaction

  unfoldable pub build_deposit_stage : String → String → DepositStage → M e UnsignedSorobanTx
  unfolding load_approved_deposit resolve_investor_address
  build_deposit_stage transaction_id investor_user_id stage = do
    transaction ← load_approved_deposit transaction_id investor_user_id
    investor_address ← resolve_investor_address investor_user_id
    elim stage [
      | approve ↦ send e e.unsigned_tx (build_approve_tx investor_address transaction.amount)
      | deposit ↦ send e e.unsigned_tx (build_deposit_tx investor_address transaction.amount)
    ]

  -- `submitDepositStage`, once the signed transaction is on the chain.
  unfoldable pub finish_stage :
      String → String → Transaction e.Number → DepositStage → String → M e StageReply
  finish_stage transaction_id investor_user_id transaction approve hash =
      pure (record { hash = hash; status = transaction.status })
  finish_stage transaction_id investor_user_id transaction deposit hash = do
    updated ←
        update e (transactions e) transaction_id
          (λ t. record t { status = "COMPLETED"; tx_hash = some hash })
    audit_create e "pool.deposit_completed" transaction_id "transaction" investor_user_id
        (some hash) (("amount", num transaction.amount) ∷ [])
    pure (record { hash = hash; status = updated.status })

  unfoldable pub submit_deposit_stage : String → String → SubmitDepositStageDto → M e StageReply
  unfolding load_approved_deposit resolve_investor_address finish_stage
  submit_deposit_stage transaction_id investor_user_id dto = do
    transaction ← load_approved_deposit transaction_id investor_user_id
    investor_address ← resolve_investor_address investor_user_id
    hash ← send e e.chain (submit_signed_tx dto.xdr investor_address dto.signature)
    finish_stage transaction_id investor_user_id transaction dto.stage hash
