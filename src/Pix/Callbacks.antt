-- ===== src/Pix/Callbacks.antt =====
-- apps/api/src/modules/pix/pix.service.ts: the callbacks of the Pix microservice.
pub mod Events
pub mod Redelivery
pub mod Deliveries
pub mod Minting
use cred_bridge.Prelude.{
  String, Bool, true, false, ◌&&◌, none, some, [], ◌∷◌, ◌==◌, or_else, truthy, is_some,
  if◌then◌else◌,
}
use cred_bridge.Result.{
  Error, unique_constraint, failure, pure, throw, or_throw, try_catch, if_some, branch, error_text,
  ◌>>=◌, ◌>>◌,
}
use cred_bridge.Schema.{str, num, str_or_null, User, Transaction, PixWebhookEvent}
use cred_bridge.Ports.{mint_brlt}
use cred_bridge.Env.{Env}
use cred_bridge.World.{
  M, users, transactions, events, fresh_id, send, find_unique, create, update, audit_create,
}
use cred_bridge.Pix.Dto.{PixWebhookDto}
use cred_bridge.Pix.Orders.{keep_unless, map_option, wallet_of}

module _ (e : Env) where
  -- `handleDepositConfirmed`, past the check of the wallet: the `try` and its `catch`.
  unfoldable pub mint_deposit :
      Transaction e.Number → PixWebhookDto e.Number → String → M e (Unit {0})
  mint_deposit transaction dto wallet_address =
      try_catch
        (do
          tx_hash ← send e e.chain (mint_brlt wallet_address dto.amount)
          update e (transactions e) transaction.id
              (λ t. record t { status = "APPROVED"; tx_hash = some tx_hash })
          audit_create e "pix.deposit.confirmed" transaction.id "transaction" transaction.user_id
              (some tx_hash)
              (("pixOrderId", str dto.pix_order_id)
                ∷ ("endToEndId", str_or_null dto.end_to_end_id)
                ∷ ("amount", num dto.amount)
                ∷ []))
        (λ mint_error.
          audit_create e "pix.deposit.mint_failed" transaction.id "transaction" transaction.user_id
            none (("error", str (error_text mint_error)) ∷ []))

  unfoldable pub handle_deposit_confirmed :
      Transaction e.Number → User e.Number → PixWebhookDto e.Number → M e (Unit {0})
  unfolding mint_deposit
  handle_deposit_confirmed transaction user dto =
      if_some (wallet_of user) (mint_deposit transaction dto) (do
        update e (transactions e) transaction.id (λ t. record t {
          status = "FAILED";
          pix_failure_reason = some "Carteira Stellar não configurada para o investidor";
        })
        pure tt)

  unfoldable pub handle_withdrawal_confirmed :
      Transaction e.Number → PixWebhookDto e.Number → M e (Unit {0})
  handle_withdrawal_confirmed transaction dto = do
    update e (transactions e) transaction.id (λ t. record t { status = "COMPLETED" })
    audit_create e "pix.withdrawal.confirmed" transaction.id "transaction" transaction.user_id none
        (("pixOrderId", str dto.pix_order_id)
          ∷ ("endToEndId", str_or_null dto.end_to_end_id)
          ∷ ("amount", num dto.amount)
          ∷ [])

  unfoldable pub handle_order_failed :
      Transaction e.Number → PixWebhookDto e.Number → M e (Unit {0})
  handle_order_failed transaction dto = do
    update e (transactions e) transaction.id (λ t. record t {
      status = "FAILED";
      pix_failure_reason = some (or_else dto.failure_reason "Falha no processamento Pix");
    })
    audit_create e "pix.order.failed" transaction.id "transaction" transaction.user_id none (
        ("pixOrderId", str dto.pix_order_id)
        ∷ ("failureReason", str_or_null dto.failure_reason)
        ∷ ("type", str dto.type)
        ∷ [])

  unfoldable pub handle_order_expired :
      Transaction e.Number → PixWebhookDto e.Number → M e (Unit {0})
  handle_order_expired transaction dto = do
    update e (transactions e) transaction.id (λ t. record t { status = "EXPIRED" })
    audit_create e "pix.deposit.expired" transaction.id "transaction" transaction.user_id none
        (("pixOrderId", str dto.pix_order_id) ∷ [])

  -- P2002, the violation of a unique constraint, means a duplicate.
  unfoldable pub refuse_duplicate : Error → M e Bool
  refuse_duplicate (unique_constraint m) = pure false
  refuse_duplicate x = throw x

  -- The `try { create } catch` of both callbacks: false where the event is a duplicate.
  unfoldable pub record_event : PixWebhookEvent e.Number → M e Bool
  unfolding refuse_duplicate
  record_event event = try_catch (do create e (events e) event; pure true) refuse_duplicate

  -- The dispatch at the end of `processPixOrderCallback`.
  unfoldable pub dispatch_order :
      Transaction e.Number → User e.Number → PixWebhookDto e.Number → M e (Unit {0})
  unfolding handle_deposit_confirmed handle_withdrawal_confirmed handle_order_failed
      handle_order_expired
  dispatch_order transaction user dto =
      branch (dto.status == "CONFIRMED" && dto.type == "DEPOSIT")
        (handle_deposit_confirmed transaction user dto)
        (branch (dto.status == "CONFIRMED" && dto.type == "WITHDRAWAL")
          (handle_withdrawal_confirmed transaction dto)
          (branch (dto.status == "FAILED") (handle_order_failed transaction dto)
            (branch (dto.status == "EXPIRED") (handle_order_expired transaction dto) (pure tt))))

  -- What `processPixOrderCallback` does once the transaction is found. The row is read together
  -- with its user, before the update.
  unfoldable pub apply_order_callback :
      Transaction e.Number → PixWebhookDto e.Number → M e (Unit {0})
  unfolding dispatch_order
  apply_order_callback transaction dto = do
    found_user ← find_unique e (users e) transaction.user_id
    user ←
        or_throw found_user
          (failure "PrismaClientUnknownRequestError" "Field user is required to return data")
    update e (transactions e) transaction.id (λ t. record t {
      pix_end_to_end_id = keep_unless dto.end_to_end_id t.pix_end_to_end_id;
      pix_confirmed_at =
          keep_unless (map_option e.parse_date (truthy dto.confirmed_at)) t.pix_confirmed_at;
      pix_failure_reason = keep_unless dto.failure_reason t.pix_failure_reason;
      pix_payment_id = keep_unless dto.payment_id t.pix_payment_id;
      pix_transaction_id = keep_unless dto.transaction_id t.pix_transaction_id;
    })
    dispatch_order transaction user dto

  -- `processPixOrderCallback`, past the recording of the event.
  unfoldable pub order_effects : PixWebhookDto e.Number → M e (Unit {0})
  unfolding apply_order_callback
  order_effects dto = do
    found ← find_unique e (transactions e) dto.external_id
    if_some found (λ transaction. apply_order_callback transaction dto) (pure tt)

  unfoldable pub process_pix_order_callback : PixWebhookDto e.Number → M e (Unit {0})
  unfolding record_event order_effects
  process_pix_order_callback dto = do
    already_processed ← find_unique e (events e) dto.event_id
    branch (is_some already_processed) (pure tt) (do
      id ← fresh_id e
      recorded ← record_event (record {
        id = id;
        event_id = dto.event_id;
        pix_order_id = dto.pix_order_id;
        external_id = dto.external_id;
        identifier = some dto.identifier;
        type = dto.type;
        status = dto.status;
        amount = dto.amount;
      })
      branch recorded (order_effects dto) (pure tt))
