-- ===== src/Pix/Callbacks/Events.antt =====
-- The effects of a callback leave the table of recorded events alone.
use cred_bridge.Prelude.{String, ◌≡◌, Option, none, some}
use cred_bridge.Result.Preserves.{Preserves, preserves_rules}
use cred_bridge.Schema.{PixWebhookEvent, Transaction, User, Receivable, ReceivableCollection}
use cred_bridge.Env.{Env}
use cred_bridge.World.{World}
use cred_bridge.World.Preserves.{world_rules}
use cred_bridge.Settlements.{settle_open, settle_invoice}
use cred_bridge.Pix.Dto.{PixWebhookDto, PixCollectionWebhookDto}
use cred_bridge.Pix.Callbacks.{
  mint_deposit, handle_deposit_confirmed, handle_withdrawal_confirmed, handle_order_failed,
  handle_order_expired, dispatch_order, apply_order_callback, order_effects,
}
use cred_bridge.Pix.Collections.{
  payment_log_user, log_payment, mark_collection_paid, store_settlement_hash, collection_paid,
}

module _ (e : Env) (rows : e.Rows (PixWebhookEvent e.Number)) where
  abbrev pub HasEvents : World e → Type 0
  HasEvents w = w.events ≡ rows

  module _ (t : Transaction e.Number) (dto : PixWebhookDto e.Number) where
    mint_deposit-HasEvents : (address : String) → Preserves HasEvents (mint_deposit e t dto address)
    unfolding mint_deposit
    mint_deposit-HasEvents address = search (preserves_rules, world_rules)

    handle_deposit_confirmed-HasEvents :
        (user : User e.Number) → Preserves HasEvents (handle_deposit_confirmed e t user dto)
    unfolding handle_deposit_confirmed
    handle_deposit_confirmed-HasEvents user =
        search (preserves_rules, world_rules, mint_deposit-HasEvents)

    handle_withdrawal_confirmed-HasEvents :
        Preserves HasEvents (handle_withdrawal_confirmed e t dto)
    unfolding handle_withdrawal_confirmed
    handle_withdrawal_confirmed-HasEvents = search (preserves_rules, world_rules)

    handle_order_failed-HasEvents : Preserves HasEvents (handle_order_failed e t dto)
    unfolding handle_order_failed
    handle_order_failed-HasEvents = search (preserves_rules, world_rules)

    handle_order_expired-HasEvents : Preserves HasEvents (handle_order_expired e t dto)
    unfolding handle_order_expired
    handle_order_expired-HasEvents = search (preserves_rules, world_rules)

    ruleset handler_rules = (
      preserves_rules, world_rules, handle_deposit_confirmed-HasEvents,
      handle_withdrawal_confirmed-HasEvents, handle_order_failed-HasEvents,
      handle_order_expired-HasEvents,
    )

    dispatch_order-HasEvents :
        (user : User e.Number) → Preserves HasEvents (dispatch_order e t user dto)
    unfolding dispatch_order
    dispatch_order-HasEvents user = search handler_rules depth 8

    apply_order_callback-HasEvents : Preserves HasEvents (apply_order_callback e t dto)
    unfolding apply_order_callback
    apply_order_callback-HasEvents = search (preserves_rules, world_rules, dispatch_order-HasEvents)

  pub order_effects-HasEvents :
      (dto : PixWebhookDto e.Number) → Preserves HasEvents (order_effects e dto)
  unfolding order_effects
  order_effects-HasEvents dto =
      search (preserves_rules, world_rules, apply_order_callback-HasEvents)

  settle_open-HasEvents :
      (id : String) (r : Receivable e.Number) → Preserves HasEvents (settle_open e id r)
  unfolding settle_open
  settle_open-HasEvents id r = search (preserves_rules, world_rules) depth 8

  settle_invoice-HasEvents : (id : String) → Preserves HasEvents (settle_invoice e id)
  unfolding settle_invoice
  settle_invoice-HasEvents id = search (preserves_rules, world_rules, settle_open-HasEvents) depth 8

  module _ (dto : PixCollectionWebhookDto e.Number) where
    payment_log_user-HasEvents : Preserves HasEvents (payment_log_user e dto)
    unfolding payment_log_user
    payment_log_user-HasEvents = search (preserves_rules, world_rules) depth 8

    log_payment-HasEvents : Preserves HasEvents (log_payment e dto)
    unfolding log_payment
    log_payment-HasEvents =
        search (preserves_rules, world_rules, payment_log_user-HasEvents) depth 8

    mark_collection_paid-HasEvents :
        (c : Option (ReceivableCollection e.Number))
        → Preserves HasEvents (mark_collection_paid e c dto)
    unfolding mark_collection_paid
    mark_collection_paid-HasEvents none = search (preserves_rules, world_rules) depth 8
    mark_collection_paid-HasEvents (some c) = search (preserves_rules, world_rules) depth 8

    store_settlement_hash-HasEvents :
        (c : Option (ReceivableCollection e.Number)) (h : Option String)
        → Preserves HasEvents (store_settlement_hash e c h)
    unfolding store_settlement_hash
    store_settlement_hash-HasEvents (some c) (some h) =
        search (preserves_rules, world_rules) depth 8
    store_settlement_hash-HasEvents (some c) none = search preserves_rules
    store_settlement_hash-HasEvents none h = search preserves_rules

    ruleset payment_rules = (
      preserves_rules, world_rules, settle_invoice-HasEvents, log_payment-HasEvents,
      mark_collection_paid-HasEvents, store_settlement_hash-HasEvents,
    )

    pub collection_paid-HasEvents : Preserves HasEvents (collection_paid e dto)
    unfolding collection_paid
    collection_paid-HasEvents = search payment_rules depth 8
