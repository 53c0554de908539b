-- ===== src/Pix/Callbacks/Redelivery.antt =====
-- A callback that is delivered again: an event has its effects once.
use mathlib.Core.Path.{subst}
use cred_bridge.Prelude.{
  ℕ, ◌+◌, String, ◌≡◌, refl, sym, ap, ◌∙◌, ◌⊎◌, inl, inr, Bool, true, false, some, ◌&&◌, ◌==◌,
}
use cred_bridge.Result.{Error, pure, branch, ok, unique_constraint, ◌>>=◌}
use cred_bridge.Result.Rules.{
  Ensures, Ensures-pure, Ensures-throw, Ensures-bind, Ensures-branch, Ensures-try_catch,
  Ensures-weaken, Ensures-outcome,
}
use cred_bridge.Result.Preserves.{Preserves, Ensures-kept}
use cred_bridge.Schema.{PixWebhookEvent}
use cred_bridge.Env.{Env, DatabaseLaws}
use cred_bridge.Env.Lookup.{find-create_self}
use cred_bridge.World.{World, M, events, actions}
use cred_bridge.World.Rules.{SameButTicks, Ensures-find_unique, Ensures-fresh_id, Ensures-create}
use cred_bridge.Pix.Dto.{PixWebhookDto, PixCollectionWebhookDto}
use cred_bridge.Pix.Callbacks.{
  refuse_duplicate, record_event, order_effects, process_pix_order_callback,
}
use cred_bridge.Pix.Callbacks.Events.{HasEvents, order_effects-HasEvents, collection_paid-HasEvents}
use cred_bridge.Pix.Collections.{collection_paid, process_collection_callback}

module _ (e : Env) where
  -- The event is in the table.
  abbrev pub IsRecorded : String → World e → Type 0
  IsRecorded event_id w =
      (x : PixWebhookEvent e.Number) × (e.find_unique (events e).key event_id w.events ≡ some x)

  pub recorded_order_ignored :
      (dto : PixWebhookDto e.Number) (w : World e)
      → IsRecorded dto.event_id w
      → process_pix_order_callback e dto w ≡ (ok tt, w)
  unfolding process_pix_order_callback ◌>>=◌ actions
  recorded_order_ignored dto w (x, found) = rw found

  pub recorded_collection_ignored :
      (dto : PixCollectionWebhookDto e.Number) (w : World e)
      → IsRecorded dto.event_id w
      → process_collection_callback e dto w ≡ (ok tt, w)
  unfolding process_collection_callback ◌>>=◌ actions
  recorded_collection_ignored dto w (x, found) = rw found

module _ (e : Env) (laws : DatabaseLaws e) where
  -- What `record_event` leaves behind, by its answer.
  abbrev Recorded : PixWebhookEvent e.Number → World e → Bool → World e → Type 0
  Recorded event w true s = e.find_unique (events e).key event.event_id s.events ≡ some event
  Recorded event w false s = s ≡ w

  refuse_duplicate-Recorded :
      (event : PixWebhookEvent e.Number) (w : World e) (x : Error)
      → Ensures (refuse_duplicate e x) w (Recorded event w) (λ _ s. s ≡ w)
  unfolding refuse_duplicate
  refuse_duplicate-Recorded event w (unique_constraint m) = Ensures-pure _ _ refl
  refuse_duplicate-Recorded event w x = Ensures-throw _ _ refl

  record_event-Recorded :
      (event : PixWebhookEvent e.Number) (w : World e)
      → Ensures (record_event e event) w (Recorded event w) (λ _ s. s ≡ w)
  unfolding record_event
  record_event-Recorded event w = Ensures-try_catch _ _ _ (
      Ensures-bind _ _ _ (
        Ensures-create e (events e) _ _
          (λ t made.
            Ensures-pure _ _ (find-create_self e laws (events e).key _ event _ t refl made))
          (λ x _. refuse_duplicate-Recorded event w x)))

  -- The event is in the table, or nothing has happened.
  abbrev pub IsSettled : String → World e → World e → Type 0
  IsSettled event_id w s = IsRecorded e event_id s ⊎ SameButTicks e w s

  ticked : (w s : World e) (n : ℕ) → s ≡ record w { ticks = n } → SameButTicks e w s
  ticked w s n same = subst (λ z. SameButTicks e w z) (sym same) refl

  -- Effects that leave the table of events alone keep the event recorded.
  effects-IsSettled :
      (event : PixWebhookEvent e.Number) (m : M e (Unit {0})) (w s : World e)
      → Recorded event w true s
      → Preserves (HasEvents e s.events) m
      → Ensures m s (λ _ s'. IsSettled event.event_id w s') (λ _ s'. IsSettled event.event_id w s')
  effects-IsSettled event m w s found keeps =
      Ensures-weaken _ _ (Ensures-kept m s keeps refl)
        (λ _ s' kept. inl (event, ap (e.find_unique (events e).key event.event_id) kept ∙ found))
        (λ _ s' kept. inl (event, ap (e.find_unique (events e).key event.event_id) kept ∙ found))

  order-IsSettled :
      (event : PixWebhookEvent e.Number) (dto : PixWebhookDto e.Number) (w s : World e) (b : Bool)
      → Recorded event (record w { ticks = w.ticks + 1 }) b s
      → Ensures
          (branch b (order_effects e dto) (pure tt))
          s
          (λ _ s'. IsSettled event.event_id w s')
          (λ _ s'. IsSettled event.event_id w s')
  order-IsSettled event dto w s true found =
      Ensures-branch _ _ _ _
        (λ _. effects-IsSettled event _ w s found (order_effects-HasEvents e s.events dto))
        (λ f. cc)
  order-IsSettled event dto w s false same =
      Ensures-branch _ _ _ _ (λ t. cc) (λ _. Ensures-pure _ _ (inr (ticked w s _ same)))

  pub process_order-IsSettled :
      (dto : PixWebhookDto e.Number) (w : World e)
      → Ensures
          (process_pix_order_callback e dto)
          w
          (λ _ s. IsSettled dto.event_id w s)
          (λ _ s. IsSettled dto.event_id w s)
  unfolding process_pix_order_callback
  process_order-IsSettled dto w = Ensures-bind _ _ _ (
      Ensures-find_unique e (events e) _ _ (
        Ensures-branch _ _ _ _ (λ _. Ensures-pure _ _ (inr refl))
          (λ _. Ensures-bind _ _ _ (
            Ensures-fresh_id e _ (
              Ensures-bind _ _ _ (
                Ensures-weaken _ _ (record_event-Recorded _ _)
                  (λ b s done. order-IsSettled _ dto w s b done)
                  (λ x s same. inr (ticked w s _ same))))))))

  collection-IsSettled :
      (event : PixWebhookEvent e.Number) (dto : PixCollectionWebhookDto e.Number) (w s : World e)
      (b : Bool)
      → Recorded event (record w { ticks = w.ticks + 1 }) b s
      → Ensures
          (branch (b && dto.status == "PAID") (collection_paid e dto) (pure tt))
          s
          (λ _ s'. IsSettled event.event_id w s')
          (λ _ s'. IsSettled event.event_id w s')
  collection-IsSettled event dto w s true found =
      Ensures-branch _ _ _ _
        (λ _. effects-IsSettled event _ w s found (collection_paid-HasEvents e s.events dto))
        (λ _. Ensures-pure _ _ (inl (event, found)))
  collection-IsSettled event dto w s false same =
      Ensures-branch _ _ _ _ (λ t. cc) (λ _. Ensures-pure _ _ (inr (ticked w s _ same)))

  pub process_collection-IsSettled :
      (dto : PixCollectionWebhookDto e.Number) (w : World e)
      → Ensures
          (process_collection_callback e dto)
          w
          (λ _ s. IsSettled dto.event_id w s)
          (λ _ s. IsSettled dto.event_id w s)
  unfolding process_collection_callback
  process_collection-IsSettled dto w = Ensures-bind _ _ _ (
      Ensures-find_unique e (events e) _ _ (
        Ensures-branch _ _ _ _ (λ _. Ensures-pure _ _ (inr refl))
          (λ _. Ensures-bind _ _ _ (
            Ensures-fresh_id e _ (
              Ensures-bind _ _ _ (
                Ensures-weaken _ _ (record_event-Recorded _ _)
                  (λ b s done. collection-IsSettled _ dto w s b done)
                  (λ x s same. inr (ticked w s _ same))))))))

  -- Whatever a delivery of an order callback did, and whether it returned or threw: either nothing
  -- but the clock readings and generated ids has changed, or a second delivery of the same event,
  -- with any other contents, returns at once and changes nothing.
  pub order_redelivered :
      (dto dto' : PixWebhookDto e.Number) (w : World e)
      → dto'.event_id ≡ dto.event_id
      → let s = (process_pix_order_callback e dto w).1 in
        SameButTicks e w s ⊎ (process_pix_order_callback e dto' s ≡ (ok tt, s))
  order_redelivered dto dto' w same = elim (Ensures-outcome _ w (process_order-IsSettled dto w)) [
    | inl (x, found) ↦ inr (recorded_order_ignored e dto' _ (x, rw same found))
    | inr unchanged ↦ inl unchanged
  ]

  -- After a callback of a collection, whether it returned or threw, either nothing has happened but
  -- readings of the clock and generated ids, or any later callback with the same event id returns
  -- and changes nothing.
  pub collection_redelivered :
      (dto dto' : PixCollectionWebhookDto e.Number) (w : World e)
      → dto'.event_id ≡ dto.event_id
      → let s = (process_collection_callback e dto w).1 in
        SameButTicks e w s ⊎ (process_collection_callback e dto' s ≡ (ok tt, s))
  collection_redelivered dto dto' w same =
      elim (Ensures-outcome _ w (process_collection-IsSettled dto w)) [
        | inl (x, found) ↦ inr (recorded_collection_ignored e dto' _ (x, rw same found))
        | inr unchanged ↦ inl unchanged
      ]
