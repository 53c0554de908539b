-- ===== src/Pix/Callbacks/Deliveries.antt =====
-- Sequences of callbacks, of orders and of collections: a repeated event can be left out of any.
use mathlib.Core.Path.{subst}
use cred_bridge.Prelude.{
  String, ◌≡◌, refl, sym, ap, ◌∙◌, ◌⊎◌, inl, inr, Bool-cases, true, List, [], ◌∷◌, ◌++◌, ◌==◌,
}
use cred_bridge.Result.{Error, unique_constraint, ok}
use cred_bridge.Result.Preserves.{
  Preserves, Preserves-try_catch, Preserves-bind, Preserves-pure, preserves_rules,
}
use cred_bridge.Schema.{PixWebhookEvent}
use cred_bridge.Env.{Env, DatabaseLaws}
use cred_bridge.World.{World, M, events, create}
use cred_bridge.Result.Rules.{Ensures-outcome}
use cred_bridge.World.Rules.{SameButTicks, Ensures-create}
use cred_bridge.World.Preserves.{world_rules}
use cred_bridge.Pix.Dto.{PixWebhookDto, PixCollectionWebhookDto}
use cred_bridge.Pix.Callbacks.{
  refuse_duplicate, record_event, order_effects, process_pix_order_callback,
}
use cred_bridge.Pix.Callbacks.Events.{HasEvents, order_effects-HasEvents, collection_paid-HasEvents}
use cred_bridge.Pix.Callbacks.Redelivery.{
  IsSettled, process_order-IsSettled, process_collection-IsSettled, IsRecorded,
  recorded_order_ignored, recorded_collection_ignored,
}
use cred_bridge.Pix.Collections.{collection_paid, process_collection_callback}

pub data Delivery (e : Env) : Type 0 where
  order : PixWebhookDto e.Number → Delivery e
  collection : PixCollectionWebhookDto e.Number → Delivery e

module _ (e : Env) where
  abbrev pub event_of : Delivery e → String
  event_of (order dto) = dto.event_id
  event_of (collection dto) = dto.event_id

  -- The state after a delivery, whether it returned or threw.
  abbrev pub deliver : Delivery e → World e → World e
  deliver (order dto) w = (process_pix_order_callback e dto w).1
  deliver (collection dto) w = (process_collection_callback e dto w).1

  abbrev pub deliver_all : List (Delivery e) → World e → World e
  deliver_all [] w = w
  deliver_all (d ∷ ds) w = deliver_all ds (deliver d w)

  recorded_ignored : (d : Delivery e) (w : World e) → IsRecorded e (event_of d) w → deliver d w ≡ w
  recorded_ignored (order dto) w is = ap (λ o. o.1) (recorded_order_ignored e dto w is)
  recorded_ignored (collection dto) w is = ap (λ o. o.1) (recorded_collection_ignored e dto w is)

  -- What leaves the events alone keeps an event recorded.
  kept-IsRecorded :
      {A : Type 0} (id : String) (m : M e A)
      → ((rows : e.Rows (PixWebhookEvent e.Number)) → Preserves (HasEvents e rows) m)
      → Preserves (IsRecorded e id) m
  kept-IsRecorded id m keeps = record {
    at = λ w (x, found).
        (x, ap (e.find_unique (events e).key id) ((keeps w.events).at w refl) ∙ found);
  }

  module _ (laws : DatabaseLaws e) (id : String) where
    created-IsRecorded :
        (event : PixWebhookEvent e.Number) (w : World e) (t : e.Rows (PixWebhookEvent e.Number))
        → e.create (events e).key event w.events ≡ ok t
        → IsRecorded e id w
        → IsRecorded e id (record w { events = t })
    created-IsRecorded event w t made (x, found) =
        let law = laws.find-create (events e).key event.event_id id event w.events t refl made in
        elim (Bool-cases (event.event_id == id)) [
          | inl same ↦ (event, law ∙ rw same)
          | inr other ↦ (x, law ∙ rw (other, found))
        ]

    create-IsRecorded :
        (event : PixWebhookEvent e.Number) → Preserves (IsRecorded e id) (create e (events e) event)
    create-IsRecorded event = record {
      at = λ w is. Ensures-outcome {P = IsRecorded e id} _ w (
          Ensures-create e (events e) event w (λ t made. created-IsRecorded event w t made is)
            (λ x _. is));
    }

    refuse_duplicate-IsRecorded : (x : Error) → Preserves (IsRecorded e id) (refuse_duplicate e x)
    unfolding refuse_duplicate
    refuse_duplicate-IsRecorded (unique_constraint m) = search preserves_rules
    refuse_duplicate-IsRecorded x = search preserves_rules

    record_event-IsRecorded :
        (event : PixWebhookEvent e.Number) → Preserves (IsRecorded e id) (record_event e event)
    unfolding record_event
    record_event-IsRecorded event =
        Preserves-try_catch _ _
          (Preserves-bind _ _ (create-IsRecorded event) (λ _. Preserves-pure true))
          refuse_duplicate-IsRecorded

    order_effects-IsRecorded :
        (dto : PixWebhookDto e.Number) → Preserves (IsRecorded e id) (order_effects e dto)
    order_effects-IsRecorded dto = kept-IsRecorded id _ (λ rows. order_effects-HasEvents e rows dto)

    collection_paid-IsRecorded :
        (dto : PixCollectionWebhookDto e.Number)
        → Preserves (IsRecorded e id) (collection_paid e dto)
    collection_paid-IsRecorded dto =
        kept-IsRecorded id _ (λ rows. collection_paid-HasEvents e rows dto)

    process_order-IsRecorded :
        (dto : PixWebhookDto e.Number)
        → Preserves (IsRecorded e id) (process_pix_order_callback e dto)
    unfolding process_pix_order_callback
    process_order-IsRecorded dto =
        search (preserves_rules, world_rules, record_event-IsRecorded, order_effects-IsRecorded)
          depth 9

    process_collection-IsRecorded :
        (dto : PixCollectionWebhookDto e.Number)
        → Preserves (IsRecorded e id) (process_collection_callback e dto)
    unfolding process_collection_callback
    process_collection-IsRecorded dto =
        search (preserves_rules, world_rules, record_event-IsRecorded, collection_paid-IsRecorded)
          depth 9

    deliver-IsRecorded :
        (d : Delivery e) (w : World e) → IsRecorded e id w → IsRecorded e id (deliver d w)
    deliver-IsRecorded (order dto) w is = (process_order-IsRecorded dto).at w is
    deliver-IsRecorded (collection dto) w is = (process_collection-IsRecorded dto).at w is

  module _ (laws : DatabaseLaws e) where
    repeated_left_out :
        (before after : List (Delivery e)) (d : Delivery e) (w : World e)
        → IsRecorded e (event_of d) w
        → deliver_all (before ++ (d ∷ after)) w ≡ deliver_all (before ++ after) w
    repeated_left_out [] after d w is = ap (deliver_all after) (recorded_ignored d w is)
    repeated_left_out (b ∷ before) after d w is =
        repeated_left_out before after d (deliver b w) (deliver-IsRecorded laws (event_of d) b w is)

    deliver-IsSettled :
        (d : Delivery e) (w : World e) → IsSettled e laws (event_of d) w (deliver d w)
    deliver-IsSettled (order dto) w =
        Ensures-outcome {P = IsSettled e laws dto.event_id w} _ w
          (process_order-IsSettled e laws dto w)
    deliver-IsSettled (collection dto) w =
        Ensures-outcome {P = IsSettled e laws dto.event_id w} _ w
          (process_collection-IsSettled e laws dto w)

    -- An event counts once, under the laws of the database client. Whatever a callback of an order
    -- or of a collection did, and whether it returned or threw: either nothing but clock readings
    -- and generated ids has changed, or in every later sequence of callbacks, of orders and of
    -- collections, one with the same event id can be left out, wherever it stands and whatever its
    -- other contents, and the state at the end is the same.
    pub event_counts_once :
        (d d' : Delivery e) (w : World e)
        → event_of d' ≡ event_of d
        → SameButTicks e w (deliver d w)
          ⊎ ((before after : List (Delivery e))
              → deliver_all (before ++ (d' ∷ after)) (deliver d w)
                ≡ deliver_all (before ++ after) (deliver d w))
    event_counts_once d d' w same = elim (deliver-IsSettled d w) [
      | inl recorded ↦ inr (λ before after.
          repeated_left_out before after d' (deliver d w)
            (subst (λ id. IsRecorded e id (deliver d w)) (sym same) recorded))
      | inr unchanged ↦ inl unchanged
    ]
