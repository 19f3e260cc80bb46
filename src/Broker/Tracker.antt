-- ===== src/Broker/Tracker.antt =====
-- internal/server/delivery_tracker.go and tracked_delivery.go: deliveries that wait for an
-- acknowledgement. Its mutex makes each call atomic.
use gomq.Prelude.{
  ℕ, ◌+◌, Bool, List, [], ◌∷◌, map, Text, length, Option, none, some, Result, ok, err, nat_eq,
  if◌then◌else◌,
}
use gomq.Prelude.GoMap.{GoMap, lookup, insert, remove}
use gomq.Broker.Message.{Message}
use gomq.Broker.Store.{MessageStore, enqueue}

-- The field sentAt, which nothing reads, is left out.
pub record TrackedDelivery : Type 0 where
  pub delivery_tag : ℕ
  pub msg : Message
  pub queue_name : Text
  pub channel_id : ℕ

unfoldable pub new_tracked_delivery : ℕ → Message → Text → ℕ → TrackedDelivery
new_tracked_delivery tag msg queue_name channel_id = record {
  delivery_tag = tag;
  msg = msg;
  queue_name = queue_name;
  channel_id = channel_id;
}

abbrev pub Deliveries : Type 0
Deliveries = GoMap ℕ TrackedDelivery

-- The tracker, with the store that it shares.
pub record DeliveryTracker : Type 0 where
  pub by_channel : GoMap ℕ Deliveries
  pub store : MessageStore

pub data TrackerError : Type 0 where
  no_deliveries tag_not_found : TrackerError

unfoldable pub new_delivery_tracker : MessageStore → DeliveryTracker
new_delivery_tracker store = record { by_channel = []; store = store }

-- A missing channel reads as an empty map, which is made for it.
unfoldable pub record_tag : ℕ → Message → Text → ℕ → DeliveryTracker → DeliveryTracker
unfolding lookup insert new_tracked_delivery
record_tag tag msg queue_name channel t =
    let ch_map : Deliveries = elim (lookup channel t.by_channel) [ none ↦ [] | some c ↦ c ] in
    let d = new_tracked_delivery tag msg queue_name channel in
    record t { by_channel = insert channel (insert tag d ch_map) t.by_channel }

unfoldable pub ack : ℕ → ℕ → DeliveryTracker → DeliveryTracker × Result TrackerError (Unit {0})
unfolding lookup insert remove
ack tag channel t = elim (lookup channel t.by_channel) [
  | none ↦ (t, err no_deliveries)
  | some ch_map ↦ elim (lookup tag ch_map) [
    | none ↦ (t, err tag_not_found)
    | some _ ↦ (record t { by_channel = insert channel (remove tag ch_map) t.by_channel }, ok tt)
  ]
]

unfoldable pub nack :
    ℕ → ℕ → Bool → DeliveryTracker → DeliveryTracker × Result TrackerError (Unit {0})
unfolding lookup insert remove enqueue
nack tag channel requeue t = elim (lookup channel t.by_channel) [
  | none ↦ (t, err no_deliveries)
  | some ch_map ↦ elim (lookup tag ch_map) [
    | none ↦ (t, err tag_not_found)
    | some d ↦ (
      record {
        by_channel = insert channel (remove tag ch_map) t.by_channel;
        store = if requeue then enqueue d.queue_name d.msg t.store else t.store;
      },
      ok tt,
    )
  ]
]

unfoldable pub reject :
    ℕ → ℕ → Bool → DeliveryTracker → DeliveryTracker × Result TrackerError (Unit {0})
unfolding nack
reject tag channel requeue t = nack tag channel requeue t

-- The loop that puts the messages of a channel back.
unfoldable pub requeue_all : Deliveries → MessageStore → MessageStore
unfolding enqueue
requeue_all [] store = store
requeue_all ((tag, d) ∷ ch_map) store = requeue_all ch_map (enqueue d.queue_name d.msg store)

-- Both branches count the deliveries of the channel.
unfoldable pub recover_all : ℕ → Bool → DeliveryTracker → DeliveryTracker × ℕ
unfolding lookup remove requeue_all
recover_all channel requeue t = elim (lookup channel t.by_channel) [
  | none ↦ (t, 0)
  | some ch_map ↦ (
    record {
      by_channel = remove channel t.by_channel;
      store = if requeue then requeue_all ch_map t.store else t.store;
    },
    length ch_map,
  )
]

unfoldable pub nack_all : ℕ → Bool → DeliveryTracker → DeliveryTracker
unfolding lookup remove requeue_all
nack_all channel requeue t = elim (lookup channel t.by_channel) [
  | none ↦ t
  | some ch_map ↦ record {
    by_channel = remove channel t.by_channel;
    store = if requeue then requeue_all ch_map t.store else t.store;
  }
]

unfoldable pub get_delivery : ℕ → ℕ → DeliveryTracker → Option TrackedDelivery
unfolding lookup
get_delivery tag channel t = elim (lookup channel t.by_channel) [
  | none ↦ none
  | some ch_map ↦ lookup tag ch_map
]

unfoldable pub get_unacked : ℕ → DeliveryTracker → List TrackedDelivery
unfolding lookup
get_unacked channel t = elim (lookup channel t.by_channel) [
  | none ↦ []
  | some ch_map ↦ map (λ p. p.1) ch_map
]

unfoldable pub total : GoMap ℕ Deliveries → ℕ
total [] = 0
total ((channel, ch_map) ∷ m) = length ch_map + total m

unfoldable pub count : DeliveryTracker → ℕ
unfolding total
count t = total t.by_channel
