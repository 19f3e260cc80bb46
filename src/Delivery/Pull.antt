-- ===== src/Delivery/Pull.antt =====
-- internal/server/pull_consumer.go, and the scan of expiration.go: messages that leave a queue on
-- demand, or since they have expired.
use gomq.Prelude.{
  ℕ, zero, suc, ◌+◌, ◌%◌, ◌^◌, Bool, List, [], ◌∷◌, Text, codes, Option, none, some, Result, ok,
  ◌>>=◌, if◌then◌else◌,
}
use gomq.Routing.Binding.{Args}
use gomq.Broker.Queues as Queues
use gomq.Broker.Message.{Message, set_delivery_tag}
use gomq.Broker.Store.{MessageStore, dequeue, len, remove_expired, all_queues}
use gomq.Broker.Tracker.{DeliveryTracker, record_tag}
use gomq.Delivery.Policy.{Platform, is_expired, should_dead_letter}
use gomq.Delivery.Deliverer.{Deliveries}
use gomq.Delivery.Publisher.{Topology, Stop, store_of, with_store, dead_letter}

-- The arguments of a queue, none where it is not there or no manager is given.
unfoldable pub queue_args : Text → Option Queues.QueueManager → Args
unfolding Queues.get
queue_args name m = elim m [
  | none ↦ []
  | some m ↦ elim (Queues.get name m) [ none ↦ [] | some q ↦ q.args ]
]

-- The loop of Get that skips expired messages.
unfoldable pub next_alive :
    ℕ → (Message → Bool) → Text → MessageStore → MessageStore × Option Message
unfolding dequeue
next_alive zero expired name s = (s, none)
next_alive (suc f) expired name s =
    let (s', found) = dequeue name s in
    let rest = next_alive f expired name s' in
    elim found [ none ↦ (s', none) | some msg ↦ if expired msg then rest else (s', some msg) ]

-- Get of a consumer whose last tag is `tag_seq`; the fuel is a round for each message of the queue.
unfoldable pub get :
    Platform
    → Option Queues.QueueManager
    → Text
    → Bool
    → ℕ
    → ℕ
    → DeliveryTracker
    → DeliveryTracker × ℕ × Option Message
unfolding queue_args next_alive is_expired len record_tag set_delivery_tag
get p queues name auto_ack channel_id tag_seq t =
    let (store, found) =
      next_alive (len name t.store) (λ m. is_expired p m (queue_args name queues)) name t.store in
    let t' : DeliveryTracker = record t { store = store } in
    elim found [
      | none ↦ (t', tag_seq, none)
      | some msg ↦
          if auto_ack
          then (t', tag_seq, some msg)
          else let tag = (tag_seq + 1) % 2 ^ 64 in
            let msg' = set_delivery_tag tag msg in
            (record_tag tag msg' name channel_id t', tag, some msg')
    ]

-- The calls of `onExpired`, in order.
unfoldable pub bury :
    Platform → Topology → Args → List Message → Deliveries → Result Stop Deliveries
unfolding should_dead_letter dead_letter
bury p t args [] d = ok d
bury p t args (m ∷ ms) d = do
  d ← (if should_dead_letter args (codes "expired") then dead_letter p t m args d else ok d)
  bury p t args ms d

unfoldable pub scan_queue : Platform → Topology → Text → Deliveries → Result Stop Deliveries
unfolding queue_args is_expired remove_expired store_of with_store bury
scan_queue p t name d =
    let args = queue_args name (some t.queues) in
    let (store, expired) = remove_expired name (λ m. is_expired p m args) (store_of d) in
    bury p t args expired (with_store store d)

unfoldable pub scan_names : Platform → Topology → List Text → Deliveries → Result Stop Deliveries
unfolding scan_queue
scan_names p t [] d = ok d
scan_names p t (name ∷ names) d = do d ← scan_queue p t name d; scan_names p t names d

unfoldable pub scan_all : Platform → Topology → Deliveries → Result Stop Deliveries
unfolding all_queues store_of scan_names
scan_all p t d = scan_names p t (all_queues (store_of d)) d
