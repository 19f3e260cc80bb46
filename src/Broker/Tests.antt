-- ===== src/Broker/Tests.antt =====
-- Runs of the managers of a virtual host on small states.
use gomq.Prelude.{
  ℕ, ◌≡◌, ◌≢◌, refl, ◌↔◌, ◌⊎◌, Bool, true, false, [], ◌∷◌, Text, codes, map, length, All, some,
  none, arith, text_eq, nat_eq, text_beq, ◌==◌, get_or, ap,
}
use gomq.Prelude.GoMap.{lookup}
use gomq.Routing.Binding.{Binding}
use gomq.Broker.Message.{Message}
use gomq.Broker.E2E.{E2EManager, E2EBinding, has_cycle}
use gomq.Broker.Cycle.{Leads}
use gomq.Broker.CycleFuel.{has_cycle_iff}
use gomq.Broker.Priority.{insert_by_priority, IsOrdered, Inserted, insert_by_priority_lem}
use gomq.Broker.Store.{MessageStore, queue_of, remove_expired}
use gomq.Broker.StoreLaws.{
  enqueue_all, dequeue_all, dequeue_all-enqueue_all, Interleaved, remove_expired_lem,
}
use gomq.Broker.Prefetch.{Limit, Prefetch}
use gomq.Broker.Bindings.{BindingManager, get_bindings, get_bindings_for_queue, unbind, list_of}
use gomq.Broker.BindingLaws.{Unbound, unbind_lem, unbind_stale}
use gomq.Broker.Tracker.{
  TrackedDelivery, DeliveryTracker, nack, get_delivery, recover_all, get_unacked,
}
use gomq.Broker.TrackerLaws.{Nacked, nack_lem, put_back_all, recover_all_lem}

abbrev edge : Text → Text → E2EBinding
edge a b = record { source = a; destination = b; routing_key = codes "k"; args = [] }

-- b leads to c, and c to b.
abbrev ring : E2EManager
ring =
    (codes "b", edge (codes "b") (codes "c") ∷ [])
    ∷ (codes "c", edge (codes "c") (codes "b") ∷ [])
    ∷ []

has_cycle_iff_example :
    (b : Bool) × (has_cycle (codes "a") (codes "b") ring ≡ some b)
    × ((b ≡ true) ↔ Leads ring (codes "a") (codes "b"))
has_cycle_iff_example = has_cycle_iff ring (codes "a") (codes "b")

abbrev message : ℕ → Text → Message
message priority payload = record {
  payload = payload;
  properties = record {
    content_type = [];
    content_encoding = [];
    headers = none;
    delivery_mode = 2;
    priority = priority;
    correlation_id = [];
    reply_to = [];
    expiration = [];
    message_id = [];
    timestamp = none;
    message_type = [];
    user_id = [];
    app_id = [];
    cluster_id = [];
  };
  exchange = [];
  routing_key = [];
  delivery_tag = 0;
  enqueued_at = none;
}

abbrev high : Message
high = message 5 (codes "high")

abbrev low : Message
low = message 1 (codes "low")

abbrev middle : Message
middle = message 3 (codes "middle")

high_low-IsOrdered : IsOrdered (high ∷ low ∷ [])
high_low-IsOrdered = ((omega arith, tt), (tt, tt))

insert_by_priority_lem_example :
    IsOrdered (insert_by_priority (high ∷ low ∷ []) middle)
    × Inserted (high ∷ low ∷ []) middle (insert_by_priority (high ∷ low ∷ []) middle)
insert_by_priority_lem_example = insert_by_priority_lem (high ∷ low ∷ []) middle high_low-IsOrdered

-- The queue q is not there; p has one message.
abbrev store : MessageStore
store = (codes "p", low ∷ []) ∷ []

q-empty : queue_of (codes "q") store ≡ []
unfolding queue_of text_beq lookup
q-empty = refl

dequeue_all-enqueue_all_example :
    let r = dequeue_all (codes "q") 2 (enqueue_all (codes "q") (high ∷ low ∷ []) store) in
    (r.1 ≡ map some (high ∷ low ∷ []))
    × (queue_of (codes "q") r.0 ≡ [])
    × ((p : Text) → codes "q" ≢ p → queue_of p r.0 ≡ queue_of p store)
dequeue_all-enqueue_all_example =
    dequeue_all-enqueue_all (codes "q") (high ∷ low ∷ []) store q-empty

-- Messages of priority 1 have expired.
abbrev is_low : Message → Bool
is_low m = m.properties.priority == 1

remove_expired_lem_example :
    let r = remove_expired (codes "p") is_low store in
    Interleaved (queue_of (codes "p") r.0) r.1 (queue_of (codes "p") store)
    × All (λ m. is_low m ≡ false) (queue_of (codes "p") r.0)
    × All (λ m. is_low m ≡ true) r.1
    × ((p : Text) → codes "p" ≢ p → queue_of p r.0 ≡ queue_of p store)
remove_expired_lem_example = remove_expired_lem (codes "p") is_low store

abbrev two : Limit
two = record { count = 2; size = 0; global = false }

abbrev limiter : Prefetch
limiter = record {
  global_limit = none;
  default_limit = some two;
  limits = [];
  by_chan = [];
  by_conn = 0;
}

abbrev bound : Binding
bound = record {
  exchange_name = codes "e";
  queue_name = codes "q";
  routing_key = codes "k";
  args = [];
}

abbrev bindings : BindingManager
bindings = record {
  by_exchange = (codes "e", bound ∷ []) ∷ [];
  by_queue = (codes "q", bound ∷ []) ∷ [];
  has_store = false;
  store_calls = [];
}

unbind_lem_example :
    let r = unbind (codes "e") (codes "q") (codes "k") bindings in
    Unbound
      (codes "q")
      (codes "k")
      (get_bindings (codes "e") bindings)
      (get_bindings (codes "e") r.0)
      r.1
    × ((other : Text) → codes "e" ≢ other → get_bindings other r.0 ≡ get_bindings other bindings)
unbind_lem_example = unbind_lem (codes "e") (codes "q") (codes "k") bindings

bindings-of_q : All (λ b. b.queue_name ≡ codes "q") (get_bindings_for_queue (codes "q") bindings)
unfolding get_bindings_for_queue list_of text_beq lookup
bindings-of_q = (refl, tt)

e-ne-q : codes "e" ≢ codes "q"
e-ne-q e = omega (arith, ap (λ (t : Text). get_or t 0 0) e)

unbind_stale_example :
    get_bindings_for_queue (codes "q") (unbind (codes "e") (codes "q") (codes "k") bindings).0
    ≡ get_bindings_for_queue (codes "q") bindings
unbind_stale_example =
    unbind_stale (codes "e") (codes "q") (codes "k") bindings bindings-of_q e-ne-q (codes "q")

abbrev in_flight : TrackedDelivery
in_flight = record { delivery_tag = 4; msg = low; queue_name = codes "p"; channel_id = 1 }

abbrev tracker : DeliveryTracker
tracker = record { by_channel = (1, (4, in_flight) ∷ []) ∷ []; store = store }

nack_lem_example :
    let r = nack 4 1 true tracker in
    Nacked 4 1 true tracker r.0 r.1
    × ((tag channel : ℕ)
        → (4 ≢ tag) ⊎ (1 ≢ channel)
        → get_delivery tag channel r.0 ≡ get_delivery tag channel tracker)
nack_lem_example = nack_lem 4 1 true tracker

recover_all_lem_example :
    let r = recover_all 1 true tracker in
    (r.1 ≡ length (get_unacked 1 tracker))
    × (get_unacked 1 r.0 ≡ [])
    × (r.0.store ≡ put_back_all true (get_unacked 1 tracker) store)
    × ((other : ℕ) → 1 ≢ other → get_unacked other r.0 ≡ get_unacked other tracker)
recover_all_lem_example = recover_all_lem 1 true tracker
