-- ===== src/Delivery/Deliverer.antt =====
-- internal/server/deliverer.go, and the DeliveryBatch of batch.go. The batches are flushed through a
-- placeholder that sends no frame.
use gomq.Prelude.{
  ℕ, not, List, [], ◌∷◌, ◌++◌, Text, length, Option, none, some, ◌==◌, nat_eq, text_eq, leb,
  if◌then◌else◌,
}
use gomq.Prelude.GoMap.{GoMap, lookup, insert, lookup_or}
use gomq.Broker.Message.{Message, set_delivery_tag}
use gomq.Broker.Tracker.{DeliveryTracker, record_tag}
use gomq.Broker.Groups.{Consumer}
use gomq.Broker.GroupManager.{choose_member}
use gomq.Broker.Consumers.{ConsumerManager, get_consumers}
use gomq.Delivery.Policy.{Platform}

pub record DeliveryItem : Type 0 where
  pub msg : Message
  pub queue_name : Text
  pub tag : ℕ

-- The channel of the batch stands by its identity.
pub record DeliveryBatch : Type 0 where
  pub items : List DeliveryItem
  pub channel : ℕ

-- What the parts of the broker ask of their metrics.
pub data Metric : Type 0 where
  message_published message_consumed message_acked message_nacked : Metric

pub record ExchangeStats : Type 0 where
  pub received : ℕ
  pub routed : ℕ

-- What publishing and delivering change: the tracker with its message store, the counters of the
-- consumer groups, the batches, and the statistics of the publisher.
pub record Deliveries : Type 0 where
  pub tracker : DeliveryTracker
  pub consumers : ConsumerManager
  pub batches : GoMap ℕ DeliveryBatch
  pub stats : GoMap Text ExchangeStats
  pub metrics : List Metric

abbrev pub batch_max_size : ℕ
batch_max_size = 64

unfoldable pub flush : DeliveryBatch → DeliveryBatch
flush b = record b { items = [] }

-- DeliveryBatch.Add
unfoldable pub add_item : DeliveryItem → DeliveryBatch → DeliveryBatch
unfolding flush
add_item item b =
    let b' : DeliveryBatch = record b { items = b.items ++ item ∷ [] } in
    if leb batch_max_size (length b'.items) then flush b' else b'

unfoldable pub get_or_create_batch : ℕ → ℕ → GoMap ℕ DeliveryBatch → DeliveryBatch
unfolding lookup
get_or_create_batch ch_id ch batches = elim (lookup ch_id batches) [
  | some b ↦ b
  | none ↦ record { items = []; channel = ch }
]

unfoldable pub flush_all : GoMap ℕ DeliveryBatch → GoMap ℕ DeliveryBatch
unfolding flush
flush_all [] = []
flush_all ((ch, b) ∷ batches) = (ch, flush b) ∷ flush_all batches

unfoldable pub deliver_to : Message → Consumer → Text → ℕ → Deliveries → Deliveries
unfolding set_delivery_tag get_or_create_batch add_item insert record_tag
deliver_to msg c queue_name channel_id d =
    let tag : ℕ = 0 in
    let msg = set_delivery_tag tag msg in
    let item : DeliveryItem = record { msg = msg; queue_name = queue_name; tag = tag } in
    let batch = add_item item (get_or_create_batch channel_id c.channel d.batches) in
    record d {
      batches = insert channel_id batch d.batches;
      tracker = record_tag tag msg queue_name channel_id d.tracker;
      metrics = d.metrics ++ message_consumed ∷ [];
    }

-- The consumers by their group, and those without one.
unfoldable pub split_groups :
    List Consumer
    → GoMap Text (List Consumer)
    → List Consumer
    → GoMap Text (List Consumer) × List Consumer
unfolding insert lookup_or lookup
split_groups [] grouped ungrouped = (grouped, ungrouped)
split_groups (c ∷ cs) grouped ungrouped =
    if not (c.group_id == [])
    then split_groups cs (insert c.group_id (lookup_or [] c.group_id grouped ++ c ∷ []) grouped)
        ungrouped
    else split_groups cs grouped (ungrouped ++ c ∷ [])

-- The member of the group that gets the message; without a group manager, the first.
unfoldable pub member_of :
    Platform → Message → Text → List Consumer → Deliveries → Deliveries × Option Consumer
unfolding choose_member
member_of p msg gid members d = elim d.consumers.group_mgr [
  | none ↦ (d, elim members [ [] ↦ none | c ∷ cs ↦ some c ])
  | some gm ↦
      let (gm', c) = choose_member p.hash gid msg.routing_key gm in
      (record d { consumers = record d.consumers { group_mgr = some gm' } }, c)
]

unfoldable pub deliver_chosen : Message → Text → ℕ → Option Consumer → Deliveries → Deliveries
unfolding deliver_to
deliver_chosen msg queue_name channel_id none d = d
deliver_chosen msg queue_name channel_id (some c) d = deliver_to msg c queue_name channel_id d

unfoldable pub deliver_groups :
    Platform → Message → Text → ℕ → GoMap Text (List Consumer) → Deliveries → Deliveries
unfolding member_of deliver_chosen
deliver_groups p msg queue_name channel_id [] d = d
deliver_groups p msg queue_name channel_id ((gid, members) ∷ grouped) d =
    let (d', chosen) = member_of p msg gid members d in
    deliver_groups p msg queue_name channel_id grouped
      (deliver_chosen msg queue_name channel_id chosen d')

unfoldable pub deliver_each : Message → Text → ℕ → List Consumer → Deliveries → Deliveries
unfolding deliver_to
deliver_each msg queue_name channel_id [] d = d
deliver_each msg queue_name channel_id (c ∷ cs) d =
    deliver_each msg queue_name channel_id cs (deliver_to msg c queue_name channel_id d)

unfoldable pub deliver : Platform → Message → Text → ℕ → Deliveries → Deliveries
unfolding get_consumers split_groups deliver_groups deliver_each
deliver p msg queue_name channel_id d =
    let (grouped, ungrouped) = split_groups (get_consumers queue_name d.consumers) [] [] in
    deliver_each msg queue_name channel_id ungrouped
      (deliver_groups p msg queue_name channel_id grouped d)
