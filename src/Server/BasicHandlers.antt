-- ===== src/Server/BasicHandlers.antt =====
-- internal/server/basic_handlers.go: the methods of the class Basic.
use gomq.Prelude.{
  ℕ, ◌%◌, ◌^◌, Bool, false, not, ◌&&◌, [], ◌∷◌, ◌++◌, Text, codes, Option, none, some, Result, ok,
  err, ◌>>=◌, ◌==◌, nat_eq, if◌then◌else◌,
}
use gomq.Amqp.Decode.{read_uint8, read_uint16, read_uint32, read_uint64, read_short_string}
use gomq.Amqp.Encode.{write_uint8, write_uint16, write_uint64, write_bool, write_short_string}
use gomq.Amqp.Table.ReadTable.{read_table}
use gomq.Broker.Queues as Queues
use gomq.Broker.Message.{Message, Properties, new_message, set_routing_meta}
use gomq.Broker.Prefetch.{set_channel_prefetch}
use gomq.Broker.Tracker.{
  DeliveryTracker, TrackedDelivery, TrackerError, ack, nack, reject, recover_all, get_delivery,
}
use gomq.Broker.Groups.{Consumer}
use gomq.Broker.Consumers.{ConsumerError, subscribe, unsubscribe}
use gomq.Delivery.Policy.{Platform}
use gomq.Delivery.Deliverer.{Metric, message_acked, message_nacked}
use gomq.Delivery.Publisher.{publish, dead_letter}
use gomq.Delivery.Pull as Pull
use gomq.Server.Channel.{stage_tx_publish, next_delivery_tag}
use gomq.Server.Session.{
  Session, consumer_error, publish_error, stopped, Outcome, Handler, Action, done, run, read, skip,
  bit, args_of, res_exchange, res_queue, perm_write, perm_read, check_access, method, reply,
  reply_unless, set_channel, set_deliveries,
}

unfoldable pub handle_qos : Handler
unfolding run read read_uint32 read_uint16 read_uint8 bit set_channel_prefetch reply method done
handle_qos payload s = run s (do
  (prefetch_size, d) ← read read_uint32 payload
  (prefetch_count, d) ← read read_uint16 d
  (bits, d) ← read read_uint8 d
  let global = bit 0x01 bits
  ok (λ s.
      let prefetch =
        set_channel_prefetch s.channel.id prefetch_count (prefetch_size % 2 ^ 16) global
          s.server.prefetch in
      done (reply (method 60 11) (record s { server = record s.server { prefetch = prefetch } }))))

-- Basic.ConsumeOk, or the error of Subscribe.
unfoldable pub subscribed : Bool → Text → Result ConsumerError Consumer → Action
unfolding reply_unless method write_short_string done
subscribed no_wait tag result s = elim result [
  | err e ↦ (s, err (consumer_error e))
  | ok _ ↦ done (reply_unless no_wait (write_short_string (method 60 21) tag) s)
]

unfoldable pub handle_consume : Platform → Handler
unfolding run read skip read_uint16 read_uint8 read_short_string read_table check_access bit args_of
    subscribe set_deliveries subscribed
handle_consume p payload s = run s (do
  let d = skip read_uint16 payload
  (queue, d) ← read read_short_string d
  _ ← check_access s res_queue queue perm_read
  (tag, d) ← read read_short_string d
  (bits, d) ← read read_uint8 d
  let no_ack = bit 0x02 bits
  let exclusive = bit 0x04 bits
  let no_wait = bit 0x08 bits
  (args, d) ← read (read_table p.float_conv) d
  ok (λ s.
      let deliveries = s.server.deliveries in
      let (consumers, result) =
        subscribe tag queue s.channel.identity no_ack exclusive (some (args_of p args))
          deliveries.consumers in
      subscribed no_wait tag result
        (set_deliveries (record deliveries { consumers = consumers }) s)))

unfoldable pub handle_cancel : Handler
unfolding run read read_uint8 read_short_string bit unsubscribe set_deliveries reply_unless method
    write_short_string done
handle_cancel payload s = run s (do
  (tag, d) ← read read_short_string payload
  (bits, d) ← read read_uint8 d
  let no_wait = bit 0x01 bits
  ok (λ s.
      let deliveries = s.server.deliveries in
      let consumers = (unsubscribe tag deliveries.consumers).0 in
      let s = set_deliveries (record deliveries { consumers = consumers }) s in
      done (reply_unless no_wait (write_short_string (method 60 31) tag) s)))

-- Basic.Ack or Basic.Nack to the publisher.
unfoldable pub send_publisher_confirm : ℕ → Bool → Session → Session
unfolding reply method write_uint64 write_uint8
send_publisher_confirm tag acknowledged s =
    if acknowledged
    then reply (write_uint8 (write_uint64 (method 60 80) tag) 0) s
    else reply (write_uint8 (write_uint64 (method 60 120) tag) 0) s

abbrev no_properties : Properties
no_properties = record {
  content_type = [];
  content_encoding = [];
  headers = none;
  delivery_mode = 0;
  priority = 0;
  correlation_id = [];
  reply_to = [];
  expiration = [];
  message_id = [];
  timestamp = none;
  message_type = [];
  user_id = [];
  app_id = [];
  cluster_id = [];
}

-- The message that Basic.Publish makes: it has no payload.
unfoldable pub published_message : Text → Text → Message
unfolding new_message set_routing_meta
published_message exchange routing_key =
    set_routing_meta exchange routing_key (new_message [] no_properties)

-- The call of the publisher; `then` goes on with the number of queues.
unfoldable pub publish_now :
    Platform → Text → Text → Message → (ℕ → Session → Outcome) → Session → Outcome
unfolding publish set_deliveries
publish_now p exchange routing_key msg next s =
    elim (publish p s.server.topology exchange routing_key msg s.channel.id s.server.deliveries) [
      | err stop ↦ (s, err (stopped stop))
      | ok (d, result) ↦ elim result [
        | err e ↦ (set_deliveries d s, err (publish_error e))
        | ok routed ↦ next routed (set_deliveries d s)
      ]
    ]

-- Basic.Return where the message was to reach a queue and did not.
unfoldable pub return_unrouted : Bool → Text → Text → ℕ → Session → Outcome
unfolding done reply method write_uint16 write_short_string
return_unrouted mandatory exchange routing_key routed s =
    if mandatory && routed == 0
    then done (
        reply
          (write_short_string
            (write_short_string
              (write_short_string (write_uint16 (method 60 50) 312) (codes "NO_ROUTE")) exchange)
            routing_key)
          s)
    else done s

-- The three modes of the channel, each with the part that follows them.
unfoldable pub publish_in_mode : Platform → Text → Text → Bool → Action
unfolding published_message publish_now return_unrouted stage_tx_publish next_delivery_tag
    set_channel send_publisher_confirm
publish_in_mode p exchange routing_key mandatory s =
    let msg = published_message exchange routing_key in
    if s.channel.tx_mode
    then return_unrouted mandatory exchange routing_key 0
        (set_channel (stage_tx_publish exchange routing_key msg s.channel) s)
    else if s.channel.confirm_mode
    then (let (ch, tag) = next_delivery_tag s.channel in
        publish_now p exchange routing_key msg
          (λ routed s.
            return_unrouted mandatory exchange routing_key routed
              (send_publisher_confirm tag (not (routed == 0)) s))
          (set_channel ch s))
    else publish_now p exchange routing_key msg (return_unrouted mandatory exchange routing_key) s

unfoldable pub handle_publish : Platform → Handler
unfolding run read skip read_uint16 read_uint8 read_short_string check_access bit publish_in_mode
handle_publish p payload s = run s (do
  let d = skip read_uint16 payload
  (exchange, d) ← read read_short_string d
  _ ← check_access s res_exchange exchange perm_write
  (routing_key, d) ← read read_short_string d
  (bits, d) ← read read_uint8 d
  let mandatory = bit 0x01 bits
  ok (publish_in_mode p exchange routing_key mandatory))

-- Basic.GetEmpty, or Basic.GetOk.
unfoldable pub got : Text → Option Message → Action
unfolding reply method write_uint16 write_uint64 write_bool write_short_string done
got queue found s = elim found [
  | none ↦ done (reply (write_uint16 (method 60 72) 0) s)
  | some msg ↦
      let enc = write_bool (write_uint64 (method 60 71) msg.delivery_tag) false in
      done (reply (write_uint16 (write_short_string enc queue) 0) s)
]

-- The pull consumer is a new one for each call, so that its tags begin at 1.
unfoldable pub handle_get : Platform → Handler
unfolding run read skip read_uint16 read_uint8 read_short_string check_access bit Pull.get
    set_deliveries got
handle_get p payload s = run s (do
  let d = skip read_uint16 payload
  (queue, d) ← read read_short_string d
  _ ← check_access s res_queue queue perm_read
  (bits, d) ← read read_uint8 d
  let no_ack = bit 0x01 bits
  ok (λ s.
      let deliveries = s.server.deliveries in
      let (tracker, _, found) =
        Pull.get p (some s.server.topology.queues) queue no_ack s.channel.id 0 deliveries.tracker in
      got queue found (set_deliveries (record deliveries { tracker = tracker }) s)))

-- The tracker after a call, and what is counted.
unfoldable pub settle : DeliveryTracker → Metric → Session → Session
unfolding set_deliveries
settle t metric s =
    let d = s.server.deliveries in
    set_deliveries (record d { tracker = t; metrics = d.metrics ++ metric ∷ [] }) s

unfoldable pub handle_ack : Handler
unfolding run read read_uint64 ack settle done
handle_ack payload s = run s (do
  (tag, d) ← read read_uint64 payload
  ok (λ s.
      let t = (ack tag s.channel.id s.server.deliveries.tracker).0 in
      done (settle t message_acked s)))

-- The dead letter of a message that was refused and does not go back to its queue.
unfoldable pub bury_refused : Platform → Bool → Option TrackedDelivery → Action
unfolding Queues.get dead_letter set_deliveries done
bury_refused p requeue found s = elim found [
  | none ↦ done s
  | some d ↦ if requeue then done s else elim (Queues.get d.queue_name s.server.topology.queues) [
    | none ↦ done s
    | some q ↦ elim (dead_letter p s.server.topology d.msg q.args s.server.deliveries) [
      | err stop ↦ (s, err (stopped stop))
      | ok deliveries ↦ done (set_deliveries deliveries s)
    ]
  ]
]

-- handleNack and handleReject, with their call of the tracker.
unfoldable pub refuse :
    Platform
    → (ℕ → ℕ → Bool → DeliveryTracker → DeliveryTracker × Result TrackerError (Unit {0}))
    → Handler
unfolding run read read_uint64 read_uint8 bit get_delivery settle bury_refused
refuse p call payload s = run s (do
  (tag, d) ← read read_uint64 payload
  (bits, d) ← read read_uint8 d
  let requeue = bit 0x01 bits
  ok (λ s.
      let t = s.server.deliveries.tracker in
      let found = get_delivery tag s.channel.id t in
      let s = settle (call tag s.channel.id requeue t).0 message_nacked s in
      bury_refused p requeue found s))

unfoldable pub handle_nack : Platform → Handler
unfolding refuse nack
handle_nack p = refuse p nack

unfoldable pub handle_reject : Platform → Handler
unfolding refuse reject
handle_reject p = refuse p reject

-- handleRecover and handleChannelRecover, which answer with different methods.
unfoldable pub recover_with : ℕ → ℕ → Handler
unfolding run read read_uint8 bit recover_all set_deliveries reply method done
recover_with class_id method_id payload s = run s (do
  (bits, d) ← read read_uint8 payload
  let requeue = bit 0x01 bits
  ok (λ s.
      let d = s.server.deliveries in
      let tracker = (recover_all s.channel.id requeue d.tracker).0 in
      done (reply (method class_id method_id) (set_deliveries (record d { tracker = tracker }) s))))

unfoldable pub handle_recover : Handler
unfolding recover_with
handle_recover = recover_with 60 111
