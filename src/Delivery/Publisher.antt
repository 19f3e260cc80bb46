-- ===== src/Delivery/Publisher.antt =====
-- internal/server/publisher.go, and RouteDeadLetter of dead_letter.go.
use gomq.Prelude.{
  ℕ, zero, suc, ◌+◌, Bool, true, false, ◌&&◌, List, [], ◌∷◌, ◌++◌, Text, codes, length, none, some,
  Result, ok, err, ◌>>=◌, ◌==◌, text_eq, ltb, leb, if◌then◌else◌,
}
use gomq.Prelude.GoMap.{lookup, insert, lookup_or}
use gomq.Amqp.Signed.{ℤ, pos, negsuc}
use gomq.Routing.Binding.{Args, string}
use gomq.Routing.Exchange.{router, route}
use gomq.Broker.E2E as E2E
use gomq.Broker.Exchanges as Exchanges
use gomq.Broker.Queues as Queues
use gomq.Broker.Bindings.{BindingManager, get_bindings}
use gomq.Broker.Message.{Message, set_enqueued_at}
use gomq.Broker.Store.{MessageStore, enqueue, enqueue_priority, dequeue, len}
use gomq.Delivery.Policy.{Platform, get_dead_letter_config, max_length, max_priority, is_expired}
use gomq.Delivery.Deliverer.{Deliveries, ExchangeStats, message_published, deliver}

-- The managers that publishing reads.
pub record Topology : Type 0 where
  pub exchanges : Exchanges.ExchangeManager
  pub queues : Queues.QueueManager
  pub bindings : BindingManager
  pub e2e : E2E.E2EManager

pub data PublishError : Type 0 where
  exchange_loop exchange_not_found : PublishError

-- Why a call does not return: the fuel is at its end, or an exchange of a type without a router, at
-- whose nil router the source panics.
pub data Stop : Type 0 where
  out_of_fuel nil_router : Stop

-- The map of the exchanges that were visited, what the call changed, and its own result.
pub record Published : Type 0 where
  pub visited : E2E.Visited
  pub deliveries : Deliveries
  pub result : Result PublishError ℕ

abbrev pub Publish : Type 0
Publish = Text → Text → Message → E2E.Visited → Deliveries → Result Stop Published

abbrev pub DeadLetter : Type 0
DeadLetter = Message → Args → Deliveries → Result Stop Deliveries

unfoldable pub store_of : Deliveries → MessageStore
store_of d = d.tracker.store

unfoldable pub with_store : MessageStore → Deliveries → Deliveries
with_store s d = record d { tracker = record d.tracker { store = s } }

-- `maxLen > 0 && p.store.Len(qn) >= maxLen`
unfoldable pub is_full : ℤ → ℕ → Bool
is_full (pos n) size = ltb 0 n && leb n size
is_full (negsuc n) size = false

unfoldable pub make_room : Platform → DeadLetter → Text → Args → Deliveries → Result Stop Deliveries
unfolding max_length is_full len store_of dequeue with_store
make_room p dead_letter qn args d =
    if is_full (max_length p args) (len qn (store_of d))
    then (let (store, oldest) = dequeue qn (store_of d) in
        elim oldest [
          | none ↦ ok (with_store store d)
          | some m ↦ dead_letter m args (with_store store d)
        ])
    else ok d

-- The message enters the queue.
unfoldable pub put_message : Platform → Text → Args → Message → MessageStore → MessageStore
unfolding max_priority enqueue enqueue_priority
put_message p qn args msg s =
    if ltb 0 (max_priority p args) then enqueue_priority qn msg s else enqueue qn msg s

-- The body of the loop over the queues.
unfoldable pub publish_to :
    Platform
    → DeadLetter
    → Bool
    → ℕ
    → Topology
    → Message
    → Text
    → Deliveries
    → Result Stop Deliveries
unfolding Queues.get make_room put_message store_of with_store set_enqueued_at is_expired deliver
publish_to p dead_letter check_dlx channel_id t msg qn d = elim (Queues.get qn t.queues) [
  | none ↦ ok d
  | some q ↦ do
    d ← (if check_dlx then make_room p dead_letter qn q.args d else ok d)
    let msg = set_enqueued_at p.now msg
    let d = with_store (put_message p qn q.args msg (store_of d)) d
    ok (if is_expired p msg q.args then d else deliver p msg qn channel_id d)
]

unfoldable pub publish_to_all :
    (Text → Deliveries → Result Stop Deliveries) → List Text → Deliveries → Result Stop Deliveries
publish_to_all to [] d = ok d
publish_to_all to (qn ∷ queues) d = do d ← to qn d; publish_to_all to queues d

-- The loop over the bindings to other exchanges; `n` counts the queues so far.
unfoldable pub forward :
    Publish → Message → List E2E.E2EBinding → E2E.Visited → Deliveries → ℕ → Result Stop Published
forward publish msg [] visited d n =
    ok (record { visited = visited; deliveries = d; result = ok n })
forward publish msg (b ∷ bs) visited d n = do
  r ← publish b.destination b.routing_key msg visited d
  forward publish msg bs r.visited r.deliveries (elim r.result [ err _ ↦ n | ok n2 ↦ n + n2 ])

-- The two loops, over the queues that the exchange routes to and over its bindings to exchanges.
unfoldable pub publish_routed :
    Platform
    → DeadLetter
    → Bool
    → ℕ
    → Topology
    → Publish
    → Text
    → Message
    → List Text
    → E2E.Visited
    → Deliveries
    → Result Stop Published
unfolding publish_to publish_to_all E2E.get_bindings forward
publish_routed p dead_letter check_dlx channel_id t deeper exchange_name msg queues visited d = do
  d ← publish_to_all (publish_to p dead_letter check_dlx channel_id t msg) queues d
  forward deeper msg (E2E.get_bindings exchange_name t.e2e) visited d (length queues)

-- publishInternal, with what it calls for an exchange that a binding leads to.
unfoldable pub publish_step : Platform → DeadLetter → Bool → ℕ → Topology → Publish → Publish
unfolding lookup_or lookup insert Exchanges.get router route get_bindings publish_routed
publish_step p dead_letter check_dlx channel_id t deeper exchange_name routing_key msg visited d =
    if lookup_or false exchange_name visited
    then ok (record { visited = visited; deliveries = d; result = err exchange_loop })
    else let visited = insert exchange_name true visited in
      elim (Exchanges.get exchange_name t.exchanges) [
        | none ↦ ok (record { visited = visited; deliveries = d; result = err exchange_not_found })
        | some ex ↦ elim (router ex) [
          | none ↦ err nil_router
          | some r ↦
              let headers : Args = elim msg.properties.headers [ none ↦ [] | some h ↦ h ] in
              let queues =
                route p.float_ops r routing_key headers (get_bindings exchange_name t.bindings) in
              publish_routed p dead_letter check_dlx channel_id t deeper exchange_name msg queues
                visited d
        ]
      ]

unfoldable pub publish_internal : Platform → DeadLetter → Bool → ℕ → Topology → ℕ → Publish
unfolding publish_step
publish_internal p dead_letter check_dlx channel_id t zero =
    λ exchange_name routing_key msg visited d. err out_of_fuel
publish_internal p dead_letter check_dlx channel_id t (suc f) =
    publish_step p dead_letter check_dlx channel_id t
      (publish_internal p dead_letter check_dlx channel_id t f)

-- One call for each exchange that has bindings to others, and one for an exchange that has none.
unfoldable pub enough : Topology → ℕ
enough t = suc (length t.e2e)

-- The header x-original-routing-key.
unfoldable pub with_original_key : Message → Message
unfolding insert
with_original_key msg =
    let headers : Args = elim msg.properties.headers [ none ↦ [] | some h ↦ h ] in
    record msg {
      properties = record msg.properties {
        headers = some (insert (codes "x-original-routing-key") (string msg.routing_key) headers);
      };
    }

-- RouteDeadLetter; an error is dropped. Its own publishing makes no dead letters.
unfoldable pub dead_letter : Platform → Topology → DeadLetter
unfolding get_dead_letter_config with_original_key publish_internal enough
dead_letter p t msg args d = elim (get_dead_letter_config args) [
  | none ↦ ok d
  | some cfg ↦
      let rk = if cfg.routing_key == [] then msg.routing_key else cfg.routing_key in
      publish_internal p (λ m a d. ok d) false 0 t (enough t) cfg.exchange rk
        (with_original_key msg) [] d
      >>= λ r. ok r.deliveries
]

unfoldable pub record_stats : Text → ℕ → Deliveries → Deliveries
unfolding lookup insert
record_stats name routed d =
    let s : ExchangeStats = elim (lookup name d.stats) [
      | none ↦ record { received = 0; routed = 0 }
      | some s ↦ s
    ] in
    record d {
      stats =
          insert name (record { received = s.received + 1; routed = s.routed + routed }) d.stats;
    }

unfoldable pub exchange_stats : Text → Deliveries → ℕ × ℕ
unfolding lookup
exchange_stats name d = elim (lookup name d.stats) [
  | none ↦ (0, 0)
  | some s ↦ (s.received, s.routed)
]

-- What Publish counts where the message was routed.
unfoldable pub count_published : Text → Published → Deliveries × Result PublishError ℕ
unfolding record_stats
count_published exchange_name r = elim r.result [
  | err e ↦ (r.deliveries, err e)
  | ok n ↦
      let d = record_stats exchange_name n r.deliveries in
      (record d { metrics = d.metrics ++ message_published ∷ [] }, ok n)
]

unfoldable pub publish :
    Platform
    → Topology
    → Text
    → Text
    → Message
    → ℕ
    → Deliveries
    → Result Stop (Deliveries × Result PublishError ℕ)
unfolding publish_internal dead_letter enough count_published
publish p t exchange_name routing_key msg channel_id d =
    publish_internal p (dead_letter p t) true channel_id t (enough t) exchange_name routing_key msg
      [] d
    >>= λ r. ok (count_published exchange_name r)
