-- ===== src/Broker/RouterLaws.antt =====
-- What the router answers, before and after a queue or an exchange is deleted.
use gomq.Prelude.{
  ◌≡◌, ◌≢◌, refl, [], All, Option, sym, ap, ◌∙◌, inl, inr, ◌↔◌, List, Text, In, none, some,
  Option-cases, Result, ok, err, text_eq,
}
use gomq.Routing.Binding.{Any, Args, Binding}
use gomq.Routing.Headers.{FloatOps}
use gomq.Routing.CollectLaws.{Distinct}
use gomq.Routing.Topic.{split}
use gomq.Routing.TopicLaws.{Matches}
use gomq.Routing.HeaderValues.{IsAny}
use gomq.Routing.HeadersLaws.{Agrees, Satisfied}
use gomq.Routing.Exchange.{
  ExchangeType, direct, fanout, topic, headers, unknown, Exchange, Router, direct_exchange,
  fanout_exchange, topic_exchange, headers_exchange, router,
}
use gomq.Routing.ExchangeLaws.{Accepts, route_exact}
use gomq.Broker.Bindings.{get_bindings, unbind_all_for_queue}
use gomq.Broker.Cascade.{unbind_all_for_queue_lem}
use gomq.Broker.BindingRuns.{Reached, Reached-IsKept}
use gomq.Broker.Exchanges as Exchanges
use gomq.Broker.Queues as Queues
use gomq.Broker.Router.{
  MessageRouter, RouteError, exchange_not_found, no_router, route_message, delete_queue,
}

-- What an exchange of the type does with a binding; a type that is not one of the four has no rule.
abbrev pub TypeRule : FloatOps → ExchangeType → Text → Args → Binding → Type 0
TypeRule o direct key msg_headers b = b.routing_key ≡ key
TypeRule o fanout key msg_headers b = Unit
TypeRule o topic key msg_headers b = Matches (split key) (split b.routing_key)
TypeRule o headers key msg_headers b =
    (b.args ≢ [])
    × (IsAny b.args → (a : Text × Any) × In a b.args × Agrees o msg_headers a)
    × ((¬ IsAny b.args) → All (Satisfied o msg_headers) b.args)
TypeRule o (unknown name) key msg_headers b = ⊥

abbrev pub IsKnown : ExchangeType → Type 0
IsKnown (unknown name) = ⊥
IsKnown _ = Unit

-- What the router answers.
pub data Routed (o : FloatOps) (name key : Text) (msg_headers : Args) (r : MessageRouter)
    (answer : Result RouteError (List Text)) : Type 0 where
  unknown_exchange :
      Exchanges.get name r.exchanges ≡ none
      → answer ≡ err exchange_not_found
      → Routed o name key msg_headers r answer
  unknown_type :
      (ex : Exchange)
      → Exchanges.get name r.exchanges ≡ some ex
      → ¬ IsKnown ex.exchange_type
      → answer ≡ err no_router
      → Routed o name key msg_headers r answer
  delivered :
      (ex : Exchange) (queues : List Text)
      → Exchanges.get name r.exchanges ≡ some ex
      → IsKnown ex.exchange_type
      → answer ≡ ok queues
      → Distinct queues
      → ((q : Text)
          → In q queues ↔ (
              (b : Binding) × In b (get_bindings name r.bindings)
              × TypeRule o ex.exchange_type key msg_headers b
              × (b.queue_name ≡ q)))
      → Routed o name key msg_headers r answer

abbrev router_of : ExchangeType → Option Router
router_of direct = some direct_exchange
router_of fanout = some fanout_exchange
router_of topic = some topic_exchange
router_of headers = some headers_exchange
router_of (unknown name) = none

router_lem : (ex : Exchange) → router ex ≡ router_of ex.exchange_type
unfolding router
router_lem ex = by_type ex.exchange_type
  where
    by_type :
        (t : ExchangeType)
        → (elim t as (λ t. Option Router) [
          | direct ↦ some direct_exchange
          | fanout ↦ some fanout_exchange
          | topic ↦ some topic_exchange
          | headers ↦ some headers_exchange
          | unknown _ ↦ none
        ])
          ≡ router_of t
    by_type direct = refl
    by_type fanout = refl
    by_type topic = refl
    by_type headers = refl
    by_type (unknown name) = refl

-- The router of a known type accepts by the rule of the type.
router_of-TypeRule :
    (o : FloatOps) (t : ExchangeType) (x : Router)
    → router_of t ≡ some x
    → IsKnown t
      × ((key : Text) (msg_headers : Args) (b : Binding)
          → Accepts o x key msg_headers b ↔ TypeRule o t key msg_headers b)
router_of-TypeRule o direct x e =
    let s : direct_exchange ≡ x = cc e in rw (← s) (tt, λ k h b. (λ r. r, λ r. r))
router_of-TypeRule o fanout x e =
    let s : fanout_exchange ≡ x = cc e in rw (← s) (tt, λ k h b. (λ r. r, λ r. r))
router_of-TypeRule o topic x e =
    let s : topic_exchange ≡ x = cc e in rw (← s) (tt, λ k h b. (λ r. r, λ r. r))
router_of-TypeRule o headers x e =
    let s : headers_exchange ≡ x = cc e in rw (← s) (tt, λ k h b. (λ r. r, λ r. r))
router_of-TypeRule o (unknown name) x e = absurd cc

router_of-none : (t : ExchangeType) → router_of t ≡ none → ¬ IsKnown t
router_of-none direct e = cc
router_of-none fanout e = cc
router_of-none topic e = cc
router_of-none headers e = cc
router_of-none (unknown name) e = λ x. x

-- The router answers that the exchange is missing exactly where it is not there, that there is no
-- router where its type is none of the four, and else with each queue once that a binding of the
-- exchange leads to which the rule of the exchange's type accepts.
pub route_message_lem :
    (o : FloatOps) (name key : Text) (msg_headers : Args) (r : MessageRouter)
    → Routed o name key msg_headers r (route_message o name key msg_headers r)
unfolding route_message
route_message_lem o name key msg_headers r = elim (Option-cases (Exchanges.get name r.exchanges)) [
  | inl e ↦ unknown_exchange e (rw (e, route_message))
  | inr (ex, e) ↦ elim (Option-cases (router ex)) [
    | inl n ↦
        unknown_type ex e (router_of-none ex.exchange_type (sym (router_lem ex) ∙ n))
          (rw (e, route_message, n))
    | inr (x, n) ↦
        let (distinct, exact) = route_exact o x key msg_headers (get_bindings name r.bindings) in
        let (known, rule) = router_of-TypeRule o ex.exchange_type x (sym (router_lem ex) ∙ n) in
        delivered ex _ e known (rw (e, route_message, n)) distinct (λ q. (
          λ i. let (b, j, t, k) = (exact q).0 i in (b, j, (rule key msg_headers b).0 t, k),
          λ (b, j, t, k). (exact q).1 (b, j, (rule key msg_headers b).1 t, k),
        ))
  ]
]

delete-missing :
    (name : Text) (m : Queues.QueueManager)
    → Queues.get name m ≡ none
    → Queues.delete name m ≡ (m, err Queues.queue_not_found)
unfolding Queues.delete Queues.get
delete-missing name m e = rw (e, Queues.delete)

delete-found :
    (name : Text) (m : Queues.QueueManager) (q : Queues.Queue)
    → Queues.get name m ≡ some q
    → (Queues.delete name m).1 ≡ ok tt
unfolding Queues.delete Queues.get
delete-found name m q e = rw (e, Queues.delete)

delete_queue-bindings :
    (name : Text) (r s : MessageRouter)
    → delete_queue name r ≡ (s, ok tt)
    → s.bindings ≡ unbind_all_for_queue name r.bindings
unfolding delete_queue
delete_queue-bindings name r s h = elim (Option-cases (Queues.get name r.queues)) [
  | inl e ↦ cc (rw (delete-missing name r.queues e, delete_queue) at h)
  | inr (q, e) ↦
      ap (λ (p : MessageRouter × Result Queues.QueueError (Unit {0})). p.0.bindings)
        (sym (rw (delete-found name r.queues q e, delete_queue) at h))
]

-- Take a manager of bindings that the operations lead to, where no exchange was bound to a queue of its
-- own name or unbound from it. After a queue is deleted, no routing leads to it, whatever the
-- exchange, the key and the headers are.
pub route_message-delete_queue :
    (o : FloatOps) (queue name key : Text) (msg_headers : Args) (r s : MessageRouter)
    (queues : List Text)
    → Reached r.bindings
    → delete_queue queue r ≡ (s, ok tt)
    → route_message o name key msg_headers s ≡ ok queues
    → ¬ In queue queues
route_message-delete_queue o queue name key msg_headers r s queues reached d h i =
    elim (route_message_lem o name key msg_headers s) [
      | unknown_exchange e a ↦ cc (sym a ∙ h)
      | unknown_type ex e n a ↦ cc (sym a ∙ h)
      | delivered ex found e n a distinct exact ↦
          let same : found ≡ queues = cc (sym a ∙ h) in
          let (b, j, t, q) = (exact queue).0 (rw same i) in
          unbind_all_for_queue_lem queue r.bindings (Reached-IsKept reached).synced name b
            (rw (← delete_queue-bindings queue r s d) j) q
    ]
