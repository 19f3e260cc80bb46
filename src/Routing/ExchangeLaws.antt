-- ===== src/Routing/ExchangeLaws.antt =====
-- What each exchange type routes to.
use gomq.Prelude.{◌≡◌, ◌≢◌, refl, ◌↔◌, Bool, true, List, [], Text, In, All, text_eq, ==_iff}
use gomq.Routing.Binding.{Any, Binding, Args}
use gomq.Routing.Collect.{collect}
use gomq.Routing.CollectLaws.{Distinct, collect-IsRoute}
use gomq.Routing.Topic.{split}
use gomq.Routing.TopicLaws.{Matches, match_topic_pattern_iff}
use gomq.Routing.Headers.{FloatOps}
use gomq.Routing.HeaderValues.{IsAny}
use gomq.Routing.HeadersLaws.{Agrees, Satisfied, match_headers_iff}
use gomq.Routing.Exchange.{
  Router, direct_exchange, fanout_exchange, topic_exchange, headers_exchange, direct_route,
  fanout_route, topic_route, headers_route, route,
}

-- The rule of each exchange type for one binding.
abbrev pub Accepts : FloatOps → Router → Text → Args → Binding → Type 0
Accepts o direct_exchange key headers b = b.routing_key ≡ key
Accepts o fanout_exchange key headers b = Unit
Accepts o topic_exchange key headers b = Matches (split key) (split b.routing_key)
Accepts o headers_exchange key headers b =
    (b.args ≢ [])
    × (IsAny b.args → (a : Text × Any) × In a b.args × Agrees o headers a)
    × ((¬ IsAny b.args) → All (Satisfied o headers) b.args)

abbrev Exactly : (Binding → Type 0) → List Binding → List Text → Type 0
Exactly P bindings queues =
    Distinct queues
    × ((q : Text) → In q queues ↔ ((b : Binding) × In b bindings × P b × (b.queue_name ≡ q)))

collect-Exactly :
    (test : Binding → Bool) (P : Binding → Type 0) (bindings : List Binding)
    → ((b : Binding) → (test b ≡ true) ↔ P b)
    → Exactly P bindings (collect test bindings)
collect-Exactly test P bindings e =
    let r = collect-IsRoute test bindings in
    (
      r.distinct,
      λ q. (
        λ i. let (b, j, t, n) = (r.exact q).0 i in (b, j, (e b).0 t, n),
        λ (b, j, t, n). (r.exact q).1 (b, j, (e b).1 t, n),
      ),
    )

-- Every exchange type routes to each queue at most once, and to exactly the queues of the bindings
-- that its rule accepts.
pub route_exact :
    (o : FloatOps) (r : Router) (key : Text) (headers : Args) (bindings : List Binding)
    → Distinct (route o r key headers bindings)
      × ((q : Text)
          → In q (route o r key headers bindings)
            ↔ ((b : Binding) × In b bindings × Accepts o r key headers b × (b.queue_name ≡ q)))
unfolding route direct_route fanout_route topic_route headers_route
route_exact o direct_exchange key headers bindings =
    collect-Exactly _ (Accepts o direct_exchange key headers) bindings λ b. ==_iff b.routing_key key
route_exact o fanout_exchange key headers bindings =
    collect-Exactly _ (Accepts o fanout_exchange key headers) bindings λ b. (λ _. tt, λ _. refl)
route_exact o topic_exchange key headers bindings =
    collect-Exactly _ (Accepts o topic_exchange key headers) bindings
      λ b. match_topic_pattern_iff (split key) b.routing_key
route_exact o headers_exchange key headers bindings =
    collect-Exactly _ (Accepts o headers_exchange key headers) bindings
      λ b. match_headers_iff o headers b.args
