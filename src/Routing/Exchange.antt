-- ===== src/Routing/Exchange.antt =====
-- internal/server/exchange.go, and the Route methods of exchange_direct.go, exchange_fanout.go,
-- exchange_topic.go and exchange_headers.go.
use gomq.Prelude.{Bool, true, List, [], Text, Option, none, some, ◌==◌, text_eq}
use gomq.Routing.Binding.{Binding, Args}
use gomq.Routing.Collect.{collect}
use gomq.Routing.Topic.{split, match_topic_pattern}
use gomq.Routing.Headers.{FloatOps, match_headers}

-- A type that the code does not know keeps its name.
pub data ExchangeType : Type 0 where
  direct fanout topic headers : ExchangeType
  unknown : Text → ExchangeType

pub record Exchange : Type 0 where
  pub name : Text
  pub exchange_type : ExchangeType
  pub durable : Bool
  pub auto_delete : Bool
  pub internal : Bool
  pub args : Args

unfoldable pub new_exchange : Text → ExchangeType → Bool → Bool → Bool → Option Args → Exchange
new_exchange name ex_type durable auto_delete internal args = record {
  name = name;
  exchange_type = ex_type;
  durable = durable;
  auto_delete = auto_delete;
  internal = internal;
  args = elim args [ none ↦ [] | some a ↦ a ];
}

unfoldable pub direct_route : Text → List Binding → List Text
unfolding collect
direct_route key bindings = collect (λ b. b.routing_key == key) bindings

unfoldable pub fanout_route : List Binding → List Text
unfolding collect
fanout_route bindings = collect (λ b. true) bindings

unfoldable pub topic_route : Text → List Binding → List Text
unfolding collect match_topic_pattern split
topic_route key bindings =
    let msg_parts = split key in collect (λ b. match_topic_pattern msg_parts b.routing_key) bindings

unfoldable pub headers_route : FloatOps → Args → List Binding → List Text
unfolding collect match_headers
headers_route o msg_headers bindings = collect (λ b. match_headers o msg_headers b.args) bindings

-- A Router value: one for each exchange type.
pub data Router : Type 0 where
  direct_exchange fanout_exchange topic_exchange headers_exchange : Router

unfoldable pub router : Exchange → Option Router
router e = elim e.exchange_type [
  | direct ↦ some direct_exchange
  | fanout ↦ some fanout_exchange
  | topic ↦ some topic_exchange
  | headers ↦ some headers_exchange
  | unknown _ ↦ none
]

-- The method call `router.Route(key, headers, bindings)`.
unfoldable pub route : FloatOps → Router → Text → Args → List Binding → List Text
unfolding direct_route fanout_route topic_route headers_route
route o direct_exchange key msg_headers bindings = direct_route key bindings
route o fanout_exchange key msg_headers bindings = fanout_route bindings
route o topic_exchange key msg_headers bindings = topic_route key bindings
route o headers_exchange key msg_headers bindings = headers_route o msg_headers bindings
