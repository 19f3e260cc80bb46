-- ===== src/Broker/RouterTests.antt =====
-- Runs of the router, with one exchange and one queue.
use gomq.Prelude.{
  ◌++◌, ◌≡◌, ◌≢◌, refl, true, false, [], ◌∷◌, Text, codes, In, none, ok, nat_eq, text_eq, text_beq,
  ◌==◌, arith, ap, get_or,
}
use gomq.Prelude.GoMap.{lookup}
use gomq.Routing.Headers.{FloatOps}
use gomq.Routing.Binding.{Binding}
use gomq.Routing.Exchange.{Exchange, direct}
use gomq.Broker.Bindings.{
  BindingManager, new_binding_manager, bind, get_bindings, get_bindings_for_queue,
}
use gomq.Broker.Cascade.{bind_lem}
use gomq.Broker.BindingRuns.{Reached, made, bound}
use gomq.Broker.Exchanges as Exchanges
use gomq.Broker.Queues as Queues
use gomq.Broker.ExchangeManagerLaws.{Declared, declare_lem}
use gomq.Broker.Router.{MessageRouter, route_message, delete_queue}
use gomq.Broker.RouterLaws.{Routed, route_message_lem, route_message-delete_queue}

-- A float64 by its bits; no float stands in the runs.
abbrev ops : FloatOps
ops = record { float_eq = λ a b. a == b; of_int = λ z. 0; of_uint = λ n. n }

abbrev logs : Exchange
logs = record {
  name = codes "e";
  exchange_type = direct;
  durable = true;
  auto_delete = false;
  internal = false;
  args = [];
}

abbrev exchanges : Exchanges.ExchangeManager
exchanges = record { exchanges = (codes "e", logs) ∷ []; has_store = false; store_calls = [] }

abbrev queue : Queues.Queue
queue = record {
  name = codes "q";
  durable = true;
  exclusive = false;
  auto_delete = false;
  args = [];
  state = Queues.queue_active;
  owner = none;
}

abbrev queues : Queues.QueueManager
queues = record { queues = (codes "q", queue) ∷ []; has_store = false; calls = [] }

abbrev bindings : BindingManager
bindings = (bind (codes "e") (codes "q") (codes "k") none new_binding_manager).0

e-ne-q : codes "e" ≢ codes "q"
e-ne-q e = omega (arith, ap (λ (t : Text). get_or t 0 0) e)

bindings-Reached : Reached bindings
unfolding new_binding_manager
bindings-Reached = bound (codes "e") (codes "q") (codes "k") none e-ne-q (made false)

bind_lem_example :
    let b : Binding = record {
      exchange_name = codes "e";
      queue_name = codes "r";
      routing_key = codes "k";
      args = [];
    } in
    let m = (bind (codes "e") (codes "r") (codes "k") none bindings).0 in
    ((bind (codes "e") (codes "r") (codes "k") none bindings).1 ≡ b)
    × (get_bindings (codes "e") m ≡ get_bindings (codes "e") bindings ++ b ∷ [])
    × (get_bindings_for_queue (codes "r") m ≡ get_bindings_for_queue (codes "r") bindings ++ b ∷ [])
    × ((other : Text) → codes "e" ≢ other → get_bindings other m ≡ get_bindings other bindings)
    × ((other : Text)
        → codes "r" ≢ other
        → get_bindings_for_queue other m ≡ get_bindings_for_queue other bindings)
bind_lem_example = bind_lem (codes "e") (codes "r") (codes "k") none bindings

abbrev node : MessageRouter
node = record { exchanges = exchanges; queues = queues; bindings = bindings }

route_message_lem_example :
    Routed ops (codes "e") (codes "k") [] node (route_message ops (codes "e") (codes "k") [] node)
route_message_lem_example = route_message_lem ops (codes "e") (codes "k") [] node

abbrev node_after : MessageRouter
node_after = (delete_queue (codes "q") node).0

node-deleted : delete_queue (codes "q") node ≡ (node_after, ok tt)
unfolding delete_queue Queues.delete lookup text_beq
node-deleted = refl

node-routes : route_message ops (codes "e") (codes "k") [] node_after ≡ ok []
unfolding delete_queue Queues.delete lookup text_beq route_message bind new_binding_manager
node-routes = refl

route_message-delete_queue_example : ¬ In (codes "q") []
route_message-delete_queue_example =
    route_message-delete_queue ops (codes "q") (codes "e") (codes "k") [] node node_after []
      bindings-Reached node-deleted node-routes

declare_lem_example :
    Declared
      (codes "e")
      direct
      true
      false
      false
      none
      exchanges
      (Exchanges.declare (codes "e") direct true false false none exchanges)
declare_lem_example = declare_lem (codes "e") direct true false false none exchanges
