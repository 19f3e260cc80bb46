-- ===== src/Broker/Router.antt =====
-- internal/server/router.go: routing over the managers of exchanges, queues and bindings.
use gomq.Prelude.{Text, List, none, some, Result, ok, err}
use gomq.Routing.Binding.{Args}
use gomq.Routing.Headers.{FloatOps}
use gomq.Routing.Exchange.{router, route}
use gomq.Broker.Bindings.{
  BindingManager, get_bindings, unbind_all_for_exchange, unbind_all_for_queue,
}
use gomq.Broker.Exchanges as Exchanges
use gomq.Broker.Queues as Queues

pub record MessageRouter : Type 0 where
  pub exchanges : Exchanges.ExchangeManager
  pub queues : Queues.QueueManager
  pub bindings : BindingManager

pub data RouteError : Type 0 where
  exchange_not_found no_router : RouteError

unfoldable pub route_message :
    FloatOps → Text → Text → Args → MessageRouter → Result RouteError (List Text)
unfolding Exchanges.get router get_bindings route
route_message o exchange_name routing_key headers r =
    elim (Exchanges.get exchange_name r.exchanges) [
      | none ↦ err exchange_not_found
      | some ex ↦ elim (router ex) [
        | none ↦ err no_router
        | some x ↦ ok (route o x routing_key headers (get_bindings exchange_name r.bindings))
      ]
    ]

unfoldable pub delete_exchange :
    Text → MessageRouter → MessageRouter × Result Exchanges.ExchangeError (Unit {0})
unfolding Exchanges.delete unbind_all_for_exchange
delete_exchange name r =
    let (exchanges, result) = Exchanges.delete name r.exchanges in
    elim result [
      | err e ↦ (record r { exchanges = exchanges }, err e)
      | ok _ ↦ (
        record r { exchanges = exchanges; bindings = unbind_all_for_exchange name r.bindings },
        ok tt,
      )
    ]

unfoldable pub delete_queue :
    Text → MessageRouter → MessageRouter × Result Queues.QueueError (Unit {0})
unfolding Queues.delete unbind_all_for_queue
delete_queue name r =
    let (queues, result) = Queues.delete name r.queues in
    elim result [
      | err e ↦ (record r { queues = queues }, err e)
      | ok _ ↦
          (record r { queues = queues; bindings = unbind_all_for_queue name r.bindings }, ok tt)
    ]
