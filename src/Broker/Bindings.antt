-- ===== src/Broker/Bindings.antt =====
-- internal/server/binding_manager.go: the bindings of exchanges to queues, under both names. Its mutex
-- makes each call atomic.
use gomq.Prelude.{
  Bool, true, false, ◌&&◌, List, [], ◌∷◌, ◌++◌, Text, Option, none, some, Result, ok, err, ◌==◌,
  text_eq, if◌then◌else◌,
}
use gomq.Prelude.GoMap.{GoMap, lookup, insert, remove, lookup_or}
use gomq.Routing.Binding.{Binding, Args, new_binding}

-- What the manager asks of its store; an error of the store is only logged.
pub data StoreCall : Type 0 where
  save_binding : Text → Text → Text → Option Args → StoreCall
  delete_binding : Text → Text → Text → StoreCall

abbrev pub Index : Type 0
Index = GoMap Text (List Binding)

-- `store_calls` are the calls made so far, where the manager has a store.
pub record BindingManager : Type 0 where
  pub by_exchange : Index
  pub by_queue : Index
  pub has_store : Bool
  pub store_calls : List StoreCall

pub data BindingError : Type 0 where
  binding_not_found : BindingError

unfoldable pub new_binding_manager_with_store : Bool → BindingManager
new_binding_manager_with_store has_store = record {
  by_exchange = [];
  by_queue = [];
  has_store = has_store;
  store_calls = [];
}

unfoldable pub new_binding_manager : BindingManager
unfolding new_binding_manager_with_store
new_binding_manager = new_binding_manager_with_store false

unfoldable pub call_store : StoreCall → BindingManager → BindingManager
call_store c m = if m.has_store then record m { store_calls = m.store_calls ++ c ∷ [] } else m

unfoldable pub list_of : Text → Index → List Binding
unfolding lookup_or lookup
list_of key index = lookup_or [] key index

unfoldable pub get_bindings : Text → BindingManager → List Binding
unfolding list_of
get_bindings exchange m = list_of exchange m.by_exchange

unfoldable pub get_bindings_for_queue : Text → BindingManager → List Binding
unfolding list_of
get_bindings_for_queue queue m = list_of queue m.by_queue

unfoldable pub bind : Text → Text → Text → Option Args → BindingManager → BindingManager × Binding
unfolding new_binding list_of insert call_store
bind exchange queue routing_key args m =
    let b = new_binding exchange queue routing_key args in
    let m' : BindingManager = record m {
      by_exchange = insert exchange (list_of exchange m.by_exchange ++ b ∷ []) m.by_exchange;
      by_queue = insert queue (list_of queue m.by_queue ++ b ∷ []) m.by_queue;
    } in
    (call_store (save_binding exchange queue routing_key args) m', b)

-- `b.QueueName == targetQueue && b.RoutingKey == targetKey`
unfoldable pub is_target : Text → Text → Binding → Bool
is_target target_queue target_key b = b.queue_name == target_queue && b.routing_key == target_key

-- The list without the first target, where there is one.
unfoldable pub cut : Text → Text → List Binding → Option (List Binding)
unfolding is_target
cut target_queue target_key [] = none
cut target_queue target_key (b ∷ bs) =
    let rest = cut target_queue target_key bs in
    if is_target target_queue target_key b
    then some bs
    else elim rest [ none ↦ none | some r ↦ some (b ∷ r) ]

unfoldable pub remove_from : Text → Text → Text → Index → Index × Bool
unfolding cut list_of insert
remove_from key target_queue target_key index =
    elim (cut target_queue target_key (list_of key index)) [
      | none ↦ (index, false)
      | some list ↦ (insert key list index, true)
    ]

-- Both indices are changed before the error is returned.
unfoldable pub unbind :
    Text → Text → Text → BindingManager → BindingManager × Result BindingError (Unit {0})
unfolding remove_from call_store
unbind exchange queue routing_key m =
    let (by_exchange, found) = remove_from exchange queue routing_key m.by_exchange in
    let (by_queue, _) = remove_from queue exchange routing_key m.by_queue in
    let m' : BindingManager = record m { by_exchange = by_exchange; by_queue = by_queue } in
    if found
    then (call_store (delete_binding exchange queue routing_key) m', ok tt)
    else (m', err binding_not_found)

-- The loop of UnbindAllForExchange over the bindings that were found.
unfoldable pub remove_by_queue : List Binding → Index → Index
unfolding remove_from
remove_by_queue [] index = index
remove_by_queue (b ∷ bs) index =
    remove_by_queue bs (remove_from b.queue_name b.exchange_name b.routing_key index).0

unfoldable pub unbind_all_for_exchange : Text → BindingManager → BindingManager
unfolding list_of remove remove_by_queue
unbind_all_for_exchange exchange m = record m {
  by_exchange = remove exchange m.by_exchange;
  by_queue = remove_by_queue (list_of exchange m.by_exchange) m.by_queue;
}

-- The loop of UnbindAllForQueue.
unfoldable pub remove_by_exchange : List Binding → Index → Index
unfolding remove_from
remove_by_exchange [] index = index
remove_by_exchange (b ∷ bs) index =
    remove_by_exchange bs (remove_from b.exchange_name b.queue_name b.routing_key index).0

unfoldable pub unbind_all_for_queue : Text → BindingManager → BindingManager
unfolding list_of remove remove_by_exchange
unbind_all_for_queue queue m = record m {
  by_exchange = remove_by_exchange (list_of queue m.by_queue) m.by_exchange;
  by_queue = remove queue m.by_queue;
}
