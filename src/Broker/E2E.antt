-- ===== src/Broker/E2E.antt =====
-- internal/server/e2e_binding.go and e2e_binding_manager.go: exchange-to-exchange bindings.
use gomq.Prelude.{
  ℕ, zero, suc, Bool, true, false, not, ◌&&◌, List, [], ◌∷◌, ◌++◌, Text, length, Option, none, some,
  Result, ok, err, ◌==◌, text_eq, if◌then◌else◌,
}
use gomq.Prelude.GoMap.{GoMap, lookup, insert, remove, lookup_or}
use gomq.Routing.Binding.{Args}

pub record E2EBinding : Type 0 where
  pub source : Text
  pub destination : Text
  pub routing_key : Text
  pub args : Args

unfoldable pub new_e2e_binding : Text → Text → Text → Option Args → E2EBinding
new_e2e_binding source destination routing_key args = record {
  source = source;
  destination = destination;
  routing_key = routing_key;
  args = elim args [ none ↦ [] | some a ↦ a ];
}

-- The field bySource.
abbrev pub E2EManager : Type 0
E2EManager = GoMap Text (List E2EBinding)

pub data E2EError : Type 0 where
  binding_not_found : E2EError

unfoldable pub get_bindings : Text → E2EManager → List E2EBinding
unfolding lookup_or lookup
get_bindings source m = lookup_or [] source m

-- `b.Destination == destination && b.RoutingKey == routingKey`
unfoldable pub is_same : Text → Text → E2EBinding → Bool
is_same destination routing_key b = b.destination == destination && b.routing_key == routing_key

unfoldable pub find_same : Text → Text → List E2EBinding → Option E2EBinding
unfolding is_same
find_same destination routing_key [] = none
find_same destination routing_key (b ∷ bs) =
    let rest = find_same destination routing_key bs in
    if is_same destination routing_key b then some b else rest

unfoldable pub bind : Text → Text → Text → Option Args → E2EManager → E2EManager × E2EBinding
unfolding find_same new_e2e_binding get_bindings insert
bind source destination routing_key args m =
    elim (find_same destination routing_key (get_bindings source m)) [
      | some b ↦ (m, b)
      | none ↦
          let b = new_e2e_binding source destination routing_key args in
          (insert source (get_bindings source m ++ b ∷ []) m, b)
    ]

-- `append(list[:i], list[i+1:]...)` at the first binding that is the same.
unfoldable pub remove_same : Text → Text → List E2EBinding → Option (List E2EBinding)
unfolding is_same
remove_same destination routing_key [] = none
remove_same destination routing_key (b ∷ bs) =
    let rest = remove_same destination routing_key bs in
    if is_same destination routing_key b
    then some bs
    else elim rest [ none ↦ none | some r ↦ some (b ∷ r) ]

unfoldable pub unbind : Text → Text → Text → E2EManager → Result E2EError E2EManager
unfolding remove_same get_bindings insert
unbind source destination routing_key m =
    elim (remove_same destination routing_key (get_bindings source m)) [
      | none ↦ err binding_not_found
      | some list ↦ ok (insert source list m)
    ]

unfoldable pub keep_others : Text → List E2EBinding → List E2EBinding
keep_others exchange [] = []
keep_others exchange (b ∷ bs) =
    if not (b.destination == exchange) then b ∷ keep_others exchange bs else keep_others exchange bs

unfoldable pub keep_others_all : Text → E2EManager → E2EManager
unfolding keep_others
keep_others_all exchange [] = []
keep_others_all exchange ((src, list) ∷ m) =
    (src, keep_others exchange list) ∷ keep_others_all exchange m

unfoldable pub unbind_all_for_exchange : Text → E2EManager → E2EManager
unfolding remove keep_others_all
unbind_all_for_exchange exchange m = keep_others_all exchange (remove exchange m)

abbrev pub Visited : Type 0
Visited = GoMap Text Bool

-- The result of the search and the map that it shares; `none` is the end of the fuel.
abbrev pub Search : Type 0
Search = Visited → Option (Bool × Visited)

-- The loop over the bindings of a node: it stops at the first search that succeeds.
unfoldable pub search_all : (Text → Search) → List E2EBinding → Search
search_all dfs [] visited = some (false, visited)
search_all dfs (b ∷ bs) visited = elim (dfs b.destination visited) [
  | none ↦ none
  | some r ↦ elim r.0 [ true ↦ some (true, r.1) | false ↦ search_all dfs bs r.1 ]
]

-- The closure `dfs` of HasCycle.
unfoldable pub dfs : ℕ → E2EManager → Text → Text → Search
unfolding lookup_or lookup insert get_bindings search_all
dfs zero m source node visited = none
dfs (suc f) m source node visited =
    let deeper = search_all (dfs f m source) (get_bindings node m) (insert node true visited) in
    if node == source
    then some (true, visited)
    else if lookup_or false node visited
    then some (false, visited)
    else deeper

-- One call for each key of the map, and one for a node that has no bindings.
unfoldable pub has_cycle : Text → Text → E2EManager → Option Bool
unfolding dfs
has_cycle source destination m = elim (dfs (suc (length m)) m source destination []) [
  | none ↦ none
  | some r ↦ some r.0
]
