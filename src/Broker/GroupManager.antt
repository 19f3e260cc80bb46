-- ===== src/Broker/GroupManager.antt =====
-- internal/server/consumer_group_manager.go: the consumer groups by their identifiers. Its mutex makes
-- each call atomic.
use gomq.Prelude.{
  ℕ, Bool, true, false, List, [], ◌∷◌, ◌++◌, map, Text, Option, none, some, ◌==◌, nat_eq, text_eq,
  if◌then◌else◌,
}
use gomq.Prelude.GoMap.{GoMap, lookup, insert, remove, lookup_or}
use gomq.Broker.Groups.{Consumer, ConsumerGroup, new_consumer_group, add, remove_tag, select, count}

-- Both maps of the source point to the same groups; here `by_queue` holds their identifiers.
pub record ConsumerGroupManager : Type 0 where
  pub by_id : GoMap Text ConsumerGroup
  pub by_queue : GoMap Text (List Text)

unfoldable pub new_consumer_group_manager : ConsumerGroupManager
new_consumer_group_manager = record { by_id = []; by_queue = [] }

-- The groups of a queue, in order.
unfoldable pub ids_of : Text → ConsumerGroupManager → List Text
unfolding lookup_or lookup
ids_of queue m = lookup_or [] queue m.by_queue

-- A new group enters both maps.
unfoldable pub enter : ConsumerGroup → ConsumerGroupManager → ConsumerGroupManager
unfolding insert ids_of
enter g m = record {
  by_id = insert g.id g m.by_id;
  by_queue = insert g.queue (ids_of g.queue m ++ g.id ∷ []) m.by_queue;
}

-- `none` is the nil that a known identifier gets.
unfoldable pub create :
    Text → Text → Text → ConsumerGroupManager → ConsumerGroupManager × Option ConsumerGroup
unfolding lookup new_consumer_group enter
create id queue strategy m = elim (lookup id m.by_id) [
  | some _ ↦ (m, none)
  | none ↦ let g = new_consumer_group id queue strategy in (enter g m, some g)
]

unfoldable pub get : Text → ConsumerGroupManager → Option ConsumerGroup
unfolding lookup
get id m = lookup id m.by_id

-- The groups of the identifiers, where the manager still has them.
unfoldable pub groups_of : List Text → GoMap Text ConsumerGroup → List ConsumerGroup
unfolding lookup
groups_of [] groups = []
groups_of (id ∷ ids) groups =
    let rest = groups_of ids groups in elim (lookup id groups) [ none ↦ rest | some g ↦ g ∷ rest ]

unfoldable pub get_by_queue : Text → ConsumerGroupManager → List ConsumerGroup
unfolding ids_of groups_of
get_by_queue queue m = groups_of (ids_of queue m) m.by_id

unfoldable pub list : ConsumerGroupManager → List ConsumerGroup
list m = map (λ p. p.1) m.by_id

-- The list without the first identifier that is the given one.
unfoldable pub drop_id : Text → List Text → List Text
drop_id id [] = []
drop_id id (x ∷ xs) = if x == id then xs else x ∷ drop_id id xs

-- A group leaves both maps.
unfoldable pub leave_maps : ConsumerGroup → Text → ConsumerGroupManager → ConsumerGroupManager
unfolding remove insert drop_id ids_of
leave_maps g id m = record {
  by_id = remove id m.by_id;
  by_queue = insert g.queue (drop_id id (ids_of g.queue m)) m.by_queue;
}

unfoldable pub delete : Text → ConsumerGroupManager → ConsumerGroupManager × Bool
unfolding lookup leave_maps
delete id m = elim (lookup id m.by_id) [ none ↦ (m, false) | some g ↦ (leave_maps g id m, true) ]

unfoldable pub join :
    Text → Text → Consumer → Text → ConsumerGroupManager → ConsumerGroupManager × ConsumerGroup
unfolding lookup insert new_consumer_group enter add
join id queue c strategy m = elim (lookup id m.by_id) [
  | some g ↦ (record m { by_id = insert id (add c g) m.by_id }, add c g)
  | none ↦ let g = add c (new_consumer_group id queue strategy) in (enter g m, g)
]

-- The loop of Leave over the groups, with the group that the consumer left.
unfoldable pub find_left : Text → GoMap Text ConsumerGroup → Option (Text × ConsumerGroup)
unfolding remove_tag
find_left tag [] = none
find_left tag ((id, g) ∷ groups) =
    let (g', left) = remove_tag tag g in if left then some (id, g') else find_left tag groups

unfoldable pub leave : Text → ConsumerGroupManager → ConsumerGroupManager × Bool
unfolding find_left insert count leave_maps
leave tag m = elim (find_left tag m.by_id) [
  | none ↦ (m, false)
  | some found ↦
      let (id, g) = found in
      (if count g == 0 then leave_maps g id m else record m { by_id = insert id g m.by_id }, true)
]

-- `hash` is the FNV-1a sum of hash/fnv. Only the counter of the group changes.
unfoldable pub choose_member :
    (Text → ℕ) → Text → Text → ConsumerGroupManager → ConsumerGroupManager × Option Consumer
unfolding lookup insert select
choose_member hash group_id routing_key m = elim (lookup group_id m.by_id) [
  | none ↦ (m, none)
  | some g ↦
      let (g', c) = select hash routing_key g in
      (record m { by_id = insert group_id g' m.by_id }, c)
]
