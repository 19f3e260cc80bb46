-- ===== src/Broker/Groups.antt =====
-- internal/server/consumer.go and consumer_group.go: consumers, and groups of them that share the
-- messages of a queue.
use gomq.Prelude.{
  ℕ, zero, suc, ◌+◌, ◌%◌, ◌^◌, Bool, true, false, List, [], ◌∷◌, ◌++◌, Text, codes, length,
  get_elem?, Option, none, some, ◌==◌, text_eq, if◌then◌else◌,
}
use gomq.Routing.Binding.{Args}

-- A channel stands by its identity.
pub record Consumer : Type 0 where
  pub tag : Text
  pub queue_name : Text
  pub channel : ℕ
  pub auto_ack : Bool
  pub no_local : Bool
  pub exclusive : Bool
  pub args : Args
  pub group_id : Text

unfoldable pub new_consumer : Text → Text → ℕ → Bool → Bool → Bool → Option Args → Text → Consumer
new_consumer tag queue_name channel auto_ack no_local exclusive args group_id = record {
  tag = tag;
  queue_name = queue_name;
  channel = channel;
  auto_ack = auto_ack;
  no_local = no_local;
  exclusive = exclusive;
  args = elim args [ none ↦ [] | some a ↦ a ];
  group_id = group_id;
}

-- The counter of the round robin is a uint64.
pub data Strategy : Type 0 where
  round_robin : ℕ → Strategy
  hash_strategy : Strategy

pub record ConsumerGroup : Type 0 where
  pub id : Text
  pub queue : Text
  pub strategy : Strategy
  pub members : List Consumer

unfoldable pub new_consumer_group : Text → Text → Text → ConsumerGroup
new_consumer_group id queue strategy_name = record {
  id = id;
  queue = queue;
  strategy = if strategy_name == codes "hash" then hash_strategy else round_robin 0;
  members = [];
}

unfoldable pub add : Consumer → ConsumerGroup → ConsumerGroup
add c g = record g { members = g.members ++ c ∷ [] }

-- The list without the first consumer of the tag, where there is one.
unfoldable pub without : Text → List Consumer → Option (List Consumer)
without tag [] = none
without tag (c ∷ cs) =
    let rest = without tag cs in
    if c.tag == tag then some cs else elim rest [ none ↦ none | some r ↦ some (c ∷ r) ]

unfoldable pub remove_tag : Text → ConsumerGroup → ConsumerGroup × Bool
unfolding without
remove_tag tag g = elim (without tag g.members) [
  | none ↦ (g, false)
  | some cs ↦ (record g { members = cs }, true)
]

-- Select of either strategy; `hash` is the FNV-1a sum of hash/fnv.
unfoldable pub choose : (Text → ℕ) → List Consumer → Text → Strategy → Strategy × Option Consumer
choose hash [] key s = (s, none)
choose hash (c ∷ cs) key (round_robin idx) =
    (round_robin ((idx + 1) % 2 ^ 64), get_elem? (c ∷ cs) (idx % length (c ∷ cs)))
choose hash (c ∷ cs) key hash_strategy =
    (hash_strategy, get_elem? (c ∷ cs) (hash key % length (c ∷ cs)))

unfoldable pub select : (Text → ℕ) → Text → ConsumerGroup → ConsumerGroup × Option Consumer
unfolding choose
select hash key g =
    let (s, c) = choose hash g.members key g.strategy in (record g { strategy = s }, c)

unfoldable pub count : ConsumerGroup → ℕ
count g = length g.members

unfoldable pub strategy_name : ConsumerGroup → Text
strategy_name g = elim g.strategy [
  | hash_strategy ↦ codes "hash"
  | round_robin _ ↦ codes "round-robin"
]

-- `n` selections under one key, and whom they choose.
unfoldable pub select_all :
    (Text → ℕ) → Text → ℕ → ConsumerGroup → ConsumerGroup × List (Option Consumer)
select_all hash key zero g = (g, [])
select_all hash key (suc n) g =
    let (g', c) = select hash key g in let (g'', cs) = select_all hash key n g' in (g'', c ∷ cs)
