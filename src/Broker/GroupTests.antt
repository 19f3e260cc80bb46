-- ===== src/Broker/GroupTests.antt =====
-- A run of the round robin over three consumers.
use gomq.Prelude.{ℕ, false, ◌≡◌, refl, [], ◌∷◌, ◌++◌, Text, codes, some, arith}
use gomq.Broker.Groups.{Consumer, ConsumerGroup, round_robin, select_all}
use gomq.Broker.GroupLaws.{select_all_lem}

abbrev consumer : Text → Consumer
consumer tag = record {
  tag = tag;
  queue_name = codes "q";
  channel = 1;
  auto_ack = false;
  no_local = false;
  exclusive = false;
  args = [];
  group_id = codes "g";
}

-- The counter stands at `idx`.
abbrev three : ℕ → ConsumerGroup
three idx = record {
  id = codes "g";
  queue = codes "q";
  strategy = round_robin idx;
  members = consumer (codes "a") ∷ consumer (codes "b") ∷ consumer (codes "c") ∷ [];
}

abbrev no_hash : Text → ℕ
no_hash t = 0

select_all_lem_example : select_all no_hash (codes "k") 3 (three 4) ≡ (
  three 7,
  (some (consumer (codes "b")) ∷ some (consumer (codes "c")) ∷ [])
      ++ (some (consumer (codes "a")) ∷ []),
)
select_all_lem_example =
    select_all_lem no_hash (codes "k") (three 4) 4 refl (omega arith) (omega arith)
