-- ===== src/Broker/Consumers.antt =====
-- internal/server/consumer_manager.go: the subscriptions, by queue and by tag. Its mutex makes each
-- call atomic.
use gomq.Prelude.{
  ℕ, ◌+◌, Bool, true, false, not, ◌&&◌, List, [], ◌∷◌, ◌++◌, Text, codes, length, Option, none,
  some, Result, ok, err, ◌==◌, nat_eq, text_eq, if◌then◌else◌,
}
use gomq.Prelude.GoMap.{GoMap, lookup, insert, remove, lookup_or}
use gomq.Routing.Binding.{Args, string, bool}
use gomq.Broker.Groups.{Consumer, new_consumer, without}
use gomq.Broker.GroupManager.{ConsumerGroupManager, join, leave}

-- What the manager asks of its metrics.
pub data ConsumerCall : Type 0 where
  consumer_added consumer_removed : ConsumerCall

-- A nil group manager is `none`.
pub record ConsumerManager : Type 0 where
  pub by_queue : GoMap Text (List Consumer)
  pub by_tag : GoMap Text Consumer
  pub group_mgr : Option ConsumerGroupManager
  pub calls : List ConsumerCall

pub data ConsumerError : Type 0 where
  tag_exists exclusive_exists consumer_not_found : ConsumerError

unfoldable pub new_consumer_manager : ConsumerManager
new_consumer_manager = record { by_queue = []; by_tag = []; group_mgr = none; calls = [] }

unfoldable pub set_group_manager : ConsumerGroupManager → ConsumerManager → ConsumerManager
set_group_manager gm m = record m { group_mgr = some gm }

unfoldable pub get_consumers : Text → ConsumerManager → List Consumer
unfolding lookup_or lookup
get_consumers queue m = lookup_or [] queue m.by_queue

unfoldable pub get_consumer : Text → ConsumerManager → Option Consumer
unfolding lookup
get_consumer tag m = lookup tag m.by_tag

unfoldable pub any_exclusive : List Consumer → Bool
any_exclusive [] = false
any_exclusive (c ∷ cs) = if c.exclusive then true else any_exclusive cs

-- `args[key].(string)`, where it holds a string that is not empty.
unfoldable pub text_arg : Text → Text → Option Args → Text
unfolding lookup
text_arg default key args = elim args [
  | none ↦ default
  | some a ↦ elim (lookup key a) [
    | some (string s) ↦ if not (s == []) then s else default
    | _ ↦ default
  ]
]

unfoldable pub join_group : Text → Text → Consumer → ConsumerManager → ConsumerManager
unfolding join
join_group group_id strategy c m =
    if not (group_id == [])
    then elim m.group_mgr [
      | none ↦ m
      | some gm ↦ record m { group_mgr = some (join group_id c.queue_name c strategy gm).0 }
    ]
    else m

unfoldable pub add_consumer : Consumer → ConsumerManager → ConsumerManager
unfolding insert get_consumers
add_consumer c m = record m {
  by_queue = insert c.queue_name (get_consumers c.queue_name m ++ c ∷ []) m.by_queue;
  by_tag = insert c.tag c m.by_tag;
}

unfoldable pub subscribe :
    Text
    → Text
    → ℕ
    → Bool
    → Bool
    → Option Args
    → ConsumerManager
    → ConsumerManager × Result ConsumerError Consumer
unfolding get_consumer any_exclusive get_consumers text_arg new_consumer add_consumer join_group
subscribe tag queue ch auto_ack exclusive args m = elim (get_consumer tag m) [
  | some _ ↦ (m, err tag_exists)
  | none ↦
      if exclusive && any_exclusive (get_consumers queue m)
      then (m, err exclusive_exists)
      else let group_id = text_arg [] (codes "x-group-id") args in
        let strategy = text_arg (codes "round-robin") (codes "x-group-strategy") args in
        let c = new_consumer tag queue ch auto_ack false exclusive args group_id in
        let m' = join_group group_id strategy c (add_consumer c m) in
        (record m' { calls = m'.calls ++ consumer_added ∷ [] }, ok c)
]

-- The group of the consumer loses it.
unfoldable pub leave_group : Text → Consumer → ConsumerManager → ConsumerManager
unfolding leave
leave_group tag c m =
    if not (c.group_id == [])
    then elim m.group_mgr [ none ↦ m | some gm ↦ record m { group_mgr = some (leave tag gm).0 } ]
    else m

-- What Unsubscribe and CancelByChannel do with a consumer that they found under `tag`.
unfoldable pub drop_consumer : Text → Consumer → ConsumerManager → ConsumerManager
unfolding remove insert get_consumers without leave_group
drop_consumer tag c m =
    let list = get_consumers c.queue_name m in
    let by_queue : GoMap Text (List Consumer) = elim (without tag list) [
      | none ↦ m.by_queue
      | some rest ↦ insert c.queue_name rest m.by_queue
    ] in
    let m' = leave_group tag c (record m { by_tag = remove tag m.by_tag; by_queue = by_queue }) in
    record m' { calls = m'.calls ++ consumer_removed ∷ [] }

unfoldable pub unsubscribe :
    Text → ConsumerManager → ConsumerManager × Result ConsumerError (Unit {0})
unfolding get_consumer drop_consumer
unsubscribe tag m = elim (get_consumer tag m) [
  | none ↦ (m, err consumer_not_found)
  | some c ↦ (drop_consumer tag c m, ok tt)
]

-- `cancel, ok := args[...].(bool); ok && !cancel`
unfoldable pub stays : Consumer → Bool
unfolding lookup
stays c = elim (lookup (codes "x-cancel-on-ha-failover") c.args) [
  | some (bool cancel) ↦ not cancel
  | _ ↦ false
]

-- The loop of CancelByChannel over the entries of byTag.
unfoldable pub cancel_all : ℕ → GoMap Text Consumer → ConsumerManager → ConsumerManager × ℕ
unfolding stays drop_consumer
cancel_all ch [] m = (m, 0)
cancel_all ch ((tag, c) ∷ entries) m =
    if not (c.channel == ch)
    then cancel_all ch entries m
    else if stays c
    then cancel_all ch entries m
    else let (m', n) = cancel_all ch entries (drop_consumer tag c m) in (m', n + 1)

unfoldable pub cancel_by_channel : ℕ → ConsumerManager → ConsumerManager × ℕ
unfolding cancel_all
cancel_by_channel ch m = cancel_all ch m.by_tag m

unfoldable pub count_on : ℕ → GoMap Text Consumer → ℕ
count_on ch [] = 0
count_on ch ((tag, c) ∷ entries) =
    if c.channel == ch then count_on ch entries + 1 else count_on ch entries

unfoldable pub count_by_channel : ℕ → ConsumerManager → ℕ
unfolding count_on
count_by_channel ch m = count_on ch m.by_tag

unfoldable pub count : ConsumerManager → ℕ
count m = length m.by_tag
