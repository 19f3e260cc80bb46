-- ===== src/Broker/ConsumerLaws.antt =====
-- The two indices of consumer_manager.go agree, whatever is called.
use gomq.Prelude.{
  ℕ, ◌≡◌, refl, arith, Bool, Bool-cases, inl, inr, List, [], ◌∷◌, Text, Option, Option-cases, none,
  some, ◌&&◌, ◌==◌, nat_eq, text_eq, ==_iff, eq_refl,
}
use gomq.Prelude.GoMap.{GoMap, lookup, insert, remove, lookup_or, lookup-insert, lookup-remove}
use gomq.Routing.Binding.{Args}
use gomq.Broker.Groups.{Consumer, new_consumer}
use gomq.Broker.Consumers.{
  ConsumerManager, new_consumer_manager, cancel_all, cancel_by_channel, stays, get_consumers,
  get_consumer, add_consumer, join_group, drop_consumer, subscribe, unsubscribe, any_exclusive,
}
use gomq.Broker.ConsumerIndex.{
  copies, IsIndexed, join_group-indices, drop_consumer-by_tag, get_consumer-drop_consumer,
  add_consumer-IsIndexed, drop_consumer-IsIndexed,
}

-- The keys of a map differ.
abbrev pub Keyed : GoMap Text Consumer → Type 0
Keyed [] = Unit
Keyed ((k, c) ∷ l) = (lookup k l ≡ none) × Keyed l

Keyed-insert : (k : Text) (c : Consumer) (l : GoMap Text Consumer) → Keyed l → Keyed (insert k c l)
unfolding insert lookup
Keyed-insert k c [] d = (refl, tt)
Keyed-insert k c ((j, x) ∷ l) d = elim (Bool-cases (j == k)) [
  | inl h ↦ rw (h, ← (==_iff j k).0 h) d
  | inr h ↦
      rw h
        (ground (arith, lookup-insert k j c l, ==_iff k j, ==_iff j k, d.0), Keyed-insert k c l d.1)
]

Keyed-remove : (k : Text) (l : GoMap Text Consumer) → Keyed l → Keyed (remove k l)
unfolding remove lookup
Keyed-remove k [] d = tt
Keyed-remove k ((j, x) ∷ l) d = elim (Bool-cases (j == k)) [
  | inl h ↦ rw h (Keyed-remove k l d.1)
  | inr h ↦ rw h (ground (arith, lookup-remove k j l, d.0), Keyed-remove k l d.1)
]

-- The two indices belong together.
pub record IsConsistent (m : ConsumerManager) : Type 0 where
  pub indexed : IsIndexed m
  pub keyed : Keyed m.by_tag

IsConsistent-same :
    (m m' : ConsumerManager)
    → m'.by_tag ≡ m.by_tag
    → m'.by_queue ≡ m.by_queue
    → IsConsistent m
    → IsConsistent m'
unfolding get_consumers get_consumer
IsConsistent-same m m' tags queues i = record {
  indexed = λ t q. rw (tags, queues) (i.indexed t q);
  keyed = rw tags i.keyed;
}

join_group-IsConsistent :
    (group_id strategy : Text) (c : Consumer) (m : ConsumerManager)
    → get_consumer c.tag m ≡ none
    → IsConsistent m
    → IsConsistent (join_group group_id strategy c (add_consumer c m))
unfolding add_consumer
join_group-IsConsistent group_id strategy c m n i =
    let (tags, queues) = join_group-indices group_id strategy c (add_consumer c m) in
    IsConsistent-same (add_consumer c m) _ tags queues (record {
      indexed = add_consumer-IsIndexed c m n i.indexed;
      keyed = Keyed-insert c.tag c m.by_tag i.keyed;
    })

drop_consumer-IsConsistent :
    (tag : Text) (c : Consumer) (m : ConsumerManager)
    → get_consumer tag m ≡ some c
    → IsConsistent m
    → IsConsistent (drop_consumer tag c m)
drop_consumer-IsConsistent tag c m f i = record {
  indexed = drop_consumer-IsIndexed tag c m f i.indexed;
  keyed = rw (drop_consumer-by_tag tag c m) (Keyed-remove tag m.by_tag i.keyed);
}

subscribe-IsConsistent :
    (tag queue : Text) (ch : ℕ) (auto_ack exclusive : Bool) (args : Option Args)
    (m : ConsumerManager)
    → IsConsistent m
    → IsConsistent (subscribe tag queue ch auto_ack exclusive args m).0
unfolding subscribe new_consumer
subscribe-IsConsistent tag queue ch auto_ack exclusive args m i =
    elim (Option-cases (get_consumer tag m)) [
      | inr (c, o) ↦ rw (o, subscribe) i
      | inl o ↦ elim (Bool-cases (exclusive && any_exclusive (get_consumers queue m))) [
        | inl x ↦ rw (o, subscribe, x) i
        | inr x ↦
            rw (o, subscribe, x)
              (IsConsistent-same _ _ refl refl (join_group-IsConsistent _ _ _ m o i))
      ]
    ]

unsubscribe-IsConsistent :
    (tag : Text) (m : ConsumerManager) → IsConsistent m → IsConsistent (unsubscribe tag m).0
unfolding unsubscribe
unsubscribe-IsConsistent tag m i = elim (Option-cases (get_consumer tag m)) [
  | inl o ↦ rw (o, unsubscribe) i
  | inr (c, o) ↦ rw (o, unsubscribe) (drop_consumer-IsConsistent tag c m o i)
]

-- The manager still has what the entries say.
abbrev Held : GoMap Text Consumer → ConsumerManager → Type 0
Held entries m = (t : Text) (c : Consumer) → lookup t entries ≡ some c → get_consumer t m ≡ some c

drop_consumer-Held :
    (tag : Text) (c : Consumer) (entries : GoMap Text Consumer) (m : ConsumerManager)
    → lookup tag entries ≡ none
    → Held ((tag, c) ∷ entries) m
    → Held entries (drop_consumer tag c m)
unfolding lookup
drop_consumer-Held tag c entries m n h t d e =
    ground (arith, get_consumer-drop_consumer tag t c m, h t d, ==_iff tag t)

Held-tail :
    (tag : Text) (c : Consumer) (entries : GoMap Text Consumer) (m : ConsumerManager)
    → lookup tag entries ≡ none
    → Held ((tag, c) ∷ entries) m
    → Held entries m
unfolding lookup
Held-tail tag c entries m n h t d e = ground (arith, h t d, ==_iff tag t)

cancel_all-IsConsistent :
    (ch : ℕ) (entries : GoMap Text Consumer) (m : ConsumerManager)
    → Keyed entries
    → Held entries m
    → IsConsistent m
    → IsConsistent (cancel_all ch entries m).0
unfolding cancel_all lookup
cancel_all-IsConsistent ch [] m k h i = i
cancel_all-IsConsistent ch ((tag, c) ∷ entries) m k h i =
    let skipped = cancel_all-IsConsistent ch entries m k.1 (Held-tail tag c entries m k.0 h) i in
    let found : get_consumer tag m ≡ some c = h tag c (rw (eq_refl tag) refl) in
    elim (Bool-cases (c.channel == ch)) [
      | inr n ↦ rw (n, cancel_all) skipped
      | inl y ↦ elim (Bool-cases (stays c)) [
        | inl s ↦ rw (y, cancel_all, s) skipped
        | inr s ↦
            rw (y, cancel_all, s)
              (cancel_all-IsConsistent ch entries (drop_consumer tag c m) k.1
                (drop_consumer-Held tag c entries m k.0 h)
                (drop_consumer-IsConsistent tag c m found i))
      ]
    ]

cancel_by_channel-IsConsistent :
    (ch : ℕ) (m : ConsumerManager) → IsConsistent m → IsConsistent (cancel_by_channel ch m).0
unfolding cancel_by_channel get_consumer
cancel_by_channel-IsConsistent ch m i = cancel_all-IsConsistent ch m.by_tag m i.keyed (λ t c e. e) i

-- The calls that change a manager.
pub data Call : Type 0 where
  subscribe_call : Text → Text → ℕ → Bool → Bool → Option Args → Call
  unsubscribe_call : Text → Call
  cancel_call : ℕ → Call

unfoldable pub perform : Call → ConsumerManager → ConsumerManager
unfolding subscribe unsubscribe cancel_by_channel
perform (subscribe_call tag queue ch auto_ack exclusive args) m =
    (subscribe tag queue ch auto_ack exclusive args m).0
perform (unsubscribe_call tag) m = (unsubscribe tag m).0
perform (cancel_call ch) m = (cancel_by_channel ch m).0

unfoldable pub run_calls : List Call → ConsumerManager → ConsumerManager
unfolding perform
run_calls [] m = m
run_calls (c ∷ cs) m = run_calls cs (perform c m)

perform-IsConsistent :
    (c : Call) (m : ConsumerManager) → IsConsistent m → IsConsistent (perform c m)
unfolding perform
perform-IsConsistent (subscribe_call tag queue ch auto_ack exclusive args) m i =
    subscribe-IsConsistent tag queue ch auto_ack exclusive args m i
perform-IsConsistent (unsubscribe_call tag) m i = unsubscribe-IsConsistent tag m i
perform-IsConsistent (cancel_call ch) m i = cancel_by_channel-IsConsistent ch m i

run_calls-IsConsistent :
    (cs : List Call) (m : ConsumerManager) → IsConsistent m → IsConsistent (run_calls cs m)
unfolding run_calls
run_calls-IsConsistent [] m i = i
run_calls-IsConsistent (c ∷ cs) m i =
    run_calls-IsConsistent cs (perform c m) (perform-IsConsistent c m i)

new-IsConsistent : IsConsistent new_consumer_manager
unfolding new_consumer_manager get_consumers get_consumer lookup_or lookup copies
new-IsConsistent = record { indexed = λ t q. refl; keyed = tt }

-- Whatever subscriptions, cancellations and closed channels a new manager sees, each subscribed tag
-- stands exactly once in the list of its consumer's queue, in the list of no other queue, and a tag
-- that is not subscribed stands in no list.
pub run_calls-IsIndexed : (cs : List Call) → IsIndexed (run_calls cs new_consumer_manager)
run_calls-IsIndexed cs = (run_calls-IsConsistent cs new_consumer_manager new-IsConsistent).indexed
