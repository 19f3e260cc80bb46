-- ===== src/Broker/ConsumerIndex.antt =====
-- What adding and dropping a consumer does to the two indices of consumer_manager.go.
use gomq.Prelude.{
  ℕ, ◌+◌, ◌≡◌, refl, arith, Bool-cases, inl, inr, List, [], ◌∷◌, ◌++◌, Text, Option, Option-cases,
  none, some, ◌==◌, nat_eq, text_eq, ==_iff, eq_refl, if◌then◌else◌,
}
use gomq.Prelude.GoMap.{GoMap, insert, remove, lookup_or, lookup-insert, lookup-remove}
use gomq.Broker.Groups.{Consumer, without}
use gomq.Broker.Consumers.{
  ConsumerManager, get_consumers, get_consumer, add_consumer, join_group, leave_group,
  drop_consumer,
}

-- How often the tag stands in a list of consumers.
unfoldable pub copies : Text → List Consumer → ℕ
copies t [] = 0
copies t (c ∷ cs) = if c.tag == t then copies t cs + 1 else copies t cs

-- How often it should stand in the list of the queue, by what the other index has for it.
abbrev pub wanted : Text → Option Consumer → ℕ
wanted q none = 0
wanted q (some c) = if c.queue_name == q then 1 else 0

-- A tag that is subscribed stands once in the list of its consumer's queue and in no other list, and
-- a tag that is not stands in none.
abbrev pub IsIndexed : ConsumerManager → Type 0
IsIndexed m = (t q : Text) → copies t (get_consumers q m) ≡ wanted q (get_consumer t m)

copies-snoc :
    (t : Text) (cs : List Consumer) (c : Consumer)
    → copies t (cs ++ c ∷ []) ≡ copies t cs + (if c.tag == t then 1 else 0)
unfolding copies
copies-snoc t [] c = ground arith
copies-snoc t (d ∷ cs) c = ground (arith, copies-snoc t cs c)

copies-without :
    (tag t : Text) (cs rest : List Consumer)
    → without tag cs ≡ some rest
    → copies t cs ≡ copies t rest + (if tag == t then 1 else 0)
unfolding copies without
copies-without tag t [] rest e = cc
copies-without tag t (c ∷ cs) rest e = elim (Bool-cases (c.tag == tag)) [
  | inl h ↦
      let same : cs ≡ rest = cc (rw (h, without) at e) in
      rw (← same, (==_iff c.tag tag).0 h) (ground arith)
  | inr h ↦ elim (Option-cases (without tag cs)) [
    | inl o ↦ cc (rw (h, without, o) at e)
    | inr (r, o) ↦
        let same : (c ∷ r) ≡ rest = cc (rw (h, without, o) at e) in
        rw (← same) (ground (arith, copies-without tag t cs r o))
  ]
]

without-none : (tag : Text) (cs : List Consumer) → without tag cs ≡ none → copies tag cs ≡ 0
unfolding copies without
without-none tag [] e = refl
without-none tag (c ∷ cs) e = elim (Bool-cases (c.tag == tag)) [
  | inl h ↦ cc (rw (h, without) at e)
  | inr h ↦ elim (Option-cases (without tag cs)) [
    | inl o ↦ rw h (without-none tag cs o)
    | inr (r, o) ↦ cc (rw (h, without, o) at e)
  ]
]

lookup_or-insert :
    (k q : Text) (cs : List Consumer) (l : GoMap Text (List Consumer))
    → lookup_or [] q (insert k cs l) ≡ (if k == q then cs else lookup_or [] q l)
unfolding lookup_or
lookup_or-insert k q cs l = ground (arith, lookup-insert k q cs l)

copies-add_consumer :
    (c : Consumer) (m : ConsumerManager) (t q : Text)
    → copies t (get_consumers q (add_consumer c m))
      ≡ copies t (get_consumers q m)
        + (if c.queue_name == q then if c.tag == t then 1 else 0 else 0)
unfolding get_consumers add_consumer
copies-add_consumer c m t q = ground (
  arith,
  lookup_or-insert c.queue_name q (get_consumers c.queue_name m ++ c ∷ []) m.by_queue,
  copies-snoc t (get_consumers q m) c,
  ==_iff c.queue_name q,
)

get_consumer-add_consumer :
    (c : Consumer) (m : ConsumerManager) (t : Text)
    → get_consumer t (add_consumer c m) ≡ (if c.tag == t then some c else get_consumer t m)
unfolding get_consumer add_consumer
get_consumer-add_consumer c m t = lookup-insert c.tag t c m.by_tag

pub add_consumer-IsIndexed :
    (c : Consumer) (m : ConsumerManager)
    → get_consumer c.tag m ≡ none
    → IsIndexed m
    → IsIndexed (add_consumer c m)
add_consumer-IsIndexed c m n i t q =
    ground
      (arith, copies-add_consumer c m t q, get_consumer-add_consumer c m t, i t q, ==_iff c.tag t)

-- Groups do not touch the indices.
pub join_group-indices :
    (group_id strategy : Text) (c : Consumer) (m : ConsumerManager)
    → ((join_group group_id strategy c m).by_tag ≡ m.by_tag)
      × ((join_group group_id strategy c m).by_queue ≡ m.by_queue)
unfolding join_group
join_group-indices group_id strategy c m = (ground arith, ground arith)

pub drop_consumer-by_tag :
    (tag : Text) (c : Consumer) (m : ConsumerManager)
    → (drop_consumer tag c m).by_tag ≡ remove tag m.by_tag
unfolding drop_consumer leave_group
drop_consumer-by_tag tag c m = ground arith

drop_consumer-by_queue :
    (tag : Text) (c : Consumer) (m : ConsumerManager) (rest : List Consumer)
    → without tag (get_consumers c.queue_name m) ≡ some rest
    → (drop_consumer tag c m).by_queue ≡ insert c.queue_name rest m.by_queue
unfolding drop_consumer leave_group
drop_consumer-by_queue tag c m rest e = rw (drop_consumer, e) (ground arith)

pub get_consumer-drop_consumer :
    (tag t : Text) (c : Consumer) (m : ConsumerManager)
    → get_consumer t (drop_consumer tag c m) ≡ (if tag == t then none else get_consumer t m)
unfolding get_consumer
get_consumer-drop_consumer tag t c m =
    rw (drop_consumer-by_tag tag c m) (lookup-remove tag t m.by_tag)

copies-drop_consumer :
    (tag : Text) (c : Consumer) (m : ConsumerManager) (rest : List Consumer) (t q : Text)
    → without tag (get_consumers c.queue_name m) ≡ some rest
    → copies t (get_consumers q m)
      ≡ copies t (get_consumers q (drop_consumer tag c m))
        + (if c.queue_name == q then if tag == t then 1 else 0 else 0)
unfolding get_consumers
copies-drop_consumer tag c m rest t q e = rw (drop_consumer-by_queue tag c m rest e) (
    ground (
      arith,
      lookup_or-insert c.queue_name q rest m.by_queue,
      copies-without tag t (get_consumers c.queue_name m) rest e,
      ==_iff c.queue_name q,
    ))

pub drop_consumer-IsIndexed :
    (tag : Text) (c : Consumer) (m : ConsumerManager)
    → get_consumer tag m ≡ some c
    → IsIndexed m
    → IsIndexed (drop_consumer tag c m)
drop_consumer-IsIndexed tag c m f i t q =
    elim (Option-cases (without tag (get_consumers c.queue_name m))) [
      | inl o ↦ ground (
        arith,
        i tag c.queue_name,
        without-none tag (get_consumers c.queue_name m) o,
        eq_refl c.queue_name,
      )
      | inr (rest, o) ↦ ground (
        arith,
        copies-drop_consumer tag c m rest t q o,
        get_consumer-drop_consumer tag t c m,
        i t q,
        ==_iff tag t,
      )
    ]
