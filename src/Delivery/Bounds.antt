-- ===== src/Delivery/Bounds.antt =====
-- The limit x-max-length along publishing.
use gomq.Prelude.{
  ℕ, suc, ◌-◌, ◌≤◌, ◌<◌, ◌≡◌, refl, sym, ◌∙◌, arith, true, false, List, [], ◌∷◌, ◌++◌, Text, length,
  length-append, Option, none, some, Option-cases, Bool-cases, List-cases, inl, inr, Result, ok,
  ◌==◌, text_eq, ==_iff, eq_refl, ltb, if◌then◌else◌,
}
use gomq.Prelude.GoMap.{GoMap, insert}
use gomq.Amqp.Signed.{pos}
use gomq.Routing.Binding.{Args}
use gomq.Broker.Queues as Queues
use gomq.Broker.Message.{Message, set_enqueued_at}
use gomq.Broker.Priority.{insert_by_priority}
use gomq.Broker.Groups.{Consumer}
use gomq.Broker.Consumers.{get_consumers}
use gomq.Broker.Tracker.{record_tag}
use gomq.Broker.Store.{MessageStore, queue_of, len, enqueue, enqueue_priority, dequeue}
use gomq.Broker.StoreLaws.{queue_of-insert, dequeue_nil, dequeue_lem}
use gomq.Delivery.Policy.{Platform, max_length, max_priority, get_dead_letter_config, is_expired}
use gomq.Delivery.Deliverer.{
  Deliveries, split_groups, deliver_to, deliver_chosen, deliver_groups, deliver_each, member_of,
  deliver,
}
use gomq.Delivery.Publisher.{
  Topology, PublishError, DeadLetter, store_of, with_store, is_full, make_room, put_message,
  publish_to, dead_letter, publish, enough, count_published, record_stats, Published,
}
use gomq.Delivery.PublisherFuel.{
  Ends, Ends_ok, Ends-bind, HasRouters, Grown, publish_internal_ends, unmarked-enough,
}

len-insert :
    (q p : Text) (l : List Message) (s : MessageStore)
    → len p (insert q l s) ≡ (if q == p then length l else len p s)
unfolding len
len-insert q p l s = ground (arith, queue_of-insert q p l s)

length-insert_by_priority :
    (l : List Message) (m : Message) → length (insert_by_priority l m) ≡ suc (length l)
unfolding insert_by_priority
length-insert_by_priority [] m = refl
length-insert_by_priority (x ∷ l) m = ground (arith, length-insert_by_priority l m)

-- A message more in the queue, and no other.
put_message-len :
    (p : Platform) (qn qn' : Text) (args : Args) (msg : Message) (s : MessageStore)
    → len qn' (put_message p qn args msg s) ≡ (if qn == qn' then suc (len qn s) else len qn' s)
unfolding put_message enqueue enqueue_priority len
put_message-len p qn qn' args msg s = elim (Bool-cases (ltb 0 (max_priority p args))) [
  | inl t ↦ rw (t) (
      ground (
        arith,
        len-insert qn qn' (insert_by_priority (queue_of qn s) msg) s,
        length-insert_by_priority (queue_of qn s) msg,
      ))
  | inr t ↦ rw (t) (
      ground (
        arith,
        len-insert qn qn' (queue_of qn s ++ msg ∷ []) s,
        length-append (queue_of qn s) (msg ∷ []),
      ))
]

deliver_each-store :
    (msg : Message) (qn : Text) (ch : ℕ) (cs : List Consumer) (d : Deliveries)
    → store_of (deliver_each msg qn ch cs d) ≡ store_of d
unfolding deliver_each deliver_to record_tag store_of
deliver_each-store msg qn ch [] d = refl
deliver_each-store msg qn ch (c ∷ cs) d = deliver_each-store msg qn ch cs (deliver_to msg c qn ch d)

member_of-store :
    (p : Platform) (msg : Message) (gid : Text) (cs : List Consumer) (d : Deliveries)
    → store_of (member_of p msg gid cs d).0 ≡ store_of d
unfolding member_of store_of
member_of-store p msg gid cs d = ground arith

deliver_chosen-store :
    (msg : Message) (qn : Text) (ch : ℕ) (chosen : Option Consumer) (d : Deliveries)
    → store_of (deliver_chosen msg qn ch chosen d) ≡ store_of d
unfolding deliver_chosen deliver_to record_tag store_of
deliver_chosen-store msg qn ch none d = refl
deliver_chosen-store msg qn ch (some c) d = refl

deliver_groups-store :
    (p : Platform) (msg : Message) (qn : Text) (ch : ℕ) (groups : GoMap Text (List Consumer))
    (d : Deliveries)
    → store_of (deliver_groups p msg qn ch groups d) ≡ store_of d
unfolding deliver_groups
deliver_groups-store p msg qn ch [] d = refl
deliver_groups-store p msg qn ch ((gid, cs) ∷ groups) d =
    let (d', chosen) = member_of p msg gid cs d in
    deliver_groups-store p msg qn ch groups (deliver_chosen msg qn ch chosen d')
    ∙ deliver_chosen-store msg qn ch chosen d'
    ∙ member_of-store p msg gid cs d

deliver-store :
    (p : Platform) (msg : Message) (qn : Text) (ch : ℕ) (d : Deliveries)
    → store_of (deliver p msg qn ch d) ≡ store_of d
unfolding deliver
deliver-store p msg qn ch d =
    let (grouped, ungrouped) = split_groups (get_consumers qn d.consumers) [] [] in
    deliver_each-store msg qn ch ungrouped (deliver_groups p msg qn ch grouped d)
    ∙ deliver_groups-store p msg qn ch grouped d

-- No queue is longer than its arguments allow.
abbrev pub IsBounded : Platform → Topology → Deliveries → Type 0
IsBounded p t d =
    (qn : Text) (q : Queues.Queue) (n : ℕ)
    → Queues.get qn t.queues ≡ some q
    → max_length p q.args ≡ pos n
    → 0 < n
    → len qn (store_of d) ≤ n

abbrev pub NoDeadLetters : Topology → Type 0
NoDeadLetters t =
    (qn : Text) (q : Queues.Queue)
    → Queues.get qn t.queues ≡ some q
    → get_dead_letter_config q.args ≡ none

-- There is room for one message, and no queue has grown.
record Roomy (p : Platform) (qn : Text) (args : Args) (d d' : Deliveries) : Type 0 where
  pub room :
      (n : ℕ)
      → max_length p args ≡ pos n
      → 0 < n
      → len qn (store_of d) ≤ n
      → len qn (store_of d') < n
  pub others : (qn' : Text) → len qn' (store_of d') ≤ len qn' (store_of d)

dequeue-len :
    (q p : Text) (s : MessageStore)
    → len p (dequeue q s).0 ≡ (if q == p then len q s - 1 else len p s)
unfolding len
dequeue-len q p s = elim (List-cases (queue_of q s)) [
  | inl e ↦ rw (dequeue_nil q s e) (ground (arith, ==_iff q p))
  | inr (m, rest, e) ↦ rw (dequeue_lem q m rest s e) (ground (arith, queue_of-insert q p rest s))
]

dequeue-Roomy :
    (p : Platform) (qn : Text) (args : Args) (d : Deliveries)
    → Roomy p qn args d (with_store (dequeue qn (store_of d)).0 d)
unfolding store_of with_store
dequeue-Roomy p qn args d = record {
  room = λ n m z h. ground (arith, dequeue-len qn qn d.tracker.store, eq_refl qn);
  others = λ qn'. ground (arith, dequeue-len qn qn' d.tracker.store, ==_iff qn qn');
}

not_full :
    (p : Platform) (args : Args) (n size : ℕ)
    → max_length p args ≡ pos n
    → 0 < n
    → is_full (max_length p args) size ≡ false
    → size < n
unfolding is_full
not_full p args n size m z f = let g = rw m at f in ground arith

make_room-Roomy :
    (p : Platform) (dead : DeadLetter) (qn : Text) (args : Args) (d : Deliveries)
    → ((m : Message) (d : Deliveries) → dead m args d ≡ ok d)
    → Ends (Roomy p qn args d) (make_room p dead qn args d)
unfolding make_room
make_room-Roomy p dead qn args d quiet =
    elim (Bool-cases (is_full (max_length p args) (len qn (store_of d)))) [
      | inl f ↦ elim (Option-cases (dequeue qn (store_of d)).1) [
        | inl o ↦ rw (f, make_room, o) (dequeue-Roomy p qn args d)
        | inr (m, o) ↦
            rw (f, make_room, o, quiet m (with_store (dequeue qn (store_of d)).0 d))
              (dequeue-Roomy p qn args d)
      ]
      | inr f ↦
          rw (f, make_room)
            (record { room = λ n m z h. not_full p args n _ m z f; others = λ qn'. omega arith })
    ]

put_message-IsBounded :
    (p : Platform) (t : Topology) (qn : Text) (q : Queues.Queue) (msg : Message) (d d' : Deliveries)
    → Queues.get qn t.queues ≡ some q
    → Roomy p qn q.args d d'
    → IsBounded p t d
    → IsBounded p t (with_store (put_message p qn q.args msg (store_of d')) d')
unfolding with_store store_of
put_message-IsBounded p t qn q msg d d' g r b qn' q' n g' m z = elim (Bool-cases (qn == qn')) [
  | inl e ↦
      let same : qn ≡ qn' = (==_iff qn qn').0 e in
      let same_queue : some q ≡ some q' = sym g ∙ rw same g' in
      let limit : max_length p q.args ≡ pos n = cc (same_queue, m) in
      let room = r.room n limit z (b qn q n g limit z) in
      rw (put_message-len p qn qn' q.args msg d'.tracker.store, e) room
  | inr e ↦
      rw (put_message-len p qn qn' q.args msg d'.tracker.store, e)
        (omega (arith, r.others qn', b qn' q' n g' m z))
]

publish_to-IsBounded :
    (p : Platform) (dead : DeadLetter) (ch : ℕ) (t : Topology)
    → ((qn : Text) (q : Queues.Queue)
        → Queues.get qn t.queues ≡ some q
        → (m : Message) (d : Deliveries) → dead m q.args d ≡ ok d)
    → (msg : Message) (qn : Text) (d : Deliveries) → IsBounded p t d
    → Ends (IsBounded p t) (publish_to p dead true ch t msg qn d)
unfolding publish_to
publish_to-IsBounded p dead ch t quiet msg qn d b = elim (Option-cases (Queues.get qn t.queues)) [
  | inl o ↦ rw (o, publish_to) b
  | inr (q, o) ↦
      rw (o, publish_to)
        (Ends-bind (Roomy p qn q.args d) (IsBounded p t) _ _
          (make_room-Roomy p dead qn q.args d (quiet qn q o))
          λ d' r.
            let msg' = set_enqueued_at p.now msg in
            let d'' = with_store (put_message p qn q.args msg' (store_of d')) d' in
            let k : IsBounded p t d'' = put_message-IsBounded p t qn q msg' d d' o r b in
            elim (Bool-cases (is_expired p msg' q.args)) [
              | inl e ↦ rw e k
              | inr e ↦
                  rw (e) (λ qn' q' n g m z. rw (deliver-store p msg' qn ch d'') (k qn' q' n g m z))
            ])
]

dead_letter_quiet :
    (p : Platform) (t : Topology) (args : Args)
    → get_dead_letter_config args ≡ none
    → (m : Message) (d : Deliveries) → dead_letter p t m args d ≡ ok d
unfolding dead_letter
dead_letter_quiet p t args n m d = rw (n, dead_letter)

count_published-store :
    (exchange : Text) (r : Published)
    → store_of (count_published exchange r).0 ≡ store_of r.deliveries
unfolding count_published record_stats store_of
count_published-store exchange r = ground arith

-- Where no queue has a dead-letter exchange and every exchange is of a known type, publishing
-- returns, and where no queue was longer than its x-max-length before, none is afterwards.
pub publish-IsBounded :
    (p : Platform) (t : Topology) (exchange key : Text) (msg : Message) (ch : ℕ) (d : Deliveries)
    → HasRouters t
    → NoDeadLetters t
    → IsBounded p t d
    → (end : Deliveries × Result PublishError ℕ) × (publish p t exchange key msg ch d ≡ ok end)
      × IsBounded p t end.0
unfolding publish
publish-IsBounded p t exchange key msg ch d routers quiet b =
    Ends_ok (λ end. IsBounded p t end.0) (publish p t exchange key msg ch d)
      (Ends-bind (Grown (IsBounded p t) []) (λ end. IsBounded p t end.0) _ _
        (publish_internal_ends p (dead_letter p t) true ch t (IsBounded p t)
          (publish_to-IsBounded p (dead_letter p t) ch t
            (λ qn q g. dead_letter_quiet p t q.args (quiet qn q g)))
          routers (enough t) exchange key msg [] d (unmarked-enough t) b)
        λ r g.
          let k : IsBounded p t (count_published exchange r).0 =
            λ qn q n o m z. rw (count_published-store exchange r) (g.1 qn q n o m z) in
          k)
