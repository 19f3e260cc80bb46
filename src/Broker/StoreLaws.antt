-- ===== src/Broker/StoreLaws.antt =====
-- The store as one queue of messages under each name.
use mathlib.Core.List.{append_assoc, append-nil}
use gomq.Prelude.{
  ℕ, zero, suc, ◌≡◌, ◌≢◌, refl, ap, ◌∙◌, inl, inr, Bool, true, false, List, [], ◌∷◌, ◌++◌, map,
  Text, arith, length, All, Option, none, some, ◌==◌, text_eq, ==_iff, eq_refl, if◌then◌else◌,
  Bool-cases, List-cases,
}
use gomq.Prelude.GoMap.{insert, lookup_or, lookup-insert}
use gomq.Broker.Message.{Message}
use gomq.Broker.Store.{MessageStore, queue_of, enqueue, dequeue, sift, remove_expired}

pub queue_of-insert :
    (q p : Text) (l : List Message) (s : MessageStore)
    → queue_of p (insert q l s) ≡ (if q == p then l else queue_of p s)
unfolding queue_of lookup_or
queue_of-insert q p l s = ground (arith, lookup-insert q p l s)

pub queue_of-enqueue :
    (q p : Text) (m : Message) (s : MessageStore)
    → queue_of p (enqueue q m s) ≡ (if q == p then queue_of q s ++ m ∷ [] else queue_of p s)
unfolding enqueue
queue_of-enqueue q p m s = queue_of-insert q p (queue_of q s ++ m ∷ []) s

-- A list of messages, put into one queue one after the other.
unfoldable pub enqueue_all : Text → List Message → MessageStore → MessageStore
enqueue_all q [] s = s
enqueue_all q (m ∷ ms) s = enqueue_all q ms (enqueue q m s)

-- `n` calls of Dequeue, and the messages that they return.
unfoldable pub dequeue_all : Text → ℕ → MessageStore → MessageStore × List (Option Message)
unfolding dequeue
dequeue_all q zero s = (s, [])
dequeue_all q (suc n) s =
    let (s', m) = dequeue q s in let (s'', ms) = dequeue_all q n s' in (s'', m ∷ ms)

queue_of-enqueue_all :
    (q p : Text) (ms : List Message) (s : MessageStore)
    → queue_of p (enqueue_all q ms s) ≡ (if q == p then queue_of q s ++ ms else queue_of p s)
unfolding enqueue_all
queue_of-enqueue_all q p [] s = ground (arith, ==_iff q p, append-nil (queue_of q s))
queue_of-enqueue_all q p (m ∷ ms) s = ground (
  arith,
  queue_of-enqueue_all q p ms (enqueue q m s),
  queue_of-enqueue q p m s,
  queue_of-enqueue q q m s,
  eq_refl q,
  append_assoc (queue_of q s) (m ∷ []) ms,
)

pub dequeue_nil : (q : Text) (s : MessageStore) → queue_of q s ≡ [] → dequeue q s ≡ (s, none)
unfolding dequeue
dequeue_nil q s e = rw (e, dequeue)

pub dequeue_lem :
    (q : Text) (m : Message) (rest : List Message) (s : MessageStore)
    → queue_of q s ≡ m ∷ rest
    → dequeue q s ≡ (insert q rest s, some m)
unfolding dequeue
dequeue_lem q m rest s e = rw (e, dequeue)

-- The calls return the first messages of the queue, leave the rest, and touch no other queue.
record Dequeued (q : Text) (ms rest : List Message) (s : MessageStore)
    (r : MessageStore × List (Option Message)) : Type 0 where
  pub returned : r.1 ≡ map some ms
  pub left : queue_of q r.0 ≡ rest
  pub others : (p : Text) → q ≢ p → queue_of p r.0 ≡ queue_of p s

dequeue_all-Dequeued :
    (q : Text) (ms rest : List Message) (s : MessageStore)
    → queue_of q s ≡ ms ++ rest
    → Dequeued q ms rest s (dequeue_all q (length ms) s)
unfolding dequeue_all
dequeue_all-Dequeued q [] rest s e = record { returned = refl; left = e; others = λ p n. refl }
dequeue_all-Dequeued q (m ∷ ms) rest s e =
    let next : queue_of q (insert q (ms ++ rest) s) ≡ ms ++ rest =
      ground (arith, queue_of-insert q q (ms ++ rest) s, eq_refl q) in
    let d = dequeue_all-Dequeued q ms rest (insert q (ms ++ rest) s) next in
    rw (dequeue_lem q m (ms ++ rest) s e) (record {
      returned = ap (λ l. some m ∷ l) d.returned;
      left = d.left;
      others =
          λ p n. d.others p n ∙ ground (arith, queue_of-insert q p (ms ++ rest) s, ==_iff q p, n);
    })

-- Messages put into an empty queue come out in the order in which they were put, the queue is empty
-- again, and no other queue has changed.
pub dequeue_all-enqueue_all :
    (q : Text) (ms : List Message) (s : MessageStore)
    → queue_of q s ≡ []
    → let r = dequeue_all q (length ms) (enqueue_all q ms s) in
      (r.1 ≡ map some ms)
      × (queue_of q r.0 ≡ [])
      × ((p : Text) → q ≢ p → queue_of p r.0 ≡ queue_of p s)
dequeue_all-enqueue_all q ms s e =
    let full : queue_of q (enqueue_all q ms s) ≡ ms ++ [] =
      ground (arith, queue_of-enqueue_all q q ms s, eq_refl q, append-nil ms) in
    let d = dequeue_all-Dequeued q ms [] (enqueue_all q ms s) full in
    (
      d.returned,
      d.left,
      λ p n. d.others p n ∙ ground (arith, queue_of-enqueue_all q p ms s, ==_iff q p, n),
    )

-- The queue is made of two lists, each in its order.
pub data Interleaved : List Message → List Message → List Message → Type 0 where
  none_left : Interleaved [] [] []
  from_left :
      {m : Message} {xs ys zs : List Message}
      → Interleaved xs ys zs
      → Interleaved (m ∷ xs) ys (m ∷ zs)
  from_right :
      {m : Message} {xs ys zs : List Message}
      → Interleaved xs ys zs
      → Interleaved xs (m ∷ ys) (m ∷ zs)

record Sifted (test : Message → Bool) (queue : List Message) (r : List Message × List Message)
    : Type 0 where
  pub order : Interleaved r.0 r.1 queue
  pub alive : All (λ m. test m ≡ false) r.0
  pub expired : All (λ m. test m ≡ true) r.1

sift-Sifted : (test : Message → Bool) (queue : List Message) → Sifted test queue (sift test queue)
unfolding sift
sift-Sifted test [] = record { order = none_left; alive = tt; expired = tt }
sift-Sifted test (m ∷ queue) =
    let r = sift-Sifted test queue in
    elim (Bool-cases (test m)) [
      | inl t ↦
          rw t (record { order = from_right r.order; alive = r.alive; expired = (t, r.expired) })
      | inr f ↦
          rw f (record { order = from_left r.order; alive = (f, r.alive); expired = r.expired })
    ]

remove_expired-nil :
    (q : Text) (test : Message → Bool) (s : MessageStore)
    → queue_of q s ≡ []
    → remove_expired q test s ≡ (s, [])
unfolding remove_expired
remove_expired-nil q test s e = rw (e, remove_expired)

remove_expired-cons :
    (q : Text) (test : Message → Bool) (s : MessageStore) (m : Message) (rest : List Message)
    → queue_of q s ≡ m ∷ rest
    → remove_expired q test s ≡ (insert q (sift test (m ∷ rest)).0 s, (sift test (m ∷ rest)).1)
unfolding remove_expired
remove_expired-cons q test s m rest e = rw (e, remove_expired)

remove_expired-sift :
    (q : Text) (test : Message → Bool) (s : MessageStore)
    → (queue_of q (remove_expired q test s).0 ≡ (sift test (queue_of q s)).0)
      × ((remove_expired q test s).1 ≡ (sift test (queue_of q s)).1)
      × ((p : Text) → q ≢ p → queue_of p (remove_expired q test s).0 ≡ queue_of p s)
remove_expired-sift q test s = elim (List-cases (queue_of q s)) [
  | inl e ↦
      rw (remove_expired-nil q test s e)
        (rw e (unfold sift in refl), rw e (unfold sift in refl), λ p n. refl)
  | inr (m, rest, e) ↦
      rw (remove_expired-cons q test s m rest e, e)
        (
          ground (arith, queue_of-insert q q (sift test (m ∷ rest)).0 s, eq_refl q),
          refl,
          λ p n. ground (arith, queue_of-insert q p (sift test (m ∷ rest)).0 s, ==_iff q p, n),
        )
]

-- RemoveExpired hands exactly the expired messages of the queue to the callback and keeps exactly
-- the others, both in the queue's order, and touches no other queue.
pub remove_expired_lem :
    (q : Text) (test : Message → Bool) (s : MessageStore)
    → let r = remove_expired q test s in
      Interleaved (queue_of q r.0) r.1 (queue_of q s)
      × All (λ m. test m ≡ false) (queue_of q r.0)
      × All (λ m. test m ≡ true) r.1
      × ((p : Text) → q ≢ p → queue_of p r.0 ≡ queue_of p s)
remove_expired_lem q test s =
    let (a, b, c) = remove_expired-sift q test s in
    let r = sift-Sifted test (queue_of q s) in (rw (a, b) r.order, rw a r.alive, rw b r.expired, c)
