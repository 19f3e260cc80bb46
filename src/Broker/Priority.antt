-- ===== src/Broker/Priority.antt =====
-- internal/server/priority_queue.go: insertion by priority.
use gomq.Prelude.{
  ℕ, ◌≤◌, ◌<◌, ◌≡◌, refl, ap, inl, inr, List, [], ◌∷◌, ◌++◌, arith, All, ltb, if◌then◌else◌,
  Bool-cases, ltb→lt,
}
use gomq.Broker.Message.{Message}

-- The loop looks for the first message of lower priority; with none, the message goes to the end.
unfoldable pub insert_by_priority : List Message → Message → List Message
insert_by_priority [] msg = msg ∷ []
insert_by_priority (m ∷ queue) msg =
    if ltb m.properties.priority msg.properties.priority
    then msg ∷ m ∷ queue
    else m ∷ insert_by_priority queue msg

abbrev AtLeast : ℕ → Message → Type 0
AtLeast p m = p ≤ m.properties.priority

abbrev Below : ℕ → Message → Type 0
Below p m = m.properties.priority < p

-- Priorities do not rise along the queue.
abbrev pub IsOrdered : List Message → Type 0
IsOrdered [] = Unit
IsOrdered (m ∷ queue) =
    All (λ n. n.properties.priority ≤ m.properties.priority) queue × IsOrdered queue

All-weaken :
    (p q : ℕ) (queue : List Message)
    → q < p
    → All (λ n. n.properties.priority ≤ q) queue
    → All (Below p) queue
All-weaken p q [] h a = tt
All-weaken p q (m ∷ queue) h a = (omega arith, All-weaken p q queue h a.1)

-- The message stands behind every message of its own or a higher priority and before every lower
-- one, and the rest keeps its order.
pub record Inserted (queue : List Message) (msg : Message) (new : List Message) : Type 0 where
  pub before : List Message
  pub after : List Message
  pub split : queue ≡ before ++ after
  pub place : new ≡ before ++ msg ∷ after
  pub high : All (AtLeast msg.properties.priority) before
  pub low : All (Below msg.properties.priority) after

insert_by_priority-Inserted :
    (queue : List Message) (msg : Message)
    → IsOrdered queue
    → Inserted queue msg (insert_by_priority queue msg)
unfolding insert_by_priority
insert_by_priority-Inserted [] msg o = record {
  before = [];
  after = [];
  split = refl;
  place = refl;
  high = tt;
  low = tt;
}
insert_by_priority-Inserted (m ∷ queue) msg o =
    elim (Bool-cases (ltb m.properties.priority msg.properties.priority)) [
      | inl h ↦
          let lt = ltb→lt m.properties.priority msg.properties.priority h in
          record {
            before = [];
            after = m ∷ queue;
            split = refl;
            place = rw h;
            high = tt;
            low = (lt, All-weaken msg.properties.priority m.properties.priority queue lt o.0);
          }
      | inr h ↦
          let r = insert_by_priority-Inserted queue msg o.1 in
          record {
            before = m ∷ r.before;
            after = r.after;
            split = ap (λ l. m ∷ l) r.split;
            place = rw h (ap (λ l. m ∷ l) r.place);
            high = (ground arith, r.high);
            low = r.low;
          }
    ]

insert-le :
    (p : ℕ) (queue : List Message) (msg : Message)
    → msg.properties.priority ≤ p
    → All (λ n. n.properties.priority ≤ p) queue
    → All (λ n. n.properties.priority ≤ p) (insert_by_priority queue msg)
unfolding insert_by_priority
insert-le p [] msg h a = (h, tt)
insert-le p (m ∷ queue) msg h a =
    elim (Bool-cases (ltb m.properties.priority msg.properties.priority)) [
      | inl e ↦ rw e (h, a)
      | inr e ↦ rw e (a.0, insert-le p queue msg h a.1)
    ]

le-weaken :
    (p q : ℕ) (queue : List Message)
    → q ≤ p
    → All (λ n. n.properties.priority ≤ q) queue
    → All (λ n. n.properties.priority ≤ p) queue
le-weaken p q [] h a = tt
le-weaken p q (m ∷ queue) h a = (omega arith, le-weaken p q queue h a.1)

insert-IsOrdered :
    (queue : List Message) (msg : Message)
    → IsOrdered queue
    → IsOrdered (insert_by_priority queue msg)
unfolding insert_by_priority
insert-IsOrdered [] msg o = (tt, tt)
insert-IsOrdered (m ∷ queue) msg o =
    elim (Bool-cases (ltb m.properties.priority msg.properties.priority)) [
      | inl h ↦
          let lt = ltb→lt m.properties.priority msg.properties.priority h in
          rw h (
            (
              omega arith,
              le-weaken msg.properties.priority m.properties.priority queue (omega arith) o.0,
            ),
            o,
          )
      | inr h ↦ rw h (
        insert-le m.properties.priority queue msg (ground arith) o.0,
        insert-IsOrdered queue msg o.1,
      )
    ]

-- In a queue ordered by falling priority the new message takes its place behind all messages of its
-- own or a higher priority and before all lower ones, the others keep their order, and the queue
-- stays ordered.
pub insert_by_priority_lem :
    (queue : List Message) (msg : Message)
    → IsOrdered queue
    → IsOrdered (insert_by_priority queue msg) × Inserted queue msg (insert_by_priority queue msg)
insert_by_priority_lem queue msg o =
    (insert-IsOrdered queue msg o, insert_by_priority-Inserted queue msg o)
