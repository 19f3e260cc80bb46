-- ===== src/Cluster/Quorum.antt =====
-- internal/queue/quorum.go: the replicated queue over a Raft node.
use mathlib.Core.List.{append_assoc, append-nil}
use gomq.Prelude.{
  ℕ, zero, suc, ◌+◌, ◌-◌, ◌≤◌, ◌≡◌, refl, sym, ap, ◌∙◌, inl, inr, Bool, true, false, List, [], ◌∷◌,
  ◌++◌, map, Text, arith, length, length-append, length-drop, length-map, length-take, take, drop,
  drop_all, get_elem?, get_elem?-some, none, some, Option-cases, Result, ok, ◌>>=◌, nat_eq,
}
use gomq.Prelude.GoMap.{GoMap, lookup, insert, remove}
use gomq.Cluster.Raft.{RaftNode, RaftError, LogEntry, propose, committed}

-- `pending` holds the indices whose publishers wait; a channel carries no data but the answer.
pub record QuorumQueue : Type 0 where
  pub name : Text
  pub raft : RaftNode
  pub messages : List Text
  pub pending : GoMap ℕ (Unit {0})

unfoldable pub new_quorum_queue : Text → RaftNode → QuorumQueue
new_quorum_queue name raft = record { name = name; raft = raft; messages = []; pending = [] }

-- Publish up to its wait: the proposal, and the waiting channel under its index.
unfoldable pub start_publish : Text → QuorumQueue → Result RaftError (QuorumQueue × ℕ)
unfolding propose insert
start_publish msg q = do
  (raft, idx) ← propose msg q.raft
  ok (record q { raft = raft; pending = insert idx tt q.pending }, idx)

-- The other way out of the wait: five seconds without an answer.
unfoldable pub time_out : ℕ → QuorumQueue → QuorumQueue
time_out idx q = record q { pending = remove idx q.pending }

-- The loop of OnCommit; it makes as many rounds as messages are missing.
unfoldable pub fill : ℕ → List LogEntry → List Text → List Text
fill zero log messages = messages
fill (suc k) log messages = elim (get_elem? log (length messages)) [
  | none ↦ messages
  | some ent ↦ fill k log (messages ++ ent.command ∷ [])
]

-- The queue after the call, and whether a publisher is told that its message is committed.
unfoldable pub on_commit : ℕ → QuorumQueue → Result RaftError (QuorumQueue × Bool)
unfolding fill committed lookup remove
on_commit idx q = do
  log ← committed q.raft
  let filled : QuorumQueue = record q {
    messages = fill (length log - length q.messages) log q.messages;
  }
  elim (lookup idx q.pending) [
    | none ↦ ok (filled, false)
    | some _ ↦ ok (record filled { pending = remove idx q.pending }, true)
  ]

unfoldable pub consume : ℕ → QuorumQueue → List Text
consume count q = take count q.messages

unfoldable pub ack : ℕ → QuorumQueue → QuorumQueue
ack offset q = record q { messages = drop offset q.messages }

abbrev pub commands : List LogEntry → List Text
commands log = map (λ e. e.command) log

drop-suc :
    (log : List LogEntry) (i : ℕ) (e : LogEntry)
    → get_elem? log i ≡ some e
    → drop i log ≡ e ∷ drop (suc i) log
drop-suc [] i e h = cc
drop-suc (x ∷ log) zero e h = ap (λ (y : LogEntry). y ∷ log) (cc)
drop-suc (x ∷ log) (suc i) e h = drop-suc log i e h

fill-drop :
    (k : ℕ) (log : List LogEntry) (messages : List Text)
    → length messages + k ≡ length log
    → fill k log messages ≡ messages ++ commands (drop (length messages) log)
unfolding fill
fill-drop zero log messages h =
    let none_left : drop (length messages) log ≡ [] =
      drop_all (length messages) log (omega arith) in
    rw none_left (sym (append-nil messages))
fill-drop (suc k) log messages h =
    let (e, g) = get_elem?-some log (length messages) (omega arith) in
    let long : length (messages ++ e.command ∷ []) ≡ suc (length messages) =
      omega (arith, length-append messages (e.command ∷ [])) in
    rw (g, fill, drop-suc log (length messages) e g)
      (fill-drop k log (messages ++ e.command ∷ []) (omega (arith, long))
        ∙ rw long
            (append_assoc messages (e.command ∷ []) (commands (drop (suc (length messages)) log))))

-- With the commit index inside the log, OnCommit adds to the messages the committed commands from
-- the position on that is the number of messages at hand.
on_commit-messages :
    (idx : ℕ) (q : QuorumQueue) (log : List LogEntry)
    → committed q.raft ≡ ok log
    → length q.messages ≤ length log
    → (r : QuorumQueue × Bool) × (on_commit idx q ≡ ok r)
      × ((r.0).messages ≡ q.messages ++ commands (drop (length q.messages) log))
unfolding on_commit
on_commit-messages idx q log e h =
    let filled = fill-drop (length log - length q.messages) log q.messages (omega arith) in
    elim (Option-cases (lookup idx q.pending)) [
      | inl o ↦ (
        (record q { messages = fill (length log - length q.messages) log q.messages }, false),
        rw (e, o),
        filled,
      )
      | inr (u, o) ↦ (
        (
          record q {
            messages = fill (length log - length q.messages) log q.messages;
            pending = remove idx q.pending;
          },
          true,
        ),
        rw (e, o),
        filled,
      )
    ]

commands-take-drop :
    (k : ℕ) (log : List LogEntry) → commands (take k log) ++ commands (drop k log) ≡ commands log
commands-take-drop zero log = refl
commands-take-drop (suc k) [] = refl
commands-take-drop (suc k) (e ∷ log) = ap (λ l. e.command ∷ l) (commands-take-drop k log)

-- Where the messages at hand are the first committed ones, OnCommit makes them all the committed
-- ones.
pub on_commit_lem :
    (idx k : ℕ) (q : QuorumQueue) (log : List LogEntry)
    → committed q.raft ≡ ok log
    → k ≤ length log
    → q.messages ≡ commands (take k log)
    → (r : QuorumQueue × Bool) × (on_commit idx q ≡ ok r) × ((r.0).messages ≡ commands log)
on_commit_lem idx k q log e h m =
    let long : length q.messages ≡ k =
      ap length m ∙ length-map (take k log) (λ e. e.command) ∙ omega (arith, length-take k log) in
    let (r, p, n) = on_commit-messages idx q log e (omega arith) in
    (r, p, n ∙ rw (long, m) (commands-take-drop k log))

-- Where the first `k` committed messages have been acknowledged, OnCommit hands out again the last
-- `k` of the log, or all that are left of it, behind those that are still to be consumed.
pub on_commit_again :
    (idx k : ℕ) (q : QuorumQueue) (log : List LogEntry)
    → committed q.raft ≡ ok log
    → k ≤ length log
    → q.messages ≡ commands (drop k log)
    → (r : QuorumQueue × Bool) × (on_commit idx q ≡ ok r)
      × ((r.0).messages ≡ commands (drop k log) ++ commands (drop (length log - k) log))
on_commit_again idx k q log e h m =
    let long : length q.messages ≡ length log - k =
      ap length m ∙ length-map (drop k log) (λ e. e.command) ∙ length-drop k log in
    let (r, p, n) = on_commit-messages idx q log e (omega arith) in (r, p, n ∙ rw (long, m) refl)
