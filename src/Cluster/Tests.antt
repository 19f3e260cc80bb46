-- ===== src/Cluster/Tests.antt =====
-- Runs of a Raft node and of a quorum queue on small logs.
use gomq.Prelude.{
  ℕ, ◌≤◌, ◌≡◌, ◌≢◌, refl, ◌↔◌, Bool, true, List, [], ◌∷◌, ◌++◌, Text, codes, take, arith, ok,
  nat_eq, text_eq, text_beq,
}
use gomq.Cluster.Raft.{
  RaftNode, LogEntry, follower, append_entries, request_vote, committed, meet_term, may_vote,
  last_term, prev_matches, merge_entries, update_commit,
}
use gomq.Cluster.Vote.{
  IsFree, IsFresh, request_vote_iff, here, next, votes, grants, one_vote_a_term,
}
use gomq.Cluster.AppendLaws.{Appended, append_entries_lem, append_entries-committed}
use gomq.Cluster.Quorum.{QuorumQueue, on_commit, commands, on_commit_lem, on_commit_again}

abbrev entry : ℕ → ℕ → Text → LogEntry
entry index term command = record { index = index; term = term; command = command }

abbrev log : List LogEntry
log = entry 1 1 (codes "x") ∷ entry 2 1 (codes "y") ∷ []

abbrev node : RaftNode
node = record {
  node_id = codes "n";
  state = follower;
  current_term = 1;
  voted_for = [];
  log = log;
  commit_index = 1;
  peers = [];
}

request_vote_iff_example :
    ((request_vote 2 (codes "c") 2 1 node).1 ≡ true)
    ↔ ((1 ≤ 2) × IsFree 2 (codes "c") node × IsFresh 2 1 node)
request_vote_iff_example = request_vote_iff 2 (codes "c") 2 1 node

c-ne : codes "c" ≢ []
c-ne e = cc

first_vote : (request_vote 2 (codes "c") 2 1 node).1 ≡ true
unfolding request_vote meet_term may_vote last_term text_beq
first_vote = refl

-- A second candidate is refused in between, and the first one asks again.
second_vote :
    (request_vote 2
      (codes "c")
      2
      1
      (request_vote 2 (codes "d") 2 1 (request_vote 2 (codes "c") 2 1 node).0).0).1
    ≡ true
unfolding request_vote meet_term may_vote last_term text_beq
second_vote = refl

d-ne : codes "d" ≢ []
d-ne e = cc

one_vote_a_term_example : codes "c" ≡ codes "c"
one_vote_a_term_example =
    one_vote_a_term 2 (codes "c") (codes "c") node (request_vote 2 (codes "c") 2 1 node).0
      (request_vote 2 (codes "d") 2 1 (request_vote 2 (codes "c") 2 1 node).0).0
      (request_vote 2 (codes "c") 2 1
        (request_vote 2 (codes "d") 2 1 (request_vote 2 (codes "c") 2 1 node).0).0).0
      c-ne (grants 2 1 first_vote refl) (next here (votes 2 (codes "d") 2 1 d-ne refl))
      (grants 2 1 second_vote refl)

-- The second entry is replaced and a third one comes behind it.
abbrev news : List LogEntry
news = entry 2 2 (codes "z") ∷ entry 3 2 (codes "w") ∷ []

append_entries_lem_example :
    (s : RaftNode) × (b : Bool) × (append_entries 2 3 1 1 news node ≡ ok (s, b))
    × Appended 2 1 1 news node s b
append_entries_lem_example =
    append_entries_lem 2 3 1 1 news node (refl, (refl, tt)) (refl, (refl, tt))

abbrev node_after : RaftNode
node_after = record {
  node_id = codes "n";
  state = follower;
  current_term = 2;
  voted_for = [];
  log = entry 1 1 (codes "x") ∷ news;
  commit_index = 3;
  peers = [];
}

append-node : append_entries 2 3 1 1 news node ≡ ok (node_after, true)
unfolding append_entries meet_term prev_matches merge_entries update_commit
append-node = refl

append_entries-committed_example :
    (take 1 (entry 1 1 (codes "x") ∷ news) ≡ take 1 log) × ((1 ≤ 3) × (3 ≤ 3))
append_entries-committed_example =
    append_entries-committed 2 3 1 1 news node node_after true (refl, (refl, tt)) (refl, (refl, tt))
      (omega arith) (omega arith) append-node

abbrev full : RaftNode
full = record node { commit_index = 2 }

full-committed : committed full ≡ ok log
unfolding committed
full-committed = refl

abbrev fresh : QuorumQueue
fresh = record { name = codes "q"; raft = full; messages = codes "x" ∷ []; pending = (2, tt) ∷ [] }

on_commit_lem_example :
    (r : QuorumQueue × Bool) × (on_commit 2 fresh ≡ ok r) × ((r.0).messages ≡ commands log)
on_commit_lem_example = on_commit_lem 2 1 fresh log full-committed (omega arith) refl

-- The message x has been acknowledged.
abbrev acked : QuorumQueue
acked = record fresh { messages = codes "y" ∷ [] }

on_commit_again_example :
    (r : QuorumQueue × Bool) × (on_commit 2 acked ≡ ok r)
    × ((r.0).messages ≡ (codes "y" ∷ []) ++ (codes "y" ∷ []))
on_commit_again_example = on_commit_again 2 1 acked log full-committed (omega arith) refl
