-- ===== src/Cluster/Raft.antt =====
-- internal/cluster/raft.go and the election of raft_node.go: the state of a node and its operations.
-- Timers and the channel that resets them carry no data and are left out.
use gomq.Prelude.{
  ℕ, ◌+◌, ◌-◌, ◌/◌, ◌%◌, ◌^◌, min, Bool, true, false, not, ◌&&◌, List, [], ◌∷◌, ◌++◌, Text, length,
  take, get_elem?, none, some, Result, ok, err, ◌>>=◌, ◌==◌, nat_eq, text_eq, ltb, leb,
  if◌then◌else◌,
}

pub data RaftState : Type 0 where
  follower candidate leader : RaftState

pub record LogEntry : Type 0 where
  pub index : ℕ
  pub term : ℕ
  pub command : Text

pub record RaftNode : Type 0 where
  pub node_id : Text
  pub state : RaftState
  pub current_term : ℕ
  pub voted_for : Text
  pub log : List LogEntry
  pub commit_index : ℕ
  pub peers : List Text

-- `not_leader` is ErrNotLeader; `index_panic` is an index out of range, at which Go panics.
pub data RaftError : Type 0 where
  not_leader index_panic : RaftError

abbrev pub u64_mod : ℕ
u64_mod = 2 ^ 64

unfoldable pub new_raft_node : Text → List Text → RaftNode
new_raft_node node_id peers = record {
  node_id = node_id;
  state = follower;
  current_term = 0;
  voted_for = [];
  log = [];
  commit_index = 0;
  peers = peers;
}

unfoldable pub propose : Text → RaftNode → Result RaftError (RaftNode × ℕ)
propose cmd r =
    let idx = length r.log + 1 in
    let entry : LogEntry = record { index = idx; term = r.current_term; command = cmd } in
    elim r.state [ leader ↦ ok (record r { log = r.log ++ entry ∷ [] }, idx) | _ ↦ err not_leader ]

-- The loop over the new entries.
unfoldable pub merge_entries : List LogEntry → List LogEntry → Result RaftError (List LogEntry)
merge_entries log [] = ok log
merge_entries log (ent ∷ entries) =
    let rest = merge_entries log entries in
    if leb ent.index (length log)
    then elim (if ent.index == 0 then none else get_elem? log (ent.index - 1)) [
      | none ↦ err index_panic
      | some e ↦
          if not (e.term == ent.term) then ok (take (ent.index - 1) log ++ ent ∷ entries) else rest
    ]
    else ok (log ++ ent ∷ entries)

-- A request of a later term makes the node a follower of that term.
unfoldable pub meet_term : ℕ → RaftNode → RaftNode
meet_term term r =
    if ltb r.current_term term
    then record r { current_term = term; state = follower; voted_for = [] }
    else r

-- The check of prevLogIndex and prevLogTerm.
unfoldable pub prev_matches : ℕ → ℕ → List LogEntry → Bool
prev_matches prev_log_index prev_log_term log =
    if ltb 0 prev_log_index
    then elim (get_elem? log (prev_log_index - 1)) [
      | none ↦ false
      | some e ↦ e.term == prev_log_term
    ]
    else true

unfoldable pub update_commit : ℕ → RaftNode → RaftNode
update_commit leader_commit r =
    if ltb r.commit_index leader_commit
    then record r { commit_index = min leader_commit (length r.log) }
    else r

unfoldable pub append_entries :
    ℕ → ℕ → ℕ → ℕ → List LogEntry → RaftNode → Result RaftError (RaftNode × Bool)
unfolding merge_entries meet_term prev_matches update_commit
append_entries term leader_commit prev_log_index prev_log_term entries r =
    let met = meet_term term r in
    if ltb term r.current_term
    then ok (r, false)
    else if not (prev_matches prev_log_index prev_log_term met.log)
    then ok (met, false)
    else do
      log ← merge_entries met.log entries
      ok (update_commit leader_commit (record met { log = log }), true)

unfoldable pub last_term : List LogEntry → ℕ
last_term [] = 0
last_term (e ∷ []) = e.term
last_term (e ∷ f ∷ log) = last_term (f ∷ log)

-- `votedFor` is free or already the candidate's, and the candidate's log is as fresh as ours.
unfoldable pub may_vote : Text → ℕ → ℕ → RaftNode → Bool
unfolding last_term
may_vote candidate_id last_log_index last_log_term r =
    let my_last_term = last_term r.log in
    if not (r.voted_for == []) && not (r.voted_for == candidate_id)
    then false
    else if ltb last_log_term my_last_term
    then false
    else if last_log_term == my_last_term && ltb last_log_index (length r.log)
    then false
    else true

unfoldable pub request_vote : ℕ → Text → ℕ → ℕ → RaftNode → RaftNode × Bool
unfolding meet_term may_vote
request_vote term candidate_id last_log_index last_log_term r =
    let met = meet_term term r in
    if ltb term r.current_term
    then (r, false)
    else if may_vote candidate_id last_log_index last_log_term met
    then (record met { voted_for = candidate_id }, true)
    else (met, false)

unfoldable pub become_candidate : RaftNode → RaftNode
become_candidate r = record r {
  current_term = (r.current_term + 1) % u64_mod;
  state = candidate;
  voted_for = r.node_id;
}

unfoldable pub become_leader : RaftNode → RaftNode
become_leader r = record r { state = leader }

-- Where the commit index lies behind the end of the log, Go panics or reads what the slice's
-- array still holds there; the model answers `index_panic`.
unfoldable pub committed : RaftNode → Result RaftError (List LogEntry)
committed r =
    if r.commit_index == 0
    then ok []
    else if ltb (length r.log) r.commit_index
    then err index_panic
    else ok (take r.commit_index r.log)

unfoldable pub set_commit_index : ℕ → RaftNode → RaftNode
set_commit_index idx r = if ltb r.commit_index idx then record r { commit_index = idx } else r

-- The end of startElection: `votes` counts the node's own vote and the granted answers, and `r` is
-- the node when all answers are in.
unfoldable pub finish_election : ℕ → ℕ → RaftNode → RaftNode
unfolding become_leader
finish_election term votes r =
    let won = r.current_term == term && ltb ((length r.peers + 1) / 2) votes in
    elim r.state [ candidate ↦ if won then become_leader r else r | _ ↦ r ]
