-- ===== src/Cluster/Vote.antt =====
-- Votes: when one is granted, and that a node grants one in a term.
use gomq.Prelude.{
  ℕ, ◌+◌, ◌≤◌, ◌<◌, ◌≡◌, ◌≢◌, refl, sym, ◌∙◌, ◌↔◌, ◌⊎◌, inl, inr, Bool, true, List, [], Text, arith,
  length, ok, nat_eq, text_eq, ==_iff,
}
use gomq.Cluster.Raft.{
  RaftNode, LogEntry, u64_mod, propose, meet_term, update_commit, append_entries, last_term,
  may_vote, request_vote, become_candidate, become_leader, set_commit_index, finish_election,
}

-- The candidate's log ends in a later term, or in the same term and is at least as long.
abbrev pub IsFresh : ℕ → ℕ → RaftNode → Type 0
IsFresh last_log_index last_log_term r =
    (last_term r.log < last_log_term)
    ⊎ ((last_term r.log ≡ last_log_term) × (length r.log ≤ last_log_index))

-- In the request's term the node has voted for nobody else.
abbrev pub IsFree : ℕ → Text → RaftNode → Type 0
IsFree term candidate_id r =
    (r.current_term < term) ⊎ ((r.voted_for ≡ []) ⊎ (r.voted_for ≡ candidate_id))

may_vote_iff :
    (c : Text) (i l : ℕ) (r : RaftNode)
    → (may_vote c i l r ≡ true) ↔ (((r.voted_for ≡ []) ⊎ (r.voted_for ≡ c)) × IsFresh i l r)
unfolding may_vote
may_vote_iff c i l r = ground (arith, ==_iff r.voted_for [], ==_iff r.voted_for c)

-- A vote is granted exactly where the request's term is not old, the node is free to vote for the
-- candidate in that term, and the candidate's log is fresh.
pub request_vote_iff :
    (term : ℕ) (candidate_id : Text) (last_log_index last_log_term : ℕ) (r : RaftNode)
    → ((request_vote term candidate_id last_log_index last_log_term r).1 ≡ true) ↔ (
        (r.current_term ≤ term)
        × IsFree term candidate_id r
        × IsFresh last_log_index last_log_term r)
unfolding request_vote meet_term
request_vote_iff t c i l r =
    ground (arith, may_vote_iff c i l r, may_vote_iff c i l (meet_term t r))

-- The operations of a node, as steps. A candidate's name is not empty, and terms do not wrap.
pub data Step (r : RaftNode) (r' : RaftNode) : Type 0 where
  appends :
      (term leader_commit prev_log_index prev_log_term : ℕ) (entries : List LogEntry) (b : Bool)
      → append_entries term leader_commit prev_log_index prev_log_term entries r ≡ ok (r', b)
      → Step r r'
  votes :
      (term : ℕ) (candidate_id : Text) (last_log_index last_log_term : ℕ)
      → candidate_id ≢ []
      → r' ≡ (request_vote term candidate_id last_log_index last_log_term r).0
      → Step r r'
  stands : r.current_term + 1 < u64_mod → r' ≡ become_candidate r → Step r r'
  leads : r' ≡ become_leader r → Step r r'
  proposes : (cmd : Text) (i : ℕ) → propose cmd r ≡ ok (r', i) → Step r r'
  commits : (i : ℕ) → r' ≡ set_commit_index i r → Step r r'
  elects : (term count : ℕ) → r' ≡ finish_election term count r → Step r r'

pub data Reach (r : RaftNode) : RaftNode → Type 0 where
  here : Reach r r
  next : {s t : RaftNode} → Reach r s → Step s t → Reach r t

-- The term does not fall, and within a term a vote that is cast stays.
pub record KeepsVote (r s : RaftNode) : Type 0 where
  pub term_le : r.current_term ≤ s.current_term
  pub vote_stays : s.current_term ≡ r.current_term → r.voted_for ≢ [] → s.voted_for ≡ r.voted_for

append_entries-KeepsVote :
    (t c p q : ℕ) (es : List LogEntry) (b : Bool) (r s : RaftNode)
    → append_entries t c p q es r ≡ ok (s, b)
    → KeepsVote r s
unfolding append_entries meet_term update_commit
append_entries-KeepsVote t c p q es b r s h = record {
  term_le = ground arith;
  vote_stays = ground arith;
}

request_vote-KeepsVote :
    (t : ℕ) (c : Text) (i l : ℕ) (r : RaftNode) → KeepsVote r (request_vote t c i l r).0
unfolding request_vote meet_term
request_vote-KeepsVote t c i l r = record {
  term_le = ground arith;
  vote_stays = ground (arith, may_vote_iff c i l r, may_vote_iff c i l (meet_term t r));
}

Step-KeepsVote : {r s : RaftNode} → Step r s → KeepsVote r s
unfolding propose become_candidate become_leader set_commit_index finish_election
Step-KeepsVote {r} {s} (appends t c p q es b h) = append_entries-KeepsVote t c p q es b r s h
Step-KeepsVote {r} (votes t c i l n e) = rw e (request_vote-KeepsVote t c i l r)
Step-KeepsVote (stands h e) = record { term_le = ground arith; vote_stays = ground arith }
Step-KeepsVote (leads e) = record { term_le = ground arith; vote_stays = ground arith }
Step-KeepsVote (proposes cmd i h) = record { term_le = ground arith; vote_stays = ground arith }
Step-KeepsVote (commits i e) = record { term_le = ground arith; vote_stays = ground arith }
Step-KeepsVote (elects t n e) = record { term_le = ground arith; vote_stays = ground arith }

KeepsVote-trans : {r s t : RaftNode} → KeepsVote r s → KeepsVote s t → KeepsVote r t
KeepsVote-trans {r} {s} {t} p q = record {
  term_le = omega arith;
  vote_stays = λ e n.
      let m : s.voted_for ≡ r.voted_for = p.vote_stays (omega arith) n in
      q.vote_stays (omega arith) (λ z. n (sym m ∙ z)) ∙ m;
}

pub Reach-KeepsVote : {r s : RaftNode} → Reach r s → KeepsVote r s
Reach-KeepsVote here = record { term_le = omega arith; vote_stays = λ e n. refl }
Reach-KeepsVote (next p st) = KeepsVote-trans (Reach-KeepsVote p) (Step-KeepsVote st)

granted :
    (t : ℕ) (c : Text) (i l : ℕ) (r : RaftNode)
    → (request_vote t c i l r).1 ≡ true
    → ((request_vote t c i l r).0.current_term ≡ t) × ((request_vote t c i l r).0.voted_for ≡ c)
unfolding request_vote meet_term
granted t c i l r h = ground arith

-- The node `r` gives its vote of the term to `c` and becomes `r'`: it grants a request, or stands for
-- the next term itself.
pub data Casts (r : RaftNode) (term : ℕ) (c : Text) (r' : RaftNode) : Type 0 where
  grants :
      (last_log_index last_log_term : ℕ)
      → (request_vote term c last_log_index last_log_term r).1 ≡ true
      → r' ≡ (request_vote term c last_log_index last_log_term r).0
      → Casts r term c r'
  stands_for :
      r.current_term + 1 < u64_mod
      → term ≡ r.current_term + 1
      → c ≡ r.node_id
      → r' ≡ become_candidate r
      → Casts r term c r'

-- A vote that is cast is written down.
Casts-kept :
    {r r' : RaftNode} (t : ℕ) (c : Text)
    → Casts r t c r'
    → (r'.current_term ≡ t) × (r'.voted_for ≡ c)
unfolding become_candidate
Casts-kept {r} t c (grants i l g e) = rw e (granted t c i l r g)
Casts-kept t c (stands_for h k n e) = (ground arith, ground arith)

-- Only a node that is free casts a vote.
Casts-IsFree :
    {s s' : RaftNode} (t : ℕ) (d : Text) → Casts s t d s' → (s.current_term ≤ t) × IsFree t d s
Casts-IsFree {s} t d (grants i l g e) =
    let (old, free, _) = (request_vote_iff t d i l s).0 g in (old, free)
Casts-IsFree t d (stands_for h k n e) = (omega (arith, k), inl (omega (arith, k)))

-- A node that casts its vote of a term for `c`, by granting a request or by standing itself, and
-- later its vote of the same term for `d`, whatever steps it makes in between short of the end of the
-- terms' 64 bits, has `c` and `d` equal, where names are not empty.
pub one_vote_a_term :
    (term : ℕ) (c d : Text) (r r' s s' : RaftNode)
    → c ≢ []
    → Casts r term c r'
    → Reach r' s
    → Casts s term d s'
    → c ≡ d
one_vote_a_term t c d r r' s s' n g p h =
    let (e, v) = Casts-kept t c g in
    let keeps = Reach-KeepsVote p in
    let (old, free) = Casts-IsFree t d h in
    let same : s.voted_for ≡ c =
      keeps.vote_stays (omega (arith, keeps.term_le)) (λ z. n (sym v ∙ z)) ∙ v in
    elim free [
      | inl newer ↦ absurd (omega (arith, keeps.term_le))
      | inr f ↦ elim f [ inl z ↦ absurd (n (sym same ∙ z)) | inr z ↦ sym same ∙ z ]
    ]
