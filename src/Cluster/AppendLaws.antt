-- ===== src/Cluster/AppendLaws.antt =====
-- AppendEntries on a log and a request whose entries are numbered in order.
use gomq.Prelude.{
  ℕ, ◌-◌, ◌≤◌, ◌<◌, ◌≡◌, refl, sym, ap, ◌∙◌, ◌↔◌, ◌⊎◌, inl, inr, min, Bool, true, false, List,
  arith, length, length-take, take, take-take, get_elem?, get_elem?-lt, Option-cases, some, ok,
  ◌==◌, ==_iff, nat_eq, Bool-cases, ltb,
}
use gomq.Cluster.Raft.{
  LogEntry, RaftNode, merge_entries, meet_term, prev_matches, update_commit, append_entries,
}
use gomq.Cluster.Append.{Indexed, Holds, merge_entries-Merged}

prev_matches-le :
    (prev t : ℕ) (log : List LogEntry) → prev_matches prev t log ≡ true → prev ≤ length log
unfolding prev_matches
prev_matches-le prev t log h = elim (Option-cases (get_elem? log (prev - 1))) [
  | inl e ↦ ground arith
  | inr (a, e) ↦ omega (arith, get_elem?-lt log (prev - 1) a e)
]

-- The term is not old, and the entry before the new ones, where there is to be one, is in the log
-- with the stated term.
abbrev pub Accepted : ℕ → ℕ → ℕ → RaftNode → Type 0
Accepted term prev prev_term r =
    (r.current_term ≤ term)
    × ((prev ≡ 0) ⊎ ((e : LogEntry) × (get_elem? r.log (prev - 1) ≡ some e) × (e.term ≡ prev_term)))

prev_matches_iff :
    (prev t : ℕ) (log : List LogEntry)
    → (prev_matches prev t log ≡ true)
      ↔ ((prev ≡ 0) ⊎ ((e : LogEntry) × (get_elem? log (prev - 1) ≡ some e) × (e.term ≡ t)))
unfolding prev_matches
prev_matches_iff prev t log = elim (Option-cases (get_elem? log (prev - 1))) [
  | inl o ↦ (
    λ h. inl (ground arith),
    λ h. elim h [ inl z ↦ ground arith | inr (e, g, k) ↦ cc (sym o ∙ g) ],
  )
  | inr (e, o) ↦ elim (Bool-cases (e.term == t)) [
    | inl y ↦ (λ h. inr (e, o, (==_iff e.term t).0 y), λ h. ground (arith))
    | inr n ↦ (
      λ h. inl (ground arith),
      λ h. elim h [
        | inl z ↦ ground arith
        | inr (f, g, k) ↦
            let same : e ≡ f = cc (sym o ∙ g) in
            cc ((==_iff e.term t).1 (ap (λ (x : LogEntry). x.term) same ∙ k))
      ],
    )
  ]
]

-- What a call of AppendEntries does to the log.
pub record Appended (term prev prev_term : ℕ) (es : List LogEntry) (r s : RaftNode) (b : Bool)
    : Type 0 where
  pub indexed : Indexed 0 s.log
  pub accepts : (b ≡ true) ↔ Accepted term prev prev_term r
  pub holds : b ≡ true → Holds r.log s.log es
  pub keeps : b ≡ true → take prev s.log ≡ take prev r.log
  pub refuses : b ≡ false → s.log ≡ r.log

meet_term-log : (t : ℕ) (r : RaftNode) → (meet_term t r).log ≡ r.log
unfolding meet_term
meet_term-log t r = ground arith

update_commit-log : (c : ℕ) (r : RaftNode) → (update_commit c r).log ≡ r.log
unfolding update_commit
update_commit-log c r = ground arith

append_refused_term :
    (t c p q : ℕ) (es : List LogEntry) (r : RaftNode)
    → t < r.current_term
    → append_entries t c p q es r ≡ ok (r, false)
unfolding append_entries
append_refused_term t c p q es r h = ground arith

append_refused_prev :
    (t c p q : ℕ) (es : List LogEntry) (r : RaftNode)
    → r.current_term ≤ t
    → prev_matches p q r.log ≡ false
    → append_entries t c p q es r ≡ ok (meet_term t r, false)
unfolding append_entries
append_refused_prev t c p q es r h k = ground (arith, meet_term-log t r)

append_accepted :
    (t c p q : ℕ) (es new : List LogEntry) (r : RaftNode)
    → r.current_term ≤ t
    → prev_matches p q r.log ≡ true
    → merge_entries r.log es ≡ ok new
    → append_entries t c p q es r
      ≡ ok (update_commit c (record (meet_term t r) { log = new }), true)
unfolding append_entries
append_accepted t c p q es new r h k m = ground (arith, meet_term-log t r)

-- On a log and entries that are numbered in order, AppendEntries never indexes out of range. It
-- accepts exactly where the term is not old and the entry before the new ones has the stated term.
-- Then the log is numbered in order, keeps everything up to that entry, and has at the place of each
-- new entry that entry itself, or the one that was there before if its term is the same; where it
-- refuses, the log stays.
pub append_entries_lem :
    (term leader_commit prev prev_term : ℕ) (es : List LogEntry) (r : RaftNode)
    → Indexed 0 r.log
    → Indexed prev es
    → (s : RaftNode) × (b : Bool) × (append_entries term leader_commit prev prev_term es r
        ≡ ok (s, b))
      × Appended term prev prev_term es r s b
append_entries_lem t c p q es r il ie = elim (Bool-cases (ltb t r.current_term)) [
  | inl old ↦ (
    r,
    false,
    append_refused_term t c p q es r (ground arith),
    record {
      indexed = il;
      accepts = (λ h. cc, λ (h, _). absurd (ground arith));
      holds = λ h. cc;
      keeps = λ h. cc;
      refuses = λ h. refl;
    },
  )
  | inr now ↦ elim (Bool-cases (prev_matches p q r.log)) [
    | inr bad ↦ (
      meet_term t r,
      false,
      append_refused_prev t c p q es r (ground arith) bad,
      record {
        indexed = rw (meet_term-log t r) il;
        accepts = (λ h. cc, λ h. cc ((prev_matches_iff p q r.log).1 h.1));
        holds = λ h. cc;
        keeps = λ h. cc;
        refuses = λ h. meet_term-log t r;
      },
    )
    | inl good ↦
        let (new, e, m) = merge_entries-Merged p r.log es il ie (prev_matches-le p q r.log good) in
        let after : RaftNode = record (meet_term t r) { log = new } in
        let same : (update_commit c after).log ≡ new = update_commit-log c after in
        (
          update_commit c after,
          true,
          append_accepted t c p q es new r (ground arith) good e,
          record {
            indexed = rw same m.indexed;
            accepts = (λ h. (ground arith, (prev_matches_iff p q r.log).0 good), λ h. refl);
            holds = λ h. rw same m.holds;
            keeps = λ h. rw same m.keeps;
            refuses = λ h. cc;
          },
        )
  ]
]

append_entries-commit :
    (t c p q : ℕ) (es : List LogEntry) (r s : RaftNode) (b : Bool)
    → append_entries t c p q es r ≡ ok (s, b)
    → (s.commit_index ≡ r.commit_index)
      ⊎ ((b ≡ true) × (s.commit_index ≡ min c (length s.log)) × (r.commit_index < c))
unfolding append_entries meet_term update_commit
append_entries-commit t c p q es r s b h = ground arith

-- On a log and entries that are numbered in order, with the commit index within the log, a request
-- whose new entries stand behind the commit index leaves every committed entry as it is; the commit
-- index does not fall and stays within the log.
pub append_entries-committed :
    (term leader_commit prev prev_term : ℕ) (es : List LogEntry) (r s : RaftNode) (b : Bool)
    → Indexed 0 r.log
    → Indexed prev es
    → r.commit_index ≤ prev
    → r.commit_index ≤ length r.log
    → append_entries term leader_commit prev prev_term es r ≡ ok (s, b)
    → (take r.commit_index s.log ≡ take r.commit_index r.log)
      × ((r.commit_index ≤ s.commit_index) × (s.commit_index ≤ length s.log))
append_entries-committed t c p q es r s b il ie le inside h =
    let (s', b', e, a) = append_entries_lem t c p q es r il ie in
    let states : s' ≡ s = cc (sym e ∙ h) in
    let answers : b' ≡ b = cc (sym e ∙ h) in
    let kept : take r.commit_index s'.log ≡ take r.commit_index r.log = elim (Bool-cases b') [
      | inl t ↦
          sym (take-take r.commit_index p s'.log le)
          ∙ ap (take r.commit_index) (a.keeps t)
          ∙ take-take r.commit_index p r.log le
      | inr f ↦ ap (take r.commit_index) (a.refuses f)
    ] in
    let kept' : take r.commit_index s.log ≡ take r.commit_index r.log =
      ap (λ (x : RaftNode). take r.commit_index x.log) (sym states) ∙ kept in
    let long : r.commit_index ≤ length s.log = omega (
      arith,
      length-take r.commit_index s.log,
      length-take r.commit_index r.log,
      ap length kept',
    ) in
    (
      kept',
      elim (append_entries-commit t c p q es r s b h) [
        | inl u ↦ (omega (arith, u), omega (arith, u))
        | inr (_, u, v) ↦ (omega (arith, u), omega (arith, u))
      ],
    )
