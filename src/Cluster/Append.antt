-- ===== src/Cluster/Append.antt =====
-- Merging new entries into a log.
use mathlib.Core.List.{append_assoc}
use gomq.Prelude.{
  ℕ, zero, suc, ◌+◌, ◌-◌, ◌≤◌, ◌≡◌, refl, sym, ap, ◌∙◌, ◌⊎◌, inl, inr, false, List, [], ◌∷◌, ◌++◌,
  arith, length, length-append, length-take, take, take-length, take_all, get_elem?,
  get_elem?-append, get_elem?-take, take-take, get_elem?-some, All, some, ok, ◌==◌, nat_eq, ==_iff,
  Bool-cases, leb, leb→le, leb-false,
}
use gomq.Cluster.Raft.{LogEntry, merge_entries}

-- The entry behind `n` others has the index `n + 1`.
abbrev pub Indexed : ℕ → List LogEntry → Type 0
Indexed n [] = Unit
Indexed n (e ∷ es) = (e.index ≡ suc n) × Indexed (suc n) es

-- The new log has the entry itself at its place, or the old log's entry there, of the same term.
abbrev pub Holds1 : List LogEntry → List LogEntry → LogEntry → Type 0
Holds1 old new e =
    (get_elem? new (e.index - 1) ≡ some e)
    ⊎ ((f : LogEntry) × (get_elem? old (e.index - 1) ≡ some f)
        × (get_elem? new (e.index - 1) ≡ some f)
        × (f.term ≡ e.term))

abbrev pub Holds : List LogEntry → List LogEntry → List LogEntry → Type 0
Holds old new es = All (Holds1 old new) es

Indexed-append :
    (n : ℕ) (xs ys : List LogEntry)
    → Indexed n xs
    → Indexed (n + length xs) ys
    → Indexed n (xs ++ ys)
Indexed-append n [] ys h k = let e : n ≡ n + 0 = omega arith in rw e k
Indexed-append n (x ∷ xs) ys h k =
    let e : suc n + length xs ≡ n + suc (length xs) = omega arith in
    (h.0, Indexed-append (suc n) xs ys h.1 (rw e k))

Indexed-take : (n k : ℕ) (xs : List LogEntry) → Indexed n xs → Indexed n (take k xs)
Indexed-take n zero xs h = tt
Indexed-take n (suc k) [] h = tt
Indexed-take n (suc k) (x ∷ xs) h = (h.0, Indexed-take (suc n) k xs h.1)

Holds-append : (old pre es : List LogEntry) → Indexed (length pre) es → Holds old (pre ++ es) es
Holds-append old pre [] h = tt
Holds-append old pre (e ∷ es) h =
    let at : e.index - 1 ≡ length pre = omega (arith, h.0) in
    let long : suc (length pre) ≡ length (pre ++ e ∷ []) =
      omega (arith, length-append pre (e ∷ [])) in
    (
      inl (rw at (get_elem?-append pre e es)),
      rw append_assoc at (Holds-append old (pre ++ e ∷ []) es (rw (← long) h.1)),
    )

-- A log that keeps its first `n` entries and holds the new ones.
pub record Merged (n : ℕ) (log entries new : List LogEntry) : Type 0 where
  pub indexed : Indexed 0 new
  pub holds : Holds log new entries
  pub keeps : take n new ≡ take n log

-- The new entries replace what lies behind the first `n`.
Merged-replace :
    (n : ℕ) (log es : List LogEntry)
    → Indexed 0 log
    → Indexed n es
    → n ≤ length log
    → Merged n log es (take n log ++ es)
Merged-replace n log es il ie h =
    let long : length (take n log) ≡ n = omega (arith, length-take n log) in
    record {
      indexed =
          Indexed-append 0 (take n log) es (Indexed-take 0 n log il)
            (let e : 0 + length (take n log) ≡ n = omega arith in rw e ie);
      holds = Holds-append log (take n log) es (rw long ie);
      keeps = let e = take-length (take n log) es in rw long at e;
    }

-- An entry that is there with its term stays, and the loop goes on behind it.
Merged-skip :
    (n : ℕ) (log es new : List LogEntry) (ent e : LogEntry)
    → ent.index ≡ suc n
    → get_elem? log n ≡ some e
    → e.term ≡ ent.term
    → Merged (suc n) log es new
    → Merged n log (ent ∷ es) new
Merged-skip n log es new ent e i g t m =
    let at : ent.index - 1 ≡ n = omega (arith, i) in
    let same : get_elem? new n ≡ get_elem? log n =
      sym (get_elem?-take n (suc n) new (omega arith))
      ∙ ap (λ l. get_elem? l n) m.keeps
      ∙ get_elem?-take n (suc n) log (omega arith) in
    record {
      indexed = m.indexed;
      holds = (inr (e, rw at g, rw at (same ∙ g), t), m.holds);
      keeps =
          sym (take-take n (suc n) new (omega arith))
          ∙ ap (take n) m.keeps
          ∙ take-take n (suc n) log (omega arith);
    }

pub merge_entries-Merged :
    (n : ℕ) (log es : List LogEntry)
    → Indexed 0 log
    → Indexed n es
    → n ≤ length log
    → (new : List LogEntry) × (merge_entries log es ≡ ok new) × Merged n log es new
unfolding merge_entries
merge_entries-Merged n log [] il ie h =
    (log, refl, record { indexed = il; holds = tt; keeps = refl })
merge_entries-Merged n log (ent ∷ es) il ie h = elim (Bool-cases (leb ent.index (length log))) [
  | inl inside ↦
      let (e, g) =
        get_elem?-some log n (omega (arith, leb→le ent.index (length log) inside, ie.0)) in
      let at : ent.index - 1 ≡ n = omega (arith, ie.0) in
      let found : get_elem? log (ent.index - 1) ≡ some e = rw at g in
      let positive : (ent.index == 0) ≡ false = ground (arith, ie.0) in
      elim (Bool-cases (e.term == ent.term)) [
        | inl t ↦
            let (new, q, m) =
              merge_entries-Merged (suc n) log es il ie.1
                (omega (arith, leb→le ent.index (length log) inside, ie.0)) in
            (
              new,
              rw (inside, positive, found, t) q,
              Merged-skip n log es new ent e ie.0 g ((==_iff e.term ent.term).0 t) m,
            )
        | inr f ↦ (
          take n log ++ ent ∷ es,
          rw (inside, positive, found, f, at) refl,
          Merged-replace n log (ent ∷ es) il ie h,
        )
      ]
  | inr outside ↦
      let all : take n log ≡ log =
        take_all n log (omega (arith, leb-false ent.index (length log) outside, ie.0)) in
      (log ++ ent ∷ es, rw outside refl, rw all at (Merged-replace n log (ent ∷ es) il ie h))
]
