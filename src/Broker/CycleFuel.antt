-- ===== src/Broker/CycleFuel.antt =====
-- HasCycle ends, and answers whether the destination leads to the source.
use gomq.Prelude.{
  ℕ, zero, suc, ◌+◌, ◌≤◌, ◌<◌, ◌≡◌, refl, ◌∙◌, ◌↔◌, inl, inr, Bool, true, false, List, [], ◌∷◌,
  Text, arith, length, some, ◌==◌, text_eq, ==_iff, eq_refl, if◌then◌else◌, Bool-cases,
  Option-cases,
}
use gomq.Prelude.GoMap.{lookup, insert, lookup_or, lookup-insert}
use gomq.Broker.E2E.{
  E2EManager, E2EBinding, get_bindings, Visited, Search, search_all, dfs, has_cycle,
}
use gomq.Broker.Cycle.{Leads, dfs-true, dfs-false, Leads-Marked, Marked}

-- The keys of the map that are not marked.
pub unmarked : E2EManager → Visited → ℕ
unmarked [] v = 0
unmarked ((k, l) ∷ m) v = (if lookup_or false k v then 0 else 1) + unmarked m v

pub unmarked_mono :
    (m : E2EManager) (v w : Visited)
    → ((x : Text) → Marked x v → Marked x w)
    → unmarked m w ≤ unmarked m v
unfolding unmarked
unmarked_mono [] v w h = omega arith
unmarked_mono ((k, l) ∷ m) v w h = ground (arith, unmarked_mono m v w h, h k)

pub insert_keeps_mark : (n x : Text) (v : Visited) → Marked x v → Marked x (insert n true v)
unfolding lookup_or
insert_keeps_mark n x v h = ground (arith, lookup-insert n x true v)

pub unmarked-insert :
    (m : E2EManager) (n : Text) (v : Visited) (l : List E2EBinding)
    → lookup n m ≡ some l
    → lookup_or false n v ≡ false
    → unmarked m (insert n true v) < unmarked m v
unfolding unmarked lookup lookup_or
unmarked-insert [] n v l e h = absurd (ground arith)
unmarked-insert ((k, j) ∷ m) n v l e h = ground (
  arith,
  ==_iff k n,
  eq_refl n,
  lookup-insert n k true v,
  unmarked-insert m n v l,
  unmarked_mono m v (insert n true v) (λ x. insert_keeps_mark n x v),
)

pub unmarked-le : (m : E2EManager) (v : Visited) → unmarked m v ≤ length m
unfolding unmarked
unmarked-le [] v = omega arith
unmarked-le ((k, l) ∷ m) v = ground (arith, unmarked-le m v)

module _ (m : E2EManager) (s : Text) where
  search_all_total :
      (f : ℕ) (d : Text → Search)
      → ((n : Text) (v : Visited) → unmarked m v < f → (r : Bool × Visited) × (d n v ≡ some r))
      → ((n : Text) (v w : Visited)
          → d n v ≡ some (false, w)
          → (x : Text) → Marked x v
          → Marked x w)
      → (bs : List E2EBinding) (v : Visited) → unmarked m v < f
      → (r : Bool × Visited) × (search_all d bs v ≡ some r)
  unfolding search_all
  search_all_total f d hd grows [] v h = ((false, v), refl)
  search_all_total f d hd grows (b ∷ bs) v h =
      let (r, e) = hd b.destination v h in
      elim (Bool-cases r.0) [
        | inl t ↦ (r, ground arith)
        | inr k ↦
            let (q, p) = search_all_total f d hd grows bs r.1 (
              omega
                (arith, unmarked_mono m v r.1 (grows b.destination v r.1 (e ∙ ground arith)))) in
            (q, ground (arith, p))
      ]

  dfs_total :
      (f : ℕ) (n : Text) (v : Visited)
      → unmarked m v < f
      → (r : Bool × Visited) × (dfs f m s n v ≡ some r)
  unfolding dfs
  dfs_total zero n v h = absurd (omega arith)
  dfs_total (suc f) n v h = elim (Bool-cases (n == s)) [
    | inl e ↦ ((true, v), rw e)
    | inr e ↦ elim (Bool-cases (lookup_or false n v)) [
      | inl k ↦ ((false, v), rw (e, k))
      | inr k ↦ elim (Option-cases (lookup n m)) [
        | inl o ↦
            let no_bindings : get_bindings n m ≡ [] = ground arith in
            ((false, insert n true v), rw (e, k, no_bindings))
        | inr (l, o) ↦
            let (r, p) =
              search_all_total f (dfs f m s) (dfs_total f)
                (λ x a w q. (dfs-false m s f x a w q).0.grows) (get_bindings n m) (insert n true v)
                (omega (arith, unmarked-insert m n v l o k)) in
            (r, rw (e, k) p)
      ]
    ]
  ]

not-Marked-nil : (x : Text) → ¬ Marked x []
unfolding lookup_or lookup
not-Marked-nil x h = cc

-- HasCycle always answers, and answers true exactly where a chain of bindings leads from the
-- destination to the source, so that the new binding would close a cycle.
pub has_cycle_iff :
    (m : E2EManager) (source destination : Text)
    → (b : Bool) × (has_cycle source destination m ≡ some b)
      × ((b ≡ true) ↔ Leads m source destination)
unfolding has_cycle
has_cycle_iff m s d =
    let (r, e) = dfs_total m s (suc (length m)) d [] (omega (arith, unmarked-le m [])) in
    (
      r.0,
      rw (e, has_cycle),
      (
        λ t. dfs-true m s (suc (length m)) d [] r.1 (e ∙ ground arith),
        λ l. elim (Bool-cases r.0) [
          | inl t ↦ t
          | inr f ↦
              let (p, k) = dfs-false m s (suc (length m)) d [] r.1 (e ∙ ground arith) in
              absurd (
                p.clean (not-Marked-nil s) (
                  Leads-Marked m s r.1
                    (λ x h y g. elim (p.closed x h) [
                      | inl q ↦ absurd (not-Marked-nil x q)
                      | inr c ↦ c y g
                    ])
                    l k))
        ],
      ),
    )
