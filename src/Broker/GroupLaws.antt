-- ===== src/Broker/GroupLaws.antt =====
-- The round robin of a consumer group.
use native.Mathlib.Nat.{suc-mod, mod-eq_of_lt, mod-lt, mod_self, mod-add-mod}
use gomq.Prelude.{
  ℕ, zero, suc, ◌+◌, ◌-◌, ◌%◌, ◌^◌, ◌≤◌, ◌<◌, ◌≡◌, refl, sym, ap, ◌∙◌, List, [], ◌∷◌, ◌++◌, map,
  Text, arith, length, length-drop, take, drop, take_all, get_elem?, get_elem?-some, Option, some,
}
use gomq.Broker.Groups.{Consumer, ConsumerGroup, round_robin, choose, select, select_all}

next_mod : (idx n : ℕ) → idx % n + 1 < n → (idx + 1) % n ≡ idx % n + 1
next_mod idx n h =
    let e : idx + 1 ≡ suc idx = omega arith in
    let f : suc (idx % n) ≡ idx % n + 1 = omega arith in
    ap (λ x. x % n) e ∙ suc-mod idx n ∙ mod-eq_of_lt {n = suc (idx % n)} {m = n} (omega arith) ∙ f

wrap_mod : (idx n : ℕ) → idx % n + 1 ≡ n → (idx + 1) % n ≡ 0
wrap_mod idx n h =
    let e : idx + 1 ≡ suc idx = omega arith in
    let f : suc (idx % n) ≡ n = omega arith in
    ap (λ x. x % n) e ∙ suc-mod idx n ∙ ap (λ x. x % n) f ∙ mod_self n

take-drop :
    (k r : ℕ) (cs : List Consumer) (c : Consumer)
    → get_elem? cs r ≡ some c
    → take (suc k) (drop r cs) ≡ c ∷ take k (drop (suc r) cs)
take-drop k r [] c h = cc
take-drop k zero (x ∷ cs) c h = cc
take-drop k (suc r) (x ∷ cs) c h = take-drop k r cs c h

choose_round :
    (hash : Text → ℕ) (key : Text) (cs : List Consumer) (idx : ℕ)
    → 0 < length cs
    → choose hash cs key (round_robin idx)
      ≡ (round_robin ((idx + 1) % 2 ^ 64), get_elem? cs (idx % length cs))
unfolding choose
choose_round hash key [] idx h = absurd (omega arith)
choose_round hash key (c ∷ cs) idx h = refl

module _ (hash : Text → ℕ) (key : Text) where
  -- The group after some selections.
  abbrev at : ConsumerGroup → ℕ → ConsumerGroup
  at g idx = record g { strategy = round_robin idx }

  select_round :
      (g : ConsumerGroup) (idx : ℕ)
      → 0 < length g.members
      → idx + 1 < 2 ^ 64
      → select hash key (at g idx) ≡ (at g (idx + 1), get_elem? g.members (idx % length g.members))
  unfolding select
  select_round g idx h small =
      let same : (idx + 1) % 2 ^ 64 ≡ idx + 1 = mod-eq_of_lt {n = idx + 1} {m = 2 ^ 64} small in
      rw (choose_round hash key g.members idx h, same) refl

  next_selection :
      (n : ℕ) (g g' g'' : ConsumerGroup) (c : Option Consumer) (cs : List (Option Consumer))
      → select hash key g ≡ (g', c)
      → select_all hash key n g' ≡ (g'', cs)
      → select_all hash key (suc n) g ≡ (g'', c ∷ cs)
  unfolding select_all
  next_selection n g g' g'' c cs e f = rw (e, f) refl

  -- Selections that do not reach the end of the members.
  select_run :
      (k idx : ℕ) (g : ConsumerGroup)
      → 0 < length g.members
      → idx + k < 2 ^ 64
      → idx % length g.members + k ≤ length g.members
      → select_all hash key k (at g idx)
        ≡ (at g (idx + k), map some (take k (drop (idx % length g.members) g.members)))
  unfolding select_all
  select_run zero idx g h small r = ap (λ i. (at g i, [])) (omega arith)
  select_run (suc zero) idx g h small r =
      let (c, e) = get_elem?-some g.members (idx % length g.members) (omega arith) in
      next_selection zero (at g idx) _ _ _ _ (select_round g idx h (omega arith)) refl
      ∙ rw (e, take-drop 0 (idx % length g.members) g.members c e) refl
  select_run (suc (suc k)) idx g h small r =
      let (c, e) = get_elem?-some g.members (idx % length g.members) (omega arith) in
      let m : (idx + 1) % length g.members ≡ suc (idx % length g.members) =
        next_mod idx (length g.members) (omega arith) ∙ omega arith in
      let i : idx + 1 + suc k ≡ idx + suc (suc k) = omega arith in
      next_selection (suc k) (at g idx) _ _ _ _ (select_round g idx h (omega arith))
        (select_run (suc k) (idx + 1) g h (omega arith) (omega (arith, m)))
      ∙ rw (take-drop (suc k) (idx % length g.members) g.members c e, e, m, i) refl

  select_all_append :
      (a b : ℕ) (g : ConsumerGroup)
      → select_all hash key (a + b) g ≡ (
        (select_all hash key b (select_all hash key a g).0).0,
        (select_all hash key a g).1 ++ (select_all hash key b (select_all hash key a g).0).1,
      )
  unfolding select_all
  select_all_append zero b g = let e : zero + b ≡ b = omega arith in rw e refl
  select_all_append (suc a) b g =
      let e : suc a + b ≡ suc (a + b) = omega arith in
      rw e (rw (select_all_append a b (select hash key g).0) refl)

  -- As many selections as a group has members choose every member once: they go through the members
  -- in order from the counter's place on and then from the start, and the counter has moved on by
  -- their number. The counter must not reach the end of a uint64 meanwhile.
  pub select_all_lem :
      (g : ConsumerGroup) (idx : ℕ)
      → g.strategy ≡ round_robin idx
      → 0 < length g.members
      → idx + length g.members < 2 ^ 64
      → select_all hash key (length g.members) g ≡ (
        record g { strategy = round_robin (idx + length g.members) },
        map some (drop (idx % length g.members) g.members)
            ++ map some (take (idx % length g.members) g.members),
      )
  select_all_lem g idx s h small =
      let n = length g.members in
      let r = idx % n in
      let below : r < n = mod-lt idx h in
      let start : g ≡ at g idx = ap (λ x. record g { strategy = x }) s in
      let first = select_run (n - r) idx g h (omega arith) (omega arith) in
      let wrapped : (idx + (n - r)) % n ≡ 0 =
        sym (mod-add-mod idx n (n - r)) ∙ ap (λ x. x % n) (omega arith) ∙ mod_self n in
      let second = select_run r (idx + (n - r)) g h (omega arith) (omega (arith, wrapped)) in
      let parts : n ≡ n - r + r = omega arith in
      let long : take (n - r) (drop r g.members) ≡ drop r g.members =
        take_all (n - r) (drop r g.members) (omega (arith, length-drop r g.members)) in
      let last : idx + (n - r) + r ≡ idx + n = omega arith in
      ap (select_all hash key n) start
      ∙ ap (λ k. select_all hash key k (at g idx)) parts
      ∙ select_all_append (n - r) r (at g idx)
      ∙ rw (first, second, wrapped, long, last) refl
