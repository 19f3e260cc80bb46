-- ===== src/Prelude/GoMap.antt =====
-- Go maps as association lists, in the order in which `range` visits the keys.
use mathlib.Core.Path.{◌≡◌, refl}
use mathlib.Core.List.{List, [], ◌∷◌}
use mathlib.Core.Option.{Option, none, some}
use native.Mathlib.Omega.{arith}
use gomq.Prelude.Tests.{if◌then◌else◌}
use gomq.Prelude.Keys.{Eq, ◌==◌, ==_iff}

abbrev pub GoMap {ℓ} : Type 0 → Type ℓ → Type ℓ
GoMap K V = List (K × V)

module _ {ℓ} {K : Type 0} {V : Type ℓ} ⦃e : Eq K⦄ where
  -- m[k], with the comma-ok form's answer.
  unfoldable pub lookup : K → GoMap K V → Option V
  lookup key ((k, v) ∷ rest) = if k == key then some v else lookup key rest
  lookup key [] = none

  -- m[k] = v
  unfoldable pub insert : K → V → GoMap K V → GoMap K V
  insert key v ((k, w) ∷ rest) = if k == key then (key, v) ∷ rest else (k, w) ∷ insert key v rest
  insert key v [] = (key, v) ∷ []

  -- delete(m, k)
  unfoldable pub remove : K → GoMap K V → GoMap K V
  remove k [] = []
  remove k ((j, w) ∷ m) = if j == k then remove k m else (j, w) ∷ remove k m

  -- m[k] where a missing key reads as the zero value.
  unfoldable pub lookup_or : V → K → GoMap K V → V
  lookup_or d k m = elim (lookup k m) [ none ↦ d | some v ↦ v ]

  pub lookup-insert :
      (key other : K) (v : V) (m : GoMap K V)
      → lookup other (insert key v m) ≡ (if key == other then some v else lookup other m)
  unfolding insert lookup
  lookup-insert key other v ((k, w) ∷ rest) =
      ground (arith, ==_iff key other, ==_iff k key, ==_iff k other, lookup-insert key other v rest)
  lookup-insert key other v [] = refl

  pub lookup-remove :
      (key other : K) (m : GoMap K V)
      → lookup other (remove key m) ≡ (if key == other then none else lookup other m)
  unfolding remove lookup
  lookup-remove key other ((k, w) ∷ rest) =
      ground (arith, ==_iff key other, ==_iff k key, ==_iff k other, lookup-remove key other rest)
  lookup-remove key other [] = ground arith
