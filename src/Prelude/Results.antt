-- ===== src/Prelude/Results.antt =====
-- A Go result: a value, or an error of the component's own type.
use mathlib.Core.Path.{◌≡◌, refl}
use mathlib.Core.Logic.{◌⊎◌, inl, inr}

pub data Result {ℓ} (E : Type 0) (A : Type ℓ) : Type ℓ where
  ok : A → Result E A
  err : E → Result E A

infixl 5 ◌>>=◌
abbrev pub ◌>>=◌ {ℓ κ} :
    {E : Type 0} {A : Type ℓ} {B : Type κ} → Result E A → (A → Result E B) → Result E B
err why >>= rest = err why
ok value >>= rest = rest value

pub >>=-eq-ok {ℓ κ} :
    {E : Type 0} {A : Type ℓ} {B : Type κ} (r : Result E A) (rest : A → Result E B) {end : B}
    → (r >>= rest) ≡ ok end
    → (value : A) × (r ≡ ok value) × (rest value ≡ ok end)
>>=-eq-ok (err why) rest e = cc
>>=-eq-ok (ok value) rest e = (value, refl, e)

pub Result-cases {ℓ} :
    {E : Type 0} {A : Type ℓ} (r : Result E A)
    → ((why : E) × (r ≡ err why)) ⊎ ((value : A) × (r ≡ ok value))
Result-cases (err why) = inl (why, refl)
Result-cases (ok value) = inr (value, refl)
