-- ===== src/Amqp/Signed.antt =====
-- Go's signed integers and their conversions to and from unsigned words of the same width. `half`
-- is half the number of words: 128 for int8.
use native.Mathlib.Nat.{mod-eq_of_lt}
use gomq.Prelude.{ℕ, ◌+◌, ◌-◌, ◌%◌, ◌<◌, ◌≡◌, ap, arith, ltb, lt→ltb, le→ltb, if◌then◌else◌}

-- `negsuc n` is -(n + 1).
pub data ℤ : Type 0 where
  pos : ℕ → ℤ
  negsuc : ℕ → ℤ

-- uint8(v) and the like: the two's complement pattern.
unfoldable pub to_word : ℕ → ℤ → ℕ
to_word half (pos n) = n % (half + half)
to_word half (negsuc n) = half + half - 1 - n % (half + half)

-- int8(v) and the like.
unfoldable pub of_word : ℕ → ℕ → ℤ
of_word half u = if ltb u half then pos u else negsuc (half + half - 1 - u)

abbrev pub InRange : ℕ → ℤ → Type 0
InRange half (pos n) = n < half
InRange half (negsuc n) = n < half

pub of_word-to_word : (half : ℕ) (z : ℤ) → InRange half z → of_word half (to_word half z) ≡ z
unfolding of_word to_word
of_word-to_word half (pos n) h =
    rw (mod-eq_of_lt {n = n} {m = half + half} (omega arith), lt→ltb n half h)
of_word-to_word half (negsuc n) h =
    rw
      (
        mod-eq_of_lt {n = n} {m = half + half} (omega arith),
        le→ltb (half + half - 1 - n) half (omega arith),
      )
      (ap negsuc (omega arith))

pub to_word-lt : (half : ℕ) (z : ℤ) → 0 < half → to_word half z < half + half
unfolding to_word
to_word-lt half (pos n) h = grind arith
to_word-lt half (negsuc n) h = omega arith
