-- ===== src/Amqp/Words.antt =====
-- Each primitive of encode.go against its reader in decode.go.
use gomq.Prelude.{ℕ, ◌^◌, ◌<◌, ◌≡◌, refl, ◌∷◌, ◌++◌, Text, arith, length, Result, ok, ◌>>=◌}
use gomq.Amqp.Octets.{
  Error, put_be, get_be, read_full, length-put_be, get_be-put_be, read_full_exact,
}
use gomq.Amqp.Signed.{ℤ, to_word, InRange, of_word-to_word, to_word-lt}
use gomq.Amqp.Decode.{
  read_uint8, read_uint16, read_uint32, read_uint64, read_int8, read_int16, read_int32, read_int64,
  read_string,
}

-- The word read from `n` bytes.
abbrev read_word : ℕ → Text → Result Error (ℕ × Text)
read_word n d = read_full n d >>= λ (b, d'). ok (get_be 0 b, d')

pub read_word-put_be :
    (n v : ℕ) (rest : Text) → v < 256 ^ n → read_word n (put_be n v ++ rest) ≡ ok (v, rest)
read_word-put_be n v rest h =
    rw (read_full_exact n (put_be n v) rest (length-put_be n v), get_be-put_be n v h)

pub read_uint8_lem : (v : ℕ) (rest : Text) → v < 256 → read_uint8 (v ∷ rest) ≡ ok (v, rest)
unfolding read_uint8 read_full get_be
read_uint8_lem v rest h = ground arith

pub read_uint16_lem :
    (v : ℕ) (rest : Text) → v < 0x1_0000 → read_uint16 (put_be 2 v ++ rest) ≡ ok (v, rest)
unfolding read_uint16
read_uint16_lem v rest h = read_word-put_be 2 v rest h

pub read_uint32_lem :
    (v : ℕ) (rest : Text) → v < 0x1_0000_0000 → read_uint32 (put_be 4 v ++ rest) ≡ ok (v, rest)
unfolding read_uint32
read_uint32_lem v rest h = read_word-put_be 4 v rest h

pub read_uint64_lem :
    (v : ℕ) (rest : Text)
    → v < 0x1_0000_0000_0000_0000
    → read_uint64 (put_be 8 v ++ rest) ≡ ok (v, rest)
unfolding read_uint64
read_uint64_lem v rest h = read_word-put_be 8 v rest h

pub read_int8_lem :
    (z : ℤ) (rest : Text) → InRange 128 z → read_int8 (to_word 128 z ∷ rest) ≡ ok (z, rest)
unfolding read_int8
read_int8_lem z rest h =
    rw (
      read_uint8_lem (to_word 128 z) rest (to_word-lt 128 z (omega arith)),
      of_word-to_word 128 z h,
    )

pub read_int16_lem :
    (z : ℤ) (rest : Text)
    → InRange 32768 z
    → read_int16 (put_be 2 (to_word 32768 z) ++ rest) ≡ ok (z, rest)
unfolding read_int16
read_int16_lem z rest h = rw (
  read_uint16_lem (to_word 32768 z) rest (to_word-lt 32768 z (omega arith)),
  of_word-to_word 32768 z h,
)

pub read_int32_lem :
    (z : ℤ) (rest : Text)
    → InRange 0x8000_0000 z
    → read_int32 (put_be 4 (to_word 0x8000_0000 z) ++ rest) ≡ ok (z, rest)
unfolding read_int32
read_int32_lem z rest h = rw (
  read_uint32_lem (to_word 0x8000_0000 z) rest (to_word-lt 0x8000_0000 z (omega arith)),
  of_word-to_word 0x8000_0000 z h,
)

pub read_int64_lem :
    (z : ℤ) (rest : Text)
    → InRange 0x8000_0000_0000_0000 z
    → read_int64 (put_be 8 (to_word 0x8000_0000_0000_0000 z) ++ rest) ≡ ok (z, rest)
unfolding read_int64
read_int64_lem z rest h = rw (
  read_uint64_lem (to_word 0x8000_0000_0000_0000 z) rest
      (to_word-lt 0x8000_0000_0000_0000 z (omega arith)),
  of_word-to_word 0x8000_0000_0000_0000 z h,
)

pub read_string_lem :
    (s rest : Text)
    → length s < 0x1_0000_0000
    → read_string (put_be 4 (length s) ++ (s ++ rest)) ≡ ok (s, rest)
unfolding read_string
read_string_lem s rest h =
    rw (read_uint32_lem (length s) (s ++ rest) h) (read_full_exact (length s) s rest refl)
