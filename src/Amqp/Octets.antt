-- ===== src/Amqp/Octets.antt =====
-- What the codec uses of Go's encoding/binary and io packages: big-endian words of any width, and
-- `io.ReadFull` from a reader that holds the given bytes.
use native.Mathlib.Nat.{pow-suc}
use gomq.Prelude.{
  ℕ, zero, suc, ◌+◌, ◌*◌, ◌/◌, ◌%◌, ◌^◌, ◌<◌, ◌≡◌, refl, [], ◌∷◌, ◌++◌, Text, arith, length,
  length-append, take, drop, take-length, drop-length, All, All-append, Result, ok, err, ltb,
  le→ltb, if◌then◌else◌,
}

-- io.EOF where nothing was left, io.ErrUnexpectedEOF where too little was.
pub data Error : Type 0 where
  eof unexpected_eof invalid_frame_type frame_too_large bad_frame_end : Error
  unsupported_value unknown_table_type out_of_fuel : Error

abbrev pub Read {ℓ} : Type ℓ → Type ℓ
Read A = Text → Result Error (A × Text)

-- binary.BigEndian.PutUint16, PutUint32 and PutUint64 at widths 2, 4 and 8.
unfoldable pub put_be : ℕ → ℕ → Text
put_be zero v = []
put_be (suc n) v = put_be n (v / 256) ++ (v % 256) ∷ []

-- binary.BigEndian.Uint16, Uint32 and Uint64.
unfoldable pub get_be : ℕ → Text → ℕ
get_be acc [] = acc
get_be acc (b ∷ bs) = get_be (acc * 256 + b) bs

unfoldable pub read_full : ℕ → Read Text
read_full n bs =
    if ltb (length bs) n
    then err (elim bs [ [] ↦ eof | _ ↦ unexpected_eof ])
    else ok (take n bs, drop n bs)

pub length-put_be : (n v : ℕ) → length (put_be n v) ≡ n
unfolding put_be
length-put_be zero v = refl
length-put_be (suc n) v =
    omega (arith, length-append (put_be n (v / 256)) ((v % 256) ∷ []), length-put_be n (v / 256))

abbrev pub IsByte : ℕ → Type 0
IsByte b = b < 256

pub put_be-IsByte : (n v : ℕ) → All IsByte (put_be n v)
unfolding put_be
put_be-IsByte zero v = tt
put_be-IsByte (suc n) v =
    All-append IsByte (put_be n (v / 256)) _ (put_be-IsByte n (v / 256)) (omega arith, tt)

get_be-append : (acc : ℕ) (xs : Text) (b : ℕ) → get_be acc (xs ++ b ∷ []) ≡ get_be acc xs * 256 + b
unfolding get_be
get_be-append acc [] b = refl
get_be-append acc (x ∷ xs) b = get_be-append (acc * 256 + x) xs b

-- A word that fits its width is read back.
pub get_be-put_be : (n v : ℕ) → v < 256 ^ n → get_be 0 (put_be n v) ≡ v
unfolding put_be get_be
get_be-put_be zero v h = omega arith
get_be-put_be (suc n) v h =
    rw
      (
        get_be-append 0 (put_be n (v / 256)) (v % 256),
        get_be-put_be n (v / 256) (omega (arith, pow-suc 256 n)),
      )
      (omega arith)

pub read_full-append : (xs ys : Text) → read_full (length xs) (xs ++ ys) ≡ ok (xs, ys)
unfolding read_full
read_full-append xs ys = rw (
  le→ltb (length (xs ++ ys)) (length xs) (omega (arith, length-append xs ys)),
  take-length xs ys,
  drop-length xs ys,
)

pub read_full_exact : (n : ℕ) (xs ys : Text) → length xs ≡ n → read_full n (xs ++ ys) ≡ ok (xs, ys)
read_full_exact n xs ys h = rw (← h) (read_full-append xs ys)
