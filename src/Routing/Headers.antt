-- ===== src/Routing/Headers.antt =====
-- internal/server/exchange_headers.go: the header test of a binding.
use gomq.Prelude.{
  ℕ, Bool, true, false, not, [], ◌∷◌, Text, codes, none, some, ◌==◌, nat_eq, text_eq, if◌then◌else◌,
  length,
}
use gomq.Prelude.GoMap.{lookup}
use gomq.Amqp.Signed.{ℤ, pos, negsuc}
use gomq.Routing.Binding.{Any, Args, string, bool, int, uint, float, other}

-- float64 of Go over bits: equality, and the conversions of integers.
pub record FloatOps : Type 0 where
  pub float_eq : ℕ → ℕ → Bool
  pub of_int : ℤ → ℕ
  pub of_uint : ℕ → ℕ

unfoldable pub int_eq : ℤ → ℤ → Bool
int_eq (pos a) (pos b) = a == b
int_eq (negsuc a) (negsuc b) = a == b
int_eq _ _ = false

unfoldable pub bool_eq : Bool → Bool → Bool
bool_eq true b = b
bool_eq false b = not b

unfoldable pub to_int64 : Any → ℤ
to_int64 (int x) = x
to_int64 _ = pos 0

unfoldable pub to_uint64 : Any → ℕ
to_uint64 (uint x) = x
to_uint64 _ = 0

-- The bits of the float 0 are 0.
unfoldable pub to_float64 : FloatOps → Any → ℕ
to_float64 o (float x) = x
to_float64 o (int x) = o.of_int x
to_float64 o (uint x) = o.of_uint x
to_float64 o _ = 0

unfoldable pub values_equal : FloatOps → Any → Any → Bool
unfolding int_eq bool_eq to_int64 to_uint64 to_float64
values_equal o (string a) b = elim b [ string c ↦ a == c | _ ↦ false ]
values_equal o (bool a) b = elim b [ bool c ↦ bool_eq a c | _ ↦ false ]
values_equal o (int a) b = int_eq a (to_int64 b)
values_equal o (uint a) b = a == to_uint64 b
values_equal o (float a) b = o.float_eq a (to_float64 o b)
values_equal o other b = false

abbrev pub x_match : Text
x_match = codes "x-match"

abbrev pub all_mode : Text
all_mode = codes "all"

abbrev pub any_mode : Text
any_mode = codes "any"

-- The mode of a binding: the string under "x-match", or else "all".
unfoldable pub match_mode : Args → Text
unfolding lookup
match_mode args = elim (lookup x_match args) [
  | some m ↦ elim m [ string s ↦ s | _ ↦ all_mode ]
  | none ↦ all_mode
]

-- `mv, ok := msgHeaders[k]; ok && valuesEqual(mv, v)`
unfoldable pub header_is : FloatOps → Args → Text → Any → Bool
unfolding lookup values_equal
header_is o headers k v = elim (lookup k headers) [ some mv ↦ values_equal o mv v | none ↦ false ]

-- The loop of the "any" mode.
unfoldable pub any_header : FloatOps → Args → Args → Bool
unfolding header_is
any_header o headers [] = false
any_header o headers ((k, v) ∷ args) =
    let rest = any_header o headers args in
    if k == x_match then rest else if header_is o headers k v then true else rest

-- The loop of the "all" mode.
unfoldable pub all_headers : FloatOps → Args → Args → Bool
unfolding header_is
all_headers o headers [] = true
all_headers o headers ((k, v) ∷ args) =
    let rest = all_headers o headers args in
    if k == x_match then rest else if not (header_is o headers k v) then false else rest

unfoldable pub match_headers : FloatOps → Args → Args → Bool
unfolding match_mode any_header all_headers
match_headers o headers args =
    if length args == 0
    then false
    else if match_mode args == any_mode
    then any_header o headers args
    else all_headers o headers args
