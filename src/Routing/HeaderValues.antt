-- ===== src/Routing/HeaderValues.antt =====
-- When header values are equal, and what a binding asks for under "x-match".
use gomq.Prelude.{
  ◌≡◌, ◌≢◌, refl, sym, ◌∙◌, ap, some, Option-cases, codes, Bool, get_or, ◌↔◌, inl, inr, true, false,
  Text, arith, nat_eq, text_eq, ==_iff,
}
use gomq.Prelude.GoMap.{lookup}
use gomq.Amqp.Signed.{ℤ, pos, negsuc}
use gomq.Routing.Binding.{Any, Args, string, bool, int, uint, float, other}
use gomq.Routing.Headers.{
  FloatOps, values_equal, int_eq, bool_eq, to_int64, to_uint64, to_float64, match_mode, any_mode,
  all_mode, x_match, header_is,
}

-- When a value of a message counts as equal to the one that a binding asks for: values of one kind
-- where they are the same, floats by `==`, a float of the message against an integer by its
-- conversion; and a number of the message against any other kind where it is 0.
abbrev pub Same : FloatOps → Any → Any → Type 0
Same o (string a) (string b) = a ≡ b
Same o (bool a) (bool b) = a ≡ b
Same o (int a) (int b) = a ≡ b
Same o (uint a) (uint b) = a ≡ b
Same o (float a) (float b) = o.float_eq a b ≡ true
Same o (float a) (int b) = o.float_eq a (o.of_int b) ≡ true
Same o (float a) (uint b) = o.float_eq a (o.of_uint b) ≡ true
Same o (float a) _ = o.float_eq a 0 ≡ true
Same o (int a) _ = a ≡ pos 0
Same o (uint a) _ = a ≡ 0
Same o _ _ = ⊥

int_eq_iff : (a b : ℤ) → (int_eq a b ≡ true) ↔ (a ≡ b)
unfolding int_eq
int_eq_iff (pos a) (pos b) = (λ h. ap pos ((==_iff a b).0 h), λ h. (==_iff a b).1 (cc h))
int_eq_iff (negsuc a) (negsuc b) = (λ h. ap negsuc ((==_iff a b).0 h), λ h. (==_iff a b).1 (cc h))
int_eq_iff (pos a) (negsuc b) = (λ h. cc, λ h. cc)
int_eq_iff (negsuc a) (pos b) = (λ h. cc, λ h. cc)

bool_eq_iff : (a b : Bool) → (bool_eq a b ≡ true) ↔ (a ≡ b)
unfolding bool_eq
bool_eq_iff true b = (λ h. sym h, λ h. sym h)
bool_eq_iff false true = (λ h. cc, λ h. cc)
bool_eq_iff false false = (λ h. refl, λ h. refl)

never : {P : Type 0} → (P → ⊥) → (false ≡ true) ↔ P
never n = (λ h. cc, λ p. absurd (n p))

values_equal_iff : (o : FloatOps) (a b : Any) → (values_equal o a b ≡ true) ↔ Same o a b
unfolding values_equal to_int64 to_uint64 to_float64
values_equal_iff o (string a) (string b) = ==_iff a b
values_equal_iff o (string a) (bool b) = never (λ x. x)
values_equal_iff o (string a) (int b) = never (λ x. x)
values_equal_iff o (string a) (uint b) = never (λ x. x)
values_equal_iff o (string a) (float b) = never (λ x. x)
values_equal_iff o (string a) other = never (λ x. x)
values_equal_iff o (bool a) (string b) = never (λ x. x)
values_equal_iff o (bool a) (bool b) = bool_eq_iff a b
values_equal_iff o (bool a) (int b) = never (λ x. x)
values_equal_iff o (bool a) (uint b) = never (λ x. x)
values_equal_iff o (bool a) (float b) = never (λ x. x)
values_equal_iff o (bool a) other = never (λ x. x)
values_equal_iff o (int a) (string b) = int_eq_iff a (pos 0)
values_equal_iff o (int a) (bool b) = int_eq_iff a (pos 0)
values_equal_iff o (int a) (int b) = int_eq_iff a b
values_equal_iff o (int a) (uint b) = int_eq_iff a (pos 0)
values_equal_iff o (int a) (float b) = int_eq_iff a (pos 0)
values_equal_iff o (int a) other = int_eq_iff a (pos 0)
values_equal_iff o (uint a) (string b) = ==_iff a 0
values_equal_iff o (uint a) (bool b) = ==_iff a 0
values_equal_iff o (uint a) (int b) = ==_iff a 0
values_equal_iff o (uint a) (uint b) = ==_iff a b
values_equal_iff o (uint a) (float b) = ==_iff a 0
values_equal_iff o (uint a) other = ==_iff a 0
values_equal_iff o (float a) (string b) = (λ h. h, λ h. h)
values_equal_iff o (float a) (bool b) = (λ h. h, λ h. h)
values_equal_iff o (float a) (int b) = (λ h. h, λ h. h)
values_equal_iff o (float a) (uint b) = (λ h. h, λ h. h)
values_equal_iff o (float a) (float b) = (λ h. h, λ h. h)
values_equal_iff o (float a) other = (λ h. h, λ h. h)
values_equal_iff o other b = never (λ x. x)

-- The message has the header with an equal value.
abbrev pub Has : FloatOps → Args → Text → Any → Type 0
Has o headers k v = (mv : Any) × (lookup k headers ≡ some mv) × Same o mv v

pub header_is_iff :
    (o : FloatOps) (headers : Args) (k : Text) (v : Any)
    → (header_is o headers k v ≡ true) ↔ Has o headers k v
unfolding header_is
header_is_iff o headers k v = elim (Option-cases (lookup k headers)) [
  | inl e ↦ (λ h. cc (rw (header_is, e) at h), λ (mv, f, s). cc (sym e ∙ f))
  | inr (mv, e) ↦ (
    λ h. (mv, e, (values_equal_iff o mv v).0 (rw (header_is, e) at h)),
    λ (w, f, s).
        let same : w ≡ mv = cc (sym f ∙ e) in
        rw (header_is, e) ((values_equal_iff o mv v).1 (rw same at s)),
  )
]

-- The binding asks for one matching header only: the string "any" under "x-match".
abbrev pub IsAny : Args → Type 0
IsAny args = lookup (codes "x-match") args ≡ some (string (codes "any"))

all-ne-any : all_mode ≢ any_mode
all-ne-any e = omega (arith, ap (λ (t : Text). get_or t 1 0) e)

mode_of :
    (args : Args) (v : Any)
    → lookup x_match args ≡ some v
    → (match_mode args ≡ any_mode) ↔ IsAny args
unfolding match_mode
mode_of args (string s) e = (
  λ h. e ∙ ap (λ (t : Text). some (string t)) (rw (match_mode, e) at h),
  λ h. let same : s ≡ any_mode = cc (sym e ∙ h) in rw (match_mode, e) same,
)
mode_of args (bool b) e = (λ h. absurd (all-ne-any (rw (match_mode, e) at h)), λ h. cc (sym e ∙ h))
mode_of args (int b) e = (λ h. absurd (all-ne-any (rw (match_mode, e) at h)), λ h. cc (sym e ∙ h))
mode_of args (uint b) e = (λ h. absurd (all-ne-any (rw (match_mode, e) at h)), λ h. cc (sym e ∙ h))
mode_of args (float b) e = (λ h. absurd (all-ne-any (rw (match_mode, e) at h)), λ h. cc (sym e ∙ h))
mode_of args other e = (λ h. absurd (all-ne-any (rw (match_mode, e) at h)), λ h. cc (sym e ∙ h))

pub match_mode_iff : (args : Args) → (match_mode args ≡ any_mode) ↔ IsAny args
unfolding match_mode
match_mode_iff args = elim (Option-cases (lookup x_match args)) [
  | inl e ↦ (λ h. absurd (all-ne-any (rw (match_mode, e) at h)), λ h. cc (sym e ∙ h))
  | inr (v, e) ↦ mode_of args v e
]
