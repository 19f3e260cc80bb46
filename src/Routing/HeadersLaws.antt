-- ===== src/Routing/HeadersLaws.antt =====
-- What the header test decides.
use gomq.Prelude.{
  ◌≡◌, ◌≢◌, refl, some, List, ◌++◌, All-append, ◌↔◌, ◌⊎◌, inl, inr, true, false, [], ◌∷◌, Text,
  arith, In, All, ◌==◌, nat_eq, text_eq, ==_iff, Bool-cases, length,
}
use gomq.Prelude.GoMap.{lookup}
use gomq.Amqp.Signed.{pos}
use gomq.Routing.Binding.{Any, Args, string, int, uint}
use gomq.Routing.Headers.{
  FloatOps, match_mode, any_mode, x_match, header_is, any_header, all_headers, match_headers,
}
use gomq.Routing.HeaderValues.{Has, header_is_iff, IsAny, match_mode_iff}

-- A header of the binding, other than "x-match", that the message has with an equal value.
abbrev pub Agrees : FloatOps → Args → Text × Any → Type 0
Agrees o headers a = (a.0 ≢ x_match) × Has o headers a.0 a.1

-- The binding asks nothing of the header, or the message has it with an equal value.
abbrev pub Satisfied : FloatOps → Args → Text × Any → Type 0
Satisfied o headers a = (a.0 ≡ x_match) ⊎ Has o headers a.0 a.1

any_header_iff :
    (o : FloatOps) (headers args : Args)
    → (any_header o headers args ≡ true) ↔ ((a : Text × Any) × In a args × Agrees o headers a)
unfolding any_header
any_header_iff o headers [] = (λ h. cc, λ (a, i, g). absurd i)
any_header_iff o headers ((k, v) ∷ args) = (
  λ h. elim (Bool-cases (k == x_match)) [
    | inl e ↦ let (a, i, g) = (any_header_iff o headers args).0 (ground arith) in (a, inr i, g)
    | inr n ↦ elim (Bool-cases (header_is o headers k v)) [
      | inl t ↦
          ((k, v), inl refl, (λ e. cc ((==_iff k x_match).1 e), (header_is_iff o headers k v).0 t))
      | inr f ↦ let (a, i, g) = (any_header_iff o headers args).0 (ground arith) in (a, inr i, g)
    ]
  ],
  λ (a, i, g). elim i [
    | inl e ↦
        let here : Agrees o headers (k, v) = rw e at g in
        let t = (header_is_iff o headers k v).1 here.1 in
        elim (Bool-cases (k == x_match)) [
          | inl x ↦ absurd (here.0 ((==_iff k x_match).0 x))
          | inr x ↦ rw (x, t) refl
        ]
    | inr j ↦ ground (arith, (any_header_iff o headers args).1 (a, j, g))
  ],
)

all_headers_iff :
    (o : FloatOps) (headers args : Args)
    → (all_headers o headers args ≡ true) ↔ All (Satisfied o headers) args
unfolding all_headers
all_headers_iff o headers [] = (λ h. tt, λ h. refl)
all_headers_iff o headers ((k, v) ∷ args) = elim (Bool-cases (k == x_match)) [
  | inl e ↦ rw e (
    λ h. (inl ((==_iff k x_match).0 e), (all_headers_iff o headers args).0 h),
    λ h. (all_headers_iff o headers args).1 h.1,
  )
  | inr n ↦ elim (Bool-cases (header_is o headers k v)) [
    | inl t ↦
        rw (n, t)
          (
            λ h. (inr ((header_is_iff o headers k v).0 t), (all_headers_iff o headers args).0 h),
            λ h. (all_headers_iff o headers args).1 h.1,
          )
    | inr f ↦
        rw (n, f)
          (
            λ h. cc,
            λ h. elim h.0 [
              | inl e ↦ cc ((==_iff k x_match).1 e)
              | inr t ↦ cc ((header_is_iff o headers k v).1 t)
            ],
          )
  ]
]

In-middle : {A : Type 0} (a : A) (before after : List A) → In a (before ++ a ∷ after)
In-middle a [] after = inl refl
In-middle a (b ∷ before) after = inr (In-middle a before after)

not_empty : (a : Text × Any) (args : Args) → (length (a ∷ args) == 0) ≡ false
not_empty a args = ground arith

pub match_headers_iff :
    (o : FloatOps) (headers args : Args)
    → (match_headers o headers args ≡ true) ↔ (
        (args ≢ [])
        × (IsAny args → (a : Text × Any) × In a args × Agrees o headers a)
        × ((¬ IsAny args) → All (Satisfied o headers) args))
unfolding match_headers
match_headers_iff o headers [] = (λ h. cc, λ h. absurd (h.0 refl))
match_headers_iff o headers (a ∷ args) =
    let mode = match_mode_iff (a ∷ args) in
    elim (Bool-cases (match_mode (a ∷ args) == any_mode)) [
      | inl e ↦
          let m = mode.0 ((==_iff (match_mode (a ∷ args)) any_mode).0 e) in
          rw (not_empty a args, e)
            (
              λ h. (λ q. cc, λ _. (any_header_iff o headers (a ∷ args)).0 h, λ n. absurd (n m)),
              λ t. (any_header_iff o headers (a ∷ args)).1 (t.1 m),
            )
      | inr n ↦
          let m : ¬ IsAny (a ∷ args) =
            λ q. cc ((==_iff (match_mode (a ∷ args)) any_mode).1 (mode.1 q)) in
          rw (not_empty a args, n)
            (
              λ h. (λ q. cc, λ q. absurd (m q), λ _. (all_headers_iff o headers (a ∷ args)).0 h),
              λ t. (all_headers_iff o headers (a ∷ args)).1 (t.2 m),
            )
    ]

-- A message whose header is an integer 0, of a signed or an unsigned type, has it as every binding
-- asks that asks for a string there, whatever the string is: it matches where the binding asks for
-- any of its headers, and where it asks for all and the message has the others.
pub match_headers-zero :
    (o : FloatOps) (k s : Text) (headers before after : Args)
    → k ≢ x_match
    → (lookup k headers ≡ some (int (pos 0))) ⊎ (lookup k headers ≡ some (uint 0))
    → IsAny (before ++ (k, string s) ∷ after)
      ⊎ (All (Satisfied o headers) before × All (Satisfied o headers) after)
    → match_headers o headers (before ++ (k, string s) ∷ after) ≡ true
match_headers-zero o k s headers before after n e c =
    let args : Args = before ++ (k, string s) ∷ after in
    let here : In (k, string s) args = In-middle (k, string s) before after in
    (match_headers_iff o headers args).1 (
      λ x. rw x at here,
      λ _. ((k, string s), here, (n, has)),
      λ m. elim c [
        | inl a ↦ absurd (m a)
        | inr (b, a) ↦ All-append (Satisfied o headers) before _ b (inr has, a)
      ],
    )
  where
    has : Has o headers k (string s)
    has = elim e [ inl h ↦ (int (pos 0), h, refl) | inr h ↦ (uint 0, h, refl) ]
