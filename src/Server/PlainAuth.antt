-- ===== src/Server/PlainAuth.antt =====
-- The PLAIN response of handshake.go: what a client writes is what the server reads.
use mathlib.Core.List.{append_assoc, append-nil}
use gomq.Prelude.{
  ℕ, ◌+◌, ◌<◌, ◌≡◌, refl, arith, [], ◌∷◌, ◌++◌, Text, codes, All, length, length-append, ok, err,
  ltb, le→ltb, ◌==◌, nat_eq, ==_iff, false, text_beq,
}
use gomq.Auth.Sasl.{split_from, split_null, user_and_pass}
use gomq.Server.Handshake.{Handshaker, authenticator_error, verify}

-- The text has no null byte.
abbrev pub HasNoNull : Text → Type 0
HasNoNull = All (λ c. ¬ (c ≡ 0))

-- `\x00user\x00pass`
abbrev pub plain_response : Text → Text → Text
plain_response user pass = 0 ∷ user ++ 0 ∷ pass

null-false : (c : ℕ) → ¬ (c ≡ 0) → (c == 0) ≡ false
null-false c n = ground (arith, ==_iff c 0)

split_from-last : (part xs : Text) → HasNoNull xs → split_from part xs ≡ (part ++ xs) ∷ []
unfolding split_from
split_from-last part [] n = rw (append-nil part) refl
split_from-last part (c ∷ cs) n =
    rw (null-false c n.0)
      (cc (split_from-last (part ++ c ∷ []) cs n.1, append_assoc part (c ∷ []) cs))

split_from-null :
    (part xs rest : Text)
    → HasNoNull xs
    → split_from part (xs ++ 0 ∷ rest) ≡ (part ++ xs) ∷ split_from [] rest
unfolding split_from
split_from-null part [] rest n = rw (append-nil part) refl
split_from-null part (c ∷ cs) rest n =
    rw (null-false c n.0)
      (cc (split_from-null (part ++ c ∷ []) cs rest n.1, append_assoc part (c ∷ []) cs))

split_null-plain_response :
    (user pass : Text)
    → HasNoNull user
    → HasNoNull pass
    → split_null (plain_response user pass) ≡ [] ∷ user ∷ pass ∷ []
unfolding split_null split_from
split_null-plain_response user pass u p =
    cc (split_from-null [] user pass u, split_from-last [] pass p)

user_and_pass_lem :
    (response before user pass : Text)
    → ltb (length response) 3 ≡ false
    → split_null response ≡ before ∷ user ∷ pass ∷ []
    → user_and_pass response ≡ ok (user, pass)
unfolding user_and_pass split_null
user_and_pass_lem response before user pass long parts = rw (long, parts) refl

user_and_pass-plain_response :
    (user pass : Text)
    → HasNoNull user
    → HasNoNull pass
    → 0 < length user + length pass
    → user_and_pass (plain_response user pass) ≡ ok (user, pass)
user_and_pass-plain_response user pass u p l =
    user_and_pass_lem (plain_response user pass) [] user pass
      (le→ltb (length (plain_response user pass)) 3 (omega (arith, length-append user (0 ∷ pass))))
      (split_null-plain_response user pass u p)

-- A client that sends a user and a password without null bytes and not both empty by PLAIN, and whom
-- the authenticator accepts, is taken for that user; where the authenticator refuses, its error is the answer.
pub verify-plain_response :
    (h : Handshaker) (user pass : Text)
    → HasNoNull user
    → HasNoNull pass
    → 0 < length user + length pass
    → verify h (codes "PLAIN") (plain_response user pass)
      ≡ elim (h.auth user pass) [ err e ↦ err (authenticator_error e) | ok x ↦ ok user ]
unfolding verify text_beq
verify-plain_response h user pass u p l =
    rw (user_and_pass-plain_response user pass u p l, verify) refl
