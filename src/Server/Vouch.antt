-- ===== src/Server/Vouch.antt =====
-- Who the mechanisms and the authenticator of handshake.go let in.
use gomq.Prelude.{
  ◌≡◌, refl, sym, arith, Bool-cases, List, [], ◌∷◌, ◌⊎◌, inl, inr, Text, codes, Option-cases,
  Result-cases, ok, >>=-eq-ok, ◌==◌, nat_eq, text_eq, text_beq, ==_iff, some,
}
use gomq.Prelude.GoMap.{lookup, insert}
use gomq.Amqp.Decode.{read_string}
use gomq.Auth.Sasl.{
  Peer, no_tls, with_tls, Mechanism, register_mechanism, new_sasl_registry, lookup_mechanism,
  user_and_pass, Users, knows, default_users, amqplain, external, amqplain_response,
  external_response, peer_certificate_cn,
}
use gomq.Server.Handshake.{
  Authenticator, Handshaker, default_sasl, verify, identify, skip_table, or_zero,
}

-- The reason for which the server takes the client for the user.
pub data Vouched (auth : Authenticator) (peer : Peer) (user : Text) : Type 0 where
  knows_password : (pass : Text) → auth user pass ≡ ok tt → Vouched auth peer user
  is_guest : user ≡ codes "guest" → Vouched auth peer user
  has_certificate :
      (others : List Text)
      → peer ≡ with_tls (user ∷ others)
      → ¬ (user ≡ [])
      → Vouched auth peer user

knows-user :
    (users : Users) (user pass found : Text) → knows users user pass ≡ ok found → found ≡ user
unfolding knows
knows-user users user pass found e = ground arith

-- The default account is the only one.
knows-guest :
    (user pass found : Text) → knows default_users user pass ≡ ok found → user ≡ codes "guest"
unfolding knows default_users lookup text_beq
knows-guest user pass found e = elim (Bool-cases (codes "guest" == user)) [
  | inl t ↦ sym ((==_iff (codes "guest") user).0 t)
  | inr f ↦ cc (rw f at e)
]

amqplain-guest :
    (response user : Text)
    → amqplain_response default_users response ≡ ok user
    → user ≡ codes "guest"
unfolding amqplain_response
amqplain-guest response user e =
    let ((u, pass), _, k) = >>=-eq-ok (user_and_pass response) _ e in
    rw (knows-user default_users u pass user k) (knows-guest u pass user k)

external_response_lem :
    (peer : Peer) (user : Text)
    → external_response peer ≡ ok user
    → (others : List Text) × (peer ≡ with_tls (user ∷ others)) × (¬ (user ≡ []))
unfolding external_response peer_certificate_cn
external_response_lem no_tls user e = cc
external_response_lem (with_tls []) user e = cc
external_response_lem (with_tls (cn ∷ others)) user e = elim (Bool-cases (cn == [])) [
  | inl t ↦ cc (rw t at e)
  | inr f ↦
      let same : cn ≡ user = cc (rw f at e) in
      (others, rw same refl, λ n. cc ((==_iff cn []).1 (rw same n)))
]

lookup_pair :
    {V : Type 0} (a b key : Text) (x y v : V)
    → lookup key ((a, x) ∷ (b, y) ∷ []) ≡ some v
    → (v ≡ x) ⊎ (v ≡ y)
unfolding lookup
lookup_pair a b key x y v e = ground arith

lookup-default_sasl :
    (name : Text) (m : Mechanism)
    → lookup_mechanism name default_sasl ≡ some m
    → (m ≡ amqplain default_users) ⊎ (m ≡ external)
unfolding lookup_mechanism default_sasl register_mechanism new_sasl_registry insert text_beq
lookup-default_sasl name m e =
    lookup_pair (codes "AMQPLAIN") (codes "EXTERNAL") name (amqplain default_users) external m e

-- What a mechanism of the registry answers for.
mechanism-Vouched :
    (auth : Authenticator) (peer : Peer) (m : Mechanism) (response user : Text)
    → (m ≡ amqplain default_users) ⊎ (m ≡ external)
    → m.response peer response ≡ ok user
    → Vouched auth peer user
unfolding amqplain external
mechanism-Vouched auth peer m response user (inl k) e =
    is_guest (amqplain-guest response user (rw k at e))
mechanism-Vouched auth peer m response user (inr k) e =
    let (others, p, n) = external_response_lem peer user (rw k at e) in has_certificate others p n

verify-Vouched :
    (h : Handshaker) (mechanism response user : Text)
    → h.sasl ≡ default_sasl
    → verify h mechanism response ≡ ok user
    → Vouched h.auth h.peer user
unfolding verify
verify-Vouched h mechanism response user s e = elim (Bool-cases (mechanism == codes "PLAIN")) [
  | inl t ↦ elim (Result-cases (user_and_pass response)) [
    | inl (why, p) ↦ cc (rw (t, verify, p) at e)
    | inr ((u, pass), p) ↦ elim (Result-cases (h.auth u pass)) [
      | inl (why, a) ↦ cc (rw (t, verify, p, a) at e)
      | inr (x, a) ↦
          let same : u ≡ user = cc (rw (t, verify, p, a) at e) in
          knows_password pass (rw (← same) a)
    ]
  ]
  | inr f ↦ elim (Option-cases (lookup_mechanism mechanism h.sasl)) [
    | inl o ↦ cc (rw (f, verify, o) at e)
    | inr (m, o) ↦ elim (Result-cases (m.response h.peer response)) [
      | inl (why, r) ↦ cc (rw (f, verify, o, r) at e)
      | inr (u, r) ↦
          let same : u ≡ user = cc (rw (f, verify, o, r) at e) in
          mechanism-Vouched h.auth h.peer m response user
            (lookup-default_sasl mechanism m (rw s at o)) (rw same at r)
    ]
  ]
]

pub identify-Vouched :
    (h : Handshaker) (d user : Text)
    → h.sasl ≡ default_sasl
    → identify h d ≡ ok user
    → Vouched h.auth h.peer user
unfolding identify
identify-Vouched h d user s e =
    let mechanism = or_zero [] read_string (skip_table d) in
    verify-Vouched h mechanism.0 (or_zero [] read_string mechanism.1).0 user s e
