-- ===== src/Server/RequestReads.antt =====
-- Reading the arguments of a request, and the check of its access.
use gomq.Prelude.{
  ℕ, ◌+◌, ◌≡◌, refl, sym, ◌∙◌, arith, ◌⊎◌, inl, inr, Bool, true, false, [], ◌∷◌, ◌++◌, Text, codes,
  length, Option-cases, Result-cases, ok, err,
}
use gomq.Amqp.Octets.{read_full-append, read_full_exact, get_be}
use gomq.Amqp.Encode.{Encoder}
use gomq.Amqp.Decode.{read_uint8, read_uint16, read_short_string}
use gomq.Amqp.Table.Value.{Fields}
use gomq.Routing.Binding.{Args}
use gomq.Auth.{check}
use gomq.Delivery.Policy.{Platform}
use gomq.Delivery.Publisher.{Topology}
use gomq.Server.Session.{
  Session, access_denied, read, skip, check_access, args_of, set_topology, done, reply_unless,
}
use gomq.Server.Evolution.{reply-server}
use gomq.Server.Requests.{
  Request, payload, short, kind_of, name_of, Granted, IsCyclic, effect, handler_of, Answered,
  performed,
}

pub read_byte : (b : ℕ) (d : Text) → read read_uint8 (b ∷ d) ≡ ok (b, d)
unfolding read read_uint8 get_be
read_byte b d =
    let z : 0 + b ≡ b = omega arith in rw (read, read_full_exact 1 (b ∷ []) d refl, z) refl

pub read-short : (v d : Text) → read read_short_string (short v ++ d) ≡ ok (v, d)
unfolding read read_short_string get_be
read-short v d =
    let z : 0 + length v ≡ length v = omega arith in
    rw (read, read_full_exact 1 (length v ∷ []) (v ++ d) refl, z, read_full-append v d) refl

pub skip_reserved : (d : Text) → skip read_uint16 (0 ∷ 0 ∷ d) ≡ d
unfolding skip read_uint16
skip_reserved d = rw (skip, read_full_exact 2 (0 ∷ 0 ∷ []) d refl) refl

pub check_access_cases :
    (s : Session) (kind name : Text)
    → ((check_access s kind name (codes "configure") ≡ ok tt) × Granted s kind name)
      ⊎ ((check_access s kind name (codes "configure") ≡ err access_denied)
          × (¬ Granted s kind name))
unfolding check_access
check_access_cases s kind name = elim (Option-cases s.server.acl) [
  | inl e ↦ inl (rw (check_access, e) refl, inl e)
  | inr (rules, e) ↦
      elim (Result-cases (
        check rules (record {
          user = s.username;
          vhost = s.vhost;
          resource_type = kind;
          resource_name = name;
          permission = codes "configure";
        }))) [
          | inl (why, c) ↦ inr (
            rw (check_access, e, c) refl,
            λ g. elim g [
              | inl n ↦ cc (sym e ∙ n)
              | inr (rules', e', c') ↦
                  let same : rules' ≡ rules = cc (sym e' ∙ e) in cc (sym c ∙ rw same at c')
            ],
          )
          | inr (x, c) ↦ inl (rw (check_access, e, c) refl, inr (rules, e, c))
        ]
]

reply_unless-server :
    (b : Bool) (enc : Encoder) (s : Session) → (reply_unless b enc s).server ≡ s.server
unfolding reply_unless
reply_unless-server true enc s = refl
reply_unless-server false enc s = reply-server enc s

pub performed-reply :
    (p : Platform) (r : Request) (args : Args) (s : Session) (t : Topology) (b : Bool)
    (enc : Encoder)
    → Granted s (kind_of r) (name_of r)
    → ¬ IsCyclic r s.server.topology
    → t ≡ effect p r args s.server.topology
    → Answered p r args s (done (reply_unless b enc (set_topology t s)))
unfolding done set_topology
performed-reply p r args s t b enc g n e =
    performed t (reply_unless b enc (set_topology t s)) g n e
      (reply_unless-server b enc (set_topology t s))

pub performed-done :
    (p : Platform) (r : Request) (args : Args) (s : Session) (t : Topology)
    → Granted s (kind_of r) (name_of r)
    → ¬ IsCyclic r s.server.topology
    → t ≡ effect p r args s.server.topology
    → Answered p r args s (done (set_topology t s))
unfolding done set_topology
performed-done p r args s t g n e = performed t (set_topology t s) g n e refl

abbrev pub Right : Platform → ℕ → Text → Fields → Session → Request → Type 0
Right p bits table fs s r = Answered p r (args_of p fs) s (handler_of p r (payload r bits table) s)
