-- ===== src/Server/RequestExchanges.antt =====
-- The handlers of the methods of the class Exchange do what the requests mean.
use gomq.Prelude.{
  ℕ, ◌+◌, ◌≡◌, refl, sym, ◌∙◌, inl, inr, Bool, true, false, ◌∷◌, ◌++◌, Text, codes, Option,
  Bool-cases, none, some, Result-cases, ok, if◌then◌else◌, text_beq,
}
use gomq.Amqp.Table.Value.{Fields}
use gomq.Amqp.Table.ReadTable.{read_table}
use gomq.Routing.Binding.{Args}
use gomq.Routing.Exchange.{direct, fanout, Exchange}
use gomq.Broker.E2E as E2E
use gomq.Broker.CycleFuel.{has_cycle_iff}
use gomq.Delivery.Policy.{Platform}
use gomq.Delivery.Publisher.{Topology}
use gomq.Server.Session.{Session, read, bit, args_of, set_topology}
use gomq.Server.ExchangeHandlers as E
use gomq.Server.ExchangeHandlers.{
  type_named, declare_exchange, bind_exchange, unbind_exchange, handle_exchange_declare,
  handle_exchange_delete, handle_exchange_bind, handle_exchange_unbind,
}
use gomq.Server.Requests.{
  flag, Request, exchange_declare, exchange_delete, exchange_bind, exchange_unbind, short, kind_of,
  name_of, Granted, IsCyclic, effect, Answered, refused, failed,
}
use gomq.Server.RequestReads.{
  read_byte, read-short, skip_reserved, check_access_cases, performed-reply, performed-done, Right,
}

exchange_bits : (a b : Bool) → bit 1 (flag 1 a + flag 16 b) ≡ a
unfolding bit
exchange_bits true true = refl
exchange_bits true false = refl
exchange_bits false true = refl
exchange_bits false false = refl

type_named_lem :
    (b : Bool)
    → type_named (if b then codes "fanout" else codes "direct") ≡ (if b then fanout else direct)
unfolding type_named text_beq
type_named_lem true = refl
type_named_lem false = refl

exchange_declared-Right :
    (p : Platform) (r : Request) (args : Args) (s : Session) (t : Topology) (no_wait : Bool)
    (found : Option Exchange)
    → Granted s (kind_of r) (name_of r)
    → ¬ IsCyclic r s.server.topology
    → t ≡ effect p r args s.server.topology
    → Answered p r args s (E.declared no_wait found (set_topology t s))
unfolding E.declared
exchange_declared-Right p r args s t no_wait none g n e = performed-done p r args s t g n e
exchange_declared-Right p r args s t no_wait (some q) g n e =
    performed-reply p r args s t no_wait _ g n e

module _ (p : Platform) (bits : ℕ) (table : Text) (fs : Fields) (rest : Text) (s : Session)
    (h : read (read_table p.float_conv) table ≡ ok (fs, rest)) where
  pub exchange_delete-Right : (e : Text) → Right p bits table fs s (exchange_delete e)
  unfolding handle_exchange_delete
  exchange_delete-Right e =
      let d = bits ∷ table in
      elim (check_access_cases s (codes "exchange") e) [
        | inr (c, n) ↦ rw (skip_reserved (short e ++ d), read-short e d, c) (refused n)
        | inl (c, g) ↦
            rw (skip_reserved (short e ++ d), read-short e d, c, read_byte bits table)
              (performed-reply p (exchange_delete e) (args_of p fs) s _ _ _ g (λ x. x) refl)
      ]

  bind_exchange-Right :
      (source destination key : Text) (b : Bool)
      → Granted s (codes "exchange") destination
      → Answered p
          (exchange_bind source destination key)
          (args_of p fs)
          s
          (bind_exchange source destination key (args_of p fs) b s)
  unfolding bind_exchange
  bind_exchange-Right source destination key b g =
      let r = exchange_bind source destination key in
      let (answer, e, leads) = has_cycle_iff s.server.topology.e2e source destination in
      elim (Bool-cases answer) [
        | inl y ↦ rw (e, y, bind_exchange) (failed g (leads.0 y))
        | inr n ↦
            rw (e, n, bind_exchange)
              (performed-reply p r (args_of p fs) s _ b _ g (λ c. cc (sym n ∙ leads.1 c)) refl)
      ]

  pub exchange_bind-Right : (a b k : Text) → Right p bits table fs s (exchange_bind a b k)
  unfolding handle_exchange_bind
  exchange_bind-Right a b k =
      let d3 = bits ∷ table in
      let d2 = short k ++ d3 in
      let d1 = short a ++ d2 in
      elim (check_access_cases s (codes "exchange") b) [
        | inr (c, n) ↦
            rw (skip_reserved (short b ++ d1), read-short b d1, read-short a d2, c) (refused n)
        | inl (c, g) ↦
            rw
              (
                skip_reserved (short b ++ d1),
                read-short b d1,
                read-short a d2,
                c,
                read-short k d3,
                read_byte bits table,
                h,
              )
              (bind_exchange-Right a b k _ g)
      ]

  unbind_exchange-Right :
      (source destination key : Text) (b : Bool)
      → Granted s (codes "exchange") destination
      → Answered p
          (exchange_unbind source destination key)
          (args_of p fs)
          s
          (unbind_exchange source destination key b s)
  unfolding unbind_exchange
  unbind_exchange-Right source destination key b g =
      elim (Result-cases (E2E.unbind source destination key s.server.topology.e2e)) [
        | inl (why, e) ↦
            performed-reply p (exchange_unbind source destination key) (args_of p fs) s _ b _ g
              (λ x. x) (rw (effect, e) refl)
        | inr (m, e) ↦
            performed-reply p (exchange_unbind source destination key) (args_of p fs) s _ b _ g
              (λ x. x) (rw (effect, e) refl)
      ]

  pub exchange_unbind-Right : (a b k : Text) → Right p bits table fs s (exchange_unbind a b k)
  unfolding handle_exchange_unbind
  exchange_unbind-Right a b k =
      let d3 = bits ∷ table in
      let d2 = short k ++ d3 in
      let d1 = short a ++ d2 in
      elim (check_access_cases s (codes "exchange") b) [
        | inr (c, n) ↦
            rw (skip_reserved (short b ++ d1), read-short b d1, read-short a d2, c) (refused n)
        | inl (c, g) ↦
            rw
              (
                skip_reserved (short b ++ d1),
                read-short b d1,
                read-short a d2,
                c,
                read-short k d3,
                read_byte bits table,
              )
              (unbind_exchange-Right a b k _ g)
      ]

  declare_exchange-Right :
      (x : Text) (f passive d n : Bool)
      → Granted s (codes "exchange") x
      → Answered p
          (exchange_declare x f passive d)
          (args_of p fs)
          s
          (declare_exchange passive x (if f then fanout else direct) n (args_of p fs) s)
  unfolding declare_exchange set_topology
  declare_exchange-Right x f true d n g =
      exchange_declared-Right p (exchange_declare x f true d) (args_of p fs) s s.server.topology n _
        g (λ x. x) refl
  declare_exchange-Right x f false d n g =
      exchange_declared-Right p (exchange_declare x f false d) (args_of p fs) s _ n _ g (λ x. x)
        refl

  named_exchange-Right :
      (x : Text) (f passive d : Bool) (n : ℕ)
      → bit 1 n ≡ passive
      → Granted s (codes "exchange") x
      → Answered p (exchange_declare x f passive d) (args_of p fs) s (
          declare_exchange
            (bit 1 n)
            x
            (type_named (if f then codes "fanout" else codes "direct"))
            (bit 16 n)
            (args_of p fs)
            s)
  named_exchange-Right x f passive d n e g =
      rw (e, type_named_lem f) (declare_exchange-Right x f passive d (bit 16 n) g)

  pub exchange_declare-Right :
      (x : Text) (f passive d : Bool) → Right p bits table fs s (exchange_declare x f passive d)
  unfolding handle_exchange_declare
  exchange_declare-Right x f passive d =
      let n = flag 1 passive + flag 16 d in
      let d2 = n ∷ table in
      let ty = if f then codes "fanout" else codes "direct" in
      let d1 = short ty ++ d2 in
      elim (check_access_cases s (codes "exchange") x) [
        | inr (e, z) ↦ rw (skip_reserved (short x ++ d1), read-short x d1, e) (refused z)
        | inl (e, g) ↦
            rw
              (
                skip_reserved (short x ++ d1),
                read-short x d1,
                e,
                read-short ty d2,
                read_byte n table,
                h,
              )
              (named_exchange-Right x f passive d n (exchange_bits passive d) g)
      ]
