-- ===== src/Server/RequestQueues.antt =====
-- The handlers of the methods of the class Queue do what the requests mean.
use gomq.Prelude.{
  ℕ, ◌+◌, ◌≡◌, refl, inl, inr, Bool, true, false, ◌∷◌, ◌++◌, Text, codes, Option, none, some, ok,
}
use gomq.Amqp.Table.Value.{Fields}
use gomq.Amqp.Table.ReadTable.{read_table}
use gomq.Routing.Binding.{Args}
use gomq.Broker.Queues as Queues
use gomq.Delivery.Policy.{Platform}
use gomq.Delivery.Publisher.{Topology}
use gomq.Server.Session.{Session, read, bit, args_of, set_topology, method, reply_unless}
use gomq.Server.QueueHandlers as Q
use gomq.Server.QueueHandlers.{
  declare_queue, handle_queue_declare, handle_queue_bind, handle_queue_delete, handle_queue_unbind,
}
use gomq.Server.Requests.{
  flag, Request, queue_declare, queue_bind, queue_unbind, queue_delete, short, kind_of, name_of,
  Granted, IsCyclic, effect, Answered, refused,
}
use gomq.Server.RequestReads.{
  read_byte, read-short, skip_reserved, check_access_cases, performed-reply, performed-done, Right,
}

queue_bits :
    (a b c d e : Bool)
    → let n = flag 1 a + flag 2 b + flag 4 c + flag 8 d + flag 16 e in
      (bit 1 n ≡ a) × (bit 2 n ≡ b) × (bit 4 n ≡ c) × (bit 8 n ≡ d)
unfolding bit
queue_bits false false false false false = (refl, refl, refl, refl)
queue_bits true false false false false = (refl, refl, refl, refl)
queue_bits false true false false false = (refl, refl, refl, refl)
queue_bits true true false false false = (refl, refl, refl, refl)
queue_bits false false true false false = (refl, refl, refl, refl)
queue_bits true false true false false = (refl, refl, refl, refl)
queue_bits false true true false false = (refl, refl, refl, refl)
queue_bits true true true false false = (refl, refl, refl, refl)
queue_bits false false false true false = (refl, refl, refl, refl)
queue_bits true false false true false = (refl, refl, refl, refl)
queue_bits false true false true false = (refl, refl, refl, refl)
queue_bits true true false true false = (refl, refl, refl, refl)
queue_bits false false true true false = (refl, refl, refl, refl)
queue_bits true false true true false = (refl, refl, refl, refl)
queue_bits false true true true false = (refl, refl, refl, refl)
queue_bits true true true true false = (refl, refl, refl, refl)
queue_bits false false false false true = (refl, refl, refl, refl)
queue_bits true false false false true = (refl, refl, refl, refl)
queue_bits false true false false true = (refl, refl, refl, refl)
queue_bits true true false false true = (refl, refl, refl, refl)
queue_bits false false true false true = (refl, refl, refl, refl)
queue_bits true false true false true = (refl, refl, refl, refl)
queue_bits false true true false true = (refl, refl, refl, refl)
queue_bits true true true false true = (refl, refl, refl, refl)
queue_bits false false false true true = (refl, refl, refl, refl)
queue_bits true false false true true = (refl, refl, refl, refl)
queue_bits false true false true true = (refl, refl, refl, refl)
queue_bits true true false true true = (refl, refl, refl, refl)
queue_bits false false true true true = (refl, refl, refl, refl)
queue_bits true false true true true = (refl, refl, refl, refl)
queue_bits false true true true true = (refl, refl, refl, refl)
queue_bits true true true true true = (refl, refl, refl, refl)

queue_declared-Right :
    (p : Platform) (r : Request) (args : Args) (s : Session) (t : Topology) (no_wait : Bool)
    (found : Option Queues.Queue)
    → Granted s (kind_of r) (name_of r)
    → ¬ IsCyclic r s.server.topology
    → t ≡ effect p r args s.server.topology
    → Answered p r args s (Q.declared no_wait found (set_topology t s))
unfolding Q.declared
queue_declared-Right p r args s t no_wait none g n e = performed-done p r args s t g n e
queue_declared-Right p r args s t no_wait (some q) g n e =
    performed-reply p r args s t no_wait _ g n e

module _ (p : Platform) (bits : ℕ) (table : Text) (fs : Fields) (rest : Text) (s : Session)
    (h : read (read_table p.float_conv) table ≡ ok (fs, rest)) where
  pub queue_delete-Right : (q : Text) → Right p bits table fs s (queue_delete q)
  unfolding handle_queue_delete
  queue_delete-Right q =
      let d = bits ∷ table in
      elim (check_access_cases s (codes "queue") q) [
        | inr (c, n) ↦ rw (skip_reserved (short q ++ d), read-short q d, c) (refused n)
        | inl (c, g) ↦
            rw (skip_reserved (short q ++ d), read-short q d, c, read_byte bits table)
              (performed-reply p (queue_delete q) (args_of p fs) s _ _ _ g (λ x. x) refl)
      ]

  pub queue_bind-Right : (e q k : Text) → Right p bits table fs s (queue_bind e q k)
  unfolding handle_queue_bind
  queue_bind-Right e q k =
      let d3 = bits ∷ table in
      let d2 = short k ++ d3 in
      let d1 = short e ++ d2 in
      elim (check_access_cases s (codes "queue") q) [
        | inr (c, n) ↦
            rw (skip_reserved (short q ++ d1), read-short q d1, read-short e d2, c) (refused n)
        | inl (c, g) ↦
            rw
              (
                skip_reserved (short q ++ d1),
                read-short q d1,
                read-short e d2,
                c,
                read-short k d3,
                read_byte bits table,
                h,
              )
              (performed-reply p (queue_bind e q k) (args_of p fs) s _ _ _ g (λ x. x) refl)
      ]

  pub queue_unbind-Right : (e q k : Text) → Right p bits table fs s (queue_unbind e q k)
  unfolding handle_queue_unbind reply_unless
  queue_unbind-Right e q k =
      let d2 = short k ++ table in
      let d1 = short e ++ d2 in
      elim (check_access_cases s (codes "queue") q) [
        | inr (c, n) ↦ rw (skip_reserved (short q ++ d1), read-short q d1, c) (refused n)
        | inl (c, g) ↦
            rw
              (
                skip_reserved (short q ++ d1),
                read-short q d1,
                c,
                read-short e d2,
                read-short k table,
                h,
              )
              (performed-reply p (queue_unbind e q k) (args_of p fs) s _ false (method 50 51) g
                (λ x. x) refl)
      ]

  declare_queue-Right :
      (q : Text) (passive a b c d n : Bool)
      → Granted s (codes "queue") q
      → Answered p
          (queue_declare q passive a b c d)
          (args_of p fs)
          s
          (declare_queue p passive q a b c n (args_of p fs) s)
  unfolding declare_queue set_topology
  declare_queue-Right q true a b c d n g =
      queue_declared-Right p (queue_declare q true a b c d) (args_of p fs) s s.server.topology n _ g
        (λ x. x) refl
  declare_queue-Right q false a b c d n g =
      queue_declared-Right p (queue_declare q false a b c d) (args_of p fs) s _ n _ g (λ x. x) refl

  declared_queue-Right :
      (q : Text) (passive a b c d : Bool) (n : ℕ)
      → (bit 1 n ≡ passive) × (bit 2 n ≡ a) × (bit 4 n ≡ b) × (bit 8 n ≡ c)
      → Granted s (codes "queue") q
      → Answered p
          (queue_declare q passive a b c d)
          (args_of p fs)
          s
          (declare_queue p (bit 1 n) q (bit 2 n) (bit 4 n) (bit 8 n) (bit 16 n) (args_of p fs) s)
  declared_queue-Right q passive a b c d n (b1, b2, b4, b8) g =
      rw (b1, b2, b4, b8) (declare_queue-Right q passive a b c d (bit 16 n) g)

  pub queue_declare-Right :
      (q : Text) (passive a b c d : Bool)
      → Right p bits table fs s (queue_declare q passive a b c d)
  unfolding handle_queue_declare
  queue_declare-Right q passive a b c d =
      let n = flag 1 passive + flag 2 a + flag 4 b + flag 8 c + flag 16 d in
      let rest = n ∷ table in
      elim (check_access_cases s (codes "queue") q) [
        | inr (e, z) ↦ rw (skip_reserved (short q ++ rest), read-short q rest, e) (refused z)
        | inl (e, g) ↦
            rw (skip_reserved (short q ++ rest), read-short q rest, e, read_byte n table, h)
              (declared_queue-Right q passive a b c d n (queue_bits passive a b c d) g)
      ]
