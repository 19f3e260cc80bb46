-- ===== src/Server/Serve.antt =====
-- internal/server/connection.go: the frame loop of Serve, and what stays true along it.
use gomq.Prelude.{
  ℕ, arith, ap, sym, ◌&&◌, Bool-cases, ◌≡◌, Bool, true, false, not, List, [], ◌∷◌, ok, err, ◌==◌,
  nat_eq, if◌then◌else◌, Option, none, some, Option-cases, Result-cases, inl, inr,
}
use gomq.Amqp.Frame.{Frame}
use gomq.Broker.Acyclic.{
  IsAcyclic, bind-IsAcyclic, unbind-IsAcyclic, unbind_all_for_exchange-IsAcyclic,
}
use gomq.Delivery.Policy.{Platform}
use gomq.Delivery.Publisher.{Topology}
use gomq.Server.Channel.{get}
use gomq.Server.Session.{done, Session, ConnState, state_open, Outcome, close_connection}
use gomq.Server.Dispatcher.{
  Registry, register_basic_handlers, focus, handle_channel_frame, handle_connection_frame,
}
use gomq.Server.Evolution.{
  Evolves, stays, queue_declared, queue_deleted, queue_bound, queue_unbound, exchange_declared,
  exchange_deleted, exchange_bound, exchange_unbound,
}
use gomq.Server.Soundness.{dispatch-Sound}

unfoldable pub is_open : ConnState → Bool
is_open state_open = true
is_open _ = false

-- Channel 0 is the connection's own.
unfoldable pub handle_frame : Registry → Frame → Session → Outcome
unfolding handle_connection_frame handle_channel_frame
handle_frame r f s =
    if f.channel == 0 then handle_connection_frame f s else handle_channel_frame r f s

-- The frames that the client sends until its stream ends or cannot be read. The loop also ends at a
-- handler's error, and once the connection is not open; the connection is closed in any case.
unfoldable pub serve : Registry → List Frame → Session → Session
unfolding is_open handle_frame close_connection
serve r [] s = close_connection s
serve r (f ∷ frames) s =
    let (s', result) = handle_frame r f s in
    let rest = serve r frames s' in
    if not (is_open s.state)
    then close_connection s
    else elim result [ err _ ↦ close_connection s' | ok _ ↦ rest ]

Evolves-IsAcyclic : (t u : Topology) → Evolves t u → IsAcyclic t.e2e → IsAcyclic u.e2e
Evolves-IsAcyclic t u stays k = k
Evolves-IsAcyclic t u (queue_declared print name durable exclusive auto_delete args) k = k
Evolves-IsAcyclic t u (queue_deleted name) k = k
Evolves-IsAcyclic t u (queue_bound exchange queue key args) k = k
Evolves-IsAcyclic t u (queue_unbound exchange queue key) k = k
Evolves-IsAcyclic t u (exchange_declared name ex_type durable auto_delete internal args) k = k
Evolves-IsAcyclic t u (exchange_deleted name) k = unbind_all_for_exchange-IsAcyclic name t.e2e k
Evolves-IsAcyclic t u (exchange_bound source destination key args h) k =
    bind-IsAcyclic source destination key args t.e2e h k
Evolves-IsAcyclic t u (exchange_unbound source destination key m h) k =
    unbind-IsAcyclic source destination key t.e2e m h k

-- The bindings between exchanges make no cycle.
abbrev pub HasNoCycle : Session → Type 0
HasNoCycle s = IsAcyclic s.server.topology.e2e

close_connection-server : (s : Session) → (close_connection s).server ≡ s.server
unfolding close_connection
close_connection-server s = ground arith

close_connection-HasNoCycle : (s : Session) → HasNoCycle s → HasNoCycle (close_connection s)
close_connection-HasNoCycle s k = rw (close_connection-server s) k

focus-server : (id : ℕ) (s s' : Session) → focus id s ≡ some s' → s'.server ≡ s.server
unfolding focus
focus-server id s s' e = elim (Bool-cases (s.managed && id == s.channel.id)) [
  | inl t ↦ let q : s ≡ s' = cc (rw (t, focus) at e) in rw (← q)
  | inr f ↦ elim (Option-cases (get id s.others)) [
    | inl o ↦ cc (rw (f, focus, o) at e)
    | inr (ch, o) ↦
        ap (λ (o : Option Session). elim o [ none ↦ s.server | some x ↦ x.server ])
          (sym (rw (f, focus, o) at e))
  ]
]

handle_connection_frame-server :
    (f : Frame) (s : Session) → (handle_connection_frame f s).0.server ≡ s.server
unfolding handle_connection_frame done
handle_connection_frame-server f s = ground (arith, close_connection-server s)

handle_channel_frame-HasNoCycle :
    (p : Platform) (f : Frame) (s : Session)
    → HasNoCycle s
    → HasNoCycle (handle_channel_frame (register_basic_handlers p) f s).0
unfolding handle_channel_frame done
handle_channel_frame-HasNoCycle p f s k = elim (Option-cases (focus f.channel s)) [
  | inl o ↦ rw (o, handle_channel_frame) k
  | inr (s', o) ↦
      rw (o, handle_channel_frame)
        (Evolves-IsAcyclic _ _ (dispatch-Sound p f s').evolves
          (rw (focus-server f.channel s s' o) k))
]

handle_frame-HasNoCycle :
    (p : Platform) (f : Frame) (s : Session)
    → HasNoCycle s
    → HasNoCycle (handle_frame (register_basic_handlers p) f s).0
unfolding handle_frame
handle_frame-HasNoCycle p f s k = elim (Bool-cases (f.channel == 0)) [
  | inl t ↦ rw (t, handle_frame, handle_connection_frame-server f s) k
  | inr t ↦ rw (t, handle_frame) (handle_channel_frame-HasNoCycle p f s k)
]

-- Whatever frames a client sends, from bindings between exchanges that make no cycle, the bindings
-- that the connection leaves behind make none.
pub serve-HasNoCycle :
    (p : Platform) (frames : List Frame) (s : Session)
    → HasNoCycle s
    → HasNoCycle (serve (register_basic_handlers p) frames s)
unfolding serve
serve-HasNoCycle p [] s k = close_connection-HasNoCycle s k
serve-HasNoCycle p (f ∷ frames) s k =
    let k' = handle_frame-HasNoCycle p f s k in
    let r = handle_frame (register_basic_handlers p) f s in
    elim (Bool-cases (is_open s.state)) [
      | inr n ↦ rw (n, serve) (close_connection-HasNoCycle s k)
      | inl o ↦ elim (Result-cases r.1) [
        | inl (why, e) ↦ rw (o, serve, e) (close_connection-HasNoCycle r.0 k')
        | inr (x, e) ↦ rw (o, serve, e) (serve-HasNoCycle p frames r.0 k')
      ]
    ]
