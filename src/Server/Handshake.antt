-- ===== src/Server/Handshake.antt =====
-- internal/server/handshake.go and authenticator.go: the start of a connection, with readFrame and
-- sendMethodFrame of connection.go. The deadline on the first read is left out.
use gomq.Prelude.{
  ℕ, Bool, true, false, not, ◌&&◌, ◌||◌, [], ◌∷◌, ◌++◌, Text, codes, get_or, none, some, Result, ok,
  err, ◌>>=◌, ◌==◌, nat_eq, text_eq, ltb, if◌then◌else◌,
}
use gomq.Amqp.Octets.{Read, read_full}
use gomq.Amqp.Frame.{Frame, frame_method, frame_max_default}
use gomq.Amqp.Encode.{Encoder, write_uint8, write_uint16, write_uint32, write_string}
use gomq.Amqp.Decode.{read_uint16, read_uint32, read_string}
use gomq.Amqp.Framer.{Reader, FramerError, new_framer, next_frame}
use gomq.Amqp.Table.Value as Value
use gomq.Amqp.Table.Value.{FloatConv, Fields, end, field}
use gomq.Amqp.Table.Write.{write_table}
use gomq.Auth.Sasl.{
  Peer, SaslError, SaslRegistry, new_sasl_registry, register_mechanism, lookup_mechanism, names,
  user_and_pass, Users, knows, default_users, amqplain, external,
}
use gomq.Server.Session.{Session, Link, no_link, writable, broken, method, skip}

-- The interface Authenticator.
abbrev pub Authenticator : Type 0
Authenticator = Text → Text → Result SaslError (Unit {0})

unfoldable pub memory_authenticator : Users → Authenticator
unfolding knows
memory_authenticator users user pass = do _ ← knows users user pass; ok tt

pub record Tune : Type 0 where
  pub channel_max : ℕ
  pub frame_max : ℕ
  pub heartbeat : ℕ

-- A Handshaker and what it sees of its connection. `reader` holds the bytes that the client sends:
-- the first eight are read from the socket, before the buffer of the reader has any.
pub record Handshaker : Type 0 where
  pub session : Session
  pub reader : Reader
  pub peer : Peer
  pub heartbeat : ℕ
  pub auth : Authenticator
  pub sasl : SaslRegistry
  pub tune : Tune

pub data HandshakeError : Type 0 where
  stream_error invalid_header send_failed not_method unexpected_method : HandshakeError
  auth_failed unsupported_mechanism : HandshakeError
  authenticator_error : SaslError → HandshakeError
  frame_error : FramerError → HandshakeError

abbrev pub default_tune : Tune
default_tune = record { channel_max = 2048; frame_max = 131072; heartbeat = 60 }

unfoldable pub default_sasl : SaslRegistry
unfolding register_mechanism new_sasl_registry amqplain default_users external
default_sasl =
    register_mechanism external (register_mechanism (amqplain default_users) new_sasl_registry)

unfoldable pub new_handshaker : Session → Reader → Peer → Authenticator → Handshaker
unfolding default_sasl
new_handshaker s r peer auth = record {
  session = s;
  reader = r;
  peer = peer;
  heartbeat = 0;
  auth = auth;
  sasl = default_sasl;
  tune = default_tune;
}

abbrev pub Outcome : Type 0
Outcome = Handshaker × Result HandshakeError (Unit {0})

-- `if err := first; err != nil { return err }`, and what comes next.
unfoldable pub and_then : Outcome → (Handshaker → Outcome) → Outcome
and_then (h, err e) next = (h, err e)
and_then (h, ok x) next = next h

-- What a step does with a value once nothing has failed.
unfoldable pub finish {ℓ} :
    {A : Type ℓ} → (A → Handshaker → Handshaker) → Handshaker → Result HandshakeError A → Outcome
finish set h (err e) = (h, err e)
finish set h (ok x) = (set x h, ok tt)

unfoldable pub read_protocol_header : Handshaker → Outcome
unfolding read_full
read_protocol_header h = elim (read_full 8 h.reader.pending) [
  | err e ↦ (record h { reader = record h.reader { pending = [] } }, err stream_error)
  | ok (buf, rest) ↦ (
    record h { reader = record h.reader { pending = rest } },
    if not (get_or buf 0 0 == b'A') then err invalid_header else ok tt,
  )
]

unfoldable pub write_frame : Link → Frame → Session → Session × Bool
write_frame no_link f s = (s, false)
write_frame broken f s = (s, true)
write_frame writable f s = (record s { sent = s.sent ++ f ∷ [] }, false)

unfoldable pub send_method_frame : ℕ → Encoder → Session → Session × Bool
unfolding write_frame
send_method_frame ch payload s =
    write_frame s.link (record { frame_type = frame_method; channel = ch; payload = payload }) s

unfoldable pub send : Encoder → Handshaker → Outcome
unfolding send_method_frame
send enc h =
    let (s, failed) = send_method_frame 0 enc h.session in
    (record h { session = s }, if failed then err send_failed else ok tt)

abbrev server_properties : Fields
server_properties =
    field (codes "product") (Value.string (codes "gomq"))
      (field (codes "version") (Value.string (codes "0.1.0")) end)

-- The error of WriteTable is not looked at, and it leaves the buffer as it was.
unfoldable pub send_start : FloatConv → Handshaker → Outcome
unfolding method write_uint8 write_table write_string names send
send_start conv h =
    let enc = write_uint8 (write_uint8 (method 10 10) 0) 9 in
    let enc : Encoder = elim (write_table conv enc server_properties) [ err _ ↦ enc | ok e ↦ e ] in
    send (write_string (write_string enc (names h.sasl)) (codes "en_US")) h

unfoldable pub read_connection_frame : Handshaker → Handshaker × Result HandshakeError Frame
unfolding new_framer next_frame
read_connection_frame h =
    let (f, result) = next_frame (new_framer h.reader frame_max_default) in
    (record h { reader = f.reader }, elim result [ err e ↦ err (frame_error e) | ok f ↦ ok f ])

-- `v, _ := dec.Read...()`: the zero value where the read fails.
unfoldable pub or_zero {ℓ} : {A : Type ℓ} → A → Read A → Text → A × Text
unfolding skip
or_zero zero r d = elim (r d) [ err _ ↦ (zero, skip r d) | ok found ↦ found ]

-- `_, _ = dec.ReadTable()`: a table whose body is refused has been read all the same.
unfoldable pub skip_table : Text → Text
unfolding or_zero read_string
skip_table d = (or_zero [] read_string d).1

-- What follows the identifiers of a method, where it is the one that is waited for.
unfoldable pub expect : ℕ → ℕ → Frame → Result HandshakeError Text
unfolding or_zero read_uint16
expect class_id method_id f =
    let (c, d) = or_zero 0 read_uint16 f.payload in
    let (m, d) = or_zero 0 read_uint16 d in
    if not (c == class_id) || not (m == method_id) then err unexpected_method else ok d

-- The user that a response proves by the mechanism.
unfoldable pub verify : Handshaker → Text → Text → Result HandshakeError Text
unfolding user_and_pass lookup_mechanism
verify h mechanism response =
    if mechanism == codes "PLAIN"
    then elim (user_and_pass response) [
      | err _ ↦ err auth_failed
      | ok (user, pass) ↦ elim (h.auth user pass) [
        | err e ↦ err (authenticator_error e)
        | ok _ ↦ ok user
      ]
    ]
    else elim (lookup_mechanism mechanism h.sasl) [
      | none ↦ err unsupported_mechanism
      | some m ↦ elim (m.response h.peer response) [ err _ ↦ err auth_failed | ok user ↦ ok user ]
    ]

-- The arguments of Start-Ok.
unfoldable pub identify : Handshaker → Text → Result HandshakeError Text
unfolding or_zero skip_table read_string verify
identify h d =
    let (mechanism, d) = or_zero [] read_string (skip_table d) in
    verify h mechanism (or_zero [] read_string d).0

unfoldable pub set_username : Text → Handshaker → Handshaker
set_username user h = record h { session = record h.session { username = user } }

unfoldable pub start_ok_args : Frame → Result HandshakeError Text
unfolding expect
start_ok_args f = if not (f.frame_type == frame_method) then err not_method else expect 10 11 f

unfoldable pub read_start_ok : Handshaker → Outcome
unfolding read_connection_frame start_ok_args identify finish set_username
read_start_ok h =
    let (h', r) = read_connection_frame h in
    finish set_username h' (do f ← r; d ← start_ok_args f; identify h' d)

unfoldable pub send_tune : Handshaker → Outcome
unfolding method write_uint16 write_uint32 send
send_tune h =
    send
      (write_uint16 (write_uint32 (write_uint16 (method 10 30) h.tune.channel_max) h.tune.frame_max)
        h.tune.heartbeat)
      h

-- `if v > 0 && v < limit { limit = v }`
unfoldable pub lowered : ℕ → ℕ → ℕ
lowered v limit = if ltb 0 v && ltb v limit then v else limit

unfoldable pub set_tune : Text → Handshaker → Handshaker
unfolding or_zero read_uint16 read_uint32 lowered
set_tune d h =
    let (channel_max, d) = or_zero 0 read_uint16 d in
    let (frame_max, d) = or_zero 0 read_uint32 d in
    let (heartbeat, d) = or_zero 0 read_uint16 d in
    record h {
      tune = record {
        channel_max = lowered channel_max h.tune.channel_max;
        frame_max = lowered frame_max h.tune.frame_max;
        heartbeat = lowered heartbeat h.tune.heartbeat;
      };
    }

unfoldable pub read_tune_ok : Handshaker → Outcome
unfolding read_connection_frame expect finish set_tune
read_tune_ok h =
    let (h', r) = read_connection_frame h in finish set_tune h' (do f ← r; expect 10 31 f)

unfoldable pub send_open : Handshaker → Outcome
unfolding method write_string write_uint8 send
send_open h =
    send (write_uint8 (write_string (write_string (method 10 40) (codes "/")) []) 0)
      (record h { session = record h.session { vhost = codes "/" } })

unfoldable pub read_open_ok : Handshaker → Outcome
unfolding read_connection_frame expect finish
read_open_ok h =
    let (h', r) = read_connection_frame h in finish (λ d h. h) h' (do f ← r; expect 10 41 f)

unfoldable pub negotiate : FloatConv → Handshaker → Outcome
unfolding and_then read_protocol_header send_start read_start_ok send_tune read_tune_ok send_open
    read_open_ok
negotiate conv h = and_then (read_protocol_header h) (λ h. and_then (send_start conv h) (λ h.
    and_then (read_start_ok h) (λ h. and_then (send_tune h) (λ h.
      and_then (read_tune_ok h)
        (λ h. and_then (send_open (record h { heartbeat = h.tune.heartbeat })) read_open_ok)))))
