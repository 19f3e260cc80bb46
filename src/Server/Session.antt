-- ===== src/Server/Session.antt =====
-- What a method handler of internal/server sees and changes: the managers of the server, its channel
-- and the connection, with SendFrame of channel.go, sendFrame and Close of connection.go, and the
-- steps that the handlers share.
use gomq.Prelude.{
  ℕ, ◌/◌, ◌%◌, Bool, true, false, List, [], ◌∷◌, ◌++◌, Text, codes, Option, none, some, Result, ok,
  err, ◌==◌, nat_eq, if◌then◌else◌,
}
use gomq.Amqp.Octets.{Error, Read}
use gomq.Amqp.Frame.{Frame, frame_method}
use gomq.Amqp.Encode.{Encoder, new_encoder, write_uint16}
use gomq.Amqp.Table.Value as Value
use gomq.Amqp.Table.Value.{Fields, end, field}
use gomq.Routing.Binding.{Any, Args, string, bool, int, uint, float, other}
use gomq.Broker.Prefetch.{Prefetch}
use gomq.Broker.Consumers.{ConsumerError}
use gomq.Auth.{AclManager, check}
use gomq.Delivery.Policy.{Platform}
use gomq.Delivery.Deliverer.{Deliveries}
use gomq.Delivery.Publisher.{Topology, Stop, PublishError}
use gomq.Server.Channel.{Channel, ChannelManager, FlowController, close_channel, close_all}

-- The managers of a Server that the handlers use; a nil access manager is `none`.
pub record Server : Type 0 where
  pub acl : Option AclManager
  pub topology : Topology
  pub deliveries : Deliveries
  pub prefetch : Prefetch
  pub flow : FlowController

pub data ConnState : Type 0 where
  state_init state_header state_start state_tune state_open state_closing state_closed : ConnState

-- What a write to the net.Conn does; `no_link` is a nil connection.
pub data Link : Type 0 where
  no_link writable broken : Link

-- `channel` is the channel of the frame and `others` the manager without it; `managed` tells whether
-- the manager holds it. `sent` are the frames that were written.
pub record Session : Type 0 where
  pub server : Server
  pub channel : Channel
  pub managed : Bool
  pub others : ChannelManager
  pub username : Text
  pub vhost : Text
  pub state : ConnState
  pub link : Link
  pub sent : List Frame

pub data HandlerError : Type 0 where
  decode_error : Error → HandlerError
  access_denied : HandlerError
  consumer_error : ConsumerError → HandlerError
  publish_error : PublishError → HandlerError
  cycle_detected send_failed : HandlerError
  not_method no_handler : HandlerError
  -- The call does not return.
  stopped : Stop → HandlerError

abbrev pub Outcome : Type 0
Outcome = Session × Result HandlerError (Unit {0})

abbrev pub Handler : Type 0
Handler = Text → Session → Outcome

-- What a handler does once it has read its arguments.
abbrev pub Action : Type 0
Action = Session → Outcome

unfoldable pub done : Session → Outcome
done s = (s, ok tt)

-- A handler reads its arguments and checks access before it changes anything.
unfoldable pub run : Session → Result HandlerError Action → Outcome
run s (err e) = (s, err e)
run s (ok act) = act s

unfoldable pub read {ℓ} : {A : Type ℓ} → Read A → Text → Result HandlerError (A × Text)
read r d = elim (r d) [ err e ↦ err (decode_error e) | ok found ↦ ok found ]

-- `_, _ = dec.ReadUint16()` and the like: a read that fails takes all the bytes that are left.
unfoldable pub skip {ℓ} : {A : Type ℓ} → Read A → Text → Text
skip r d = elim (r d) [ err _ ↦ [] | ok found ↦ found.1 ]

-- `bits&mask != 0`, for a mask of one bit.
unfoldable pub bit : ℕ → ℕ → Bool
bit mask bits = (bits / mask) % 2 == 1

-- A value of a table as an interface{}.
unfoldable pub any_of : Platform → Value.Value → Any
any_of p (Value.bool b) = bool b
any_of p (Value.int8 z) = int z
any_of p (Value.int16 z) = int z
any_of p (Value.int32 z) = int z
any_of p (Value.int64 z) = int z
any_of p (Value.uint8 n) = uint n
any_of p (Value.uint16 n) = uint n
any_of p (Value.uint32 n) = uint n
any_of p (Value.uint64 n) = uint n
any_of p (Value.float32 b) = float (p.widen b)
any_of p (Value.float64 b) = float b
any_of p (Value.string s) = string s
any_of p (Value.bytes s) = other
any_of p (Value.time s n) = other
any_of p (Value.table t) = other
any_of p Value.unsupported = other

unfoldable pub args_of : Platform → Fields → Args
unfolding any_of
args_of p end = []
args_of p (field k v fs) = (k, any_of p v) ∷ args_of p fs

abbrev pub res_exchange : Text
res_exchange = codes "exchange"

abbrev pub res_queue : Text
res_queue = codes "queue"

abbrev pub perm_configure : Text
perm_configure = codes "configure"

abbrev pub perm_write : Text
perm_write = codes "write"

abbrev pub perm_read : Text
perm_read = codes "read"

unfoldable pub check_access : Session → Text → Text → Text → Result HandlerError (Unit {0})
unfolding check
check_access s resource_type resource_name permission = elim s.server.acl [
  | none ↦ ok tt
  | some rules ↦
      elim (check rules (record {
        user = s.username;
        vhost = s.vhost;
        resource_type = resource_type;
        resource_name = resource_name;
        permission = permission;
      })) [ err _ ↦ err access_denied | ok _ ↦ ok tt ]
]

-- The buffer with the two identifiers that each method begins with.
unfoldable pub method : ℕ → ℕ → Encoder
unfolding write_uint16 new_encoder
method class_id method_id = write_uint16 (write_uint16 new_encoder class_id) method_id

-- SendFrame with a method frame, and whether it returns an error.
unfoldable pub send_frame : Encoder → Session → Session × Bool
send_frame enc s = elim s.link [
  | no_link ↦ (s, false)
  | broken ↦ (s, true)
  | writable ↦ (
    record s {
      sent =
          s.sent
          ++ record { frame_type = frame_method; channel = s.channel.id; payload = enc } ∷ [];
    },
    false,
  )
]

-- `_ = ch.SendFrame(...)`
unfoldable pub reply : Encoder → Session → Session
unfolding send_frame
reply enc s = (send_frame enc s).0

unfoldable pub reply_unless : Bool → Encoder → Session → Session
unfolding reply
reply_unless no_wait enc s = if no_wait then s else reply enc s

unfoldable pub set_channel : Channel → Session → Session
set_channel ch s = record s { channel = ch }

unfoldable pub set_topology : Topology → Session → Session
set_topology t s = record s { server = record s.server { topology = t } }

unfoldable pub set_deliveries : Deliveries → Session → Session
set_deliveries d s = record s { server = record s.server { deliveries = d } }

-- `c.state >= StateClosing`
unfoldable pub is_closing : ConnState → Bool
is_closing state_closing = true
is_closing state_closed = true
is_closing _ = false

-- Connection.Close. The state is Closing when it is compared with Open, so that no Connection.Close
-- is sent; the heartbeat monitor is left out. A net.Conn that
-- is closed takes no more frames.
unfoldable pub close_connection : Session → Session
unfolding is_closing close_all close_channel
close_connection s = if is_closing s.state then s else record s {
  state = state_closed;
  channel = if s.managed then close_channel s.channel else s.channel;
  managed = false;
  others = (close_all s.others).0;
  link = elim s.link [ no_link ↦ no_link | _ ↦ broken ];
}
