-- ===== src/Server/Dispatcher.antt =====
-- internal/server/method_registry.go and dispatcher.go, the registrations of basic_handlers.go and
-- channel_handlers.go, and the frames that connection.go hands to a channel.
use gomq.Prelude.{
  ℕ, ◌+◌, ◌*◌, true, not, ◌&&◌, List, [], ◌∷◌, Text, Option, none, some, Result, ok, err, ◌>>=◌,
  ◌==◌, nat_eq, if◌then◌else◌,
}
use gomq.Prelude.GoMap.{GoMap, lookup, insert}
use gomq.Amqp.Frame.{Frame, frame_method}
use gomq.Amqp.Decode.{read_uint16}
use gomq.Delivery.Policy.{Platform}
use gomq.Server.Channel.{get, remove_channel}
use gomq.Server.Session.{
  Session, HandlerError, not_method, no_handler, Action, Outcome, Handler, done, run, read, skip,
  close_connection,
}
use gomq.Server.BasicHandlers.{
  handle_qos, handle_consume, handle_cancel, handle_publish, handle_get, handle_ack, handle_nack,
  handle_reject, handle_recover,
}
use gomq.Server.ModeHandlers.{
  handle_confirm_select, handle_tx_select, handle_tx_commit, handle_tx_rollback,
  handle_channel_open, handle_channel_recover, handle_channel_flow, handle_channel_close,
  handle_connection_close, handle_connection_close_ok, handle_channel_close_ok,
}
use gomq.Server.QueueHandlers.{
  handle_queue_declare, handle_queue_bind, handle_queue_delete, handle_queue_purge,
  handle_queue_unbind,
}
use gomq.Server.ExchangeHandlers.{
  handle_exchange_declare, handle_exchange_delete, handle_exchange_bind, handle_exchange_unbind,
}

abbrev pub Registry : Type 0
Registry = GoMap ℕ Handler

-- `uint32(classID)<<16 | uint32(methodID)` of words of 16 bits.
unfoldable pub key : ℕ → ℕ → ℕ
key class_id method_id = class_id * 65536 + method_id

unfoldable pub register : ℕ → ℕ → Handler → Registry → Registry
unfolding insert key
register class_id method_id handler r = insert (key class_id method_id) handler r

unfoldable pub lookup_handler : ℕ → ℕ → Registry → Option Handler
unfolding lookup key
lookup_handler class_id method_id r = lookup (key class_id method_id) r

-- The class, the method and the handler of each call of Register, in order.
unfoldable pub registrations : Platform → List (ℕ × ℕ × Handler)
registrations p =
    (20, 10, handle_channel_open)
    ∷ (20, 100, handle_channel_recover)
    ∷ (10, 50, handle_connection_close)
    ∷ (10, 51, handle_connection_close_ok)
    ∷ (20, 20, handle_channel_flow)
    ∷ (20, 40, handle_channel_close)
    ∷ (20, 41, handle_channel_close_ok)
    ∷ (60, 10, handle_qos)
    ∷ (60, 20, handle_consume p)
    ∷ (60, 30, handle_cancel)
    ∷ (60, 40, handle_publish p)
    ∷ (60, 70, handle_get p)
    ∷ (60, 80, handle_ack)
    ∷ (60, 90, handle_reject p)
    ∷ (60, 110, handle_recover)
    ∷ (60, 120, handle_nack p)
    ∷ (50, 10, handle_queue_declare p)
    ∷ (50, 20, handle_queue_bind p)
    ∷ (50, 30, handle_queue_purge)
    ∷ (50, 40, handle_queue_delete)
    ∷ (50, 50, handle_queue_unbind p)
    ∷ (40, 10, handle_exchange_declare p)
    ∷ (40, 20, handle_exchange_delete)
    ∷ (40, 30, handle_exchange_bind p)
    ∷ (40, 40, handle_exchange_unbind)
    ∷ (85, 10, handle_confirm_select)
    ∷ (90, 10, handle_tx_select)
    ∷ (90, 20, handle_tx_commit p)
    ∷ (90, 30, handle_tx_rollback)
    ∷ []

unfoldable pub register_all : List (ℕ × ℕ × Handler) → Registry → Registry
unfolding register
register_all [] r = r
register_all ((class_id, method_id, handler) ∷ entries) r =
    register_all entries (register class_id method_id handler r)

unfoldable pub register_basic_handlers : Platform → Registry
unfolding register_all registrations
register_basic_handlers p = register_all (registrations p) []

unfoldable pub call_handler : Option Handler → Text → Result HandlerError Action
call_handler none payload = err no_handler
call_handler (some handler) payload = ok (handler payload)

-- The handler gets the whole payload, the two identifiers included.
unfoldable pub dispatch : Registry → Frame → Session → Outcome
unfolding run read read_uint16 lookup_handler call_handler
dispatch r f s =
    if not (f.frame_type == frame_method)
    then (s, err not_method)
    else run s (do
      (class_id, d) ← read read_uint16 f.payload
      (method_id, d) ← read read_uint16 d
      call_handler (lookup_handler class_id method_id r) f.payload)

-- The session as the channel of the number sees it, where the manager holds that channel.
unfoldable pub focus : ℕ → Session → Option Session
unfolding get remove_channel insert
focus id s = if s.managed && id == s.channel.id then some s else elim (get id s.others) [
  | none ↦ none
  | some ch ↦
      let rest = remove_channel id s.others in
      some (record s {
        channel = ch;
        managed = true;
        others =
            if s.managed
            then record rest { channels = insert s.channel.id s.channel rest.channels }
            else rest;
      })
]

-- A frame for a channel that the manager does not hold is ignored.
unfoldable pub handle_channel_frame : Registry → Frame → Session → Outcome
unfolding focus dispatch done
handle_channel_frame r f s = elim (focus f.channel s) [ none ↦ done s | some s ↦ dispatch r f s ]

-- A word that cannot be read is 0.
unfoldable pub word_or_zero : Text → ℕ × Text
unfolding skip read_uint16
word_or_zero d = elim (read_uint16 d) [ err _ ↦ (0, skip read_uint16 d) | ok found ↦ found ]

unfoldable pub handle_connection_frame : Frame → Session → Outcome
unfolding word_or_zero close_connection done
handle_connection_frame f s =
    if not (f.frame_type == frame_method)
    then done s
    else (let (class_id, d) = word_or_zero f.payload in
        let (method_id, d) = word_or_zero d in
        if class_id == 10 && method_id == 50 then done (close_connection s) else done s)
