-- ===== src/Server/ModeHandlers.antt =====
-- internal/server/basic_handlers.go and channel_handlers.go: the methods of the classes Confirm, Tx,
-- Channel and Connection.
use gomq.Prelude.{ℕ, [], ◌∷◌, List, Text, codes, ok, err, ◌>>=◌, if◌then◌else◌}
use gomq.Amqp.Decode.{read_uint8}
use gomq.Amqp.Encode.{Encoder, write_uint8, write_uint16, write_short_string}
use gomq.Delivery.Policy.{Platform}
use gomq.Server.Channel.{
  TxEntry, set_confirm_mode, set_tx_mode, commit_tx, rollback_tx, open_channel, close_channel,
  set_flow, pause_channel, resume_channel,
}
use gomq.Server.Session.{
  Session, send_failed, Handler, Action, done, run, read, bit, method, send_frame, reply,
  reply_unless, set_channel, close_connection,
}
use gomq.Server.BasicHandlers.{publish_now, recover_with}

unfoldable pub handle_confirm_select : Handler
unfolding run read read_uint8 bit set_channel set_confirm_mode reply_unless method done
handle_confirm_select payload s = run s (do
  (bits, d) ← read read_uint8 payload
  let no_wait = bit 0x01 bits
  ok (λ s. done (reply_unless no_wait (method 85 11) (set_channel (set_confirm_mode s.channel) s))))

unfoldable pub channel_close_frame : ℕ → Text → Text → Encoder
unfolding method write_uint16 write_short_string
channel_close_frame code text detail =
    let enc =
      write_short_string (write_short_string (write_uint16 (method 20 40) code) text) detail in
    write_uint16 (write_uint16 enc 0) 0

unfoldable pub send_channel_close : ℕ → Text → Text → Action
unfolding channel_close_frame send_frame set_channel close_channel
send_channel_close code text detail s =
    let (s, failed) = send_frame (channel_close_frame code text detail) s in
    let s = set_channel (close_channel s.channel) s in
    (s, if failed then err send_failed else ok tt)

unfoldable pub handle_tx_select : Handler
unfolding send_channel_close reply method set_channel set_tx_mode done
handle_tx_select payload s =
    if s.channel.confirm_mode
    then send_channel_close 406 (codes "PRECONDITION_FAILED")
        (codes "transactions and publisher confirms are mutually exclusive") s
    else done (reply (method 90 11) (set_channel (set_tx_mode s.channel) s))

-- The loop over the entries, and the answer.
unfoldable pub publish_entries : Platform → List TxEntry → Action
unfolding publish_now reply method done
publish_entries p [] s = done (reply (method 90 21) s)
publish_entries p (e ∷ entries) s =
    publish_now p e.exchange e.routing_key e.msg (λ routed. publish_entries p entries) s

unfoldable pub handle_tx_commit : Platform → Handler
unfolding commit_tx set_channel publish_entries
handle_tx_commit p payload s =
    let (ch, entries) = commit_tx s.channel in publish_entries p entries (set_channel ch s)

unfoldable pub handle_tx_rollback : Handler
unfolding rollback_tx set_channel reply method done
handle_tx_rollback payload s = done (reply (method 90 31) (set_channel (rollback_tx s.channel) s))

unfoldable pub handle_channel_open : Handler
unfolding open_channel set_channel reply method done
handle_channel_open payload s = done (reply (method 20 11) (set_channel (open_channel s.channel) s))

unfoldable pub handle_channel_recover : Handler
unfolding recover_with
handle_channel_recover = recover_with 20 101

unfoldable pub handle_channel_flow : Handler
unfolding run read read_uint8 bit set_flow pause_channel resume_channel set_channel reply method
    write_uint8 done
handle_channel_flow payload s = run s (do
  (bits, d) ← read read_uint8 payload
  let active = bit 0x01 bits
  ok (λ s.
      let s = set_channel (set_flow active s.channel) s in
      let flow =
        if active
        then resume_channel s.channel.id s.server.flow
        else pause_channel s.channel.id s.server.flow in
      let s : Session = record s { server = record s.server { flow = flow } } in
      done (reply (write_uint8 (method 20 21) (if active then 1 else 0)) s)))

-- The reads of Close, which nothing looks at, are left out: they change nothing.
unfoldable pub handle_channel_close : Handler
unfolding set_channel close_channel reply method done
handle_channel_close payload s =
    let s = reply (method 20 41) s in done (set_channel (close_channel s.channel) s)

unfoldable pub handle_connection_close : Handler
unfolding close_connection reply method done
handle_connection_close payload s = done (close_connection (reply (method 10 51) s))

unfoldable pub handle_connection_close_ok : Handler
unfolding done
handle_connection_close_ok payload s = done s

unfoldable pub handle_channel_close_ok : Handler
unfolding done
handle_channel_close_ok payload s = done s
