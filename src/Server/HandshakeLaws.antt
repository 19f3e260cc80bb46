-- ===== src/Server/HandshakeLaws.antt =====
-- What the start of a connection guarantees once it has succeeded: who the user is, and the limits.
use gomq.Prelude.{
  ℕ, ◌≡◌, ◌<◌, ◌≤◌, refl, ap, arith, List, inl, inr, Text, codes, Result, Result-cases, ok, err,
  >>=-eq-ok, nat_eq, text_eq,
}
use gomq.Amqp.Octets.{read_full}
use gomq.Amqp.Frame.{Frame}
use gomq.Amqp.Encode.{Encoder}
use gomq.Amqp.Decode.{read_uint16, read_uint32}
use gomq.Amqp.Framer.{Reader}
use gomq.Amqp.Table.Value.{FloatConv}
use gomq.Auth.Sasl.{Peer, SaslRegistry}
use gomq.Server.Session.{Session, Link, no_link, broken, writable}
use gomq.Server.Handshake.{
  Authenticator, Handshaker, Tune, default_tune, default_sasl, new_handshaker, HandshakeError,
  Outcome, and_then, finish, read_protocol_header, write_frame, send_method_frame, send, send_start,
  read_connection_frame, or_zero, set_username, start_ok_args, read_start_ok, send_tune, lowered,
  set_tune, read_tune_ok, send_open, read_open_ok, negotiate,
}
use gomq.Server.Vouch.{Vouched, identify-Vouched}

-- A step that follows one that has not failed.
and_then-post :
    (P : Handshaker → Type 0) (o : Outcome) (next : Handshaker → Outcome)
    → (o.1 ≡ ok tt → (next o.0).1 ≡ ok tt → P (next o.0).0)
    → (and_then o next).1 ≡ ok tt
    → P (and_then o next).0
unfolding and_then
and_then-post P (h, err e) next p k = cc
and_then-post P (h, ok x) next p k = p refl k

finish-ok {ℓ} :
    {A : Type ℓ} (set : A → Handshaker → Handshaker) (h : Handshaker) (r : Result HandshakeError A)
    → (finish set h r).1 ≡ ok tt
    → (x : A) × (r ≡ ok x) × (finish set h r ≡ (set x h, ok tt))
unfolding finish
finish-ok set h (err e) k = cc
finish-ok set h (ok x) k = (x, refl, refl)

-- The fields on which the guarantee rests.
abbrev Facts : Type 0
Facts = Authenticator × SaslRegistry × Peer × Text × Tune

abbrev facts : Handshaker → Facts
facts h = (h.auth, h.sasl, h.peer, h.session.username, h.tune)

read_protocol_header-facts : (h : Handshaker) → facts (read_protocol_header h).0 ≡ facts h
unfolding read_protocol_header
read_protocol_header-facts h = elim (Result-cases (read_full 8 h.reader.pending)) [
  | inl (why, e) ↦ rw (e, read_protocol_header) refl
  | inr (x, e) ↦ rw (e, read_protocol_header) refl
]

write_frame-sent :
    (l : Link) (f : Frame) (s : Session)
    → (sent : List Frame) × ((write_frame l f s).0 ≡ record s { sent = sent })
unfolding write_frame
write_frame-sent no_link f s = (s.sent, refl)
write_frame-sent broken f s = (s.sent, refl)
write_frame-sent writable f s = (_, refl)

-- Sending changes nothing but the frames that were sent.
send-sent :
    (enc : Encoder) (h : Handshaker)
    → (sent : List Frame) × ((send enc h).0
        ≡ record h { session = record h.session { sent = sent } })
unfolding send send_method_frame
send-sent enc h =
    let (sent, e) = write_frame-sent h.session.link _ h.session in
    (sent, ap (λ s. record h { session = s }) e)

send-facts : (enc : Encoder) (h : Handshaker) → facts (send enc h).0 ≡ facts h
send-facts enc h = let (sent, e) = send-sent enc h in rw e refl

send_start-facts : (conv : FloatConv) (h : Handshaker) → facts (send_start conv h).0 ≡ facts h
unfolding send_start
send_start-facts conv h = send-facts _ h

send_tune-facts : (h : Handshaker) → facts (send_tune h).0 ≡ facts h
unfolding send_tune
send_tune-facts h = send-facts _ h

read_start_ok-Vouched :
    (h : Handshaker)
    → h.sasl ≡ default_sasl
    → (read_start_ok h).1 ≡ ok tt
    → let h' = (read_start_ok h).0 in Vouched h.auth h.peer h'.session.username × (h'.tune ≡ h.tune)
unfolding read_start_ok read_connection_frame set_username
read_start_ok-Vouched h s k =
    let (user, e, same) = finish-ok set_username _ _ k in
    let (f, _, e') = >>=-eq-ok (read_connection_frame h).1 _ e in
    let (d, _, e'') = >>=-eq-ok (start_ok_args f) _ e' in
    rw same (identify-Vouched (read_connection_frame h).0 d user s e'', refl)

-- A limit that the server proposes is lowered at most, and stays above 0.
abbrev pub Within : ℕ → ℕ → Type 0
Within limit v = (0 < v) × (v ≤ limit)

lowered-Within : (v limit : ℕ) → 0 < limit → Within limit (lowered v limit)
unfolding lowered
lowered-Within v limit p = ground arith

pub record TuneWithin (t u : Tune) : Type 0 where
  pub channel_max : Within t.channel_max u.channel_max
  pub frame_max : Within t.frame_max u.frame_max
  pub heartbeat : Within t.heartbeat u.heartbeat

set_tune-TuneWithin :
    (d : Text) (h : Handshaker)
    → h.tune ≡ default_tune
    → TuneWithin default_tune (set_tune d h).tune
unfolding set_tune
set_tune-TuneWithin d h t =
    let channel_max = or_zero 0 read_uint16 d in
    let frame_max = or_zero 0 read_uint32 channel_max.1 in
    let heartbeat = or_zero 0 read_uint16 frame_max.1 in
    rw t (record {
      channel_max = lowered-Within channel_max.0 2048 (omega arith);
      frame_max = lowered-Within frame_max.0 131072 (omega arith);
      heartbeat = lowered-Within heartbeat.0 60 (omega arith);
    })

read_tune_ok-TuneWithin :
    (h : Handshaker)
    → h.tune ≡ default_tune
    → (read_tune_ok h).1 ≡ ok tt
    → let h' = (read_tune_ok h).0 in
      TuneWithin default_tune h'.tune × (h'.session.username ≡ h.session.username)
unfolding read_tune_ok read_connection_frame set_tune
read_tune_ok-TuneWithin h t k =
    let (d, e, same) = finish-ok set_tune _ _ k in
    rw same (set_tune-TuneWithin d (read_connection_frame h).0 t, refl)

-- What holds of a connection that has started. Its virtual host is the one that the server names.
pub record Started (auth : Authenticator) (peer : Peer) (h : Handshaker) : Type 0 where
  pub user : Vouched auth peer h.session.username
  pub tune : TuneWithin default_tune h.tune
  pub heartbeat : h.heartbeat ≡ h.tune.heartbeat
  pub vhost : h.session.vhost ≡ codes "/"

finish-same :
    {A : Type 0} (h : Handshaker) (r : Result HandshakeError A) → (finish (λ x h. h) h r).0 ≡ h
unfolding finish
finish-same h (err e) = refl
finish-same h (ok x) = refl

read_open_ok-same : (h : Handshaker) → (r : Reader) × ((read_open_ok h).0 ≡ record h { reader = r })
unfolding read_open_ok read_connection_frame
read_open_ok-same h = (_, finish-same _ _)

send_open-sent :
    (h : Handshaker)
    → (sent : List Frame) × ((send_open h).0
        ≡ record h { session = record h.session { vhost = codes "/"; sent = sent } })
unfolding send_open
send_open-sent h = send-sent _ (record h { session = record h.session { vhost = codes "/" } })

-- The last two steps.
open-Started :
    (auth : Authenticator) (peer : Peer) (h : Handshaker)
    → Vouched auth peer h.session.username
    → TuneWithin default_tune h.tune
    → Started auth peer (read_open_ok (send_open (record h { heartbeat = h.tune.heartbeat })).0).0
open-Started auth peer h v t =
    let (sent, e) = send_open-sent (record h { heartbeat = h.tune.heartbeat }) in
    let (r, o) = read_open_ok-same (send_open (record h { heartbeat = h.tune.heartbeat })).0 in
    rw (o, e) (record { user = v; tune = t; heartbeat = refl; vhost = refl })

-- From Start-Ok to Tune-Ok.
tune-Started :
    (user : Text) (auth : Authenticator) (peer : Peer) (h : Handshaker)
    → facts h ≡ (auth, default_sasl, peer, user, default_tune)
    → (read_start_ok h).1 ≡ ok tt
    → let h3 = (read_start_ok h).0 in
      let h5 = (read_tune_ok (send_tune h3).0) in
      h5.1 ≡ ok tt → Vouched auth peer h5.0.session.username × TuneWithin default_tune h5.0.tune
tune-Started user auth peer h f k3 k5 =
    let h3 = (read_start_ok h).0 in
    let (v, t) = read_start_ok-Vouched h (ap (λ (x : Facts). x.1) f) k3 in
    let sent = send_tune-facts h3 in
    let tuned : (send_tune h3).0.tune ≡ default_tune =
      cc (ap (λ (x : Facts). x.4) sent, ap (λ (x : Facts). x.4) f, t) in
    let (w, same) = read_tune_ok-TuneWithin (send_tune h3).0 tuned k5 in
    (
      rw
          (
            same,
            ap (λ (x : Facts). x.3) sent,
            ← ap (λ (x : Facts). x.0) f,
            ← ap (λ (x : Facts). x.2) f,
          )
          v,
      w,
    )

-- Where the start of a connection succeeds, the user is one that the authenticator accepts with some
-- password, or the default account of AMQPLAIN, or the owner of the peer's certificate; each limit is
-- above 0 and at most the server's; the heartbeat is the one agreed on, and the virtual host is `/`.
pub negotiate-Started :
    (conv : FloatConv) (s : Session) (r : Reader) (peer : Peer) (auth : Authenticator)
    → (negotiate conv (new_handshaker s r peer auth)).1 ≡ ok tt
    → Started auth peer (negotiate conv (new_handshaker s r peer auth)).0
unfolding negotiate new_handshaker
negotiate-Started conv s r peer auth =
    let P = Started auth peer in
    let h0 = new_handshaker s r peer auth in
    let h1 = (read_protocol_header h0).0 in
    let h2 = (send_start conv h1).0 in
    let h3 = (read_start_ok h2).0 in
    let h4 = (send_tune h3).0 in
    let h5 = (read_tune_ok h4).0 in
    let f : facts h2 ≡ facts h0 = rw (send_start-facts conv h1) (read_protocol_header-facts h0) in
    and_then-post P (read_protocol_header h0) _ (λ k1. and_then-post P (send_start conv h1) _ (λ k2.
      and_then-post P (read_start_ok h2) _ (λ k3. and_then-post P (send_tune h3) _ (λ k4.
        and_then-post P (read_tune_ok h4) _ (λ k5.
          and_then-post P (send_open (record h5 { heartbeat = h5.tune.heartbeat })) _ (λ k6 k7.
            let (v, t) = tune-Started s.username auth peer h2 f k3 k5 in
            open-Started auth peer h5 v t))))))
