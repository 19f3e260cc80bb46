-- ===== src/Server/TxLaws.antt =====
-- A transaction against publishing without one.
use mathlib.Core.List.{append_assoc, append-nil}
use gomq.Prelude.{
  ℕ, ◌≡◌, refl, sym, ap, ◌∙◌, arith, Bool, true, false, ◌&&◌, List, [], ◌∷◌, ◌++◌, map, Text,
  Result-cases, Bool-cases, ok, err, inl, inr, ◌==◌, nat_eq,
}
use gomq.Amqp.Encode.{Encoder}
use gomq.Broker.Message.{Message}
use gomq.Delivery.Policy.{Platform}
use gomq.Delivery.Deliverer.{Deliveries}
use gomq.Delivery.Publisher.{publish}
use gomq.Server.Channel.{Channel, TxEntry, stage_tx_publish, set_tx_mode, commit_tx}
use gomq.Server.Session.{
  Server, Session, Outcome, send_frame, reply, set_channel, set_deliveries, done,
}
use gomq.Server.BasicHandlers.{published_message, publish_now, return_unrouted, publish_in_mode}
use gomq.Server.ModeHandlers.{publish_entries, handle_tx_commit}
use gomq.Server.Evolution.{reply-server}

-- The arguments of a Basic.Publish that were read and granted.
pub record Publish : Type 0 where
  pub exchange : Text
  pub routing_key : Text
  pub mandatory : Bool

abbrev pub after : Outcome → (Session → Outcome) → Outcome
after (s, err e) next = (s, err e)
after (s, ok x) next = next s

-- The requests one after the other, up to the first that fails.
unfoldable pub publish_all : Platform → List Publish → Session → Outcome
unfolding publish_in_mode done
publish_all p [] s = done s
publish_all p (r ∷ rs) s =
    after (publish_in_mode p r.exchange r.routing_key r.mandatory s) (publish_all p rs)

entry_of : Publish → TxEntry
entry_of r = record {
  exchange = r.exchange;
  routing_key = r.routing_key;
  msg = published_message r.exchange r.routing_key;
}

-- An outcome without an error, with the server and the channel.
record Returns (o : Outcome) (s : Session) : Type 0 where
  pub result : o.1 ≡ ok tt
  pub server : o.0.server ≡ s.server
  pub channel : o.0.channel ≡ s.channel

reply-channel : (enc : Encoder) (s : Session) → (reply enc s).channel ≡ s.channel
unfolding reply send_frame
reply-channel enc s = ground arith

return_unrouted-Returns :
    (mandatory : Bool) (exchange key : Text) (n : ℕ) (s : Session)
    → Returns (return_unrouted mandatory exchange key n s) s
unfolding return_unrouted done
return_unrouted-Returns mandatory exchange key n s = elim (Bool-cases (mandatory && n == 0)) [
  | inl e ↦
      rw (e, return_unrouted)
        (record { result = refl; server = reply-server _ s; channel = reply-channel _ s })
  | inr e ↦ rw (e, return_unrouted) (record { result = refl; server = refl; channel = refl })
]

after_ok :
    (o : Outcome) (s : Session) (next : Session → Outcome) → o.1 ≡ ok tt → after o next ≡ next o.0
after_ok (s', err e) s next h = cc
after_ok (s', ok x) s next h = refl

-- The channel with the entries of the requests staged.
staged : List Publish → Channel → Channel
staged rs ch = record ch { tx_pending = ch.tx_pending ++ map entry_of rs }

in_transaction :
    (p : Platform) (r : Publish) (s : Session)
    → s.channel.tx_mode ≡ true
    → publish_in_mode p r.exchange r.routing_key r.mandatory s
      ≡ return_unrouted r.mandatory r.exchange r.routing_key 0
          (set_channel (staged (r ∷ []) s.channel) s)
unfolding publish_in_mode staged stage_tx_publish entry_of
in_transaction p r s m = rw m

direct :
    (p : Platform) (r : Publish) (s : Session)
    → s.channel.tx_mode ≡ false
    → s.channel.confirm_mode ≡ false
    → publish_in_mode p r.exchange r.routing_key r.mandatory s
      ≡ publish_now p r.exchange r.routing_key
          (published_message r.exchange r.routing_key)
          (return_unrouted r.mandatory r.exchange r.routing_key)
          s
unfolding publish_in_mode
direct p r s m c = rw (m, publish_in_mode, c)

staged-staged :
    (r : Publish) (rs : List Publish) (ch : Channel)
    → staged rs (staged (r ∷ []) ch) ≡ staged (r ∷ rs) ch
unfolding staged
staged-staged r rs ch =
    ap (λ l. record ch { tx_pending = l })
      (append_assoc ch.tx_pending (entry_of r ∷ []) (map entry_of rs))

stage-Returns :
    (p : Platform) (rs : List Publish) (s : Session)
    → s.channel.tx_mode ≡ true
    → Returns (publish_all p rs s) (set_channel (staged rs s.channel) s)
unfolding publish_all staged done set_channel
stage-Returns p [] s m = record {
  result = refl;
  server = refl;
  channel = ap (λ l. record s.channel { tx_pending = l }) (sym (append-nil s.channel.tx_pending));
}
stage-Returns p (r ∷ rs) s m =
    let s' = set_channel (staged (r ∷ []) s.channel) s in
    let k = return_unrouted-Returns r.mandatory r.exchange r.routing_key 0 s' in
    let o = return_unrouted r.mandatory r.exchange r.routing_key 0 s' in
    let i = stage-Returns p rs o.0 (rw k.channel m) in
    rw (in_transaction p r s m, after_ok o s (publish_all p rs) k.result)
      (record {
        result = i.result;
        server = i.server ∙ k.server;
        channel = i.channel ∙ ap (staged rs) k.channel ∙ staged-staged r rs s.channel;
      })

publish_now_ok :
    (p : Platform) (exchange key : Text) (msg : Message) (next : ℕ → Session → Outcome)
    (s : Session) (d : Deliveries) (n : ℕ)
    → publish p s.server.topology exchange key msg s.channel.id s.server.deliveries ≡ ok (d, ok n)
    → publish_now p exchange key msg next s ≡ next n (set_deliveries d s)
unfolding publish_now
publish_now_ok p exchange key msg next s d n e = rw (e, publish_now)

same_call :
    (p : Platform) (exchange key : Text) (msg : Message) (v w : Session)
    → v.server ≡ w.server
    → v.channel.id ≡ w.channel.id
    → publish p v.server.topology exchange key msg v.channel.id v.server.deliveries
      ≡ publish p w.server.topology exchange key msg w.channel.id w.server.deliveries
same_call p exchange key msg v w same id =
    ap (λ x. publish p x.topology exchange key msg v.channel.id x.deliveries) same
    ∙ ap (λ i. publish p w.server.topology exchange key msg i w.server.deliveries) id

replay-Returns :
    (p : Platform) (rs : List Publish) (w v : Session)
    → w.channel.tx_mode ≡ false
    → w.channel.confirm_mode ≡ false
    → v.server ≡ w.server
    → v.channel.id ≡ w.channel.id
    → (publish_all p rs w).1 ≡ ok tt
    → ((publish_entries p (map entry_of rs) v).1 ≡ ok tt)
      × ((publish_entries p (map entry_of rs) v).0.server ≡ (publish_all p rs w).0.server)
unfolding publish_all publish_entries done entry_of set_deliveries
replay-Returns p [] w v m c same id h = (refl, reply-server _ v ∙ same)
replay-Returns p (r ∷ rs) w v m c same id h =
    let msg = published_message r.exchange r.routing_key in
    let h' = rw (direct p r w m c) at h in
    elim (Result-cases
      (publish p w.server.topology r.exchange r.routing_key msg w.channel.id w.server.deliveries)) [
        | inl (stop, e) ↦ cc (rw (e, publish_now) at h')
        | inr ((d, err why), e) ↦ cc (rw (e, publish_now) at h')
        | inr ((d, ok n), e) ↦
            let s' = set_deliveries d w in
            let o = return_unrouted r.mandatory r.exchange r.routing_key n s' in
            let k = return_unrouted-Returns r.mandatory r.exchange r.routing_key n s' in
            let pw : publish_in_mode p r.exchange r.routing_key r.mandatory w ≡ o =
              direct p r w m c
              ∙ publish_now_ok p r.exchange r.routing_key msg
                  (return_unrouted r.mandatory r.exchange r.routing_key) w d n e in
            let pv =
              publish_now_ok p r.exchange r.routing_key msg
                (λ routed. publish_entries p (map entry_of rs)) v d n
                (same_call p r.exchange r.routing_key msg v w same id ∙ e) in
            let next = after_ok o w (publish_all p rs) k.result in
            let (done_ok, servers) =
              replay-Returns p rs o.0 (set_deliveries d v) (rw k.channel m) (rw k.channel c)
                (ap (λ (x : Server). record x { deliveries = d }) same ∙ sym k.server)
                (rw k.channel id) (rw (pw, next) at h) in
            rw (pv, pw, next) (done_ok, servers)
      ]

-- What a transaction comes to.
pub record Replayed (before direct staged committed : Session) : Type 0 where
  pub untouched : staged.server ≡ before.server
  pub replayed : committed.server ≡ direct.server

-- The channel in transaction mode.
unfoldable pub in_tx : Session → Session
unfolding set_channel set_tx_mode
in_tx s = set_channel (set_tx_mode s.channel) s

-- Where publishes that were read and granted succeed one after the other on a channel without
-- confirms and transactions, the same publishes in transaction mode, from no staged messages, also
-- succeed and leave the server as it was, and the commit then succeeds and brings the server to where
-- the direct publishes bring it.
pub handle_tx_commit_lem :
    (p : Platform) (rs : List Publish) (s : Session) (payload : Text)
    → s.channel.tx_mode ≡ false
    → s.channel.confirm_mode ≡ false
    → s.channel.tx_pending ≡ []
    → (publish_all p rs s).1 ≡ ok tt
    → let o = publish_all p rs (in_tx s) in
      (o.1 ≡ ok tt)
      × ((handle_tx_commit p payload o.0).1 ≡ ok tt)
      × Replayed s (publish_all p rs s).0 o.0 (handle_tx_commit p payload o.0).0
unfolding handle_tx_commit commit_tx set_channel staged in_tx
handle_tx_commit_lem p rs s payload m c n h =
    let o = publish_all p rs (in_tx s) in
    let k = stage-Returns p rs (in_tx s) refl in
    let pending : o.0.channel.tx_pending ≡ map entry_of rs =
      ap (λ ch. ch.tx_pending) k.channel ∙ ap (λ l. l ++ map entry_of rs) n in
    let v = set_channel (commit_tx o.0.channel).0 o.0 in
    let (a, b) = replay-Returns p rs s v m c k.server (ap (λ ch. ch.id) k.channel) h in
    (k.result, rw pending a, record { untouched = k.server; replayed = rw pending b })
