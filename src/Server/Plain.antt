-- ===== src/Server/Plain.antt =====
-- Actions that leave the managers of exchanges, queues and bindings and the access rules as they were.
use gomq.Prelude.{
  ℕ, ◌≡◌, ◌≢◌, arith, Option-cases, Bool-cases, inl, inr, Bool, true, false, List, [], ◌∷◌, Text,
  Option, none, some, Result, Result-cases, ok, err, if◌then◌else◌,
}
use gomq.Amqp.Encode.{Encoder}
use gomq.Auth.{AclManager}
use gomq.Broker.Message.{Message}
use gomq.Broker.Tracker.{TrackedDelivery}
use gomq.Broker.Groups.{Consumer}
use gomq.Broker.Consumers.{ConsumerError}
use gomq.Broker.Queues as Queues
use gomq.Delivery.Policy.{Platform}
use gomq.Delivery.Publisher.{Topology, publish, dead_letter}
use gomq.Server.Channel.{TxEntry}
use gomq.Server.Session.{
  Session, HandlerError, access_denied, Outcome, done, reply, reply_unless, send_frame,
  set_deliveries, set_channel, close_connection,
}
use gomq.Server.BasicHandlers.{
  subscribed, got, publish_now, send_publisher_confirm, return_unrouted, publish_in_mode,
  bury_refused,
}
use gomq.Server.ModeHandlers.{channel_close_frame, send_channel_close, publish_entries}
use gomq.Server.Evolution.{stays, Sound, reply-server, send_frame-server}

pub record IsPlain (t : Topology) (a : Option AclManager) (o : Outcome) : Type 0 where
  pub topology : o.0.server.topology ≡ t
  pub rules : o.0.server.acl ≡ a
  pub granted : o.1 ≢ err access_denied

pub Sound-IsPlain :
    (s : Session) (o : Outcome) → IsPlain s.server.topology s.server.acl o → Sound s o
Sound-IsPlain s o k = record {
  evolves = rw k.topology stays;
  refused = λ h. absurd (k.granted h);
  rules = k.rules;
}

module _ (t : Topology) (a : Option AclManager) where
  abbrev Fits : Session → Type 0
  Fits s = (s.server.topology ≡ t) × (s.server.acl ≡ a)

  pub IsPlain-done : (s : Session) → Fits s → IsPlain t a (done s)
  unfolding done
  IsPlain-done s (h, k) = record { topology = h; rules = k; granted = λ e. cc }

  IsPlain-if :
      (b : Bool) (o o' : Outcome)
      → IsPlain t a o
      → IsPlain t a o'
      → IsPlain t a (if b then o else o')
  IsPlain-if true o o' k k' = k
  IsPlain-if false o o' k k' = k'

  pub Fits-reply : (enc : Encoder) (s : Session) → Fits s → Fits (reply enc s)
  Fits-reply enc s h = rw (reply-server enc s) h

  IsPlain-err :
      (s : Session) (e : HandlerError) → e ≢ access_denied → Fits s → IsPlain t a (s, err e)
  IsPlain-err s e n (h, k) = record { topology = h; rules = k; granted = λ q. n (ground arith) }

  publish_now-IsPlain :
      (p : Platform) (exchange key : Text) (msg : Message) (next : ℕ → Session → Outcome)
      (s : Session)
      → ((n : ℕ) (s : Session) → Fits s → IsPlain t a (next n s))
      → Fits s
      → IsPlain t a (publish_now p exchange key msg next s)
  unfolding publish_now set_deliveries
  publish_now-IsPlain p exchange key msg next s k h =
      elim (Result-cases
        (publish p s.server.topology exchange key msg s.channel.id s.server.deliveries)) [
          | inl (stop, e) ↦ rw (e, publish_now) (IsPlain-err s _ (λ q. cc) h)
          | inr ((d, r), e) ↦ elim (Result-cases r) [
            | inl (why, f) ↦ rw (e, publish_now, f) (IsPlain-err _ _ (λ q. cc) h)
            | inr (n, f) ↦ rw (e, publish_now, f) (k n _ h)
          ]
        ]

  return_unrouted-IsPlain :
      (mandatory : Bool) (exchange key : Text) (n : ℕ) (s : Session)
      → Fits s
      → IsPlain t a (return_unrouted mandatory exchange key n s)
  unfolding return_unrouted
  return_unrouted-IsPlain mandatory exchange key n s h =
      IsPlain-if _ _ _ (IsPlain-done _ (Fits-reply _ s h)) (IsPlain-done s h)

  send_publisher_confirm-Fits :
      (tag : ℕ) (yes : Bool) (s : Session) → Fits s → Fits (send_publisher_confirm tag yes s)
  unfolding send_publisher_confirm
  send_publisher_confirm-Fits tag true s h = Fits-reply _ s h
  send_publisher_confirm-Fits tag false s h = Fits-reply _ s h

  pub publish_in_mode-IsPlain :
      (p : Platform) (exchange key : Text) (mandatory : Bool) (s : Session)
      → Fits s
      → IsPlain t a (publish_in_mode p exchange key mandatory s)
  unfolding publish_in_mode set_channel
  publish_in_mode-IsPlain p exchange key mandatory s h =
      search
        (IsPlain-if, return_unrouted-IsPlain, publish_now-IsPlain, send_publisher_confirm-Fits, h)
        depth 12

  pub subscribed-IsPlain :
      (no_wait : Bool) (tag : Text) (r : Result ConsumerError Consumer) (s : Session)
      → Fits s
      → IsPlain t a (subscribed no_wait tag r s)
  unfolding subscribed reply_unless
  subscribed-IsPlain no_wait tag (err e) s h = IsPlain-err s _ (λ q. cc) h
  subscribed-IsPlain true tag (ok c) s h = IsPlain-done s h
  subscribed-IsPlain false tag (ok c) s h = IsPlain-done _ (Fits-reply _ s h)

  pub got-IsPlain :
      (queue : Text) (found : Option Message) (s : Session)
      → Fits s
      → IsPlain t a (got queue found s)
  unfolding got
  got-IsPlain queue none s h = IsPlain-done _ (Fits-reply _ s h)
  got-IsPlain queue (some m) s h = IsPlain-done _ (Fits-reply _ s h)

  pub publish_entries-IsPlain :
      (p : Platform) (entries : List TxEntry) (s : Session)
      → Fits s
      → IsPlain t a (publish_entries p entries s)
  unfolding publish_entries
  publish_entries-IsPlain p [] s h = IsPlain-done _ (Fits-reply _ s h)
  publish_entries-IsPlain p (e ∷ entries) s h =
      publish_now-IsPlain p e.exchange e.routing_key e.msg _ s
        (λ n s k. publish_entries-IsPlain p entries s k) h

  pub bury_refused-IsPlain :
      (p : Platform) (requeue : Bool) (found : Option TrackedDelivery) (s : Session)
      → Fits s
      → IsPlain t a (bury_refused p requeue found s)
  unfolding bury_refused set_deliveries
  bury_refused-IsPlain p requeue none s h = IsPlain-done s h
  bury_refused-IsPlain p true (some d) s h = IsPlain-done s h
  bury_refused-IsPlain p false (some d) s h =
      elim (Option-cases (Queues.get d.queue_name s.server.topology.queues)) [
        | inl e ↦ rw (e, bury_refused) (IsPlain-done s h)
        | inr (q, e) ↦
            elim (Result-cases (dead_letter p s.server.topology d.msg q.args s.server.deliveries)) [
              | inl (stop, f) ↦ rw (e, bury_refused, f) (IsPlain-err s _ (λ k. cc) h)
              | inr (x, f) ↦ rw (e, bury_refused, f) (IsPlain-done _ h)
            ]
      ]

  pub send_channel_close-IsPlain :
      (code : ℕ) (text detail : Text) (s : Session)
      → Fits s
      → IsPlain t a (send_channel_close code text detail s)
  unfolding send_channel_close set_channel done
  send_channel_close-IsPlain code text detail s h =
      elim (Bool-cases (send_frame (channel_close_frame code text detail) s).1) [
        | inl e ↦ rw (e) (IsPlain-err _ _ (λ k. cc) (rw (send_frame-server _ s) h))
        | inr e ↦ rw (e) (IsPlain-done _ (rw (send_frame-server _ s) h))
      ]

  pub close_connection-Fits : (s : Session) → Fits s → Fits (close_connection s)
  unfolding close_connection
  close_connection-Fits s h = ground arith

pub ruleset plain_rules = (
  Sound-IsPlain, subscribed-IsPlain, got-IsPlain, IsPlain-done, Fits-reply, publish_in_mode-IsPlain,
  publish_entries-IsPlain, bury_refused-IsPlain, send_channel_close-IsPlain, close_connection-Fits,
)
