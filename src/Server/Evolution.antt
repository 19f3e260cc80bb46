-- ===== src/Server/Evolution.antt =====
-- What one method can change of the exchanges, the queues and their bindings, and of the access rules.
use gomq.Prelude.{
  arith, ◌≡◌, ◌≢◌, refl, Bool, true, false, Text, Option, none, some, Result, ok, err, ◌>>=◌,
  if◌then◌else◌,
}
use gomq.Routing.Binding.{Any, Args}
use gomq.Routing.Exchange.{ExchangeType}
use gomq.Broker.E2E as E2E
use gomq.Broker.Exchanges as Exchanges
use gomq.Broker.Queues as Queues
use gomq.Broker.Bindings.{bind, unbind}
use gomq.Amqp.Encode.{Encoder}
use gomq.Delivery.Publisher.{Topology}
use gomq.Server.Session.{
  Session, HandlerError, access_denied, Outcome, Action, done, run, reply, reply_unless, send_frame,
}

-- The steps of the managers: a method takes one of them, or none. A binding between exchanges is made
-- only where the search for a cycle has answered that there is none.
pub data Evolves (t : Topology) : Topology → Type 0 where
  stays : Evolves t t
  queue_declared :
      (print : Any → Text) (name : Text) (durable exclusive auto_delete : Bool) (args : Option Args)
      → Evolves t (record t {
        queues = (Queues.declare print name durable exclusive auto_delete args none t.queues).0;
      })
  queue_deleted : (name : Text) → Evolves t (record t { queues = (Queues.delete name t.queues).0 })
  queue_bound :
      (exchange queue key : Text) (args : Option Args)
      → Evolves t (record t { bindings = (bind exchange queue key args t.bindings).0 })
  queue_unbound :
      (exchange queue key : Text)
      → Evolves t (record t { bindings = (unbind exchange queue key t.bindings).0 })
  exchange_declared :
      (name : Text) (ex_type : ExchangeType) (durable auto_delete internal : Bool)
      (args : Option Args)
      → Evolves t (record t {
        exchanges =
            (Exchanges.declare name ex_type durable auto_delete internal args t.exchanges).0;
      })
  exchange_deleted :
      (name : Text)
      → Evolves t (record t {
        exchanges = (Exchanges.delete name t.exchanges).0;
        e2e = E2E.unbind_all_for_exchange name t.e2e;
      })
  exchange_bound :
      (source destination key : Text) (args : Option Args)
      → E2E.has_cycle source destination t.e2e ≡ some false
      → Evolves t (record t { e2e = (E2E.bind source destination key args t.e2e).0 })
  exchange_unbound :
      (source destination key : Text) (m : E2E.E2EManager)
      → E2E.unbind source destination key t.e2e ≡ ok m
      → Evolves t (record t { e2e = m })

-- The server after a method, against the server before it.
pub record Sound (s : Session) (o : Outcome) : Type 0 where
  pub evolves : Evolves s.server.topology o.0.server.topology
  pub refused : o.1 ≡ err access_denied → o.0 ≡ s
  pub rules : o.0.server.acl ≡ s.server.acl

abbrev pub Good : Session → Result HandlerError Action → Type 0
Good s (err e) = Unit
Good s (ok act) = Sound s (act s)

pub Good-bind {ℓ} :
    {A : Type ℓ} (s : Session) (r : Result HandlerError A) (rest : A → Result HandlerError Action)
    → ((a : A) → Good s (rest a))
    → Good s (r >>= rest)
Good-bind s (err e) rest k = tt
Good-bind s (ok a) rest k = k a

pub Sound-run : (s : Session) (r : Result HandlerError Action) → Good s r → Sound s (run s r)
unfolding run
Sound-run s (err e) g = record { evolves = stays; refused = λ h. refl; rules = refl }
Sound-run s (ok act) g = g

pub send_frame-server : (enc : Encoder) (s : Session) → (send_frame enc s).0.server ≡ s.server
unfolding send_frame
send_frame-server enc s = ground arith

pub reply-server : (enc : Encoder) (s : Session) → (reply enc s).server ≡ s.server
unfolding reply
reply-server enc s = send_frame-server enc s

pub Sound-done :
    (s s' : Session)
    → Evolves s.server.topology s'.server.topology
    → s'.server.acl ≡ s.server.acl
    → Sound s (done s')
unfolding done
Sound-done s s' e r = record { evolves = e; refused = λ h. cc; rules = r }

-- An answer changes nothing of the server.
pub Sound-reply :
    (enc : Encoder) (s s' : Session) → Sound s (done s') → Sound s (done (reply enc s'))
unfolding done
Sound-reply enc s s' k = record {
  evolves = rw (reply-server enc s') k.evolves;
  refused = λ h. cc;
  rules = rw (reply-server enc s') k.rules;
}

pub Sound-reply_unless :
    (b : Bool) (enc : Encoder) (s s' : Session)
    → Sound s (done s')
    → Sound s (done (reply_unless b enc s'))
unfolding reply_unless
Sound-reply_unless true enc s s' k = k
Sound-reply_unless false enc s s' k = Sound-reply enc s s' k

pub Sound-err :
    (s s' : Session) (e : HandlerError)
    → e ≢ access_denied
    → Evolves s.server.topology s'.server.topology
    → s'.server.acl ≡ s.server.acl
    → Sound s (s', err e)
Sound-err s s' e n k r = record { evolves = k; refused = λ h. absurd (n (ground arith)); rules = r }

pub Sound-if :
    (b : Bool) (s : Session) (o o' : Outcome)
    → Sound s o
    → Sound s o'
    → Sound s (if b then o else o')
Sound-if true s o o' k k' = k
Sound-if false s o o' k k' = k'

pub ruleset handler_rules = (
  Good-bind, Sound-run, Sound-done, Sound-reply, Sound-reply_unless, Sound-if, Sound-err, stays,
  queue_declared, queue_deleted, queue_bound, queue_unbound, exchange_declared, exchange_deleted,
  exchange_bound, exchange_unbound,
)
