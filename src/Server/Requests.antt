-- ===== src/Server/Requests.antt =====
-- The methods that change exchanges, queues and bindings, as a client means them: their arguments on
-- the wire, the access that they need, and what they are to do.
use gomq.Prelude.{
  ℕ, ◌+◌, ◌≡◌, ◌⊎◌, Bool, false, ◌∷◌, ◌++◌, Text, codes, length, none, some, ok, err, if◌then◌else◌,
}
use gomq.Routing.Binding.{Args}
use gomq.Routing.Exchange.{direct, fanout}
use gomq.Auth.{AclManager, check}
use gomq.Broker.Queues as Queues
use gomq.Broker.Exchanges as Exchanges
use gomq.Broker.E2E as E2E
use gomq.Broker.Cycle.{Leads}
use gomq.Broker.Bindings.{bind, unbind}
use gomq.Delivery.Policy.{Platform}
use gomq.Delivery.Publisher.{Topology}
use gomq.Server.Session.{Session, Handler, Outcome, access_denied, cycle_detected}
use gomq.Server.QueueHandlers.{
  handle_queue_declare, handle_queue_bind, handle_queue_delete, handle_queue_unbind,
}
use gomq.Server.ExchangeHandlers.{
  handle_exchange_declare, handle_exchange_delete, handle_exchange_bind, handle_exchange_unbind,
}

-- Bindings name the exchange or source first; an exchange is declared as fanout or as direct.
pub data Request : Type 0 where
  queue_declare : (queue : Text) (passive durable exclusive auto_delete no_wait : Bool) → Request
  queue_bind queue_unbind : (exchange queue key : Text) → Request
  queue_delete : (queue : Text) → Request
  exchange_declare : (exchange : Text) (fans_out passive no_wait : Bool) → Request
  exchange_delete : (exchange : Text) → Request
  exchange_bind exchange_unbind : (source destination key : Text) → Request

-- The class and the method on the wire.
abbrev pub class_of : Request → ℕ
class_of (queue_declare _ _ _ _ _ _) = 50
class_of (queue_bind _ _ _) = 50
class_of (queue_unbind _ _ _) = 50
class_of (queue_delete _) = 50
class_of (exchange_declare _ _ _ _) = 40
class_of (exchange_delete _) = 40
class_of (exchange_bind _ _ _) = 40
class_of (exchange_unbind _ _ _) = 40

abbrev pub method_of : Request → ℕ
method_of (queue_declare _ _ _ _ _ _) = 10
method_of (queue_bind _ _ _) = 20
method_of (queue_unbind _ _ _) = 50
method_of (queue_delete _) = 40
method_of (exchange_declare _ _ _ _) = 10
method_of (exchange_delete _) = 20
method_of (exchange_bind _ _ _) = 30
method_of (exchange_unbind _ _ _) = 40

abbrev pub handler_of : Platform → Request → Handler
handler_of p (queue_declare _ _ _ _ _ _) = handle_queue_declare p
handler_of p (queue_bind _ _ _) = handle_queue_bind p
handler_of p (queue_unbind _ _ _) = handle_queue_unbind p
handler_of p (queue_delete _) = handle_queue_delete
handler_of p (exchange_declare _ _ _ _) = handle_exchange_declare p
handler_of p (exchange_delete _) = handle_exchange_delete
handler_of p (exchange_bind _ _ _) = handle_exchange_bind p
handler_of p (exchange_unbind _ _ _) = handle_exchange_unbind

-- A short string: its length in one byte, and its bytes.
abbrev pub short : Text → Text
short v = length v ∷ v

abbrev pub flag : ℕ → Bool → ℕ
flag n b = if b then n else 0

-- The arguments, behind the reserved short; `bits` are flags that only tell how to answer, and `table`
-- is what follows.
abbrev pub payload : Request → ℕ → Text → Text
payload (queue_declare queue passive durable exclusive auto_delete no_wait) bits table =
    0 ∷ 0 ∷ short queue
    ++ (flag 1 passive + flag 2 durable + flag 4 exclusive + flag 8 auto_delete + flag 16 no_wait)
      ∷ table
payload (queue_bind exchange queue key) bits table =
    0 ∷ 0 ∷ (short queue ++ (short exchange ++ (short key ++ bits ∷ table)))
payload (queue_unbind exchange queue key) bits table =
    0 ∷ 0 ∷ (short queue ++ (short exchange ++ (short key ++ table)))
payload (queue_delete queue) bits table = 0 ∷ 0 ∷ short queue ++ bits ∷ table
payload (exchange_declare exchange fans_out passive no_wait) bits table =
    0
    ∷ 0
    ∷ (short exchange
        ++ (short (if fans_out then codes "fanout" else codes "direct")
            ++ (flag 1 passive + flag 16 no_wait) ∷ table))
payload (exchange_delete exchange) bits table = 0 ∷ 0 ∷ short exchange ++ bits ∷ table
payload (exchange_bind source destination key) bits table =
    0 ∷ 0 ∷ (short destination ++ (short source ++ (short key ++ bits ∷ table)))
payload (exchange_unbind source destination key) bits table =
    0 ∷ 0 ∷ (short destination ++ (short source ++ (short key ++ bits ∷ table)))

-- The access that a method needs is "configure" on the queue, or on the exchange, a destination's
-- where two are bound.
abbrev pub kind_of : Request → Text
kind_of (queue_declare _ _ _ _ _ _) = codes "queue"
kind_of (queue_bind _ _ _) = codes "queue"
kind_of (queue_unbind _ _ _) = codes "queue"
kind_of (queue_delete _) = codes "queue"
kind_of (exchange_declare _ _ _ _) = codes "exchange"
kind_of (exchange_delete _) = codes "exchange"
kind_of (exchange_bind _ _ _) = codes "exchange"
kind_of (exchange_unbind _ _ _) = codes "exchange"

abbrev pub name_of : Request → Text
name_of (queue_declare queue _ _ _ _ _) = queue
name_of (queue_bind _ queue _) = queue
name_of (queue_unbind _ queue _) = queue
name_of (queue_delete queue) = queue
name_of (exchange_declare exchange _ _ _) = exchange
name_of (exchange_delete exchange) = exchange
name_of (exchange_bind _ destination _) = destination
name_of (exchange_unbind _ destination _) = destination

-- There are no rules, or they allow the access.
abbrev pub Granted : Session → Text → Text → Type 0
Granted s kind name =
    (s.server.acl ≡ none)
    ⊎ ((rules : AclManager) × (s.server.acl ≡ some rules)
        × (check rules (record {
          user = s.username;
          vhost = s.vhost;
          resource_type = kind;
          resource_name = name;
          permission = codes "configure";
        })
            ≡ ok tt))

-- The binding that is asked for would close a cycle of bindings between exchanges.
abbrev pub IsCyclic : Request → Topology → Type 0
IsCyclic (exchange_bind source destination key) t = Leads t.e2e source destination
IsCyclic _ t = ⊥

-- What the managers are to do; errors of a declaration, a deletion and an unbinding are not told.
abbrev pub effect : Platform → Request → Args → Topology → Topology
effect p (queue_declare queue passive durable exclusive auto_delete no_wait) args t =
    if passive then t else record t {
      queues =
          (Queues.declare p.print queue durable exclusive auto_delete (some args) none t.queues).0;
    }
effect p (queue_bind exchange queue key) args t = record t {
  bindings = (bind exchange queue key (some args) t.bindings).0;
}
effect p (queue_unbind exchange queue key) args t = record t {
  bindings = (unbind exchange queue key t.bindings).0;
}
effect p (queue_delete queue) args t = record t { queues = (Queues.delete queue t.queues).0 }
effect p (exchange_declare exchange fans_out passive no_wait) args t =
    if passive then t else record t {
      exchanges =
          (Exchanges.declare exchange (if fans_out then fanout else direct) false false false
            (some args) t.exchanges).0;
    }
effect p (exchange_delete exchange) args t = record t {
  exchanges = (Exchanges.delete exchange t.exchanges).0;
  e2e = E2E.unbind_all_for_exchange exchange t.e2e;
}
effect p (exchange_bind source destination key) args t = record t {
  e2e = (E2E.bind source destination key (some args) t.e2e).0;
}
effect p (exchange_unbind source destination key) args t =
    elim (E2E.unbind source destination key t.e2e) [ err _ ↦ t | ok m ↦ record t { e2e = m } ]

-- The outcome of a request: refused, failed, or done; of the server, only what it is to change.
pub data Answered (p : Platform) (r : Request) (args : Args) (s : Session) : Outcome → Type 0 where
  refused : ¬ Granted s (kind_of r) (name_of r) → Answered p r args s (s, err access_denied)
  failed :
      Granted s (kind_of r) (name_of r)
      → IsCyclic r s.server.topology
      → Answered p r args s (s, err cycle_detected)
  performed :
      (t : Topology) (s' : Session)
      → Granted s (kind_of r) (name_of r)
      → ¬ IsCyclic r s.server.topology
      → t ≡ effect p r args s.server.topology
      → s'.server ≡ record s.server { topology = t }
      → Answered p r args s (s', ok tt)
