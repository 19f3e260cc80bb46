-- ===== src/Server/ExchangeHandlers.antt =====
-- internal/server/basic_handlers.go: the methods of the class Exchange.
use gomq.Prelude.{
  Bool, false, Text, codes, Option, none, some, ok, err, ◌>>=◌, ◌==◌, text_eq, if◌then◌else◌,
}
use gomq.Amqp.Decode.{read_uint8, read_uint16, read_short_string}
use gomq.Amqp.Table.ReadTable.{read_table}
use gomq.Routing.Binding.{Args}
use gomq.Routing.Exchange.{Exchange, ExchangeType, direct, fanout}
use gomq.Broker.E2E as E2E
use gomq.Broker.Exchanges as Exchanges
use gomq.Delivery.Policy.{Platform}
use gomq.Delivery.Publisher.{out_of_fuel}
use gomq.Server.Session.{
  cycle_detected, stopped, Handler, Action, done, run, read, skip, bit, args_of, res_exchange,
  perm_configure, check_access, method, reply_unless, set_topology,
}

-- The switch of handleExchangeDeclare.
unfoldable pub type_named : Text → ExchangeType
type_named name =
    if name == codes "direct" then direct else if name == codes "fanout" then fanout else direct

unfoldable pub declared : Bool → Option Exchange → Action
unfolding reply_unless method done
declared no_wait found s = elim found [
  | none ↦ done s
  | some _ ↦ done (reply_unless no_wait (method 40 11) s)
]

-- A passive declaration only looks the exchange up. An error of Declare is dropped.
unfoldable pub declare_exchange : Bool → Text → ExchangeType → Bool → Args → Action
unfolding declared Exchanges.get Exchanges.declare set_topology
declare_exchange passive exchange ex_type no_wait args s =
    if passive
    then declared no_wait (Exchanges.get exchange s.server.topology.exchanges) s
    else (let t = s.server.topology in
        let (exchanges, result) =
          Exchanges.declare exchange ex_type false false false (some args) t.exchanges in
        declared no_wait (elim result [ err _ ↦ none | ok ex ↦ some ex ])
          (set_topology (record t { exchanges = exchanges }) s))

unfoldable pub handle_exchange_declare : Platform → Handler
unfolding run read skip read_uint16 read_uint8 read_short_string read_table check_access bit args_of
    type_named declare_exchange
handle_exchange_declare p payload s = run s (do
  let d = skip read_uint16 payload
  (exchange, d) ← read read_short_string d
  _ ← check_access s res_exchange exchange perm_configure
  (type_name, d) ← read read_short_string d
  (bits, d) ← read read_uint8 d
  let passive = bit 0x01 bits
  let no_wait = bit 0x10 bits
  (args, d) ← read (read_table p.float_conv) d
  ok (declare_exchange passive exchange (type_named type_name) no_wait (args_of p args)))

-- The bindings of the exchange to queues stay.
unfoldable pub handle_exchange_delete : Handler
unfolding run read skip read_uint16 read_uint8 read_short_string check_access bit Exchanges.delete
    E2E.unbind_all_for_exchange set_topology reply_unless method done
handle_exchange_delete payload s = run s (do
  let d = skip read_uint16 payload
  (exchange, d) ← read read_short_string d
  _ ← check_access s res_exchange exchange perm_configure
  (bits, d) ← read read_uint8 d
  let no_wait = bit 0x02 bits
  ok (λ s.
      let t = s.server.topology in
      let exchanges = (Exchanges.delete exchange t.exchanges).0 in
      let e2e = E2E.unbind_all_for_exchange exchange t.e2e in
      done (
        reply_unless no_wait (method 40 21)
          (set_topology (record t { exchanges = exchanges; e2e = e2e }) s))))

-- HasCycle, Bind and the answer.
unfoldable pub bind_exchange : Text → Text → Text → Args → Bool → Action
unfolding E2E.has_cycle E2E.bind set_topology reply_unless method done
bind_exchange source destination routing_key args no_wait s =
    let t = s.server.topology in
    elim (E2E.has_cycle source destination t.e2e) [
      | none ↦ (s, err (stopped out_of_fuel))
      | some cyclic ↦
          if cyclic
          then (s, err cycle_detected)
          else (let e2e = (E2E.bind source destination routing_key (some args) t.e2e).0 in
              done (reply_unless no_wait (method 40 31) (set_topology (record t { e2e = e2e }) s)))
    ]

unfoldable pub handle_exchange_bind : Platform → Handler
unfolding run read skip read_uint16 read_uint8 read_short_string read_table check_access bit args_of
    bind_exchange
handle_exchange_bind p payload s = run s (do
  let d = skip read_uint16 payload
  (destination, d) ← read read_short_string d
  (source, d) ← read read_short_string d
  _ ← check_access s res_exchange destination perm_configure
  (routing_key, d) ← read read_short_string d
  (bits, d) ← read read_uint8 d
  let no_wait = bit 0x01 bits
  (args, d) ← read (read_table p.float_conv) d
  ok (bind_exchange source destination routing_key (args_of p args) no_wait))

-- Unbind, whose error is dropped.
unfoldable pub unbind_exchange : Text → Text → Text → Bool → Action
unfolding E2E.unbind set_topology reply_unless method done
unbind_exchange source destination routing_key no_wait s =
    let t = s.server.topology in
    let e2e : E2E.E2EManager = elim (E2E.unbind source destination routing_key t.e2e) [
      | err _ ↦ t.e2e
      | ok m ↦ m
    ] in
    done (reply_unless no_wait (method 40 51) (set_topology (record t { e2e = e2e }) s))

unfoldable pub handle_exchange_unbind : Handler
unfolding run read skip read_uint16 read_uint8 read_short_string check_access bit unbind_exchange
handle_exchange_unbind payload s = run s (do
  let d = skip read_uint16 payload
  (destination, d) ← read read_short_string d
  (source, d) ← read read_short_string d
  _ ← check_access s res_exchange destination perm_configure
  (routing_key, d) ← read read_short_string d
  (bits, d) ← read read_uint8 d
  let no_wait = bit 0x01 bits
  ok (unbind_exchange source destination routing_key no_wait))
