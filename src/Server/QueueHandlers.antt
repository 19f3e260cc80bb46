-- ===== src/Server/QueueHandlers.antt =====
-- internal/server/basic_handlers.go: the methods of the class Queue.
use gomq.Prelude.{Bool, Text, Option, none, some, ok, err, ◌>>=◌, if◌then◌else◌}
use gomq.Amqp.Decode.{read_uint8, read_uint16, read_short_string}
use gomq.Amqp.Encode.{write_uint32, write_short_string}
use gomq.Amqp.Table.ReadTable.{read_table}
use gomq.Routing.Binding.{Args}
use gomq.Broker.Queues as Queues
use gomq.Broker.Bindings.{bind, unbind}
use gomq.Broker.Store.{len, purge}
use gomq.Delivery.Policy.{Platform}
use gomq.Delivery.Publisher.{store_of, with_store}
use gomq.Server.Session.{
  Handler, Action, done, run, read, skip, bit, args_of, res_queue, perm_configure, check_access,
  method, reply, reply_unless, set_topology, set_deliveries,
}

-- Queue.DeclareOk, where there is a queue to tell of.
unfoldable pub declared : Bool → Option Queues.Queue → Action
unfolding reply_unless method write_short_string write_uint32 done
declared no_wait found s = elim found [
  | none ↦ done s
  | some q ↦
      let enc = write_short_string (method 50 11) q.name in
      done (reply_unless no_wait (write_uint32 (write_uint32 enc 0) 0) s)
]

-- A passive declaration only looks the queue up. An error of Declare is dropped.
unfoldable pub declare_queue : Platform → Bool → Text → Bool → Bool → Bool → Bool → Args → Action
unfolding declared Queues.get Queues.declare set_topology
declare_queue p passive queue durable exclusive auto_delete no_wait args s =
    if passive
    then declared no_wait (Queues.get queue s.server.topology.queues) s
    else (let t = s.server.topology in
        let (queues, result) =
          Queues.declare p.print queue durable exclusive auto_delete (some args) none t.queues in
        declared no_wait (elim result [ err _ ↦ none | ok q ↦ some q ])
          (set_topology (record t { queues = queues }) s))

unfoldable pub handle_queue_declare : Platform → Handler
unfolding run read skip read_uint16 read_uint8 read_short_string read_table check_access bit args_of
    declare_queue
handle_queue_declare p payload s = run s (do
  let d = skip read_uint16 payload
  (queue, d) ← read read_short_string d
  _ ← check_access s res_queue queue perm_configure
  (bits, d) ← read read_uint8 d
  let passive = bit 0x01 bits
  let durable = bit 0x02 bits
  let exclusive = bit 0x04 bits
  let auto_delete = bit 0x08 bits
  let no_wait = bit 0x10 bits
  (args, d) ← read (read_table p.float_conv) d
  ok (declare_queue p passive queue durable exclusive auto_delete no_wait (args_of p args)))

unfoldable pub handle_queue_bind : Platform → Handler
unfolding run read skip read_uint16 read_uint8 read_short_string read_table check_access bit args_of
    bind set_topology reply_unless method done
handle_queue_bind p payload s = run s (do
  let d = skip read_uint16 payload
  (queue, d) ← read read_short_string d
  (exchange, d) ← read read_short_string d
  _ ← check_access s res_queue queue perm_configure
  (routing_key, d) ← read read_short_string d
  (bits, d) ← read read_uint8 d
  let no_wait = bit 0x01 bits
  (args, d) ← read (read_table p.float_conv) d
  ok (λ s.
      let t = s.server.topology in
      let bindings = (bind exchange queue routing_key (some (args_of p args)) t.bindings).0 in
      done
        (reply_unless no_wait (method 50 21) (set_topology (record t { bindings = bindings }) s))))

-- The bindings and the messages of the queue stay.
unfoldable pub handle_queue_delete : Handler
unfolding run read skip read_uint16 read_uint8 read_short_string check_access bit Queues.delete
    set_topology reply_unless method write_uint32 done
handle_queue_delete payload s = run s (do
  let d = skip read_uint16 payload
  (queue, d) ← read read_short_string d
  _ ← check_access s res_queue queue perm_configure
  (bits, d) ← read read_uint8 d
  let no_wait = bit 0x04 bits
  ok (λ s.
      let t = s.server.topology in
      let queues = (Queues.delete queue t.queues).0 in
      done (
        reply_unless no_wait (write_uint32 (method 50 41) 0)
          (set_topology (record t { queues = queues }) s))))

-- `write_uint32` keeps the low 32 bits of the count, as `uint32(...)` does.
unfoldable pub handle_queue_purge : Handler
unfolding run read skip read_uint16 read_uint8 read_short_string check_access bit len purge store_of
    with_store set_deliveries reply_unless method write_uint32 done
handle_queue_purge payload s = run s (do
  let d = skip read_uint16 payload
  (queue, d) ← read read_short_string d
  _ ← check_access s res_queue queue perm_configure
  (bits, d) ← read read_uint8 d
  let no_wait = bit 0x01 bits
  ok (λ s.
      let d = s.server.deliveries in
      let count = len queue (store_of d) in
      done (
        reply_unless no_wait (write_uint32 (method 50 31) count)
          (set_deliveries (with_store (purge queue (store_of d)) d) s))))

unfoldable pub handle_queue_unbind : Platform → Handler
unfolding run read skip read_uint16 read_short_string read_table check_access unbind set_topology
    reply method done
handle_queue_unbind p payload s = run s (do
  let d = skip read_uint16 payload
  (queue, d) ← read read_short_string d
  _ ← check_access s res_queue queue perm_configure
  (exchange, d) ← read read_short_string d
  (routing_key, d) ← read read_short_string d
  _ ← read (read_table p.float_conv) d
  ok (λ s.
      let t = s.server.topology in
      let bindings = (unbind exchange queue routing_key t.bindings).0 in
      done (reply (method 50 51) (set_topology (record t { bindings = bindings }) s))))
