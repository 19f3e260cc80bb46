-- ===== src/Lib.antt =====
-- gomq is an AMQP 0-9-1 broker in Go. A connection cuts its byte stream into frames; a message that is
-- published to an exchange goes, by the bindings of that exchange, to queues; consumers get messages
-- under a prefetch limit and acknowledge them; access rules decide who may do what; nodes of a
-- cluster agree on the content of quorum queues by a Raft log. This library models these parts.
--
-- Amqp: pkg/protocol/amqp091. Amqp/Frame is frame.go. Amqp/Encode and Amqp/Table/Write are encode.go, with
--   one function for each method of Encoder; an encoder is the text written so far. Amqp/Decode and
--   Amqp/Table/ReadTable are decode.go, with one function for each method of Decoder; a decoder is the
--   text that is left. Amqp/Framer is framer.go over a bufio.Reader with an explicit buffer size. Octets
--   and Signed write out what encoding/binary, io.ReadFull and Go's conversions of integers do. The
--   conversions between floats and integers are the parameter FloatConv. Amqp/Words, Amqp/FrameTrip,
--   Amqp/FramerLaws, Amqp/Table/Bytes, Amqp/Table/Fuel and Amqp/Table/RoundTrip hold the proofs.
-- Routing: internal/server/binding.go, exchange.go and exchange_direct.go, exchange_fanout.go,
--   exchange_topic.go and exchange_headers.go. The loop that the four Route methods share in shape is
--   `collect` of Routing/Collect; Routing/Exchange has the Route methods and the choice of a router.
--   Operations on float64 are the parameter FloatOps. Routing/HeaderValues says
--   when values are equal and a binding asks for any header. The files whose names end in Laws hold
--   the proofs.
-- Broker: internal/server. Broker/E2E is e2e_binding.go and e2e_binding_manager.go, with the proofs of
--   its cycle search in Broker/Cycle and Broker/CycleFuel; Broker/Message is message.go; Broker/Priority
--   priority_queue.go; Broker/Store message_store.go; Broker/Bindings binding_manager.go, where the calls
--   of the metadata store are a list; Broker/Tracker delivery_tracker.go and tracked_delivery.go, over
--   the message store; Broker/Prefetch prefetch.go; Broker/Exchanges exchange_manager.go;
--   Broker/Queues queue.go and queue_manager.go; Broker/Router router.go, which works on the managers of
--   exchanges, queues and bindings, with the cascade of a deleted queue in Broker/Cascade and
--   the managers that calls lead to in Broker/BindingRuns;
--   Broker/Groups consumer.go and consumer_group.go, where the FNV sum is a parameter;
--   Broker/GroupManager consumer_group_manager.go; Broker/Consumers consumer_manager.go, where the calls
--   of the metrics are a list, with proofs in Broker/ConsumerIndex and Broker/ConsumerLaws.
--   Broker/StoreRefinement is the contract of the message store, and Broker/Acyclic the graph of the
--   bindings between exchanges.
-- Delivery: internal/server. Delivery/Policy is dead_letter.go, ttl.go and the reading of x-max-priority
--   in priority_queue.go, with the record Platform of what Go and its libraries provide: conversions of
--   floats, strconv.ParseInt, fmt.Sprintf, hash/fnv, and the time at which a call runs, which does not
--   move during a call. Delivery/Deliverer is deliverer.go and the DeliveryBatch of batch.go;
--   Delivery/Publisher publisher.go, over the managers that it reads (Topology) and what it changes
--   (Deliveries); Delivery/Pull pull_consumer.go and the scan of expiration.go. Delivery/PublisherFuel,
--   Delivery/Bounds and Delivery/PullLaws hold the proofs.
-- Server: internal/server. Server/Channel is channel.go, channel_manager.go and flow_controller.go;
--   Server/Session the state that a handler works on, with what handlers share: SendFrame, the access
--   check, and Close of connection.go. The handlers of basic_handlers.go and channel_handlers.go stand in
--   Server/BasicHandlers, Server/ModeHandlers (confirms, transactions, channels, the connection),
--   Server/QueueHandlers and Server/ExchangeHandlers: a handler reads its arguments and checks access in
--   the order of the source, and then acts. Server/Dispatcher is method_registry.go, dispatcher.go and
--   the frames that connection.go hands on; Server/Serve its frame loop. Server/Handshake is handshake.go
--   and authenticator.go over the bytes that a client sends, with proofs in Server/Vouch,
--   Server/HandshakeLaws and Server/PlainAuth; Server/VHosts is vhost.go. Server/Evolution states what a
--   method may change; Server/Plain, Server/EvolutionLaws, Server/Soundness and Server/TxLaws hold the
--   proofs. Server/Requests says what the methods that change exchanges, queues and bindings mean;
--   Server/RequestReads, Server/RequestQueues, Server/RequestExchanges and Server/RequestLaws prove it.
-- Cluster: Cluster/Raft is internal/cluster/raft.go and the end of startElection of raft_node.go;
--   Cluster/Vote and Cluster/AppendLaws prove its votes and its log; Cluster/Quorum is
--   internal/queue/quorum.go over the Raft node.
-- Auth: internal/auth/acl.go and acl_manager.go; Auth/Sasl is sasl.go, amqplain.go and external.go, where
--   the TLS state of a connection is the data type Peer.
-- Prelude: the names and lemmas that all share, with Go maps as association lists (Prelude/GoMap) and
--   strings as lists of bytes.
-- The modules whose names end in Tests hold runs at concrete states.
--
-- State is passed explicitly; where a mutex guards each method, a method is one step. An error is a
-- value of the component's error type; in Cluster/Raft an index out of range, at which Go panics, is
-- an error too. Counters of 16 bits and terms keep their wrap-around. A Go map is read in the order
-- of its list, which is any order.
-- Fuel: ReadTable runs on one round more than the table has bytes, and each round reads at least the
-- four bytes of a length; HasCycle runs on one call more than there are exchanges with bindings,
-- since each call that goes on marks one of them; publishing runs on as many calls, and marks an
-- exchange in each. The loop of a pull has a round for each message of the queue.
--
-- A message is its value: in the source the queues that got the same message share it, so that a later
-- change of its time or tag shows in all of them. In a table that a client sends, bytes, times and
-- inner tables are one value of interface{}, since no code looks into them.
--
-- Not modelled: sockets, TLS, heartbeats, goroutines and timers; the set-up of a server;
-- publish batches, pipelines and pools; paging and compression; the stores of metadata;
-- bridging, federation and mirrors; configuration, metrics and the web console; the transport of Raft
-- and its loops. They are input and output, glue, or call libraries that are not in the repository, or
-- build on the parts that are here.
pub mod Prelude
pub mod Amqp
pub mod Routing
pub mod Broker
pub mod Delivery
pub mod Server
pub mod Cluster
pub mod Auth
