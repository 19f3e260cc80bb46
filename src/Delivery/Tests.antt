-- ===== src/Delivery/Tests.antt =====
-- Runs of the publisher and of pulling, with one exchange and one queue.
use gomq.Prelude.{
  ℕ, ◌+◌, ◌≡◌, arith, true, false, [], ◌∷◌, ◌++◌, Text, codes, length, none, some, Result, ok, inl,
  inr, Bool-cases, ◌==◌, text_eq, text_beq, ltb, leb, nat_eq,
}
use gomq.Prelude.GoMap.{lookup, lookup_or}
use gomq.Amqp.Signed.{pos}
use gomq.Routing.Binding.{int}
use gomq.Routing.Exchange.{Exchange, direct, direct_exchange, router}
use gomq.Broker.Exchanges as Exchanges
use gomq.Broker.Queues as Queues
use gomq.Broker.Bindings.{new_binding_manager, bind}
use gomq.Broker.Message.{Message}
use gomq.Broker.Store.{len, queue_of}
use gomq.Broker.Tracker.{DeliveryTracker}
use gomq.Broker.Consumers.{ConsumerManager}
use gomq.Delivery.Policy.{Platform, get_dead_letter_config, is_expired}
use gomq.Delivery.Deliverer.{Deliveries}
use gomq.Delivery.Publisher.{Topology, PublishError, publish, store_of}
use gomq.Delivery.PublisherFuel.{HasRouters, publish_ends}
use gomq.Delivery.Bounds.{IsBounded, NoDeadLetters, publish-IsBounded}
use gomq.Delivery.Pull.{queue_args}
use gomq.Delivery.PullLaws.{alive, get_all, handed, nones, get_all_lem}

-- No float and no number in a text stands in the runs.
abbrev pub platform : Platform
platform = record {
  float_ops = record { float_eq = λ a b. a == b; of_int = λ z. 0; of_uint = λ n. n };
  float_conv = record {
    to_uint32 = λ n. n;
    of_uint32 = λ n. n;
    to_uint64 = λ n. n;
    of_uint64 = λ n. n;
  };
  widen = λ n. n;
  float_to_int = λ n. pos n;
  float_lt = ltb;
  float_le = leb;
  parse_int = λ t. none;
  print = λ a. [];
  hash = λ t. 0;
  now = 1000;
}

abbrev pub logs : Exchange
logs = record {
  name = codes "e";
  exchange_type = direct;
  durable = true;
  auto_delete = false;
  internal = false;
  args = [];
}

-- A queue for two messages.
abbrev pub queue : Queues.Queue
queue = record {
  name = codes "q";
  durable = true;
  exclusive = false;
  auto_delete = false;
  args = (codes "x-max-length", int (pos 2)) ∷ [];
  state = Queues.queue_active;
  owner = none;
}

abbrev pub topology : Topology
topology = record {
  exchanges = record { exchanges = (codes "e", logs) ∷ []; has_store = false; store_calls = [] };
  queues = record { queues = (codes "q", queue) ∷ []; has_store = false; calls = [] };
  bindings = (bind (codes "e") (codes "q") (codes "k") none new_binding_manager).0;
  e2e = [];
}

abbrev pub consumers : ConsumerManager
consumers = record { by_queue = []; by_tag = []; group_mgr = none; calls = [] }

abbrev pub deliveries : Deliveries
deliveries = record {
  tracker = record { by_channel = []; store = [] };
  consumers = consumers;
  batches = [];
  stats = [];
  metrics = [];
}

abbrev pub message : Text → Message
message payload = record {
  payload = payload;
  properties = record {
    content_type = [];
    content_encoding = [];
    headers = none;
    delivery_mode = 0;
    priority = 0;
    correlation_id = [];
    reply_to = [];
    expiration = [];
    message_id = [];
    timestamp = none;
    message_type = [];
    user_id = [];
    app_id = [];
    cluster_id = [];
  };
  exchange = codes "e";
  routing_key = codes "k";
  delivery_tag = 0;
  enqueued_at = some 10;
}

pub topology-HasRouters : HasRouters topology
unfolding Exchanges.get lookup router
topology-HasRouters name ex e = elim (Bool-cases (codes "e" == name)) [
  | inl t ↦ let q : logs ≡ ex = cc (rw t at e) in (direct_exchange, rw (← q))
  | inr f ↦ absurd cc
]

publish_ends_example :
    (end : Deliveries × Result PublishError ℕ) × (publish platform topology
        (codes "e")
        (codes "k")
        (message (codes "hi"))
        1
        deliveries
      ≡ ok end)
publish_ends_example =
    publish_ends platform topology (codes "e") (codes "k") (message (codes "hi")) 1 deliveries
      topology-HasRouters

topology-NoDeadLetters : NoDeadLetters topology
unfolding Queues.get lookup get_dead_letter_config text_beq
topology-NoDeadLetters qn q e = elim (Bool-cases (codes "q" == qn)) [
  | inl t ↦ let s : queue ≡ q = cc (rw t at e) in rw (← s)
  | inr f ↦ absurd cc
]

deliveries-IsBounded : IsBounded platform topology deliveries
unfolding len queue_of lookup_or lookup store_of
deliveries-IsBounded qn q n e m z = omega arith

publish-IsBounded_example :
    (end : Deliveries × Result PublishError ℕ) × (publish platform topology
        (codes "e")
        (codes "k")
        (message (codes "hi"))
        1
        deliveries
      ≡ ok end)
    × IsBounded platform topology end.0
publish-IsBounded_example =
    publish-IsBounded platform topology (codes "e") (codes "k") (message (codes "hi")) 1 deliveries
      topology-HasRouters topology-NoDeadLetters deliveries-IsBounded

abbrev two : DeliveryTracker
two = record {
  by_channel = [];
  store = (codes "q", message (codes "a") ∷ message (codes "b") ∷ []) ∷ [];
}

get_all_lem_example :
    get_all platform none
      (codes "q")
      false
      1
      (length (
          alive
            (λ m. is_expired platform m (queue_args (codes "q") none))
            (queue_of (codes "q") two.store))
        + 3)
      5
      two
    ≡ handed false 5 (
        alive
          (λ m. is_expired platform m (queue_args (codes "q") none))
          (queue_of (codes "q") two.store))
      ++ nones 3
get_all_lem_example = get_all_lem platform none (codes "q") 1 false 3 5 two
