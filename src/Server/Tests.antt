-- ===== src/Server/Tests.antt =====
-- Runs of the handlers, on one connection with one channel.
use gomq.Prelude.{◌≡◌, refl, true, false, [], ◌∷◌, codes, none, ok, text_beq}
use gomq.Prelude.GoMap.{lookup, lookup_or}
use gomq.Amqp.Frame.{Frame, frame_method}
use gomq.Broker.Bindings.{bind, new_binding_manager}
use gomq.Broker.E2E.{get_bindings}
use gomq.Delivery.Tests.{platform, topology, deliveries}
use gomq.Server.Channel.{Channel, chan_open}
use gomq.Server.Session.{Session, state_open, writable}
use gomq.Server.Dispatcher.{register_basic_handlers}
use gomq.Server.Requests.{Request, queue_bind, payload}
use gomq.Server.Serve.{serve, HasNoCycle, serve-HasNoCycle}
use gomq.Server.ModeHandlers.{handle_tx_commit}
use gomq.Server.TxLaws.{Publish, publish_all, in_tx, Replayed, handle_tx_commit_lem}

abbrev channel : Channel
channel = record {
  id = 1;
  identity = 7;
  state = chan_open;
  flow_on = true;
  confirm_mode = false;
  delivery_tag = 0;
  tx_mode = false;
  tx_pending = [];
}

abbrev pub session : Session
session = record {
  server = record {
    acl = none;
    topology = topology;
    deliveries = deliveries;
    prefetch = record {
      global_limit = none;
      default_limit = none;
      limits = [];
      by_chan = [];
      by_conn = 0;
    };
    flow = record { paused = []; conn_paused = false };
  };
  channel = channel;
  managed = true;
  others = record { channels = []; max_ch = 2048 };
  username = codes "guest";
  vhost = codes "/";
  state = state_open;
  link = writable;
  sent = [];
}

-- Tx.Select.
abbrev tx_select : Frame
tx_select = record { frame_type = frame_method; channel = 1; payload = 0 ∷ 90 ∷ 0 ∷ 10 ∷ [] }

abbrev binding : Request
binding = queue_bind (codes "e") (codes "q") (codes "k")

session-HasNoCycle : HasNoCycle session
unfolding get_bindings lookup_or lookup
session-HasNoCycle a b (x, i, e) l = absurd i

serve-HasNoCycle_example :
    HasNoCycle (serve (register_basic_handlers platform) (tx_select ∷ []) session)
serve-HasNoCycle_example = serve-HasNoCycle platform (tx_select ∷ []) session session-HasNoCycle

abbrev request : Publish
request = record { exchange = codes "e"; routing_key = codes "k"; mandatory = false }

publish_succeeds : (publish_all platform (request ∷ []) session).1 ≡ ok tt
unfolding publish_all text_beq bind new_binding_manager
publish_succeeds = refl

handle_tx_commit_lem_example :
    let o = publish_all platform (request ∷ []) (in_tx session) in
    (o.1 ≡ ok tt)
    × ((handle_tx_commit platform [] o.0).1 ≡ ok tt)
    × Replayed session
        (publish_all platform (request ∷ []) session).0
        o.0
        (handle_tx_commit platform [] o.0).0
handle_tx_commit_lem_example =
    handle_tx_commit_lem platform (request ∷ []) session [] refl refl refl publish_succeeds
