-- ===== src/Broker/StoreTests.antt =====
-- A run of the message store against its contract.
use gomq.Prelude.{◌≡◌, [], ◌∷◌, List, Text, codes, none}
use gomq.Broker.Message.{Message}
use gomq.Broker.Store.{new_message_store}
use gomq.Broker.StoreRefinement.{
  StoreOp, op_enqueue, op_enqueue_priority, op_dequeue, op_len, run_store, run_contract,
  run_store-new_message_store,
}

abbrev message : Text → Message
message payload = record {
  payload = payload;
  properties = record {
    content_type = [];
    content_encoding = [];
    headers = none;
    delivery_mode = 0;
    priority = 3;
    correlation_id = [];
    reply_to = [];
    expiration = [];
    message_id = [];
    timestamp = none;
    message_type = [];
    user_id = [];
    app_id = [];
    cluster_id = [];
  };
  exchange = [];
  routing_key = [];
  delivery_tag = 0;
  enqueued_at = none;
}

abbrev calls : List StoreOp
calls =
    op_enqueue (codes "q") (message (codes "a"))
    ∷ op_enqueue_priority (codes "p") (message (codes "b"))
    ∷ op_dequeue (codes "q")
    ∷ op_len (codes "p")
    ∷ []

run_store-new_message_store_example :
    run_store calls new_message_store ≡ run_contract calls (λ q. [])
run_store-new_message_store_example = run_store-new_message_store calls
