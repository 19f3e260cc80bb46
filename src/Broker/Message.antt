-- ===== src/Broker/Message.antt =====
-- internal/server/message.go.
use gomq.Prelude.{ℕ, Text, [], Option, none, some}
use gomq.Routing.Binding.{Args}

-- A nil map of headers is `none`. Times are in nanoseconds; `none` is the zero time.
pub record Properties : Type 0 where
  pub content_type : Text
  pub content_encoding : Text
  pub headers : Option Args
  pub delivery_mode : ℕ
  pub priority : ℕ
  pub correlation_id : Text
  pub reply_to : Text
  pub expiration : Text
  pub message_id : Text
  pub timestamp : Option ℕ
  pub message_type : Text
  pub user_id : Text
  pub app_id : Text
  pub cluster_id : Text

pub record Message : Type 0 where
  pub payload : Text
  pub properties : Properties
  pub exchange : Text
  pub routing_key : Text
  pub delivery_tag : ℕ
  pub enqueued_at : Option ℕ

unfoldable pub new_message : Text → Properties → Message
new_message payload props = record {
  payload = payload;
  properties = props;
  exchange = [];
  routing_key = [];
  delivery_tag = 0;
  enqueued_at = none;
}

unfoldable pub set_delivery_tag : ℕ → Message → Message
set_delivery_tag tag m = record m { delivery_tag = tag }

unfoldable pub set_enqueued_at : ℕ → Message → Message
set_enqueued_at now m = record m { enqueued_at = some now }

unfoldable pub set_routing_meta : Text → Text → Message → Message
set_routing_meta ex key m = record m { exchange = ex; routing_key = key }
