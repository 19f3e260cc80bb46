-- ===== src/Server/Channel.antt =====
-- internal/server/channel.go, channel_manager.go and flow_controller.go. A mutex makes each call
-- atomic.
use gomq.Prelude.{
  ℕ, ◌+◌, ◌%◌, ◌^◌, Bool, true, false, not, ◌||◌, List, [], ◌∷◌, ◌++◌, Text, length, Option, none,
  some, Result, ok, err, ◌==◌, nat_eq, ltb, if◌then◌else◌,
}
use gomq.Prelude.GoMap.{GoMap, lookup, insert, remove, lookup_or}
use gomq.Broker.Message.{Message}

pub data ChanState : Type 0 where
  chan_opening chan_open chan_flow chan_closing chan_closed : ChanState

pub record TxEntry : Type 0 where
  pub exchange : Text
  pub routing_key : Text
  pub msg : Message

-- `identity` tells the channels of all connections apart. The field prefetch, which nothing reads, is
-- left out, and so are the pointers to the connection and to the flow controller.
pub record Channel : Type 0 where
  pub id : ℕ
  pub identity : ℕ
  pub state : ChanState
  pub flow_on : Bool
  pub confirm_mode : Bool
  pub delivery_tag : ℕ
  pub tx_mode : Bool
  pub tx_pending : List TxEntry

unfoldable pub new_channel : ℕ → ℕ → Channel
new_channel id identity = record {
  id = id;
  identity = identity;
  state = chan_opening;
  flow_on = true;
  confirm_mode = false;
  delivery_tag = 0;
  tx_mode = false;
  tx_pending = [];
}

unfoldable pub set_state : ChanState → Channel → Channel
set_state s ch = record ch { state = s }

unfoldable pub open_channel : Channel → Channel
unfolding set_state
open_channel ch = set_state chan_open ch

unfoldable pub close_channel : Channel → Channel
unfolding set_state
close_channel ch = set_state chan_closed (set_state chan_closing ch)

unfoldable pub set_flow : Bool → Channel → Channel
set_flow on ch = record ch { flow_on = on }

unfoldable pub set_confirm_mode : Channel → Channel
set_confirm_mode ch = record ch { confirm_mode = true }

-- The counter is a uint64.
unfoldable pub next_delivery_tag : Channel → Channel × ℕ
next_delivery_tag ch =
    let tag = (ch.delivery_tag + 1) % 2 ^ 64 in (record ch { delivery_tag = tag }, tag)

unfoldable pub set_tx_mode : Channel → Channel
set_tx_mode ch = record ch { tx_mode = true }

unfoldable pub stage_tx_publish : Text → Text → Message → Channel → Channel
stage_tx_publish exchange routing_key msg ch = record ch {
  tx_pending =
      ch.tx_pending ++ record { exchange = exchange; routing_key = routing_key; msg = msg } ∷ [];
}

unfoldable pub commit_tx : Channel → Channel × List TxEntry
commit_tx ch = (record ch { tx_pending = [] }, ch.tx_pending)

unfoldable pub rollback_tx : Channel → Channel
rollback_tx ch = record ch { tx_pending = [] }

pub record FlowController : Type 0 where
  pub paused : GoMap ℕ Bool
  pub conn_paused : Bool

unfoldable pub new_flow_controller : FlowController
new_flow_controller = record { paused = []; conn_paused = false }

unfoldable pub pause_channel : ℕ → FlowController → FlowController
unfolding insert
pause_channel channel fc = record fc { paused = insert channel true fc.paused }

unfoldable pub resume_channel : ℕ → FlowController → FlowController
unfolding remove
resume_channel channel fc = record fc { paused = remove channel fc.paused }

unfoldable pub is_channel_active : ℕ → FlowController → Bool
unfolding lookup_or lookup
is_channel_active channel fc =
    if fc.conn_paused then false else not (lookup_or false channel fc.paused)

unfoldable pub pause_connection : FlowController → FlowController
pause_connection fc = record fc { conn_paused = true }

unfoldable pub resume_connection : FlowController → FlowController
resume_connection fc = record fc { conn_paused = false }

unfoldable pub is_open : ChanState → Bool
is_open chan_open = true
is_open _ = false

-- `none` is a channel without a flow controller.
unfoldable pub flow_active : Option FlowController → Channel → Bool
unfolding is_open is_channel_active
flow_active fc ch = if not ch.flow_on || not (is_open ch.state) then false else elim fc [
  | none ↦ true
  | some fc ↦ if not (is_channel_active ch.id fc) then false else true
]

pub record ChannelManager : Type 0 where
  pub channels : GoMap ℕ Channel
  pub max_ch : ℕ

pub data ChannelError : Type 0 where
  reserved_channel exceeds_max already_open : ChannelError

unfoldable pub new_channel_manager : ℕ → ChannelManager
new_channel_manager max_ch = record { channels = []; max_ch = if max_ch == 0 then 2048 else max_ch }

-- `identity` is the new channel's.
unfoldable pub create : ℕ → ℕ → ChannelManager → ChannelManager × Result ChannelError Channel
unfolding lookup insert new_channel open_channel
create id identity m =
    if id == 0
    then (m, err reserved_channel)
    else if ltb m.max_ch id
    then (m, err exceeds_max)
    else elim (lookup id m.channels) [
      | some _ ↦ (m, err already_open)
      | none ↦
          let ch = open_channel (new_channel id identity) in
          (record m { channels = insert id ch m.channels }, ok ch)
    ]

unfoldable pub remove_channel : ℕ → ChannelManager → ChannelManager
unfolding remove
remove_channel id m = record m { channels = remove id m.channels }

unfoldable pub get : ℕ → ChannelManager → Option Channel
unfolding lookup
get id m = lookup id m.channels

unfoldable pub count : ChannelManager → ℕ
count m = length m.channels

-- The manager, and the channels that it gave up, closed.
unfoldable pub close_each : GoMap ℕ Channel → List Channel
unfolding close_channel
close_each [] = []
close_each ((id, ch) ∷ channels) = close_channel ch ∷ close_each channels

unfoldable pub close_all : ChannelManager → ChannelManager × List Channel
unfolding close_each
close_all m = (record m { channels = [] }, close_each m.channels)
