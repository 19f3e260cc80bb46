-- ===== src/Server/EvolutionLaws.antt =====
-- Each handler against the steps of the managers.
use gomq.Prelude.{
  ℕ, refl, Option-cases, Result-cases, inl, inr, Bool, true, false, Text, Option, none, some,
  Result,
}
use gomq.Routing.Binding.{Args}
use gomq.Routing.Exchange.{Exchange, ExchangeType}
use gomq.Broker.E2E as E2E
use gomq.Broker.Queues as Queues
use gomq.Broker.Tracker.{DeliveryTracker, TrackerError}
use gomq.Delivery.Policy.{Platform}
use gomq.Delivery.Publisher.{with_store}
use gomq.Server.Session.{Session, Handler, set_topology, set_deliveries, set_channel, done, method}
use gomq.Server.BasicHandlers.{
  settle, refuse, recover_with, handle_qos, handle_consume, handle_cancel, handle_publish,
  handle_get, handle_ack,
}
use gomq.Server.ModeHandlers.{
  handle_confirm_select, handle_tx_select, handle_tx_commit, handle_tx_rollback,
  handle_channel_open, handle_channel_flow, handle_channel_close, handle_connection_close,
  handle_connection_close_ok, handle_channel_close_ok,
}
use gomq.Server.QueueHandlers as Q
use gomq.Server.QueueHandlers.{
  declare_queue, handle_queue_declare, handle_queue_bind, handle_queue_delete, handle_queue_purge,
  handle_queue_unbind,
}
use gomq.Server.ExchangeHandlers as E
use gomq.Server.ExchangeHandlers.{
  declare_exchange, bind_exchange, unbind_exchange, handle_exchange_declare, handle_exchange_delete,
  handle_exchange_bind, handle_exchange_unbind,
}
use gomq.Server.Evolution.{
  stays, exchange_bound, exchange_unbound, Sound, Sound-done, Sound-err, Sound-reply_unless,
  reply-server, handler_rules,
}
use gomq.Server.Plain.{plain_rules}

ruleset rules = (handler_rules, plain_rules)

abbrev pub IsSound : Handler → Type 0
IsSound h = (payload : Text) (s : Session) → Sound s (h payload s)

queue_declared-Sound :
    (no_wait : Bool) (found : Option Queues.Queue) (s s' : Session)
    → Sound s (done s')
    → Sound s (Q.declared no_wait found s')
unfolding Q.declared
queue_declared-Sound no_wait none s s' k = k
queue_declared-Sound no_wait (some q) s s' k = Sound-reply_unless no_wait _ s s' k

exchange_declared-Sound :
    (no_wait : Bool) (found : Option Exchange) (s s' : Session)
    → Sound s (done s')
    → Sound s (E.declared no_wait found s')
unfolding E.declared
exchange_declared-Sound no_wait none s s' k = k
exchange_declared-Sound no_wait (some q) s s' k = Sound-reply_unless no_wait _ s s' k

declare_queue-Sound :
    (p : Platform) (passive : Bool) (queue : Text) (durable exclusive auto_delete no_wait : Bool)
    (args : Args) (s : Session)
    → Sound s (declare_queue p passive queue durable exclusive auto_delete no_wait args s)
unfolding declare_queue set_topology
declare_queue-Sound p passive queue durable exclusive auto_delete no_wait args s =
    search (handler_rules, queue_declared-Sound) depth 8

declare_exchange-Sound :
    (passive : Bool) (exchange : Text) (ex_type : ExchangeType) (no_wait : Bool) (args : Args)
    (s : Session)
    → Sound s (declare_exchange passive exchange ex_type no_wait args s)
unfolding declare_exchange set_topology
declare_exchange-Sound passive exchange ex_type no_wait args s =
    search (handler_rules, exchange_declared-Sound) depth 8

bind_exchange-Sound :
    (source destination key : Text) (args : Args) (no_wait : Bool) (s : Session)
    → Sound s (bind_exchange source destination key args no_wait s)
unfolding bind_exchange set_topology
bind_exchange-Sound source destination key args no_wait s =
    elim (Option-cases (E2E.has_cycle source destination s.server.topology.e2e)) [
      | inl e ↦ rw (e, bind_exchange) (Sound-err s s _ (λ q. cc) stays refl)
      | inr (true, e) ↦ rw (e, bind_exchange) (Sound-err s s _ (λ q. cc) stays refl)
      | inr (false, e) ↦
          rw (e, bind_exchange)
            (Sound-reply_unless no_wait _ s _
              (Sound-done s _ (exchange_bound source destination key (some args) e) refl))
    ]

unbind_exchange-Sound :
    (source destination key : Text) (no_wait : Bool) (s : Session)
    → Sound s (unbind_exchange source destination key no_wait s)
unfolding unbind_exchange set_topology
unbind_exchange-Sound source destination key no_wait s =
    elim (Result-cases (E2E.unbind source destination key s.server.topology.e2e)) [
      | inl (why, e) ↦ Sound-reply_unless no_wait _ s _ (Sound-done s _ (rw e stays) refl)
      | inr (m, e) ↦
          Sound-reply_unless no_wait _ s _
            (Sound-done s _ (rw e (exchange_unbound source destination key m e)) refl)
    ]

pub handle_qos-IsSound : IsSound handle_qos
unfolding handle_qos
handle_qos-IsSound payload s = search rules depth 22

pub handle_consume-IsSound : (p : Platform) → IsSound (handle_consume p)
unfolding handle_consume set_deliveries
handle_consume-IsSound p payload s = search rules depth 22

pub handle_cancel-IsSound : IsSound handle_cancel
unfolding handle_cancel set_deliveries
handle_cancel-IsSound payload s = search rules depth 22

pub handle_publish-IsSound : (p : Platform) → IsSound (handle_publish p)
unfolding handle_publish
handle_publish-IsSound p payload s = search rules depth 22

pub handle_get-IsSound : (p : Platform) → IsSound (handle_get p)
unfolding handle_get set_deliveries
handle_get-IsSound p payload s = search rules depth 22

pub handle_ack-IsSound : IsSound handle_ack
unfolding handle_ack settle set_deliveries
handle_ack-IsSound payload s = search rules depth 22

pub refuse-IsSound :
    (p : Platform)
    (call : ℕ → ℕ → Bool → DeliveryTracker → DeliveryTracker × Result TrackerError (Unit {0}))
    → IsSound (refuse p call)
unfolding refuse settle set_deliveries
refuse-IsSound p call payload s = search rules depth 22

pub recover_with-IsSound : (c m : ℕ) → IsSound (recover_with c m)
unfolding recover_with set_deliveries
recover_with-IsSound c m payload s = search rules depth 22

pub handle_confirm_select-IsSound : IsSound handle_confirm_select
unfolding handle_confirm_select set_channel
handle_confirm_select-IsSound payload s = search rules depth 22

pub handle_tx_select-IsSound : IsSound handle_tx_select
unfolding handle_tx_select set_channel
handle_tx_select-IsSound payload s = search rules depth 22

pub handle_tx_commit-IsSound : (p : Platform) → IsSound (handle_tx_commit p)
unfolding handle_tx_commit set_channel
handle_tx_commit-IsSound p payload s = search rules depth 22

pub handle_tx_rollback-IsSound : IsSound handle_tx_rollback
unfolding handle_tx_rollback set_channel
handle_tx_rollback-IsSound payload s = search rules depth 22

pub handle_channel_open-IsSound : IsSound handle_channel_open
unfolding handle_channel_open set_channel
handle_channel_open-IsSound payload s = search rules depth 22

pub handle_channel_flow-IsSound : IsSound handle_channel_flow
unfolding handle_channel_flow set_channel
handle_channel_flow-IsSound payload s = search rules depth 22

pub handle_channel_close-IsSound : IsSound handle_channel_close
unfolding handle_channel_close set_channel
handle_channel_close-IsSound payload s =
    Sound-done s _ (rw (reply-server (method 20 41) s) stays) (rw (reply-server (method 20 41) s))

pub handle_connection_close-IsSound : IsSound handle_connection_close
unfolding handle_connection_close
handle_connection_close-IsSound payload s = search rules depth 22

pub handle_connection_close_ok-IsSound : IsSound handle_connection_close_ok
unfolding handle_connection_close_ok
handle_connection_close_ok-IsSound payload s = search rules depth 22

pub handle_channel_close_ok-IsSound : IsSound handle_channel_close_ok
unfolding handle_channel_close_ok
handle_channel_close_ok-IsSound payload s = search rules depth 22

pub handle_queue_declare-IsSound : (p : Platform) → IsSound (handle_queue_declare p)
unfolding handle_queue_declare
handle_queue_declare-IsSound p payload s = search (rules, declare_queue-Sound) depth 22

pub handle_queue_bind-IsSound : (p : Platform) → IsSound (handle_queue_bind p)
unfolding handle_queue_bind set_topology
handle_queue_bind-IsSound p payload s = search rules depth 22

pub handle_queue_purge-IsSound : IsSound handle_queue_purge
unfolding handle_queue_purge set_deliveries with_store
handle_queue_purge-IsSound payload s = search rules depth 22

pub handle_queue_delete-IsSound : IsSound handle_queue_delete
unfolding handle_queue_delete set_topology
handle_queue_delete-IsSound payload s = search rules depth 22

pub handle_queue_unbind-IsSound : (p : Platform) → IsSound (handle_queue_unbind p)
unfolding handle_queue_unbind set_topology
handle_queue_unbind-IsSound p payload s = search rules depth 22

pub handle_exchange_declare-IsSound : (p : Platform) → IsSound (handle_exchange_declare p)
unfolding handle_exchange_declare
handle_exchange_declare-IsSound p payload s = search (rules, declare_exchange-Sound) depth 22

pub handle_exchange_delete-IsSound : IsSound handle_exchange_delete
unfolding handle_exchange_delete set_topology
handle_exchange_delete-IsSound payload s = search rules depth 22

pub handle_exchange_bind-IsSound : (p : Platform) → IsSound (handle_exchange_bind p)
unfolding handle_exchange_bind
handle_exchange_bind-IsSound p payload s = search (rules, bind_exchange-Sound) depth 22

pub handle_exchange_unbind-IsSound : IsSound handle_exchange_unbind
unfolding handle_exchange_unbind
handle_exchange_unbind-IsSound payload s = search (rules, unbind_exchange-Sound) depth 22

pub ruleset handlers_sound = (
  handle_qos-IsSound, handle_consume-IsSound, handle_cancel-IsSound, handle_publish-IsSound,
  handle_get-IsSound, handle_ack-IsSound, refuse-IsSound, recover_with-IsSound,
  handle_confirm_select-IsSound, handle_tx_select-IsSound, handle_tx_commit-IsSound,
  handle_tx_rollback-IsSound, handle_channel_open-IsSound, handle_channel_flow-IsSound,
  handle_channel_close-IsSound, handle_connection_close-IsSound, handle_connection_close_ok-IsSound,
  handle_channel_close_ok-IsSound, handle_queue_declare-IsSound, handle_queue_bind-IsSound,
  handle_queue_purge-IsSound, handle_queue_delete-IsSound, handle_queue_unbind-IsSound,
  handle_exchange_declare-IsSound, handle_exchange_delete-IsSound, handle_exchange_bind-IsSound,
  handle_exchange_unbind-IsSound,
)
