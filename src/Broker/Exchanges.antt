-- ===== src/Broker/Exchanges.antt =====
-- internal/server/exchange_manager.go: the exchanges of a virtual host by name. Its mutex makes each call
-- atomic.
use gomq.Prelude.{
  Bool, true, false, List, [], ◌∷◌, ◌++◌, Text, codes, length, ℕ, map, Option, none, some, Result,
  ok, err, ◌==◌, text_eq, if◌then◌else◌,
}
use gomq.Prelude.GoMap.{GoMap, lookup, insert, remove}
use gomq.Routing.Binding.{Args}
use gomq.Routing.Exchange.{
  ExchangeType, Exchange, new_exchange, direct, fanout, topic, headers, unknown,
}

-- What the manager asks of its store; an error of the store is only logged.
pub data ExchangeCall : Type 0 where
  save_exchange : Text → ExchangeType → Bool → Bool → Bool → Option Args → ExchangeCall
  delete_exchange : Text → ExchangeCall

pub record ExchangeManager : Type 0 where
  pub exchanges : GoMap Text Exchange
  pub has_store : Bool
  pub store_calls : List ExchangeCall

pub data ExchangeError : Type 0 where
  other_type exchange_not_found : ExchangeError

-- `!=` on the names of types.
unfoldable pub same_type : ExchangeType → ExchangeType → Bool
same_type direct direct = true
same_type fanout fanout = true
same_type topic topic = true
same_type headers headers = true
same_type (unknown a) (unknown b) = a == b
same_type _ _ = false

abbrev pub built_in : Text → ExchangeType → Text × Exchange
unfolding new_exchange
built_in name ex_type = (name, new_exchange name ex_type true false false none)

unfoldable pub init_defaults : GoMap Text Exchange
init_defaults =
    built_in (codes "") direct
    ∷ built_in (codes "amq.direct") direct
    ∷ built_in (codes "amq.fanout") fanout
    ∷ built_in (codes "amq.topic") topic
    ∷ built_in (codes "amq.headers") headers
    ∷ built_in (codes "amq.match") headers
    ∷ []

unfoldable pub new_exchange_manager_with_store : Bool → ExchangeManager
unfolding init_defaults
new_exchange_manager_with_store has_store = record {
  exchanges = init_defaults;
  has_store = has_store;
  store_calls = [];
}

unfoldable pub call_store : ExchangeCall → ExchangeManager → ExchangeManager
call_store c m = if m.has_store then record m { store_calls = m.store_calls ++ c ∷ [] } else m

unfoldable pub declare :
    Text
    → ExchangeType
    → Bool
    → Bool
    → Bool
    → Option Args
    → ExchangeManager
    → ExchangeManager × Result ExchangeError Exchange
unfolding lookup insert same_type new_exchange call_store
declare name ex_type durable auto_delete internal args m = elim (lookup name m.exchanges) [
  | some ex ↦ (m, if same_type ex.exchange_type ex_type then ok ex else err other_type)
  | none ↦
      let ex = new_exchange name ex_type durable auto_delete internal args in
      (
        call_store (save_exchange name ex_type durable auto_delete internal args)
            (record m { exchanges = insert name ex m.exchanges }),
        ok ex,
      )
]

unfoldable pub delete : Text → ExchangeManager → ExchangeManager × Result ExchangeError (Unit {0})
unfolding lookup remove call_store
delete name m = elim (lookup name m.exchanges) [
  | none ↦ (m, err exchange_not_found)
  | some _ ↦
      (call_store (delete_exchange name) (record m { exchanges = remove name m.exchanges }), ok tt)
]

unfoldable pub get : Text → ExchangeManager → Option Exchange
unfolding lookup
get name m = lookup name m.exchanges

unfoldable pub count : ExchangeManager → ℕ
count m = length m.exchanges

unfoldable pub list : ExchangeManager → List Exchange
list m = map (λ p. p.1) m.exchanges
