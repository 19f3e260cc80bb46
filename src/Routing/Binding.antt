-- ===== src/Routing/Binding.antt =====
-- internal/server/binding.go, and the values of argument maps and message headers.
use gomq.Prelude.{ℕ, Bool, Text, Option, none, some, []}
use gomq.Prelude.GoMap.{GoMap}
use gomq.Amqp.Signed.{ℤ}

-- interface{}: every signed kind is `int`, every unsigned kind `uint`; a float stands by the bits of
-- its float64. `other` is a value that no switch of the code has a case for.
pub data Any : Type 0 where
  string : Text → Any
  bool : Bool → Any
  int : ℤ → Any
  uint : ℕ → Any
  float : ℕ → Any
  other : Any

abbrev pub Args : Type 0
Args = GoMap Text Any

pub record Binding : Type 0 where
  pub exchange_name : Text
  pub queue_name : Text
  pub routing_key : Text
  pub args : Args

-- A nil map of arguments is replaced by an empty one.
unfoldable pub new_binding : Text → Text → Text → Option Args → Binding
new_binding exchange queue routing_key args = record {
  exchange_name = exchange;
  queue_name = queue;
  routing_key = routing_key;
  args = elim args [ none ↦ [] | some a ↦ a ];
}
