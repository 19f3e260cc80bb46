-- ===== src/Routing/Collect.antt =====
-- The loop that the four Route methods share in shape: the queues of the bindings that pass the
-- method's test, each queue once, in the order of its first binding.
use gomq.Prelude.{Bool, List, [], ◌∷◌, ◌++◌, Text, none, some, text_eq, if◌then◌else◌}
use gomq.Prelude.GoMap.{GoMap, lookup, insert}
use gomq.Routing.Binding.{Binding}

abbrev pub Seen : Type 0
Seen = GoMap Text (Unit {0})

-- One round: `queues` and `seen` after the binding.
unfoldable pub visit : (Binding → Bool) → Binding → List Text × Seen → List Text × Seen
unfolding lookup insert
visit test b (queues, seen) =
    if test b
    then elim (lookup b.queue_name seen) [
      | some _ ↦ (queues, seen)
      | none ↦ (queues ++ b.queue_name ∷ [], insert b.queue_name tt seen)
    ]
    else (queues, seen)

unfoldable pub visit_all : (Binding → Bool) → List Binding → List Text × Seen → List Text × Seen
unfolding visit
visit_all test [] s = s
visit_all test (b ∷ bs) s = visit_all test bs (visit test b s)

unfoldable pub collect : (Binding → Bool) → List Binding → List Text
unfolding visit_all
collect test bindings = (visit_all test bindings ([], [])).0
