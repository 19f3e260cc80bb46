-- ===== src/Broker/ConsumerTests.antt =====
-- A consumer that comes and goes with its channel, and one that stays.
use gomq.Prelude.{false, ◌≡◌, List, [], ◌∷◌, codes, none}
use gomq.Broker.Consumers.{new_consumer_manager, get_consumer, get_consumers}
use gomq.Broker.ConsumerIndex.{copies, wanted}
use gomq.Broker.ConsumerLaws.{
  Call, subscribe_call, unsubscribe_call, cancel_call, run_calls, run_calls-IsIndexed,
}

abbrev calls : List Call
calls =
    subscribe_call (codes "a") (codes "q") 1 false false none
    ∷ subscribe_call (codes "b") (codes "q") 2 false false none
    ∷ unsubscribe_call (codes "c")
    ∷ cancel_call 1
    ∷ []

run_calls-IsIndexed_example :
    copies (codes "b") (get_consumers (codes "q") (run_calls calls new_consumer_manager))
    ≡ wanted (codes "q") (get_consumer (codes "b") (run_calls calls new_consumer_manager))
run_calls-IsIndexed_example = run_calls-IsIndexed calls (codes "b") (codes "q")
