-- ===== src/Routing/Tests.antt =====
-- Runs of the exchange types on small lists of bindings.
use gomq.Prelude.{
  ◌++◌, ◌≡◌, ◌≢◌, refl, inl, ◌↔◌, true, [], ◌∷◌, Text, codes, In, some, ◌==◌, nat_eq, text_eq,
  text_beq,
}
use gomq.Prelude.GoMap.{lookup}
use gomq.Amqp.Signed.{pos}
use gomq.Routing.Binding.{Args, Binding, int, string, bool}
use gomq.Routing.CollectLaws.{Distinct}
use gomq.Routing.Topic.{split, match_topic_pattern}
use gomq.Routing.TopicLaws.{Matches, match_topic_pattern_iff}
use gomq.Routing.Headers.{FloatOps, any_mode, x_match, match_headers}
use gomq.Routing.HeaderValues.{IsAny}
use gomq.Routing.HeadersLaws.{match_headers-zero}
use gomq.Routing.Exchange.{topic_exchange, route}
use gomq.Routing.ExchangeLaws.{Accepts, route_exact}

-- A float64 by its bits, compared as bits; no float stands in the runs.
abbrev ops : FloatOps
ops = record { float_eq = λ a b. a == b; of_int = λ z. 0; of_uint = λ n. n }

abbrev logs : Binding
logs = record {
  exchange_name = codes "e";
  queue_name = codes "logs";
  routing_key = codes "*.log";
  args = [];
}

abbrev audit : Binding
audit = record {
  exchange_name = codes "e";
  queue_name = codes "audit";
  routing_key = codes "db.#";
  args = [];
}

abbrev again : Binding
again = record {
  exchange_name = codes "e";
  queue_name = codes "logs";
  routing_key = codes "#";
  args = [];
}

route_exact_example :
    Distinct (route ops topic_exchange (codes "db.log") [] (logs ∷ audit ∷ again ∷ []))
    × ((q : Text)
        → In q (route ops topic_exchange (codes "db.log") [] (logs ∷ audit ∷ again ∷ [])) ↔ (
            (b : Binding) × In b (logs ∷ audit ∷ again ∷ [])
            × Accepts ops topic_exchange (codes "db.log") [] b
            × (b.queue_name ≡ q)))
route_exact_example = route_exact ops topic_exchange (codes "db.log") [] (logs ∷ audit ∷ again ∷ [])

match_topic_pattern_iff_example :
    (match_topic_pattern (split (codes "a.b.c")) (codes "#.c.#") ≡ true)
    ↔ Matches (split (codes "a.b.c")) (split (codes "#.c.#"))
match_topic_pattern_iff_example = match_topic_pattern_iff (split (codes "a.b.c")) (codes "#.c.#")

abbrev asked : Args
asked = (x_match, string any_mode) ∷ (codes "k", bool true) ∷ []

abbrev told : Args
told = (codes "k", int (pos 0)) ∷ []

k-ne : codes "k" ≢ x_match
k-ne e = cc

k-told : lookup (codes "k") told ≡ some (int (pos 0))
unfolding lookup text_beq
k-told = refl

k-IsAny : IsAny (asked ++ (codes "k", string (codes "yes")) ∷ [])
unfolding lookup text_beq
k-IsAny = refl

match_headers-zero_example :
    match_headers ops told (asked ++ (codes "k", string (codes "yes")) ∷ []) ≡ true
match_headers-zero_example =
    match_headers-zero ops (codes "k") (codes "yes") told asked [] k-ne (inl k-told) (inl k-IsAny)
