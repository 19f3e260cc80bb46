-- ===== src/Routing/Topic.antt =====
-- internal/server/exchange_topic.go: matching of routing keys, word by word.
use gomq.Prelude.{
  Bool, true, false, List, [], ◌∷◌, ◌++◌, Text, ◌==◌, nat_eq, text_eq, if◌then◌else◌,
}

abbrev pub hash : Text
hash = b'#' ∷ []

abbrev pub star : Text
star = b'*' ∷ []

-- The rest of strings.Split(s, "."), with the word that is being read.
unfoldable pub split_from : Text → Text → List Text
split_from word [] = word ∷ []
split_from word (c ∷ s) =
    if c == b'.' then word ∷ split_from [] s else split_from (word ++ c ∷ []) s

-- strings.Split(s, ".")
unfoldable pub split : Text → List Text
unfolding split_from
split s = split_from [] s

-- The loop over the split points for `#`: the whole of `msg` first, then what is left of it.
unfoldable pub try_suffixes : (List Text → Bool) → List Text → Bool
try_suffixes match [] = match []
try_suffixes match (w ∷ msg) = if match (w ∷ msg) then true else try_suffixes match msg

-- What a case does with the first word of the message.
unfoldable pub with_word : (Text → Bool) → (List Text → Bool) → List Text → Bool
with_word accepts match [] = false
with_word accepts match (w ∷ msg) = if accepts w then match msg else false

unfoldable pub match_parts : List Text → List Text → Bool
unfolding try_suffixes with_word
match_parts msg [] = elim msg [ [] ↦ true | _ ↦ false ]
match_parts msg (p ∷ pat) =
    if p == hash
    then elim pat [ [] ↦ true | _ ↦ try_suffixes (λ m. match_parts m pat) msg ]
    else if p == star
    then with_word (λ w. true) (λ m. match_parts m pat) msg
    else with_word (λ w. w == p) (λ m. match_parts m pat) msg

unfoldable pub match_topic_pattern : List Text → Text → Bool
unfolding split match_parts
match_topic_pattern msg_parts pattern =
    if pattern == hash then true else match_parts msg_parts (split pattern)
