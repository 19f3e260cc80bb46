-- ===== src/Routing/TopicLaws.antt =====
-- The matcher decides the AMQP matching relation.
use gomq.Prelude.{
  ◌≡◌, ◌≢◌, refl, sym, ap, ◌∙◌, get_or, ◌↔◌, inl, inr, Bool, true, List, [], ◌∷◌, Text, arith, ◌==◌,
  text_eq, ==_iff, Bool-cases,
}
use mathlib.Core.Bool.{false≢true}
use gomq.Routing.Topic.{
  hash, star, split, try_suffixes, with_word, match_parts, match_topic_pattern,
}

-- Words against pattern words: `#` stands for any number of words, `*` for one, and any other word
-- for itself.
pub data Matches : List Text → List Text → Type 0 where
  done : Matches [] []
  hash_none : {p : Text} {msg pat : List Text} → p ≡ hash → Matches msg pat → Matches msg (p ∷ pat)
  hash_more :
      {p w : Text} {msg pat : List Text}
      → p ≡ hash
      → Matches msg (p ∷ pat)
      → Matches (w ∷ msg) (p ∷ pat)
  any_word :
      {p w : Text} {msg pat : List Text} → p ≡ star → Matches msg pat → Matches (w ∷ msg) (p ∷ pat)
  same_word :
      {p w : Text} {msg pat : List Text}
      → p ≢ hash
      → p ≢ star
      → w ≡ p
      → Matches msg pat
      → Matches (w ∷ msg) (p ∷ pat)

-- A matcher of the pattern `pat`.
abbrev Decides : (List Text → Bool) → List Text → Type 0
Decides match pat = (msg : List Text) → (match msg ≡ true) ↔ Matches msg pat

hash_all : (p : Text) (msg : List Text) → p ≡ hash → Matches msg (p ∷ [])
hash_all p [] e = hash_none e done
hash_all p (w ∷ msg) e = hash_more e (hash_all p msg e)

hash-ne-star : hash ≢ star
hash-ne-star e = omega (arith, ap (λ (t : Text). get_or t 0 0) e)

no_words : {p : Text} {pat : List Text} → p ≡ star → ¬ Matches [] (p ∷ pat)
no_words e (hash_none h x) = hash-ne-star (sym h ∙ e)

no_words_same : {p : Text} {pat : List Text} → p ≢ hash → ¬ Matches [] (p ∷ pat)
no_words_same n (hash_none h x) = n h

after_star :
    {p w : Text} {msg pat : List Text} → p ≡ star → Matches (w ∷ msg) (p ∷ pat) → Matches msg pat
after_star e (hash_none h x) = absurd (hash-ne-star (sym h ∙ e))
after_star e (hash_more h x) = absurd (hash-ne-star (sym h ∙ e))
after_star e (any_word _ x) = x
after_star e (same_word _ n _ x) = absurd (n e)

after_same :
    {p w : Text} {msg pat : List Text}
    → p ≢ hash
    → p ≢ star
    → Matches (w ∷ msg) (p ∷ pat)
    → (w ≡ p) × Matches msg pat
after_same n k (hash_none h x) = absurd (n h)
after_same n k (hash_more h x) = absurd (n h)
after_same n k (any_word e x) = absurd (k e)
after_same n k (same_word _ _ e x) = (e, x)

try_suffixes_sound :
    (match : List Text → Bool) (p : Text) (pat : List Text)
    → p ≡ hash
    → Decides match pat
    → (m : List Text) → try_suffixes match m ≡ true
    → Matches m (p ∷ pat)
unfolding try_suffixes
try_suffixes_sound match p pat e d [] h = hash_none e ((d []).0 h)
try_suffixes_sound match p pat e d (w ∷ m) h = elim (Bool-cases (match (w ∷ m))) [
  | inl t ↦ hash_none e ((d (w ∷ m)).0 t)
  | inr f ↦ hash_more e (try_suffixes_sound match p pat e d m (ground arith))
]

try_here : (match : List Text → Bool) (m : List Text) → match m ≡ true → try_suffixes match m ≡ true
unfolding try_suffixes
try_here match [] h = h
try_here match (w ∷ m) h = rw h

try_suffixes_complete :
    (match : List Text → Bool) {p : Text} {pat m : List Text}
    → p ≡ hash
    → Decides match pat
    → Matches m (p ∷ pat)
    → try_suffixes match m ≡ true
unfolding try_suffixes
try_suffixes_complete match {m} e d (hash_none _ x) = try_here match m ((d m).1 x)
try_suffixes_complete match e d (hash_more _ x) = ground (arith, try_suffixes_complete match e d x)
try_suffixes_complete match e d (any_word s x) = absurd (hash-ne-star (sym e ∙ s))
try_suffixes_complete match e d (same_word n _ _ x) = absurd (n e)

with_star-Matches :
    (match : List Text → Bool) (p : Text) (pat msg : List Text)
    → p ≡ star
    → Decides match pat
    → (with_word (λ w. true) match msg ≡ true) ↔ Matches msg (p ∷ pat)
unfolding with_word
with_star-Matches match p pat [] e d = (λ h. absurd (false≢true h), λ x. elim (no_words e x) [ ])
with_star-Matches match p pat (w ∷ msg) e d =
    (λ h. any_word e ((d msg).0 h), λ x. (d msg).1 (after_star e x))

with_same-Matches :
    (match : List Text → Bool) (p : Text) (pat msg : List Text)
    → p ≢ hash
    → p ≢ star
    → Decides match pat
    → (with_word (λ w. w == p) match msg ≡ true) ↔ Matches msg (p ∷ pat)
unfolding with_word
with_same-Matches match p pat [] n k d =
    (λ h. absurd (false≢true h), λ x. absurd (no_words_same n x))
with_same-Matches match p pat (w ∷ msg) n k d = (
  λ h. same_word n k ((==_iff w p).0 (ground arith)) ((d msg).0 (ground arith)),
  λ x. let (q, y) = after_same n k x in rw ((==_iff w p).1 q) ((d msg).1 y),
)

-- `#` as the last word swallows everything; elsewhere every split point is tried.
hash-Matches :
    (match : List Text → Bool) (p : Text) (pat msg : List Text)
    → p ≡ hash
    → Decides match pat
    → ((elim pat [ [] ↦ true | _ ↦ try_suffixes match msg ]) ≡ true) ↔ Matches msg (p ∷ pat)
hash-Matches match p [] msg e d = (λ h. hash_all p msg e, λ x. refl)
hash-Matches match p (q ∷ pat) msg e d =
    (try_suffixes_sound match p (q ∷ pat) e d msg, try_suffixes_complete match e d)

match_parts-Matches : (pat : List Text) → Decides (λ msg. match_parts msg pat) pat
unfolding match_parts
match_parts-Matches [] [] = (λ h. done, λ x. refl)
match_parts-Matches [] (w ∷ msg) = (λ h. absurd (false≢true h), λ x. elim x [ ])
match_parts-Matches (p ∷ pat) msg = elim (Bool-cases (p == hash)) [
  | inl h ↦ rw h (hash-Matches _ p pat msg ((==_iff p hash).0 h) (match_parts-Matches pat))
  | inr h ↦ elim (Bool-cases (p == star)) [
    | inl s ↦
        rw (h, s) (with_star-Matches _ p pat msg ((==_iff p star).0 s) (match_parts-Matches pat))
    | inr s ↦
        rw (h, s)
          (with_same-Matches _ p pat msg (λ e. cc ((==_iff p hash).1 e))
            (λ e. cc ((==_iff p star).1 e)) (match_parts-Matches pat))
  ]
]

-- The matcher answers true exactly where the words of the routing key match the words of the
-- pattern in the AMQP sense.
pub match_topic_pattern_iff :
    (msg_parts : List Text) (pattern : Text)
    → (match_topic_pattern msg_parts pattern ≡ true) ↔ Matches msg_parts (split pattern)
unfolding match_topic_pattern split
match_topic_pattern_iff msg_parts pattern = elim (Bool-cases (pattern == hash)) [
  | inl h ↦ rw (h, (==_iff pattern hash).0 h) (λ _. hash_all hash msg_parts refl, λ _. refl)
  | inr h ↦ rw h (match_parts-Matches (split pattern) msg_parts)
]
