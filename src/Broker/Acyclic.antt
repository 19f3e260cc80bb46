-- ===== src/Broker/Acyclic.antt =====
-- The graph of the exchange-to-exchange bindings stays without cycles.
use gomq.Prelude.{
  ◌≡◌, refl, sym, ap, ◌∙◌, ◌⊎◌, inl, inr, false, List, [], ◌∷◌, ◌++◌, Text, arith, In, In-append,
  Option, some, Option-cases, ok, ◌==◌, text_eq, ==_iff, Bool-cases, if◌then◌else◌,
}
use gomq.Prelude.GoMap.{lookup, insert, remove, lookup_or, lookup-insert, lookup-remove}
use gomq.Routing.Binding.{Args}
use gomq.Broker.E2E.{
  E2EManager, E2EBinding, get_bindings, is_same, new_e2e_binding, find_same, bind, remove_same,
  unbind, keep_others, keep_others_all, unbind_all_for_exchange, has_cycle,
}
use gomq.Broker.Cycle.{Edge, Leads, stop, via}
use gomq.Broker.CycleFuel.{has_cycle_iff}

-- No chain of bindings leads from the end of a binding back to its start.
abbrev pub IsAcyclic : E2EManager → Type 0
IsAcyclic m = (a b : Text) → Edge m a b → ¬ Leads m a b

-- Every binding of the second manager is one of the first.
abbrev Fewer : E2EManager → E2EManager → Type 0
Fewer m m' = (a b : Text) → Edge m' a b → Edge m a b

Leads-Fewer : (m m' : E2EManager) {c a : Text} → Fewer m m' → Leads m' c a → Leads m c a
Leads-Fewer m m' f stop = stop
Leads-Fewer m m' f (via {a} {b} e l) = via (f a b e) (Leads-Fewer m m' f l)

IsAcyclic-Fewer : (m m' : E2EManager) → Fewer m m' → IsAcyclic m → IsAcyclic m'
IsAcyclic-Fewer m m' f k a b e l = k a b (f a b e) (Leads-Fewer m m' f l)

Leads-trans : (m : E2EManager) {b a c : Text} → Leads m b a → Leads m c b → Leads m c a
Leads-trans m stop k = k
Leads-trans m (via e l) k = via e (Leads-trans m l k)

get_bindings-insert :
    (src a : Text) (l : List E2EBinding) (m : E2EManager)
    → get_bindings a (insert src l m) ≡ (if src == a then l else get_bindings a m)
unfolding get_bindings lookup_or
get_bindings-insert src a l m = ground (arith, lookup-insert src a l m)

bind-Edge :
    (src dst key : Text) (args : Option Args) (m : E2EManager) (a b : Text)
    → Edge (bind src dst key args m).0 a b
    → Edge m a b ⊎ ((a ≡ src) × (b ≡ dst))
unfolding bind new_e2e_binding
bind-Edge src dst key args m a b (x, i, e) =
    elim (Option-cases (find_same dst key (get_bindings src m))) [
      | inr (y, o) ↦ inl (x, rw (o, bind) at i, e)
      | inl o ↦
          let new = new_e2e_binding src dst key args in
          let j : In x (get_bindings a (insert src (get_bindings src m ++ new ∷ []) m)) =
            rw (o, bind) at i in
          let k = rw (get_bindings-insert src a (get_bindings src m ++ new ∷ []) m) at j in
          elim (Bool-cases (src == a)) [
            | inl t ↦
                let q : src ≡ a = (==_iff src a).0 t in
                elim (In-append x (get_bindings src m) (new ∷ []) (rw t at k)) [
                  | inl l ↦ inl (x, rw q at l, e)
                  | inr (inl l) ↦ inr (sym q, sym e ∙ ap (λ y. y.destination) l)
                  | inr (inr l) ↦ absurd l
                ]
            | inr f ↦ inl (x, rw f at k, e)
          ]
    ]

In-remove_same :
    (dst key : Text) (l r : List E2EBinding) (x : E2EBinding)
    → remove_same dst key l ≡ some r
    → In x r
    → In x l
unfolding remove_same
In-remove_same dst key [] r x h i = cc
In-remove_same dst key (b ∷ l) r x h i = elim (Bool-cases (is_same dst key b)) [
  | inl t ↦ let q : l ≡ r = cc (rw (t, remove_same) at h) in inr (rw q i)
  | inr f ↦ elim (Option-cases (remove_same dst key l)) [
    | inl o ↦ cc (rw (f, remove_same, o) at h)
    | inr (r', o) ↦
        let q : b ∷ r' ≡ r = cc (rw (f, remove_same, o) at h) in
        let j : In x (b ∷ r') = rw (← q) at i in
        elim j [ inl e ↦ inl e | inr j ↦ inr (In-remove_same dst key l r' x o j) ]
  ]
]

In-keep_others :
    (ex : Text) (l : List E2EBinding) (x : E2EBinding) → In x (keep_others ex l) → In x l
unfolding keep_others
In-keep_others ex [] x i = i
In-keep_others ex (b ∷ l) x i = elim (Bool-cases (b.destination == ex)) [
  | inl t ↦ inr (In-keep_others ex l x (rw (t, keep_others) at i))
  | inr f ↦ elim (rw (f, keep_others) at i) [
    | inl e ↦ inl e
    | inr j ↦ inr (In-keep_others ex l x j)
  ]
]

get_bindings-keep_others_all :
    (ex a : Text) (m : E2EManager)
    → get_bindings a (keep_others_all ex m) ≡ keep_others ex (get_bindings a m)
unfolding get_bindings keep_others_all lookup_or lookup keep_others
get_bindings-keep_others_all ex a [] = refl
get_bindings-keep_others_all ex a ((k, l) ∷ m) = ground (arith, get_bindings-keep_others_all ex a m)

get_bindings-remove :
    (ex a : Text) (m : E2EManager)
    → get_bindings a (remove ex m) ≡ (if ex == a then [] else get_bindings a m)
unfolding get_bindings lookup_or
get_bindings-remove ex a m = ground (arith, lookup-remove ex a m)

unbind_all_for_exchange-Fewer :
    (ex : Text) (m : E2EManager) → Fewer m (unbind_all_for_exchange ex m)
unfolding unbind_all_for_exchange
unbind_all_for_exchange-Fewer ex m a b (x, i, e) =
    let j = rw (get_bindings-keep_others_all ex a (remove ex m)) at i in
    let k = In-keep_others ex (get_bindings a (remove ex m)) x j in
    let l = rw (get_bindings-remove ex a m) at k in
    elim (Bool-cases (ex == a)) [ inl t ↦ absurd (rw t at l) | inr f ↦ (x, rw f at l, e) ]

unbind-Fewer : (src dst key : Text) (m m' : E2EManager) → unbind src dst key m ≡ ok m' → Fewer m m'
unfolding unbind
unbind-Fewer src dst key m m' h a b (x, i, e) =
    elim (Option-cases (remove_same dst key (get_bindings src m))) [
      | inl o ↦ cc (rw (o, unbind) at h)
      | inr (r, o) ↦
          let q : insert src r m ≡ m' = cc (rw (o, unbind) at h) in
          let j : In x (get_bindings a (insert src r m)) = rw q i in
          let k = rw (get_bindings-insert src a r m) at j in
          elim (Bool-cases (src == a)) [
            | inl t ↦
                let p : src ≡ a = (==_iff src a).0 t in
                (x, rw (← p) (In-remove_same dst key (get_bindings src m) r x o (rw t at k)), e)
            | inr f ↦ (x, rw f at k, e)
          ]
    ]

pub unbind_all_for_exchange-IsAcyclic :
    (ex : Text) (m : E2EManager) → IsAcyclic m → IsAcyclic (unbind_all_for_exchange ex m)
unbind_all_for_exchange-IsAcyclic ex m =
    IsAcyclic-Fewer m (unbind_all_for_exchange ex m) (unbind_all_for_exchange-Fewer ex m)

pub unbind-IsAcyclic :
    (src dst key : Text) (m m' : E2EManager)
    → unbind src dst key m ≡ ok m'
    → IsAcyclic m
    → IsAcyclic m'
unbind-IsAcyclic src dst key m m' h = IsAcyclic-Fewer m m' (unbind-Fewer src dst key m m' h)

-- A chain of the new graph is one of the old, or goes through the new binding.
bind-Leads :
    (src dst key : Text) (args : Option Args) (m : E2EManager) {c a : Text}
    → Leads (bind src dst key args m).0 c a
    → Leads m c a ⊎ (Leads m src a × Leads m c dst)
bind-Leads src dst key args m stop = inl stop
bind-Leads src dst key args m (via {a} {b} e l) = elim (bind-Leads src dst key args m l) [
  | inl k ↦ elim (bind-Edge src dst key args m a b e) [
    | inl f ↦ inl (via f k)
    | inr (p, q) ↦ inr (rw p stop, rw (← q) k)
  ]
  | inr (k, k') ↦ elim (bind-Edge src dst key args m a b e) [
    | inl f ↦ inr (via f k, k')
    | inr (p, q) ↦ inr (rw p stop, k')
  ]
]

pub bind-IsAcyclic :
    (src dst key : Text) (args : Option Args) (m : E2EManager)
    → has_cycle src dst m ≡ some false
    → IsAcyclic m
    → IsAcyclic (bind src dst key args m).0
bind-IsAcyclic src dst key args m h k a b e l =
    let (answer, p, iff) = has_cycle_iff m src dst in
    let none_back : ¬ Leads m src dst = λ c. cc (iff.1 c, sym p ∙ h) in
    elim (bind-Edge src dst key args m a b e) [
      | inl f ↦ elim (bind-Leads src dst key args m l) [
        | inl j ↦ k a b f j
        | inr (j, j') ↦ none_back (Leads-trans m j' (via f j))
      ]
      | inr (p, q) ↦ elim (bind-Leads src dst key args m l) [
        | inl j ↦ none_back (rw (← p, ← q) j)
        | inr (j, j') ↦ none_back (rw (← q) j)
      ]
    ]
