-- ===== src/Routing/CollectLaws.antt =====
-- What the loop of the Route methods collects: each queue that a passing binding leads to, once.
use gomq.Prelude.{
  In-append, ◌≡◌, refl, sym, ◌↔◌, inl, inr, ◌⊎◌, Bool, true, false, List, [], ◌∷◌, ◌++◌, Text, In,
  arith, some, ◌==◌, text_eq, ==_iff, Bool-cases, Option-cases,
}
use gomq.Prelude.GoMap.{lookup, insert, lookup-insert}
use gomq.Routing.Binding.{Binding}
use gomq.Routing.Collect.{Seen, visit, visit_all, collect}

-- No queue stands twice.
abbrev pub Distinct : List Text → Type 0
Distinct [] = Unit
Distinct (q ∷ qs) = ¬ In q qs × Distinct qs

-- A binding in the list that passes the test and leads to the queue.
abbrev pub Reached : (Binding → Bool) → List Binding → Text → Type 0
Reached test bindings q = (b : Binding) × In b bindings × (test b ≡ true) × (b.queue_name ≡ q)

In-append-left : (q : Text) (xs ys : List Text) → In q xs → In q (xs ++ ys)
In-append-left q (x ∷ xs) ys (inl e) = inl e
In-append-left q (x ∷ xs) ys (inr i) = inr (In-append-left q xs ys i)
In-append-left q [] ys i = absurd i

In-append-right : (q : Text) (xs ys : List Text) → In q ys → In q (xs ++ ys)
In-append-right q [] ys i = i
In-append-right q (x ∷ xs) ys i = inr (In-append-right q xs ys i)

Distinct-snoc : (q : Text) (xs : List Text) → Distinct xs → ¬ In q xs → Distinct (xs ++ q ∷ [])
Distinct-snoc q [] d n = (λ i. i, tt)
Distinct-snoc q (x ∷ xs) d n = (
  λ i. elim (In-append x xs (q ∷ []) i) [
    | inl j ↦ d.0 j
    | inr j ↦ elim j [ inl e ↦ n (inl (sym e)) | inr k ↦ absurd k ]
  ],
  Distinct-snoc q xs d.1 (λ i. n (inr i)),
)

-- The map of seen queues holds exactly the queues of the list.
record Inv (s : List Text × Seen) : Type 0 where
  distinct : Distinct s.0
  known : (q : Text) → In q s.0 → lookup q s.1 ≡ some tt
  listed : (q : Text) → lookup q s.1 ≡ some tt → In q s.0

-- What a round does to a state that satisfies the invariant.
data Round (test : Binding → Bool) (b : Binding) (s : List Text × Seen) : Type 0 where
  skipped : test b ≡ false → visit test b s ≡ s → Round test b s
  repeated : test b ≡ true → In b.queue_name s.0 → visit test b s ≡ s → Round test b s
  added :
      test b ≡ true
      → ¬ In b.queue_name s.0
      → visit test b s ≡ (s.0 ++ b.queue_name ∷ [], insert b.queue_name tt s.1)
      → Round test b s

visit-Round : (test : Binding → Bool) (b : Binding) (s : List Text × Seen) → Inv s → Round test b s
unfolding visit
visit-Round test b s v = elim (Bool-cases (test b)) [
  | inl t ↦ elim (Option-cases (lookup b.queue_name s.1)) [
    | inl e ↦ added t (λ i. cc (v.known b.queue_name i)) (rw (t, e, visit))
    | inr (u, e) ↦ repeated t (v.listed b.queue_name e) (rw (t, e, visit))
  ]
  | inr t ↦ skipped t (rw t)
]

insert-Inv :
    (q : Text) (s : List Text × Seen) → Inv s → ¬ In q s.0 → Inv (s.0 ++ q ∷ [], insert q tt s.1)
insert-Inv q s v n = record {
  distinct = Distinct-snoc q s.0 v.distinct n;
  known = λ p i. rw (lookup-insert q p tt s.1) (elim (In-append p s.0 (q ∷ []) i) [
    | inl j ↦ ground (arith, v.known p j)
    | inr j ↦ elim j [ inl e ↦ ground (arith, ==_iff q p) | inr k ↦ absurd k ]
  ]);
  listed = λ p e. elim (Bool-cases (q == p)) [
    | inl h ↦ In-append-right p s.0 (q ∷ []) (inl (sym ((==_iff q p).0 h)))
    | inr h ↦ In-append-left p s.0 (q ∷ []) (v.listed p (ground (arith, lookup-insert q p tt s.1)))
  ];
}

visit-Inv :
    (test : Binding → Bool) (b : Binding) (s : List Text × Seen) → Inv s → Inv (visit test b s)
visit-Inv test b s v = elim (visit-Round test b s v) [
  | skipped t e ↦ rw e v
  | repeated t i e ↦ rw e v
  | added t n e ↦ rw e (insert-Inv b.queue_name s v n)
]

visit_sound :
    (test : Binding → Bool) (b : Binding) (s : List Text × Seen) (q : Text)
    → Inv s
    → In q (visit test b s).0
    → In q s.0 ⊎ ((test b ≡ true) × (b.queue_name ≡ q))
visit_sound test b s q v i = elim (visit-Round test b s v) [
  | skipped t e ↦ inl (rw e at i)
  | repeated t j e ↦ inl (rw e at i)
  | added t n e ↦ elim (In-append q s.0 (b.queue_name ∷ []) (rw e at i)) [
    | inl j ↦ inl j
    | inr j ↦ elim j [ inl p ↦ inr (t, sym p) | inr k ↦ absurd k ]
  ]
]

visit_complete :
    (test : Binding → Bool) (b : Binding) (s : List Text × Seen) (q : Text)
    → Inv s
    → In q s.0 ⊎ ((test b ≡ true) × (b.queue_name ≡ q))
    → In q (visit test b s).0
visit_complete test b s q v h = elim (visit-Round test b s v) [
  | skipped t e ↦ elim h [ inl i ↦ rw e i | inr (t', p) ↦ cc ]
  | repeated t j e ↦ elim h [ inl i ↦ rw e i | inr (t', p) ↦ rw (e, ← p) j ]
  | added t n e ↦ elim h [
    | inl i ↦ rw e (In-append-left q s.0 (b.queue_name ∷ []) i)
    | inr (t', p) ↦ rw e (In-append-right q s.0 (b.queue_name ∷ []) (inl (sym p)))
  ]
]

visit_all-Inv :
    (test : Binding → Bool) (bs : List Binding) (s : List Text × Seen)
    → Inv s
    → Inv (visit_all test bs s)
unfolding visit_all
visit_all-Inv test [] s v = v
visit_all-Inv test (b ∷ bs) s v = visit_all-Inv test bs (visit test b s) (visit-Inv test b s v)

visit_all_sound :
    (test : Binding → Bool) (bs : List Binding) (s : List Text × Seen) (q : Text)
    → Inv s
    → In q (visit_all test bs s).0
    → In q s.0 ⊎ Reached test bs q
unfolding visit_all
visit_all_sound test [] s q v i = inl i
visit_all_sound test (b ∷ bs) s q v i =
    elim (visit_all_sound test bs (visit test b s) q (visit-Inv test b s v) i) [
      | inl j ↦ elim (visit_sound test b s q v j) [
        | inl k ↦ inl k
        | inr (t, e) ↦ inr (b, inl refl, t, e)
      ]
      | inr (b', j, t, e) ↦ inr (b', inr j, t, e)
    ]

visit_all-grows :
    (test : Binding → Bool) (bs : List Binding) (s : List Text × Seen) (q : Text)
    → Inv s
    → In q s.0
    → In q (visit_all test bs s).0
unfolding visit_all
visit_all-grows test [] s q v i = i
visit_all-grows test (b ∷ bs) s q v i =
    visit_all-grows test bs (visit test b s) q (visit-Inv test b s v)
      (visit_complete test b s q v (inl i))

visit_all_complete :
    (test : Binding → Bool) (bs : List Binding) (s : List Text × Seen) (q : Text) (b : Binding)
    → Inv s
    → In b bs
    → test b ≡ true
    → b.queue_name ≡ q
    → In q (visit_all test bs s).0
unfolding visit_all
visit_all_complete test [] s q b v i t e = absurd i
visit_all_complete test (c ∷ bs) s q b v (inl p) t e =
    visit_all-grows test bs (visit test c s) q (visit-Inv test c s v)
      (visit_complete test c s q v (inr (rw (← p) t, rw (← p) e)))
visit_all_complete test (c ∷ bs) s q b v (inr i) t e =
    visit_all_complete test bs (visit test c s) q b (visit-Inv test c s v) i t e

start-Inv : Inv ([], [])
unfolding lookup
start-Inv = record { distinct = tt; known = λ q i. absurd i; listed = λ q e. cc }

-- The queues that the loop returns are distinct, and are exactly those that a passing binding
-- leads to.
pub record IsRoute (test : Binding → Bool) (bindings : List Binding) (queues : List Text)
    : Type 0 where
  pub distinct : Distinct queues
  pub exact : (q : Text) → In q queues ↔ Reached test bindings q

pub collect-IsRoute :
    (test : Binding → Bool) (bindings : List Binding)
    → IsRoute test bindings (collect test bindings)
unfolding collect
collect-IsRoute test bindings = record {
  distinct = (visit_all-Inv test bindings ([], []) start-Inv).distinct;
  exact = λ q. (
    λ i. elim (visit_all_sound test bindings ([], []) q start-Inv i) [
      | inl j ↦ absurd j
      | inr r ↦ r
    ],
    λ (b, i, t, e). visit_all_complete test bindings ([], []) q b start-Inv i t e,
  );
}
