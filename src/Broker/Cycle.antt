-- ===== src/Broker/Cycle.antt =====
-- HasCycle against reachability in the graph of the bindings.
use gomq.Prelude.{
  ℕ, zero, suc, ◌≡◌, ◌≢◌, refl, sym, ◌∙◌, ◌⊎◌, inl, inr, true, false, List, [], ◌∷◌, Text, arith,
  In, some, ◌==◌, text_eq, ==_iff, Bool-cases, Option-cases,
}
use gomq.Prelude.GoMap.{insert, lookup_or, lookup-insert}
use gomq.Broker.E2E.{E2EManager, E2EBinding, get_bindings, Visited, Search, search_all, dfs}

-- A binding from `a` to `b`.
abbrev pub Edge : E2EManager → Text → Text → Type 0
Edge m a b = (x : E2EBinding) × In x (get_bindings a m) × (x.destination ≡ b)

-- A chain of bindings, of any length.
pub data Leads (m : E2EManager) (c : Text) : Text → Type 0 where
  stop : Leads m c c
  via : {a b : Text} → Edge m a b → Leads m c b → Leads m c a

abbrev pub Marked : Text → Visited → Type 0
Marked n v = lookup_or false n v ≡ true

Marked-insert : (n x : Text) (v : Visited) → Marked x (insert n true v) → (x ≡ n) ⊎ Marked x v
unfolding lookup_or
Marked-insert n x v h = elim (Bool-cases (n == x)) [
  | inl e ↦ inl (sym ((==_iff n x).0 e))
  | inr e ↦ inr (ground (arith, lookup-insert n x true v))
]

insert-Marked : (n x : Text) (v : Visited) → (x ≡ n) ⊎ Marked x v → Marked x (insert n true v)
unfolding lookup_or
insert-Marked n x v h = ground (arith, lookup-insert n x true v, ==_iff n x)

module _ (m : E2EManager) (s : Text) where
  -- Every chain that the search finds is there.
  search_all-true :
      (d : Text → Search)
      → ((n : Text) (v w : Visited) → d n v ≡ some (true, w) → Leads m s n)
      → (bs : List E2EBinding) (v w : Visited) → search_all d bs v ≡ some (true, w)
      → (b : E2EBinding) × In b bs × Leads m s b.destination
  unfolding search_all
  search_all-true d hd [] v w h = absurd (ground arith)
  search_all-true d hd (b ∷ bs) v w h = elim (Option-cases (d b.destination v)) [
    | inl e ↦ absurd (ground arith)
    | inr (r, e) ↦ elim (Bool-cases r.0) [
      | inl t ↦ (b, inl refl, hd b.destination v r.1 (e ∙ ground arith))
      | inr f ↦ let (c, i, l) = search_all-true d hd bs r.1 w (ground arith) in (c, inr i, l)
    ]
  ]

  pub dfs-true : (f : ℕ) (n : Text) (v w : Visited) → dfs f m s n v ≡ some (true, w) → Leads m s n
  unfolding dfs
  dfs-true zero n v w h = absurd (ground arith)
  dfs-true (suc f) n v w h = elim (Bool-cases (n == s)) [
    | inl e ↦ rw ((==_iff n s).0 e) stop
    | inr e ↦ elim (Bool-cases (lookup_or false n v)) [
      | inl k ↦ absurd (ground arith)
      | inr k ↦
          let (b, i, l) =
            search_all-true (dfs f m s) (dfs-true f) (get_bindings n m) (insert n true v) w
              (ground arith) in
          via (b, i, refl) l
    ]
  ]

  -- What a search that fails has done to the map of visited nodes.
  pub record Post (v w : Visited) : Type 0 where
    pub grows : (x : Text) → Marked x v → Marked x w
    pub closed : (x : Text) → Marked x w → Marked x v ⊎ ((y : Text) → Edge m x y → Marked y w)
    pub clean : ¬ Marked s v → ¬ Marked s w

  Post-refl : (v : Visited) → Post v v
  Post-refl v = record { grows = λ x h. h; closed = λ x h. inl h; clean = λ h. h }

  Post-trans : (u v w : Visited) → Post u v → Post v w → Post u w
  Post-trans u v w p q = record {
    grows = λ x h. q.grows x (p.grows x h);
    closed = λ x h. elim (q.closed x h) [
      | inl k ↦ elim (p.closed x k) [ inl j ↦ inl j | inr g ↦ inr (λ y e. q.grows y (g y e)) ]
      | inr g ↦ inr g
    ];
    clean = λ h. q.clean (p.clean h);
  }

  search_all-false :
      (d : Text → Search)
      → ((n : Text) (v w : Visited) → d n v ≡ some (false, w) → Post v w × Marked n w)
      → (bs : List E2EBinding) (v w : Visited) → search_all d bs v ≡ some (false, w)
      → Post v w × ((b : E2EBinding) → In b bs → Marked b.destination w)
  unfolding search_all
  search_all-false d hd [] v w h =
      let e : v ≡ w = ground arith in rw (← e) (Post-refl v, λ b i. absurd i)
  search_all-false d hd (b ∷ bs) v w h = elim (Option-cases (d b.destination v)) [
    | inl e ↦ absurd (ground arith)
    | inr (r, e) ↦ elim (Bool-cases r.0) [
      | inl t ↦ absurd (ground arith)
      | inr f ↦
          let (p, k) = hd b.destination v r.1 (e ∙ ground arith) in
          let (q, l) = search_all-false d hd bs r.1 w (ground arith) in
          (
            Post-trans v r.1 w p q,
            λ c i. elim i [ inl c≡b ↦ rw c≡b (q.grows b.destination k) | inr j ↦ l c j ],
          )
    ]
  ]

  -- Marking a node whose successors are all marked afterwards.
  Post-insert :
      (n : Text) (v w : Visited)
      → n ≢ s
      → Post (insert n true v) w
      → ((b : E2EBinding) → In b (get_bindings n m) → Marked b.destination w)
      → Post v w × Marked n w
  Post-insert n v w ne p l = (
    record {
      grows = λ x h. p.grows x (insert-Marked n x v (inr h));
      closed = λ x h. elim (p.closed x h) [
        | inl k ↦ elim (Marked-insert n x v k) [
          | inl e ↦ inr (λ y (b, i, q). rw (← q) (l b (rw (← e) i)))
          | inr j ↦ inl j
        ]
        | inr g ↦ inr g
      ];
      clean = λ h. p.clean (λ k. elim (Marked-insert n s v k) [ inl e ↦ ne (sym e) | inr j ↦ h j ]);
    },
    p.grows n (insert-Marked n n v (inl refl)),
  )

  pub dfs-false :
      (f : ℕ) (n : Text) (v w : Visited) → dfs f m s n v ≡ some (false, w) → Post v w × Marked n w
  unfolding dfs
  dfs-false zero n v w h = absurd (ground arith)
  dfs-false (suc f) n v w h = elim (Bool-cases (n == s)) [
    | inl e ↦ absurd (ground arith)
    | inr e ↦ elim (Bool-cases (lookup_or false n v)) [
      | inl k ↦ let q : v ≡ w = ground arith in rw (← q) (Post-refl v, k)
      | inr k ↦
          let (p, l) =
            search_all-false (dfs f m s) (dfs-false f) (get_bindings n m) (insert n true v) w
              (ground arith) in
          Post-insert n v w (λ q. cc ((==_iff n s).1 q)) p l
    ]
  ]

  -- A marked set that is closed under the bindings and does not hold the source.
  pub Leads-Marked :
      {n : Text} (w : Visited)
      → ((x : Text) → Marked x w → (y : Text) → Edge m x y → Marked y w)
      → Leads m s n
      → Marked n w
      → Marked s w
  Leads-Marked w c stop h = h
  Leads-Marked w c (via {b} e l) h = Leads-Marked w c l (c _ h b e)
