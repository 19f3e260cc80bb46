-- ===== src/Broker/Cascade.antt =====
-- The cascade of UnbindAllForQueue: how many bindings each exchange keeps.
use gomq.Prelude.{
  All, ℕ, suc, ◌-◌, ◌≤◌, ◌<◌, ◌≡◌, ◌≢◌, refl, inl, inr, Bool, ◌&&◌, List, [], ◌∷◌, ◌++◌, Text, In,
  arith, Option, none, some, Option-cases, ◌==◌, text_eq, ==_iff, eq_refl, if◌then◌else◌,
}
use gomq.Routing.Binding.{Binding, Args, new_binding}
use gomq.Broker.Bindings.{
  Index, BindingManager, call_store, list_of, get_bindings, get_bindings_for_queue, is_target, cut,
  remove_from, remove_by_exchange, unbind_all_for_queue, bind, unbind,
}
use gomq.Broker.BindingLaws.{list_of-insert, unbind-by_exchange, unbind_stale}

-- How many bindings of the list lead to the queue under the key.
unfoldable pub targets : Text → Text → List Binding → ℕ
targets q k [] = 0
targets q k (b ∷ bs) = if is_target q k b then suc (targets q k bs) else targets q k bs

abbrev hit : Text → Text → Text → Binding → Bool
hit e q k b = b.exchange_name == e && is_target q k b

-- How many bindings of the list come from the exchange and lead to the queue under the key.
unfoldable pub entries : Text → Text → Text → List Binding → ℕ
entries e q k [] = 0
entries e q k (b ∷ bs) =
    if b.exchange_name == e && is_target q k b then suc (entries e q k bs) else entries e q k bs

cut-targets :
    (q k q' k' : Text) (l new : List Binding)
    → cut q k l ≡ some new
    → targets q' k' l ≡ (if q == q' && k == k' then suc (targets q' k' new) else targets q' k' new)
unfolding cut targets is_target
cut-targets q k q' k' [] new h = cc
cut-targets q k q' k' (b ∷ bs) new h = elim (Option-cases (cut q k bs)) [
  | inl o ↦ ground (
    arith,
    ==_iff b.queue_name q,
    ==_iff b.routing_key k,
    ==_iff b.queue_name q',
    ==_iff b.routing_key k',
    ==_iff q q',
    ==_iff k k',
  )
  | inr (r, o) ↦ ground (
    arith,
    cut-targets q k q' k' bs r o,
    ==_iff b.queue_name q,
    ==_iff b.routing_key k,
    ==_iff b.queue_name q',
    ==_iff b.routing_key k',
    ==_iff q q',
    ==_iff k k',
  )
]

cut-none-targets : (q k : Text) (l : List Binding) → cut q k l ≡ none → targets q k l ≡ 0
unfolding cut targets
cut-none-targets q k [] h = refl
cut-none-targets q k (b ∷ bs) h = ground (arith, cut-none-targets q k bs)

remove_from-targets :
    (b : Binding) (i : Index) (e q k : Text)
    → targets q k (list_of e (remove_from b.exchange_name b.queue_name b.routing_key i).0)
      ≡ (if hit e q k b then targets q k (list_of e i) - 1 else targets q k (list_of e i))
unfolding remove_from is_target
remove_from-targets b i e q k =
    elim (Option-cases (cut b.queue_name b.routing_key (list_of b.exchange_name i))) [
      | inl o ↦
          rw (o, remove_from)
            (ground (
              arith,
              cut-none-targets b.queue_name b.routing_key (list_of b.exchange_name i) o,
              ==_iff b.exchange_name e,
              ==_iff b.queue_name q,
              ==_iff b.routing_key k,
            ))
      | inr (l, o) ↦
          rw (o, remove_from)
            (ground (
              arith,
              list_of-insert b.exchange_name e l i,
              cut-targets b.queue_name b.routing_key q k (list_of b.exchange_name i) l o,
              ==_iff b.exchange_name e,
              ==_iff b.queue_name q,
              ==_iff b.routing_key k,
            ))
    ]

pub remove_by_exchange-targets :
    (bs : List Binding) (i : Index) (e q k : Text)
    → targets q k (list_of e (remove_by_exchange bs i))
      ≡ targets q k (list_of e i) - entries e q k bs
unfolding remove_by_exchange entries
remove_by_exchange-targets [] i e q k = omega arith
remove_by_exchange-targets (b ∷ bs) i e q k = ground (
  arith,
  remove_by_exchange-targets bs (remove_from b.exchange_name b.queue_name b.routing_key i).0 e q k,
  remove_from-targets b i e q k,
)

-- The index by queue has each binding of the index by exchange at least as often.
abbrev pub IsSynced : BindingManager → Type 0
IsSynced m =
    (e q k : Text) → targets q k (get_bindings e m) ≤ entries e q k (get_bindings_for_queue q m)

In-targets : (b : Binding) (l : List Binding) → In b l → 0 < targets b.queue_name b.routing_key l
unfolding targets is_target
In-targets b [] i = absurd i
In-targets b (c ∷ l) (inl e) =
    rw (← e) (ground (arith, eq_refl b.queue_name, eq_refl b.routing_key))
In-targets b (c ∷ l) (inr i) = ground (arith, In-targets b l i)

no_targets :
    (q e k : Text) (m : BindingManager)
    → IsSynced m
    → targets q k (get_bindings e (unbind_all_for_queue q m)) ≡ 0
unfolding get_bindings get_bindings_for_queue unbind_all_for_queue
no_targets q e k m s =
    let gone : targets q k (get_bindings e (unbind_all_for_queue q m))
        ≡ targets q k (get_bindings e m) - entries e q k (get_bindings_for_queue q m) =
      remove_by_exchange-targets (list_of q m.by_queue) m.by_exchange e q k in
    omega (arith, gone, s e q k)

-- Where the index by queue is in step, no exchange has a binding to the queue after
-- UnbindAllForQueue.
pub unbind_all_for_queue_lem :
    (queue : Text) (m : BindingManager)
    → IsSynced m
    → (exchange : Text) (b : Binding) → In b (get_bindings exchange (unbind_all_for_queue queue m))
    → b.queue_name ≢ queue
unbind_all_for_queue_lem q m s e b i n =
    let some_left = In-targets b _ i in
    absurd (omega (arith, rw n at some_left, no_targets q e b.routing_key m s))

targets_snoc :
    (q k : Text) (l : List Binding) (b : Binding)
    → targets q k (l ++ b ∷ []) ≡ (if is_target q k b then suc (targets q k l) else targets q k l)
unfolding targets
targets_snoc q k [] b = refl
targets_snoc q k (c ∷ l) b = ground (arith, targets_snoc q k l b)

entries_snoc :
    (e q k : Text) (l : List Binding) (b : Binding)
    → entries e q k (l ++ b ∷ []) ≡ (if hit e q k b then suc (entries e q k l) else entries e q k l)
unfolding entries
entries_snoc e q k [] b = refl
entries_snoc e q k (c ∷ l) b = ground (arith, entries_snoc e q k l b)

pub get_bindings-bind :
    (e q k : Text) (a : Option Args) (m : BindingManager) (e' : Text)
    → get_bindings e' (bind e q k a m).0
      ≡ (if e == e' then get_bindings e m ++ new_binding e q k a ∷ [] else get_bindings e' m)
unfolding bind get_bindings call_store
get_bindings-bind e q k a m e' =
    ground (
      arith,
      list_of-insert e e' (list_of e m.by_exchange ++ new_binding e q k a ∷ []) m.by_exchange,
    )

pub get_bindings_for_queue-bind :
    (e q k : Text) (a : Option Args) (m : BindingManager) (q' : Text)
    → get_bindings_for_queue q' (bind e q k a m).0 ≡ (
        if q == q'
        then get_bindings_for_queue q m ++ new_binding e q k a ∷ []
        else get_bindings_for_queue q' m)
unfolding bind get_bindings_for_queue call_store
get_bindings_for_queue-bind e q k a m q' =
    ground
      (arith, list_of-insert q q' (list_of q m.by_queue ++ new_binding e q k a ∷ []) m.by_queue)

-- Bind answers a binding with the names, the key and the arguments that it is given, none for nil; it
-- puts that binding at the end of its exchange's list and of its queue's list, and leaves the list of
-- every other exchange and of every other queue.
pub bind_lem :
    (e q k : Text) (a : Option Args) (m : BindingManager)
    → let b : Binding = record {
      exchange_name = e;
      queue_name = q;
      routing_key = k;
      args = elim a [ none ↦ [] | some given ↦ given ];
    } in
      ((bind e q k a m).1 ≡ b)
      × (get_bindings e (bind e q k a m).0 ≡ get_bindings e m ++ b ∷ [])
      × (get_bindings_for_queue q (bind e q k a m).0 ≡ get_bindings_for_queue q m ++ b ∷ [])
      × ((other : Text) → e ≢ other → get_bindings other (bind e q k a m).0 ≡ get_bindings other m)
      × ((other : Text)
          → q ≢ other
          → get_bindings_for_queue other (bind e q k a m).0 ≡ get_bindings_for_queue other m)
unfolding bind new_binding
bind_lem e q k a m = (
  refl,
  rw (get_bindings-bind e q k a m e, eq_refl e) refl,
  rw (get_bindings_for_queue-bind e q k a m q, eq_refl q) refl,
  λ p n. ground (arith, get_bindings-bind e q k a m p, ==_iff e p, n),
  λ p n. ground (arith, get_bindings_for_queue-bind e q k a m p, ==_iff q p, n),
)

-- Bind keeps the indices in step.
pub bind-IsSynced :
    (e q k : Text) (a : Option Args) (m : BindingManager) → IsSynced m → IsSynced (bind e q k a m).0
unfolding is_target new_binding
bind-IsSynced e q k a m s e' q' k' = ground (
  arith,
  s e' q' k',
  get_bindings-bind e q k a m e',
  get_bindings_for_queue-bind e q k a m q',
  targets_snoc q' k' (get_bindings e m) (new_binding e q k a),
  entries_snoc e' q' k' (get_bindings_for_queue q m) (new_binding e q k a),
  ==_iff e e',
  ==_iff q q',
)

get_bindings-unbind :
    (e q k : Text) (m : BindingManager)
    → (e' q' k' : Text)
    → targets q' k' (get_bindings e' (unbind e q k m).0) ≤ targets q' k' (get_bindings e' m)
unfolding get_bindings
get_bindings-unbind e q k m e' q' k' =
    let b : Binding = record { exchange_name = e; queue_name = q; routing_key = k; args = [] } in
    rw (unbind-by_exchange e q k m) (ground (arith, remove_from-targets b m.by_exchange e' q' k'))

-- Unbind keeps the indices in step, where the exchange and the queue have different names and the
-- queue's own list holds only bindings to the queue.
pub unbind-IsSynced :
    (e q k : Text) (m : BindingManager)
    → e ≢ q
    → All (λ b. b.queue_name ≡ q) (get_bindings_for_queue q m)
    → IsSynced m
    → IsSynced (unbind e q k m).0
unbind-IsSynced e q k m n a s e' q' k' =
    rw (unbind_stale e q k m a n q')
      (omega (arith, get_bindings-unbind e q k m e' q' k', s e' q' k'))
