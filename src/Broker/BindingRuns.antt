-- ===== src/Broker/BindingRuns.antt =====
-- The two indices of binding_manager.go along any calls of its operations.
use gomq.Prelude.{
  Bool, All, All-append, ◌≡◌, ◌≢◌, refl, sym, ◌∙◌, inl, inr, List, [], ◌∷◌, Text, arith, Option,
  none, some, Option-cases, Bool-cases, ◌==◌, text_eq, ==_iff, if◌then◌else◌,
}
use gomq.Prelude.GoMap.{lookup, lookup_or, remove, lookup-remove}
use gomq.Routing.Binding.{Binding, Args, new_binding}
use gomq.Broker.Bindings.{
  Index, BindingManager, new_binding_manager_with_store, list_of, get_bindings,
  get_bindings_for_queue, is_target, cut, remove_from, remove_by_queue, unbind_all_for_exchange,
  remove_by_exchange, unbind_all_for_queue, bind, unbind,
}
use gomq.Broker.BindingLaws.{list_of-insert, unbind-by_exchange, unbind_stale, no_cut}
use gomq.Broker.Cascade.{
  IsSynced, targets, bind-IsSynced, unbind-IsSynced, get_bindings-bind, get_bindings_for_queue-bind,
  remove_by_exchange-targets,
}

-- What the calls keep: the index by queue has what the index by exchange has, a queue's list holds
-- bindings to that queue, and no exchange is bound to a queue of its own name.
pub record IsKept (m : BindingManager) : Type 0 where
  pub synced : IsSynced m
  pub own_queue : (q : Text) → All (λ b. b.queue_name ≡ q) (get_bindings_for_queue q m)
  pub apart : (e : Text) → All (λ b. (b.exchange_name ≡ e) × (b.queue_name ≢ e)) (get_bindings e m)

new-IsKept : (s : Bool) → IsKept (new_binding_manager_with_store s)
unfolding new_binding_manager_with_store get_bindings get_bindings_for_queue list_of lookup_or
    lookup targets
new-IsKept s = record { synced = λ e q k. omega arith; own_queue = λ q. tt; apart = λ e. tt }

bind-IsKept :
    (e q k : Text) (a : Option Args) (m : BindingManager)
    → e ≢ q
    → IsKept m
    → IsKept (bind e q k a m).0
unfolding new_binding
bind-IsKept e q k a m n i = record {
  synced = bind-IsSynced e q k a m i.synced;
  own_queue = λ p. elim (Bool-cases (q == p)) [
    | inl y ↦
        let same : q ≡ p = (==_iff q p).0 y in
        rw (get_bindings_for_queue-bind e q k a m p, y)
          (All-append (λ b. b.queue_name ≡ p) (get_bindings_for_queue q m) _
            (rw (← same) (i.own_queue q)) (same, tt))
    | inr f ↦ rw (get_bindings_for_queue-bind e q k a m p, f) (i.own_queue p)
  ];
  apart = λ p. elim (Bool-cases (e == p)) [
    | inl y ↦
        let same : e ≡ p = (==_iff e p).0 y in
        rw (get_bindings-bind e q k a m p, y)
          (All-append (λ b. (b.exchange_name ≡ p) × (b.queue_name ≢ p)) (get_bindings e m) _
            (rw (← same) (i.apart e)) ((same, λ z. n (same ∙ sym z)), tt))
    | inr f ↦ rw (get_bindings-bind e q k a m p, f) (i.apart p)
  ];
}

All-cut :
    (P : Binding → Type 0) (q k : Text) (l new : List Binding)
    → cut q k l ≡ some new
    → All P l
    → All P new
unfolding cut
All-cut P q k [] new h a = cc
All-cut P q k (b ∷ bs) new h a = elim (Bool-cases (is_target q k b)) [
  | inl t ↦ let same : bs ≡ new = cc (rw (t, cut) at h) in rw (← same) a.1
  | inr f ↦ elim (Option-cases (cut q k bs)) [
    | inl o ↦ cc (rw (f, cut, o) at h)
    | inr (r, o) ↦
        let same : b ∷ r ≡ new = cc (rw (f, cut, o) at h) in
        rw (← same) (a.0, All-cut P q k bs r o a.1)
  ]
]

remove_from-All :
    (P : Text → Binding → Type 0) (key q k : Text) (i : Index)
    → ((e : Text) → All (P e) (list_of e i))
    → (e : Text) → All (P e) (list_of e (remove_from key q k i).0)
unfolding remove_from
remove_from-All P key q k i a e = elim (Option-cases (cut q k (list_of key i))) [
  | inl o ↦ rw (o, remove_from) (a e)
  | inr (l, o) ↦ elim (Bool-cases (key == e)) [
    | inl y ↦
        rw (o, remove_from, list_of-insert key e l i, y)
          (All-cut (P e) q k (list_of key i) l o (rw (← (==_iff key e).0 y) (a key)))
    | inr f ↦ rw (o, remove_from, list_of-insert key e l i, f) (a e)
  ]
]

unbind-IsKept : (e q k : Text) (m : BindingManager) → e ≢ q → IsKept m → IsKept (unbind e q k m).0
unfolding get_bindings
unbind-IsKept e q k m n i = record {
  synced = unbind-IsSynced e q k m n (i.own_queue q) i.synced;
  own_queue = λ p. rw (unbind_stale e q k m (i.own_queue q) n p) (i.own_queue p);
  apart = λ p. rw (unbind-by_exchange e q k m) (
      remove_from-All (λ p b. (b.exchange_name ≡ p) × (b.queue_name ≢ p)) e q k m.by_exchange
        i.apart p);
}

remove_by_exchange-All :
    (P : Text → Binding → Type 0) (bs : List Binding) (i : Index)
    → ((e : Text) → All (P e) (list_of e i))
    → (e : Text) → All (P e) (list_of e (remove_by_exchange bs i))
unfolding remove_by_exchange
remove_by_exchange-All P [] i a = a
remove_by_exchange-All P (b ∷ bs) i a =
    remove_by_exchange-All P bs _ (remove_from-All P b.exchange_name b.queue_name b.routing_key i a)

list_of-remove :
    (k j : Text) (i : Index) → list_of j (remove k i) ≡ (if k == j then [] else list_of j i)
unfolding list_of lookup_or
list_of-remove k j i = ground (arith, lookup-remove k j i)

unbind_all_for_queue-IsKept :
    (q : Text) (m : BindingManager) → IsKept m → IsKept (unbind_all_for_queue q m)
unfolding unbind_all_for_queue get_bindings get_bindings_for_queue
unbind_all_for_queue-IsKept q m i = record {
  synced = λ e p k.
      let left = remove_by_exchange-targets (list_of q m.by_queue) m.by_exchange e p k in
      elim (Bool-cases (q == p)) [
        | inl y ↦
            let same : q ≡ p = (==_iff q p).0 y in rw left (rw same (omega (arith, i.synced e p k)))
        | inr f ↦ rw (left, list_of-remove q p m.by_queue, f) (omega (arith, i.synced e p k))
      ];
  own_queue = λ p. elim (Bool-cases (q == p)) [
    | inl y ↦ rw (list_of-remove q p m.by_queue, y) tt
    | inr f ↦ rw (list_of-remove q p m.by_queue, f) (i.own_queue p)
  ];
  apart =
      remove_by_exchange-All (λ p b. (b.exchange_name ≡ p) × (b.queue_name ≢ p))
        (list_of q m.by_queue) m.by_exchange i.apart;
}

others :
    (q e : Text) (l : List Binding)
    → q ≢ e
    → All (λ b. b.queue_name ≡ q) l
    → All (λ b. b.queue_name ≢ e) l
others q e [] n a = tt
others q e (b ∷ bs) n a = (λ z. n (sym a.0 ∙ z), others q e bs n a.1)

remove_from-none :
    (key q k : Text) (i : Index) → cut q k (list_of key i) ≡ none → (remove_from key q k i).0 ≡ i
unfolding remove_from
remove_from-none key q k i o = rw (o, remove_from) refl

-- The loop of UnbindAllForExchange looks under the exchange's name for a queue, and finds none.
remove_by_queue-same :
    (e : Text) (bs : List Binding) (i : Index)
    → ((q : Text) → All (λ b. b.queue_name ≡ q) (list_of q i))
    → All (λ b. (b.exchange_name ≡ e) × (b.queue_name ≢ e)) bs
    → remove_by_queue bs i ≡ i
unfolding remove_by_queue
remove_by_queue-same e [] i o a = refl
remove_by_queue-same e (b ∷ bs) i o a =
    let nothing = no_cut b.exchange_name b.routing_key (list_of b.queue_name i) (
      others b.queue_name b.exchange_name (list_of b.queue_name i) (λ z. a.0.1 (z ∙ a.0.0))
        (o b.queue_name)) in
    rw (remove_by_queue, remove_from-none b.queue_name b.exchange_name b.routing_key i nothing)
      (remove_by_queue-same e bs i o a.1)

unbind_all_for_exchange-IsKept :
    (e : Text) (m : BindingManager) → IsKept m → IsKept (unbind_all_for_exchange e m)
unfolding unbind_all_for_exchange get_bindings get_bindings_for_queue targets
unbind_all_for_exchange-IsKept e m i =
    let same =
      remove_by_queue-same e (list_of e m.by_exchange) m.by_queue i.own_queue (i.apart e) in
    record {
      synced = λ p q k. elim (Bool-cases (e == p)) [
        | inl y ↦ rw (list_of-remove e p m.by_exchange, y) (omega arith)
        | inr f ↦ rw (list_of-remove e p m.by_exchange, f, same) (i.synced p q k)
      ];
      own_queue = λ q. rw same (i.own_queue q);
      apart = λ p. elim (Bool-cases (e == p)) [
        | inl y ↦ rw (list_of-remove e p m.by_exchange, y) tt
        | inr f ↦ rw (list_of-remove e p m.by_exchange, f) (i.apart p)
      ];
    }

-- The managers that the operations lead to, where no exchange is bound to a queue of its own name or
-- unbound from it.
pub data Reached : BindingManager → Type 0 where
  made : (has_store : Bool) → Reached (new_binding_manager_with_store has_store)
  bound :
      (exchange queue key : Text) (args : Option Args) {m : BindingManager}
      → exchange ≢ queue
      → Reached m
      → Reached (bind exchange queue key args m).0
  unbound :
      (exchange queue key : Text) {m : BindingManager}
      → exchange ≢ queue
      → Reached m
      → Reached (unbind exchange queue key m).0
  queue_dropped :
      (queue : Text) {m : BindingManager} → Reached m → Reached (unbind_all_for_queue queue m)
  exchange_dropped :
      (exchange : Text) {m : BindingManager}
      → Reached m
      → Reached (unbind_all_for_exchange exchange m)

pub Reached-IsKept : {m : BindingManager} → Reached m → IsKept m
Reached-IsKept (made s) = new-IsKept s
Reached-IsKept (bound e q k a {m} n r) = bind-IsKept e q k a m n (Reached-IsKept r)
Reached-IsKept (unbound e q k {m} n r) = unbind-IsKept e q k m n (Reached-IsKept r)
Reached-IsKept (queue_dropped q {m} r) = unbind_all_for_queue-IsKept q m (Reached-IsKept r)
Reached-IsKept (exchange_dropped e {m} r) = unbind_all_for_exchange-IsKept e m (Reached-IsKept r)
