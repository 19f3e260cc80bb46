-- ===== src/Delivery/PublisherFuel.antt =====
-- Publishing returns: the fuel is enough.
use gomq.Prelude.{
  ℕ, zero, suc, ◌<◌, ◌≡◌, refl, arith, text_eq, Bool, true, false, List, [], ◌∷◌, Text, length,
  some, Option-cases, Bool-cases, inl, inr, Result, ok, err, ◌>>=◌,
}
use gomq.Prelude.GoMap.{lookup, insert, lookup_or}
use gomq.Routing.Binding.{Args}
use gomq.Routing.Exchange.{Exchange, Router, router}
use gomq.Broker.E2E as E2E
use gomq.Broker.Cycle.{Marked}
use gomq.Broker.CycleFuel.{unmarked, unmarked_mono, unmarked-insert, unmarked-le, insert_keeps_mark}
use gomq.Broker.Exchanges as Exchanges
use gomq.Broker.Queues as Queues
use gomq.Broker.Store.{dequeue, len}
use gomq.Broker.Message.{Message}
use gomq.Delivery.Policy.{Platform, max_length, get_dead_letter_config}
use gomq.Delivery.Deliverer.{Deliveries}
use gomq.Delivery.Publisher.{
  Topology, PublishError, Stop, Published, Publish, DeadLetter, store_of, is_full, make_room,
  publish_to, publish_to_all, forward, publish_routed, publish_step, publish_internal, enough,
  with_original_key, dead_letter, publish,
}

-- The call returns, with a result of the property.
abbrev pub Ends {ℓ} : {A : Type ℓ} → (A → Type 0) → Result Stop A → Type 0
Ends Q (err e) = ⊥
Ends Q (ok a) = Q a

abbrev pub Any {ℓ} : {A : Type ℓ} → A → Type 0
Any a = Unit

pub Ends-bind {ℓ κ} :
    {A : Type ℓ} {B : Type κ} (Q : A → Type 0) (R : B → Type 0) (r : Result Stop A)
    (rest : A → Result Stop B)
    → Ends Q r
    → ((a : A) → Q a → Ends R (rest a))
    → Ends R (r >>= rest)
Ends-bind Q R (err e) rest h k = absurd h
Ends-bind Q R (ok a) rest h k = k a h

pub Ends_ok {ℓ} :
    {A : Type ℓ} (Q : A → Type 0) (r : Result Stop A) → Ends Q r → (a : A) × (r ≡ ok a) × Q a
Ends_ok Q (err e) h = absurd h
Ends_ok Q (ok a) h = (a, refl, h)

-- Every exchange is of a type that has a router.
abbrev pub HasRouters : Topology → Type 0
HasRouters t =
    (name : Text) (ex : Exchange)
    → Exchanges.get name t.exchanges ≡ some ex
    → (r : Router) × (router ex ≡ some r)

-- The map of the visited exchanges only grows, and the deliveries have the property.
abbrev pub Grown : (Deliveries → Type 0) → E2E.Visited → Published → Type 0
Grown I v p = ((x : Text) → Marked x v → Marked x p.visited) × I p.deliveries

Grown-trans :
    (I : Deliveries → Type 0) (v w : E2E.Visited) (r : Result Stop Published)
    → ((x : Text) → Marked x v → Marked x w)
    → Ends (Grown I w) r
    → Ends (Grown I v) r
Grown-trans I v w (err e) grows h = h
Grown-trans I v w (ok q) grows (more, i) = (λ x m. more x (grows x m), i)

-- A property of the deliveries that the body of the loop over the queues keeps.
module _ (p : Platform) (dead : DeadLetter) (check : Bool) (ch : ℕ) (t : Topology)
    (I : Deliveries → Type 0)
    (to_keeps : (msg : Message) (qn : Text) (d : Deliveries)
      → I d
      → Ends I (publish_to p dead check ch t msg qn d)) where
  publish_to_all_ends :
      (msg : Message) (queues : List Text) (d : Deliveries)
      → I d
      → Ends I (publish_to_all (publish_to p dead check ch t msg) queues d)
  unfolding publish_to_all
  publish_to_all_ends msg [] d i = i
  publish_to_all_ends msg (qn ∷ queues) d i =
      Ends-bind I I _ _ (to_keeps msg qn d i) λ d j. publish_to_all_ends msg queues d j

  forward_ends :
      (f : ℕ) (deeper : Publish)
      → ((name key : Text) (msg : Message) (v : E2E.Visited) (d : Deliveries)
          → unmarked t.e2e v < f
          → I d
          → Ends (Grown I v) (deeper name key msg v d))
      → (msg : Message) (bs : List E2E.E2EBinding) (v : E2E.Visited) (d : Deliveries) (n : ℕ)
      → unmarked t.e2e v < f
      → I d
      → Ends (Grown I v) (forward deeper msg bs v d n)
  unfolding forward
  forward_ends f deeper k msg [] v d n h i = (λ x m. m, i)
  forward_ends f deeper k msg (b ∷ bs) v d n h i =
      Ends-bind (Grown I v) (Grown I v) _ _ (k b.destination b.routing_key msg v d h i)
        λ r (grows, j). Grown-trans I v r.visited _ grows (
          forward_ends f deeper k msg bs r.visited r.deliveries _
            (omega (arith, unmarked_mono t.e2e v r.visited grows)) j)

  forward_from :
      (f : ℕ) (deeper : Publish)
      → ((name key : Text) (msg : Message) (v : E2E.Visited) (d : Deliveries)
          → unmarked t.e2e v < f
          → I d
          → Ends (Grown I v) (deeper name key msg v d))
      → (name : Text) (msg : Message) (v : E2E.Visited) (d : Deliveries) (n : ℕ)
      → lookup_or false name v ≡ false
      → unmarked t.e2e v < suc f
      → I d
      → Ends
          (Grown I (insert name true v))
          (forward deeper msg (E2E.get_bindings name t.e2e) (insert name true v) d n)
  unfolding E2E.get_bindings forward
  forward_from f deeper k name msg v d n u h i = elim (Option-cases (lookup name t.e2e)) [
    | inl o ↦
        let no_bindings : E2E.get_bindings name t.e2e ≡ [] = ground arith in
        rw no_bindings (λ x m. m, i)
    | inr (l, o) ↦
        forward_ends f deeper k msg _ (insert name true v) d n
          (omega (arith, unmarked-insert t.e2e name v l o u)) i
  ]

  publish_routed_ends :
      (f : ℕ) (deeper : Publish)
      → ((name key : Text) (msg : Message) (v : E2E.Visited) (d : Deliveries)
          → unmarked t.e2e v < f
          → I d
          → Ends (Grown I v) (deeper name key msg v d))
      → (name : Text) (msg : Message) (queues : List Text) (v : E2E.Visited) (d : Deliveries)
      → lookup_or false name v ≡ false
      → unmarked t.e2e v < suc f
      → I d
      → Ends
          (Grown I v)
          (publish_routed p dead check ch t deeper name msg queues (insert name true v) d)
  unfolding publish_routed
  publish_routed_ends f deeper k name msg queues v d u h i =
      Ends-bind I (Grown I v) _ _ (publish_to_all_ends msg queues d i) λ d j.
        Grown-trans I v (insert name true v) _ (λ x. insert_keeps_mark name x v)
          (forward_from f deeper k name msg v d (length queues) u h j)

  pub publish_internal_ends :
      HasRouters t
      → (f : ℕ) (name key : Text) (msg : Message) (v : E2E.Visited) (d : Deliveries)
      → unmarked t.e2e v < f
      → I d
      → Ends (Grown I v) (publish_internal p dead check ch t f name key msg v d)
  unfolding publish_internal publish_step
  publish_internal_ends routers zero name key msg v d h i = absurd (omega arith)
  publish_internal_ends routers (suc f) name key msg v d h i =
      elim (Bool-cases (lookup_or false name v)) [
        | inl k ↦ rw (k, publish_step) (λ x m. m, i)
        | inr k ↦ elim (Option-cases (Exchanges.get name t.exchanges)) [
          | inl e ↦ rw (k, publish_step, e) ((λ x. insert_keeps_mark name x v), i)
          | inr (ex, e) ↦
              let (r, n) = routers name ex e in
              rw (k, publish_step, e, n)
                (publish_routed_ends f _ (publish_internal_ends routers f) name msg _ v d k h i)
        ]
      ]

module _ (p : Platform) (dead : DeadLetter) (check : Bool) (ch : ℕ) (t : Topology)
    (dead_ends : (m : Message) (a : Args) (d : Deliveries) → Ends Any (dead m a d)) where
  make_room_ends :
      (qn : Text) (args : Args) (d : Deliveries) → Ends Any (make_room p dead qn args d)
  unfolding make_room
  make_room_ends qn args d = elim (Bool-cases (is_full (max_length p args) (len qn (store_of d)))) [
    | inl f ↦ elim (Option-cases (dequeue qn (store_of d)).1) [
      | inl o ↦ rw (f, make_room, o) tt
      | inr (m, o) ↦ rw (f, make_room, o) (dead_ends m args _)
    ]
    | inr f ↦ rw (f, make_room) tt
  ]

  publish_to_ends :
      (msg : Message) (qn : Text) (d : Deliveries)
      → Any d
      → Ends Any (publish_to p dead check ch t msg qn d)
  unfolding publish_to
  publish_to_ends msg qn d i = elim (Option-cases (Queues.get qn t.queues)) [
    | inl o ↦ rw (o, publish_to) tt
    | inr (q, o) ↦ elim (Bool-cases check) [
      | inl c ↦ rw (o, publish_to, c) (Ends-bind Any Any _ _ (make_room_ends qn q.args d) λ d i. tt)
      | inr c ↦ rw (o, publish_to, c) tt
    ]
  ]

-- The fuel that the calls begin with.
pub unmarked-enough : (t : Topology) → unmarked t.e2e [] < enough t
unfolding enough
unmarked-enough t = omega (arith, unmarked-le t.e2e [])

buried_ends :
    (p : Platform) (t : Topology)
    → HasRouters t
    → (exchange key : Text) (m : Message) (d : Deliveries)
    → Ends Any (
        publish_internal p (λ m a d. ok d) false 0 t (enough t) exchange key m [] d >>= λ r.
        ok r.deliveries)
buried_ends p t routers exchange key m d =
    Ends-bind (Grown Any []) Any _ _
      (publish_internal_ends p (λ m a d. ok d) false 0 t Any
        (publish_to_ends p (λ m a d. ok d) false 0 t (λ m a d. tt)) routers (enough t) exchange key
        m [] d (unmarked-enough t) tt)
      λ r g. tt

dead_letter_ends :
    (p : Platform) (t : Topology)
    → HasRouters t
    → (m : Message) (a : Args) (d : Deliveries) → Ends Any (dead_letter p t m a d)
unfolding dead_letter
dead_letter_ends p t routers m a d = elim (Option-cases (get_dead_letter_config a)) [
  | inl o ↦ rw (o, dead_letter) tt
  | inr (cfg, o) ↦
      rw (o, dead_letter) (buried_ends p t routers cfg.exchange _ (with_original_key m) d)
]

-- From a topology whose exchanges all are of a known type, publishing returns, with the number of
-- queues or an error, whatever cycles the bindings between exchanges make.
pub publish_ends :
    (p : Platform) (t : Topology) (exchange key : Text) (msg : Message) (ch : ℕ) (d : Deliveries)
    → HasRouters t
    → (end : Deliveries × Result PublishError ℕ) × (publish p t exchange key msg ch d ≡ ok end)
unfolding publish
publish_ends p t exchange key msg ch d routers =
    let (end, e, h) = Ends_ok Any (publish p t exchange key msg ch d) (
      Ends-bind (Grown Any []) Any _ _
        (publish_internal_ends p (dead_letter p t) true ch t Any
          (publish_to_ends p (dead_letter p t) true ch t (dead_letter_ends p t routers)) routers
          (enough t) exchange key msg [] d (unmarked-enough t) tt)
        λ r g. tt) in
    (end, e)
