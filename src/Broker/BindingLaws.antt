-- ===== src/Broker/BindingLaws.antt =====
-- What Unbind does to the two indices of the binding manager.
use gomq.Prelude.{
  ◌≡◌, ◌≢◌, refl, sym, ap, ◌∙◌, ◌↔◌, inl, inr, true, List, [], ◌∷◌, ◌++◌, Text, All, arith, none,
  some, Option-cases, Result, ok, err, ◌==◌, text_eq, ==_iff, eq_refl, if◌then◌else◌, Bool-cases,
}
use gomq.Prelude.GoMap.{insert, lookup_or, lookup-insert}
use gomq.Routing.Binding.{Binding}
use gomq.Broker.Bindings.{
  Index, BindingManager, BindingError, call_store, list_of, get_bindings, get_bindings_for_queue,
  is_target, cut, remove_from, unbind, binding_not_found,
}

-- A binding to the queue under the key.
abbrev pub IsTarget : Text → Text → Binding → Type 0
IsTarget queue key b = (b.queue_name ≡ queue) × (b.routing_key ≡ key)

-- A list without its first target.
pub record Cut (queue key : Text) (list new : List Binding) : Type 0 where
  pub before : List Binding
  pub target : Binding
  pub after : List Binding
  pub old_list : list ≡ before ++ target ∷ after
  pub new_list : new ≡ before ++ after
  pub is_target : IsTarget queue key target
  pub first : All (λ b. ¬ IsTarget queue key b) before

is_target_iff : (q k : Text) (b : Binding) → (is_target q k b ≡ true) ↔ IsTarget q k b
unfolding is_target
is_target_iff q k b = ground (arith, ==_iff b.queue_name q, ==_iff b.routing_key k)

pub cut-Cut : (q k : Text) (list new : List Binding) → cut q k list ≡ some new → Cut q k list new
unfolding cut
cut-Cut q k [] new h = cc
cut-Cut q k (b ∷ bs) new h = elim (Bool-cases (is_target q k b)) [
  | inl t ↦ record {
    before = [];
    target = b;
    after = bs;
    old_list = refl;
    new_list = ground arith;
    is_target = (is_target_iff q k b).0 t;
    first = tt;
  }
  | inr f ↦ elim (Option-cases (cut q k bs)) [
    | inl e ↦ absurd (ground arith)
    | inr (r, e) ↦
        let rest = cut-Cut q k bs r e in
        let same : new ≡ b ∷ r = ground arith in
        record {
          before = b ∷ rest.before;
          target = rest.target;
          after = rest.after;
          old_list = ap (λ l. b ∷ l) rest.old_list;
          new_list = same ∙ ap (λ l. b ∷ l) rest.new_list;
          is_target = rest.is_target;
          first = (λ t. cc ((is_target_iff q k b).1 t), rest.first);
        }
  ]
]

cut-none :
    (q k : Text) (list : List Binding) → cut q k list ≡ none → All (λ b. ¬ IsTarget q k b) list
unfolding cut
cut-none q k [] h = tt
cut-none q k (b ∷ bs) h =
    (λ t. ground (arith, (is_target_iff q k b).1 t), cut-none q k bs (ground arith))

pub no_cut :
    (q k : Text) (list : List Binding) → All (λ b. b.queue_name ≢ q) list → cut q k list ≡ none
unfolding cut is_target
no_cut q k [] h = refl
no_cut q k (b ∷ bs) h = ground (arith, ==_iff b.queue_name q, h.0, no_cut q k bs h.1)

pub list_of-insert :
    (k j : Text) (l : List Binding) (i : Index)
    → list_of j (insert k l i) ≡ (if k == j then l else list_of j i)
unfolding list_of lookup_or
list_of-insert k j l i = ground (arith, lookup-insert k j l i)

pub unbind-by_exchange :
    (e q k : Text) (m : BindingManager)
    → ((unbind e q k m).0).by_exchange ≡ (remove_from e q k m.by_exchange).0
unfolding unbind call_store
unbind-by_exchange e q k m = ground arith

unbind-by_queue :
    (e q k : Text) (m : BindingManager)
    → ((unbind e q k m).0).by_queue ≡ (remove_from q e k m.by_queue).0
unfolding unbind call_store
unbind-by_queue e q k m = ground arith

unbind-result :
    (e q k : Text) (m : BindingManager)
    → (unbind e q k m).1
      ≡ (if (remove_from e q k m.by_exchange).1 then ok tt else err binding_not_found)
unfolding unbind
unbind-result e q k m = ground arith

-- What Unbind answers and what becomes of the exchange's bindings.
pub data Unbound (queue key : Text) (old new : List Binding) (r : Result BindingError (Unit {0}))
    : Type 0 where
  removed : r ≡ ok tt → Cut queue key old new → Unbound queue key old new r
  missing :
      r ≡ err binding_not_found
      → All (λ b. ¬ IsTarget queue key b) old
      → new ≡ old
      → Unbound queue key old new r

-- Unbind takes the first binding to the queue under the key out of the exchange's bindings, or
-- answers that there is none and leaves them; the bindings of other exchanges stay.
pub unbind_lem :
    (exchange queue key : Text) (m : BindingManager)
    → let r = unbind exchange queue key m in
      Unbound queue key (get_bindings exchange m) (get_bindings exchange r.0) r.1
      × ((other : Text) → exchange ≢ other → get_bindings other r.0 ≡ get_bindings other m)
unfolding get_bindings remove_from
unbind_lem e q k m = elim (Option-cases (cut q k (list_of e m.by_exchange))) [
  | inl o ↦
      let same : ((unbind e q k m).0).by_exchange ≡ m.by_exchange =
        unbind-by_exchange e q k m ∙ rw (o, remove_from) in
      (
        missing (unbind-result e q k m ∙ rw (o, remove_from)) (cut-none q k _ o) (rw same),
        λ p n. rw same,
      )
  | inr (l, o) ↦
      let new : ((unbind e q k m).0).by_exchange ≡ insert e l m.by_exchange =
        unbind-by_exchange e q k m ∙ rw (o, remove_from) in
      let here : list_of e ((unbind e q k m).0).by_exchange ≡ l =
        rw new (list_of-insert e e l m.by_exchange ∙ rw (eq_refl e)) in
      (
        removed (unbind-result e q k m ∙ rw (o, remove_from)) (rw here (cut-Cut q k _ l o)),
        λ p n. rw new (list_of-insert e p l m.by_exchange ∙ ground (arith, ==_iff e p, n)),
      )
]

-- Where the queue's own list holds only bindings to the queue and the exchange has another name,
-- Unbind leaves every queue's list as it was: GetBindingsForQueue still returns the binding.
pub unbind_stale :
    (exchange queue key : Text) (m : BindingManager)
    → All (λ b. b.queue_name ≡ queue) (get_bindings_for_queue queue m)
    → exchange ≢ queue
    → (p : Text)
    → get_bindings_for_queue p (unbind exchange queue key m).0 ≡ get_bindings_for_queue p m
unfolding get_bindings_for_queue remove_from
unbind_stale e q k m h n p =
    let o : cut e k (list_of q m.by_queue) ≡ none = no_cut e k _ (others _ h) in
    rw (unbind-by_queue e q k m, o, remove_from)
  where
    others : (l : List Binding) → All (λ b. b.queue_name ≡ q) l → All (λ b. b.queue_name ≢ e) l
    others [] a = tt
    others (b ∷ bs) a = (λ x. n (sym x ∙ a.0), others bs a.1)
