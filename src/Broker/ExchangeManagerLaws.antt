-- ===== src/Broker/ExchangeManagerLaws.antt =====
-- What Declare and Delete of the exchange manager do.
use gomq.Prelude.{
  ◌≡◌, ◌≢◌, refl, sym, ap, ◌∙◌, inl, inr, Bool, true, Text, arith, Option, none, some, Option-cases,
  [], Result, err, Bool-cases, ok, ◌==◌, text_eq, ==_iff, eq_refl, if◌then◌else◌,
}
use gomq.Prelude.GoMap.{lookup-insert}
use gomq.Routing.Binding.{Args}
use gomq.Routing.Exchange.{
  ExchangeType, Exchange, new_exchange, direct, fanout, topic, headers, unknown,
}
use gomq.Broker.Exchanges.{
  ExchangeManager, ExchangeError, other_type, same_type, declare, get, call_store,
}

same_type_refl : (t : ExchangeType) → same_type t t ≡ true
unfolding same_type
same_type_refl direct = refl
same_type_refl fanout = refl
same_type_refl topic = refl
same_type_refl headers = refl
same_type_refl (unknown a) = eq_refl a

same_type-eq : (a b : ExchangeType) → same_type a b ≡ true → a ≡ b
unfolding same_type
same_type-eq direct direct e = refl
same_type-eq fanout fanout e = refl
same_type-eq topic topic e = refl
same_type-eq headers headers e = refl
same_type-eq (unknown a) (unknown b) e = ap unknown ((==_iff a b).0 e)
same_type-eq direct fanout e = cc
same_type-eq direct topic e = cc
same_type-eq direct headers e = cc
same_type-eq direct (unknown b) e = cc
same_type-eq fanout direct e = cc
same_type-eq fanout topic e = cc
same_type-eq fanout headers e = cc
same_type-eq fanout (unknown b) e = cc
same_type-eq topic direct e = cc
same_type-eq topic fanout e = cc
same_type-eq topic headers e = cc
same_type-eq topic (unknown b) e = cc
same_type-eq headers direct e = cc
same_type-eq headers fanout e = cc
same_type-eq headers topic e = cc
same_type-eq headers (unknown b) e = cc
same_type-eq (unknown a) direct e = cc
same_type-eq (unknown a) fanout e = cc
same_type-eq (unknown a) topic e = cc
same_type-eq (unknown a) headers e = cc

module _ (name : Text) (t : ExchangeType) (durable auto_delete internal : Bool)
    (args : Option Args) where
  get-declare :
      (m : ExchangeManager) (other : Text)
      → get name m ≡ none
      → get other (declare name t durable auto_delete internal args m).0 ≡ (
          if name == other
          then some (new_exchange name t durable auto_delete internal args)
          else get other m)
  unfolding get declare call_store
  get-declare m other e =
      rw (e, declare)
        (ground (
          arith,
          lookup-insert name other (new_exchange name t durable auto_delete internal args)
              m.exchanges,
        ))

  declare_new :
      (m : ExchangeManager)
      → get name m ≡ none
      → (declare name t durable auto_delete internal args m).1
        ≡ ok (new_exchange name t durable auto_delete internal args)
  unfolding get declare
  declare_new m e = rw (e, declare)

  declare_old :
      (m : ExchangeManager) (ex : Exchange)
      → get name m ≡ some ex
      → declare name t durable auto_delete internal args m
        ≡ (m, if same_type ex.exchange_type t then ok ex else err other_type)
  unfolding get declare
  declare_old m ex e = rw (e, declare)

  declare_again :
      (m : ExchangeManager) (ex : Exchange)
      → get name m ≡ some ex
      → ex.exchange_type ≡ t
      → declare name t durable auto_delete internal args m ≡ (m, ok ex)
  declare_again m ex e h = declare_old m ex e ∙ rw (h, same_type_refl t)

  -- What Declare makes of the managers and answers.
  pub data Declared (m : ExchangeManager)
      : ExchangeManager × Result ExchangeError Exchange → Type 0 where
    created :
        (s : ExchangeManager) (new : Exchange)
        → get name m ≡ none
        → new ≡ record {
          name = name;
          exchange_type = t;
          durable = durable;
          auto_delete = auto_delete;
          internal = internal;
          args = elim args [ none ↦ [] | some a ↦ a ];
        }
        → get name s ≡ some new
        → ((other : Text) → name ≢ other → get other s ≡ get other m)
        → declare name t durable auto_delete internal args s ≡ (s, ok new)
        → Declared m (s, ok new)
    found : (ex : Exchange) → get name m ≡ some ex → ex.exchange_type ≡ t → Declared m (m, ok ex)
    refused :
        (ex : Exchange)
        → get name m ≡ some ex
        → ex.exchange_type ≢ t
        → Declared m (m, err other_type)

  -- Where no exchange has the name, Declare enters the new one under it, no other name is touched, and
  -- declaring again answers the same and changes nothing. Where one of the same type has the name, it
  -- is answered, and where one of another type has it, the error; both change nothing.
  pub declare_lem :
      (m : ExchangeManager) → Declared m (declare name t durable auto_delete internal args m)
  unfolding new_exchange
  declare_lem m = elim (Option-cases (get name m)) [
    | inl e ↦
        let new = new_exchange name t durable auto_delete internal args in
        let s = (declare name t durable auto_delete internal args m).0 in
        let here : get name s ≡ some new = get-declare m name e ∙ rw (eq_refl name) refl in
        let answer : (s, ok new) ≡ declare name t durable auto_delete internal args m =
          ap (λ r. (s, r)) (sym (declare_new m e)) in
        rw (← answer) (
          created s new e refl here
            (λ other n. get-declare m other e ∙ ground (arith, ==_iff name other, n))
            (declare_again s new here refl))
    | inr (ex, e) ↦ elim (Bool-cases (same_type ex.exchange_type t)) [
      | inl y ↦ rw (declare_old m ex e, y) (found ex e (same_type-eq ex.exchange_type t y))
      | inr n ↦ rw (declare_old m ex e, n) (refused ex e (λ q. cc (rw (q, same_type_refl t) at n)))
    ]
  ]
