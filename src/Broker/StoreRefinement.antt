-- ===== src/Broker/StoreRefinement.antt =====
-- The message store against its contract: one queue of messages for each name.
use gomq.Prelude.{
  ℕ, ◌≡◌, refl, sym, ap, ◌∙◌, arith, Bool, List, [], ◌∷◌, ◌++◌, Text, length, Option, none, some,
  ◌==◌, text_eq, ==_iff, if◌then◌else◌, List-cases, inl, inr,
}
use gomq.Prelude.GoMap.{insert, remove, lookup, lookup_or, lookup-remove}
use gomq.Broker.Message.{Message}
use gomq.Broker.Priority.{insert_by_priority}
use gomq.Broker.Store.{
  MessageStore, new_message_store, queue_of, enqueue, enqueue_priority, dequeue, peek, len, purge,
  sift, remove_expired,
}
use gomq.Broker.StoreLaws.{queue_of-insert, dequeue_nil, dequeue_lem}

-- The calls of the store.
pub data StoreOp : Type 0 where
  op_enqueue op_enqueue_priority : Text → Message → StoreOp
  op_dequeue op_peek op_purge op_len : Text → StoreOp
  op_remove_expired : Text → (Message → Bool) → StoreOp

-- What a call returns.
pub data Reply : Type 0 where
  nothing : Reply
  message : Option Message → Reply
  messages : List Message → Reply
  number : ℕ → Reply

-- A step of the store.
unfoldable pub apply : StoreOp → MessageStore → MessageStore × Reply
unfolding enqueue enqueue_priority dequeue peek purge len remove_expired
apply (op_enqueue q m) s = (enqueue q m s, nothing)
apply (op_enqueue_priority q m) s = (enqueue_priority q m s, nothing)
apply (op_dequeue q) s = let (s', m) = dequeue q s in (s', message m)
apply (op_peek q) s = (s, message (peek q s))
apply (op_purge q) s = (purge q s, nothing)
apply (op_len q) s = (s, number (len q s))
apply (op_remove_expired q expired) s =
    let (s', ms) = remove_expired q expired s in (s', messages ms)

-- The contract: a queue under every name.
abbrev pub Queues : Type 0
Queues = Text → List Message

unfoldable pub put : Text → List Message → Queues → Queues
put q l qs p = if q == p then l else qs p

unfoldable pub first : List Message → Option Message
first [] = none
first (m ∷ rest) = some m

-- A step of the contract, on the queue of the call alone.
unfoldable pub specify : StoreOp → Queues → Queues × Reply
unfolding put first insert_by_priority sift
specify (op_enqueue q m) qs = (put q (qs q ++ m ∷ []) qs, nothing)
specify (op_enqueue_priority q m) qs = (put q (insert_by_priority (qs q) m) qs, nothing)
specify (op_dequeue q) qs = elim (qs q) [
  | [] ↦ (qs, message none)
  | m ∷ rest ↦ (put q rest qs, message (some m))
]
specify (op_peek q) qs = (qs, message (first (qs q)))
specify (op_purge q) qs = (put q [] qs, nothing)
specify (op_len q) qs = (qs, number (length (qs q)))
specify (op_remove_expired q expired) qs =
    let (alive, gone) = sift expired (qs q) in (put q alive qs, messages gone)

-- The store has the queues of the contract.
abbrev pub Implements : MessageStore → Queues → Type 0
Implements s qs = (p : Text) → queue_of p s ≡ qs p

record Simulated (s : MessageStore × Reply) (qs : Queues × Reply) : Type 0 where
  pub implements : Implements s.0 qs.0
  pub replies : s.1 ≡ qs.1

insert-Implements :
    (q : Text) (l : List Message) (s : MessageStore) (qs : Queues)
    → Implements s qs
    → Implements (insert q l s) (put q l qs)
unfolding put
insert-Implements q l s qs h p = ground (arith, queue_of-insert q p l s, h p)

specify_nil : (q : Text) (qs : Queues) → qs q ≡ [] → specify (op_dequeue q) qs ≡ (qs, message none)
unfolding specify
specify_nil q qs e = rw (e, specify)

specify_cons :
    (q : Text) (m : Message) (rest : List Message) (qs : Queues)
    → qs q ≡ m ∷ rest
    → specify (op_dequeue q) qs ≡ (put q rest qs, message (some m))
unfolding specify
specify_cons q m rest qs e = rw (e, specify)

queue_of-remove :
    (q p : Text) (s : MessageStore)
    → queue_of p (remove q s) ≡ (if q == p then [] else queue_of p s)
unfolding queue_of lookup_or
queue_of-remove q p s = ground (arith, lookup-remove q p s)

peek-first : (q : Text) (s : MessageStore) → peek q s ≡ first (queue_of q s)
unfolding peek first
peek-first q s = ground arith

apply-Simulated :
    (op : StoreOp) (s : MessageStore) (qs : Queues)
    → Implements s qs
    → Simulated (apply op s) (specify op qs)
unfolding apply specify enqueue enqueue_priority purge remove_expired put len first sift
apply-Simulated (op_enqueue q m) s qs h =
    rw (← h q) (record { implements = insert-Implements q _ s qs h; replies = refl })
apply-Simulated (op_enqueue_priority q m) s qs h =
    rw (← h q) (record { implements = insert-Implements q _ s qs h; replies = refl })
apply-Simulated (op_dequeue q) s qs h = elim (List-cases (queue_of q s)) [
  | inl e ↦
      rw (specify_nil q qs (sym (h q) ∙ e), dequeue_nil q s e)
        (record { implements = h; replies = refl })
  | inr (m, rest, e) ↦
      rw (specify_cons q m rest qs (sym (h q) ∙ e), dequeue_lem q m rest s e)
        (record { implements = insert-Implements q rest s qs h; replies = refl })
]
apply-Simulated (op_peek q) s qs h = record {
  implements = h;
  replies = ap message (peek-first q s ∙ ap first (h q));
}
apply-Simulated (op_purge q) s qs h = record {
  implements = λ p. ground (arith, queue_of-remove q p s, h p);
  replies = refl;
}
apply-Simulated (op_len q) s qs h = record {
  implements = h;
  replies = ap (λ l. number (length l)) (h q);
}
apply-Simulated (op_remove_expired q expired) s qs h = elim (List-cases (queue_of q s)) [
  | inl e ↦
      rw (← h q, e, remove_expired)
        (record { implements = λ p. ground (arith, ==_iff q p, h p, h q); replies = refl })
  | inr (m, rest, e) ↦
      rw (← h q, e, remove_expired)
        (record { implements = insert-Implements q _ s qs h; replies = refl })
]

-- The replies to a sequence of calls.
unfoldable pub run_store : List StoreOp → MessageStore → List Reply
unfolding apply
run_store [] s = []
run_store (op ∷ ops) s = let (s', r) = apply op s in r ∷ run_store ops s'

unfoldable pub run_contract : List StoreOp → Queues → List Reply
unfolding specify
run_contract [] qs = []
run_contract (op ∷ ops) qs = let (qs', r) = specify op qs in r ∷ run_contract ops qs'

new_Implements : Implements new_message_store (λ q. [])
unfolding new_message_store queue_of lookup_or lookup
new_Implements p = refl

run_store-from :
    (ops : List StoreOp) (s : MessageStore) (qs : Queues)
    → Implements s qs
    → run_store ops s ≡ run_contract ops qs
unfolding run_store run_contract
run_store-from [] s qs h = refl
run_store-from (op ∷ ops) s qs h =
    let k = apply-Simulated op s qs h in
    rw (k.replies, run_store-from ops (apply op s).0 (specify op qs).0 k.implements)

-- Whatever calls are made of a new message store, in any order and of any queues, it replies as the
-- contract does, which keeps one list of messages under each name, all empty at first: a call concerns
-- the list of its own queue alone.
pub run_store-new_message_store :
    (ops : List StoreOp) → run_store ops new_message_store ≡ run_contract ops (λ q. [])
run_store-new_message_store ops = run_store-from ops new_message_store (λ q. []) new_Implements
