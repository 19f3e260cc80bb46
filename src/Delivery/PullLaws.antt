-- ===== src/Delivery/PullLaws.antt =====
-- Messages that are pulled from a queue.
use gomq.Prelude.{
  ℕ, zero, suc, ◌+◌, ◌%◌, ◌^◌, false, ◌≤◌, ◌≡◌, refl, sym, ap, ◌∙◌, arith, Bool, true, List, [],
  ◌∷◌, ◌++◌, Text, length, Option, none, some, Bool-cases, inl, inr, text_eq, eq_refl,
}
use gomq.Broker.Queues as Queues
use gomq.Broker.Message.{Message, set_delivery_tag}
use gomq.Broker.Store.{MessageStore, queue_of, dequeue, sift, len}
use gomq.Broker.StoreLaws.{queue_of-insert, dequeue_nil, dequeue_lem}
use gomq.Broker.Tracker.{DeliveryTracker, record_tag}
use gomq.Delivery.Policy.{Platform, is_expired}
use gomq.Delivery.Pull.{queue_args, next_alive, get}

-- The messages of a queue that have not expired.
abbrev pub alive : (Message → Bool) → List Message → List Message
alive expired queue = (sift expired queue).0

-- What is found in a queue, and what is left.
data Next (name : Text) (expired : Message → Bool) (queue : List Message) (s : MessageStore)
    : Option Message → Type 0 where
  nothing_left : alive expired queue ≡ [] → queue_of name s ≡ [] → Next name expired queue s none
  next :
      (m : Message) (rest : List Message)
      → alive expired queue ≡ m ∷ alive expired rest
      → queue_of name s ≡ rest
      → Next name expired queue s (some m)

skip_expired :
    (name : Text) (expired : Message → Bool) (m : Message) (queue : List Message) (s : MessageStore)
    (found : Option Message)
    → expired m ≡ true
    → Next name expired queue s found
    → Next name expired (m ∷ queue) s found
unfolding sift
skip_expired name expired m queue s found e (nothing_left a q) = nothing_left (rw (e, alive) a) q
skip_expired name expired m queue s found e (next n rest a q) = next n rest (rw (e, alive) a) q

next_alive-Next :
    (f : ℕ) (name : Text) (expired : Message → Bool) (queue : List Message) (s : MessageStore)
    → queue_of name s ≡ queue
    → length queue ≤ f
    → let (s', found) = next_alive f expired name s in Next name expired queue s' found
unfolding next_alive sift
next_alive-Next zero name expired [] s q h = nothing_left refl q
next_alive-Next zero name expired (m ∷ queue) s q h = absurd (omega arith)
next_alive-Next (suc f) name expired [] s q h =
    rw (dequeue_nil name s q, next_alive) (nothing_left refl (rw (dequeue_nil name s q) q))
next_alive-Next (suc f) name expired (m ∷ queue) s q h =
    let d = dequeue_lem name m queue s q in
    let s' = (dequeue name s).0 in
    let found : (dequeue name s).1 ≡ some m = ap (λ r. r.1) d in
    let q' : queue_of name s' ≡ queue =
      rw d (ground (arith, queue_of-insert name name queue s, eq_refl name)) in
    elim (Bool-cases (expired m)) [
      | inl e ↦
          rw (found, next_alive, e)
            (skip_expired name expired m queue _ _ e
              (next_alive-Next f name expired queue s' q' (omega arith)))
      | inr e ↦ rw (found, next_alive, e) (next m queue (rw (e, alive)) q')
    ]

Next-none :
    (name : Text) (expired : Message → Bool) (queue : List Message) (s : MessageStore)
    (found : Option Message)
    → alive expired queue ≡ []
    → Next name expired queue s found
    → (found ≡ none) × (alive expired (queue_of name s) ≡ [])
unfolding sift
Next-none name expired queue s found e (nothing_left a q) = (refl, ap (alive expired) q)
Next-none name expired queue s found e (next m rest a q) = absurd cc

Next-some :
    (name : Text) (expired : Message → Bool) (queue : List Message) (s : MessageStore)
    (found : Option Message) (m : Message) (l : List Message)
    → alive expired queue ≡ m ∷ l
    → Next name expired queue s found
    → (found ≡ some m) × (alive expired (queue_of name s) ≡ l)
unfolding sift
Next-some name expired queue s found m l e (nothing_left a q) = absurd cc
Next-some name expired queue s found m l e (next n rest a q) =
    let same : n ∷ alive expired rest ≡ m ∷ l = sym a ∙ e in
    let head : n ≡ m = cc same in
    let tail : alive expired rest ≡ l = cc same in (ap some head, ap (alive expired) q ∙ tail)

-- The messages that `n` calls of Get of one consumer return, whose last tag is `tag`.
unfoldable pub get_all :
    Platform
    → Option Queues.QueueManager
    → Text
    → Bool
    → ℕ
    → ℕ
    → ℕ
    → DeliveryTracker
    → List (Option Message)
unfolding get
get_all p queues name auto_ack ch zero tag t = []
get_all p queues name auto_ack ch (suc n) tag t =
    let (t', tag', found) = get p queues name auto_ack ch tag t in
    found ∷ get_all p queues name auto_ack ch n tag' t'

abbrev pub nones : ℕ → List (Option Message)
nones zero = []
nones (suc n) = none ∷ nones n

-- The tags count on only where an acknowledgement is required.
abbrev pub next_tag : Bool → ℕ → ℕ
next_tag true tag = tag
next_tag false tag = (tag + 1) % 2 ^ 64

-- A message as the consumer gets it: with the next tag, where an acknowledgement is required.
abbrev pub tagged : Bool → ℕ → Message → Message
tagged true tag m = m
tagged false tag m = record m { delivery_tag = (tag + 1) % 2 ^ 64 }

abbrev pub handed : Bool → ℕ → List Message → List (Option Message)
handed auto_ack tag [] = []
handed auto_ack tag (m ∷ ms) =
    some (tagged auto_ack tag m) ∷ handed auto_ack (next_tag auto_ack tag) ms

module _ (p : Platform) (queues : Option Queues.QueueManager) (name : Text) (ch : ℕ) where
  abbrev expired : Message → Bool
  expired m = is_expired p m (queue_args name queues)

  abbrev search_from : DeliveryTracker → MessageStore × Option Message
  search_from t = next_alive (len name t.store) expired name t.store

  get-none :
      (auto_ack : Bool) (tag : ℕ) (t : DeliveryTracker)
      → (search_from t).1 ≡ none
      → get p queues name auto_ack ch tag t ≡ (record t { store = (search_from t).0 }, tag, none)
  unfolding get
  get-none auto_ack tag t o = rw (o, get)

  -- What Get returns where a message is left: the message, the next tag, and the store behind it.
  get-some :
      (auto_ack : Bool) (tag : ℕ) (t : DeliveryTracker) (m : Message)
      → (search_from t).1 ≡ some m
      → let (t', tag', found) = get p queues name auto_ack ch tag t in
        (t'.store ≡ (search_from t).0)
        × (tag' ≡ next_tag auto_ack tag)
        × (found ≡ some (tagged auto_ack tag m))
  unfolding get record_tag set_delivery_tag
  get-some true tag t m o = rw (o, get) (refl, refl, refl)
  get-some false tag t m o = rw (o, get) (refl, refl, refl)

  search-Next :
      (t : DeliveryTracker)
      → Next name expired (queue_of name t.store) (search_from t).0 (search_from t).1
  unfolding len
  search-Next t =
      next_alive-Next (len name t.store) name expired (queue_of name t.store) t.store refl
        (omega arith)

  get_all-nones :
      (auto_ack : Bool) (n tag : ℕ) (t : DeliveryTracker)
      → alive expired (queue_of name t.store) ≡ []
      → get_all p queues name auto_ack ch n tag t ≡ nones n
  unfolding get_all sift
  get_all-nones auto_ack zero tag t e = refl
  get_all-nones auto_ack (suc n) tag t e =
      let (o, rest) = Next-none name expired (queue_of name t.store) _ _ e (search-Next t) in
      let g = get-none auto_ack tag t o in
      rw (get_all, g)
        (ap (λ l. none ∷ l)
          (get_all-nones auto_ack n tag (record t { store = (search_from t).0 }) rest))

  get_all-alive :
      (auto_ack : Bool) (l : List Message) (n tag : ℕ) (t : DeliveryTracker)
      → alive expired (queue_of name t.store) ≡ l
      → get_all p queues name auto_ack ch (length l + n) tag t ≡ handed auto_ack tag l ++ nones n
  unfolding get_all
  get_all-alive auto_ack [] n tag t e =
      let z : 0 + n ≡ n = omega arith in rw z (get_all-nones auto_ack n tag t e)
  get_all-alive auto_ack (m ∷ l) n tag t e =
      let (o, rest) = Next-some name expired (queue_of name t.store) _ _ m l e (search-Next t) in
      let (store, tag', found) = get-some auto_ack tag t m o in
      let z : suc (length l) + n ≡ suc (length l + n) = omega arith in
      rw (z, found, tag')
        (ap (λ k. some (tagged auto_ack tag m) ∷ k)
          (get_all-alive auto_ack l n (next_tag auto_ack tag)
            (get p queues name auto_ack ch tag t).0 (rw store rest)))

  -- As many calls as the queue has messages that have not expired return just these, in the order of
  -- the queue, and every further call returns none; where an acknowledgement is required, the
  -- messages carry the tags that follow the consumer's last one, of 64 bits.
  pub get_all_lem :
      (auto_ack : Bool) (n tag : ℕ) (t : DeliveryTracker)
      → get_all p queues name auto_ack ch (length (alive expired (queue_of name t.store)) + n) tag t
        ≡ handed auto_ack tag (alive expired (queue_of name t.store)) ++ nones n
  get_all_lem auto_ack n tag t =
      get_all-alive auto_ack (alive expired (queue_of name t.store)) n tag t refl
