-- ===== src/Broker/TrackerLaws.antt =====
-- What acknowledgements do to the tracked deliveries.
use gomq.Prelude.{
  ℕ, ◌≡◌, ◌≢◌, refl, sym, ◌⊎◌, inl, inr, Bool, true, false, List, [], ◌∷◌, map, length, length-map,
  arith, none, some, Option-cases, Result, ok, err, ◌==◌, nat_eq, ==_iff, eq_refl, if◌then◌else◌,
}
use gomq.Prelude.GoMap.{GoMap, lookup, insert, remove, lookup-insert, lookup-remove}
use gomq.Broker.Store.{MessageStore, enqueue}
use gomq.Broker.Tracker.{
  TrackedDelivery, DeliveryTracker, TrackerError, Deliveries, no_deliveries, tag_not_found, nack,
  recover_all, requeue_all, get_delivery, get_unacked,
}

-- The message of a delivery at the end of its queue, where it is put back.
abbrev pub put_back : Bool → TrackedDelivery → MessageStore → MessageStore
put_back requeue d store = if requeue then enqueue d.queue_name d.msg store else store

-- What Nack does: the delivery is no longer tracked, or there is none and nothing changes.
pub data Nacked (tag channel : ℕ) (requeue : Bool) (t s : DeliveryTracker)
    (r : Result TrackerError (Unit {0})) : Type 0 where
  settled :
      (d : TrackedDelivery)
      → get_delivery tag channel t ≡ some d
      → r ≡ ok tt
      → get_delivery tag channel s ≡ none
      → s.store ≡ put_back requeue d t.store
      → Nacked tag channel requeue t s r
  refused :
      (e : TrackerError)
      → get_delivery tag channel t ≡ none
      → r ≡ err e
      → s ≡ t
      → Nacked tag channel requeue t s r

get_delivery-insert :
    (tag c : ℕ) (m : Deliveries) (store : MessageStore) (b : GoMap ℕ Deliveries) (tag' c' : ℕ)
    → get_delivery tag' c' (record { by_channel = insert c m b; store = store }) ≡ (
        if c == c'
        then lookup tag' m
        else get_delivery tag' c' (record { by_channel = b; store = store }))
unfolding get_delivery
get_delivery-insert tag c m store b tag' c' = ground (arith, lookup-insert c c' m b)

-- Nack, and Reject, which is the same call, settles a tracked delivery once: it is no longer
-- tracked, and its message goes to the end of its queue exactly where `requeue` is set. For a tag
-- that is not tracked there is an error and no change. No other delivery is touched.
pub nack_lem :
    (tag channel : ℕ) (requeue : Bool) (t : DeliveryTracker)
    → let r = nack tag channel requeue t in
      Nacked tag channel requeue t r.0 r.1
      × ((tag' channel' : ℕ)
          → (tag ≢ tag') ⊎ (channel ≢ channel')
          → get_delivery tag' channel' r.0 ≡ get_delivery tag' channel' t)
unfolding nack get_delivery
nack_lem tag c q t = elim (Option-cases (lookup c t.by_channel)) [
  | inl o ↦
      rw (o, nack) (refused no_deliveries (rw (o, get_delivery) refl) refl refl, λ tag' c' n. refl)
  | inr (m, o) ↦ elim (Option-cases (lookup tag m)) [
    | inl p ↦
        rw (o, nack, p)
          (refused tag_not_found (rw (o, get_delivery, p) refl) refl refl, λ tag' c' n. refl)
    | inr (d, p) ↦
        rw (o, nack, p)
          (
            settled d (rw (o, get_delivery, p) refl) refl
                (ground (
                  arith,
                  eq_refl c,
                  eq_refl tag,
                  lookup-insert c c (remove tag m) t.by_channel,
                  lookup-remove tag tag m,
                ))
                refl,
            λ tag' c' n. ground (
              arith,
              o,
              n,
              ==_iff c c',
              ==_iff tag tag',
              lookup-insert c c' (remove tag m) t.by_channel,
              lookup-remove tag tag' m,
            ),
          )
  ]
]

-- The messages of the deliveries at the end of their queues, one after the other.
unfoldable pub put_back_all : Bool → List TrackedDelivery → MessageStore → MessageStore
put_back_all requeue [] store = store
put_back_all requeue (d ∷ ds) store = put_back_all requeue ds (put_back requeue d store)

put_back_all-true :
    (m : Deliveries) (store : MessageStore)
    → requeue_all m store ≡ put_back_all true (map (λ p. p.1) m) store
unfolding requeue_all put_back_all
put_back_all-true [] store = refl
put_back_all-true ((tag, d) ∷ m) store = put_back_all-true m (enqueue d.queue_name d.msg store)

put_back_all-false :
    (ds : List TrackedDelivery) (store : MessageStore) → put_back_all false ds store ≡ store
unfolding put_back_all
put_back_all-false [] store = refl
put_back_all-false (d ∷ ds) store = put_back_all-false ds store

recovered_store :
    (requeue : Bool) (m : Deliveries) (store : MessageStore)
    → (if requeue then requeue_all m store else store)
      ≡ put_back_all requeue (map (λ p. p.1) m) store
recovered_store true m store = put_back_all-true m store
recovered_store false m store = sym (put_back_all-false (map (λ p. p.1) m) store)

-- RecoverAll returns the number of the channel's unacknowledged deliveries and forgets them all; it
-- puts each message back into its queue exactly where `requeue` is set, and leaves the deliveries
-- of every other channel.
pub recover_all_lem :
    (channel : ℕ) (requeue : Bool) (t : DeliveryTracker)
    → let r = recover_all channel requeue t in
      (r.1 ≡ length (get_unacked channel t))
      × (get_unacked channel r.0 ≡ [])
      × (r.0.store ≡ put_back_all requeue (get_unacked channel t) t.store)
      × ((other : ℕ) → channel ≢ other → get_unacked other r.0 ≡ get_unacked other t)
unfolding recover_all get_unacked
recover_all_lem c q t = elim (Option-cases (lookup c t.by_channel)) [
  | inl o ↦
      rw (o, recover_all)
        (
          rw (o, get_unacked) refl,
          rw (o, get_unacked) refl,
          rw (o, get_unacked) (unfold put_back_all in refl),
          λ p n. refl,
        )
  | inr (m, o) ↦
      rw (o, recover_all)
        (
          rw (o, get_unacked) (sym (length-map m (λ p. p.1))),
          ground (arith, eq_refl c, lookup-remove c c t.by_channel),
          rw (o, get_unacked) (recovered_store q m t.store),
          λ p n. ground (arith, ==_iff c p, n, lookup-remove c p t.by_channel),
        )
]
