-- ===== src/Broker/Prefetch.antt =====
-- internal/server/prefetch.go: the limit on unacknowledged deliveries. Counters are uint16.
use gomq.Prelude.{
  ℕ, suc, List, ◌∷◌, ◌+◌, ◌-◌, ◌%◌, ◌^◌, ◌≤◌, ◌≡◌, ◌≢◌, ◌⊎◌, Bool, true, ◌&&◌, [], Option, none,
  some, ltb, if◌then◌else◌, ◌==◌, nat_eq,
}
use gomq.Prelude.GoMap.{GoMap, lookup, insert, remove, lookup_or}

pub record Limit : Type 0 where
  pub count : ℕ
  pub size : ℕ
  pub global : Bool

pub record Prefetch : Type 0 where
  pub global_limit : Option Limit
  pub default_limit : Option Limit
  pub limits : GoMap ℕ Limit
  pub by_chan : GoMap ℕ ℕ
  pub by_conn : ℕ

unfoldable pub new_prefetch : Prefetch
new_prefetch = record {
  global_limit = none;
  default_limit = none;
  limits = [];
  by_chan = [];
  by_conn = 0;
}

unfoldable pub set_prefetch : ℕ → ℕ → Bool → Prefetch → Prefetch
set_prefetch count size global p =
    let limit : Limit = record { count = count; size = size; global = global } in
    if global
    then record p { global_limit = some limit }
    else record p { default_limit = some limit }

unfoldable pub set_channel_prefetch : ℕ → ℕ → ℕ → Bool → Prefetch → Prefetch
unfolding remove insert
set_channel_prefetch channel count size global p =
    let limit : Limit = record { count = count; size = size; global = global } in
    if global
    then record p { global_limit = some limit; limits = remove channel p.limits }
    else record p { limits = insert channel limit p.limits }

unfoldable pub limit_for : ℕ → Prefetch → Option Limit
unfolding lookup
limit_for channel p = elim p.global_limit [
  | some l ↦ some l
  | none ↦ elim (lookup channel p.limits) [ some l ↦ some l | none ↦ p.default_limit ]
]

unfoldable pub current : ℕ → Prefetch → ℕ
unfolding lookup_or lookup
current channel p = lookup_or 0 channel p.by_chan

unfoldable pub record_delivery : ℕ → Prefetch → Prefetch
unfolding current insert
record_delivery channel p = record p {
  by_chan = insert channel ((current channel p + 1) % 2 ^ 16) p.by_chan;
  by_conn = (p.by_conn + 1) % 2 ^ 16;
}

unfoldable pub ack_delivery : ℕ → Prefetch → Prefetch
unfolding current insert
ack_delivery channel p = record p {
  by_chan =
      if ltb 0 (current channel p)
      then insert channel (current channel p - 1) p.by_chan
      else p.by_chan;
  by_conn = if ltb 0 p.by_conn then p.by_conn - 1 else p.by_conn;
}

unfoldable pub can_deliver : ℕ → Prefetch → Bool
unfolding limit_for current
can_deliver channel p = elim (limit_for channel p) [
  | none ↦ true
  | some l ↦
      if l.count == 0 && l.size == 0
      then true
      else if l.global
      then ltb p.by_conn l.count
      else ltb (current channel p) l.count
]

pub data Event : Type 0 where
  delivery acknowledgement : ℕ → Event

-- A run of the limiter, with its events from the last one back: deliveries are made only where
-- CanDeliver allows them, acknowledgements come at any time.
pub data Run (p : Prefetch) : List Event → Prefetch → Type 0 where
  here : Run p [] p
  hand_out :
      {es : List Event} {q : Prefetch} (channel : ℕ)
      → Run p es q
      → can_deliver channel q ≡ true
      → Run p (delivery channel ∷ es) (record_delivery channel q)
  ack :
      {es : List Event} {q : Prefetch} (channel : ℕ)
      → Run p es q
      → Run p (acknowledgement channel ∷ es) (ack_delivery channel q)

-- A limit in force: one that is not the pair of zeros, which means no limit.
abbrev pub IsLimit : Limit → Type 0
IsLimit l = (l.count ≢ 0) ⊎ (l.size ≢ 0)

-- The limit counts the events of its channel, or those of all channels.
abbrev pub counts : ℕ → Limit → ℕ → Bool
counts channel l c = if l.global then true else c == channel

-- The deliveries that have not been acknowledged, by the events alone; an acknowledgement takes one
-- away, where there is one.
abbrev pub outstanding : (ℕ → Bool) → List Event → ℕ
outstanding of_limit [] = 0
outstanding of_limit (delivery c ∷ es) =
    if of_limit c then suc (outstanding of_limit es) else outstanding of_limit es
outstanding of_limit (acknowledgement c ∷ es) =
    if of_limit c then outstanding of_limit es - 1 else outstanding of_limit es

-- The counter that the limit is compared with.
abbrev counted : ℕ → Limit → Prefetch → ℕ
counted channel l p = if l.global then p.by_conn else current channel p

-- The limit holds for the channel, and a limit on the whole server is the global one.
pub record Limited (channel : ℕ) (l : Limit) (p : Prefetch) : Type 0 where
  pub in_force : limit_for channel p ≡ some l
  pub server_wide : l.global ≡ true → p.global_limit ≡ some l

-- The counter is the number of outstanding deliveries, and within the limit.
record Inv (channel : ℕ) (l : Limit) (es : List Event) (p : Prefetch) : Type 0 where
  limited : Limited channel l p
  exact : counted channel l p ≡ outstanding (counts channel l) es
  bound : outstanding (counts channel l) es ≤ l.count
