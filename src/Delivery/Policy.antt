-- ===== src/Delivery/Policy.antt =====
-- internal/server/dead_letter.go, ttl.go and the reading of x-max-priority in priority_queue.go: what
-- the arguments of a queue say about its messages.
use gomq.Prelude.{
  ℕ, suc, ◌+◌, ◌*◌, ◌%◌, ◌^◌, Bool, false, not, ◌&&◌, [], Text, codes, Option, none, some, ◌==◌,
  nat_eq, text_eq, ltb, leb, if◌then◌else◌,
}
use gomq.Prelude.GoMap.{lookup}
use gomq.Amqp.Signed.{ℤ, pos, negsuc, to_word, of_word}
use gomq.Amqp.Table.Value.{FloatConv}
use gomq.Routing.Binding.{Any, Args, string, int, uint, float}
use gomq.Routing.Headers.{FloatOps}
use gomq.Broker.Message.{Message}

-- What the broker uses of Go and its libraries, and the time at which a call runs. A float64 stands
-- by its bits.
pub record Platform : Type 0 where
  pub float_ops : FloatOps
  pub float_conv : FloatConv
  -- float64(v) of a float32, over the bits.
  pub widen : ℕ → ℕ
  -- int(v) and time.Duration(v) of a float64.
  pub float_to_int : ℕ → ℤ
  -- `<` and `<=` on float64.
  pub float_lt : ℕ → ℕ → Bool
  pub float_le : ℕ → ℕ → Bool
  -- strconv.ParseInt(s, 10, 64)
  pub parse_int : Text → Option ℤ
  -- fmt.Sprintf("%v", v)
  pub print : Any → Text
  -- The FNV-1a sum of hash/fnv.
  pub hash : Text → ℕ
  -- time.Now() in nanoseconds.
  pub now : ℕ

pub record DeadLetterConfig : Type 0 where
  pub exchange : Text
  pub routing_key : Text

unfoldable pub get_dead_letter_config : Args → Option DeadLetterConfig
unfolding lookup
get_dead_letter_config args = elim (lookup (codes "x-dead-letter-exchange") args) [
  | some (string ex_name) ↦
      if ex_name == []
      then none
      else some (record {
        exchange = ex_name;
        routing_key = elim (lookup (codes "x-dead-letter-routing-key") args) [
          | some (string rks) ↦ rks
          | _ ↦ []
        ];
      })
  | _ ↦ none
]

-- `int(n)` in the cases of the switches; an int has 64 bits.
unfoldable pub number : Platform → Any → Option ℤ
unfolding of_word
number p (int z) = some z
number p (uint n) = some (of_word 0x8000_0000_0000_0000 n)
number p (float b) = some (p.float_to_int b)
number p _ = none

unfoldable pub number_at : Platform → Text → Args → ℤ
unfolding lookup number
number_at p key args = elim (lookup key args) [
  | none ↦ pos 0
  | some v ↦ elim (number p v) [ none ↦ pos 0 | some z ↦ z ]
]

unfoldable pub max_length : Platform → Args → ℤ
unfolding number_at
max_length p args = number_at p (codes "x-max-length") args

unfoldable pub should_dead_letter : Args → Text → Bool
unfolding get_dead_letter_config
should_dead_letter args reason = elim (get_dead_letter_config args) [
  | none ↦ false
  | some _ ↦ not (reason == [])
]

-- `time.Duration(ms) * time.Millisecond` on int64.
unfoldable pub milliseconds : ℤ → ℤ
unfolding of_word to_word
milliseconds ms =
    of_word 0x8000_0000_0000_0000 ((to_word 0x8000_0000_0000_0000 ms * 1_000_000) % 2 ^ 64)

unfoldable pub message_ttl : Platform → Message → ℤ
unfolding milliseconds
message_ttl p msg =
    if msg.properties.expiration == []
    then pos 0
    else elim (p.parse_int msg.properties.expiration) [ none ↦ pos 0 | some ms ↦ milliseconds ms ]

unfoldable pub queue_ttl : Platform → Args → ℤ
unfolding number_at milliseconds
queue_ttl p args = milliseconds (number_at p (codes "x-message-ttl") args)

-- `ttl == 0`
unfoldable pub is_zero : ℤ → Bool
is_zero (pos n) = n == 0
is_zero (negsuc n) = false

-- `time.Since(at) >= ttl`, for a `ttl` that is not 0.
unfoldable pub since_reaches : ℕ → ℕ → ℤ → Bool
since_reaches now at (pos ttl) = leb (at + ttl) now
since_reaches now at (negsuc n) = leb at (now + suc n)

unfoldable pub is_expired : Platform → Message → Args → Bool
unfolding message_ttl queue_ttl is_zero since_reaches
is_expired p msg queue_args =
    let own = message_ttl p msg in
    let ttl = if is_zero own then queue_ttl p queue_args else own in
    elim msg.enqueued_at [
      | none ↦ false
      | some at ↦ if is_zero ttl then false else since_reaches p.now at ttl
    ]

abbrev float_255 : ℕ
float_255 = 0x406F_E000_0000_0000

-- uint8(v) of a number from 1 to 255, and 0 where there is none.
unfoldable pub byte_of : ℤ → ℕ
byte_of (pos n) = if ltb 0 n && leb n 255 then n else 0
byte_of (negsuc n) = 0

-- The bits of the float 0 are 0.
unfoldable pub max_priority : Platform → Args → ℕ
unfolding lookup byte_of
max_priority p args = elim (lookup (codes "x-max-priority") args) [
  | some (int z) ↦ byte_of z
  | some (uint n) ↦ byte_of (pos n)
  | some (float b) ↦
      if p.float_lt 0 b && p.float_le b float_255 then byte_of (p.float_to_int b) else 0
  | _ ↦ 0
]
