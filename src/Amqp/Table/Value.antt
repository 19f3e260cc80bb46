-- ===== src/Amqp/Table/Value.antt =====
-- The values that an AMQP table holds: the Go types of the switch in writeTableValue.
use gomq.Prelude.{ℕ, Bool, ◌≢◌, Text, ◌==◌, text_eq, if◌then◌else◌}
use gomq.Amqp.Signed.{ℤ}

mutual
  -- A float stands by its bits, a time by its Unix seconds and its nanoseconds. `unsupported` is a
  -- value of any other Go type.
  pub data Value : Type 0 where
    bool : Bool → Value
    int8 int16 int32 int64 : ℤ → Value
    uint8 uint16 uint32 uint64 : ℕ → Value
    float32 float64 : ℕ → Value
    string bytes : Text → Value
    time : ℤ → ℕ → Value
    table : Fields → Value
    unsupported : Value

  -- A map[string]interface{}, in the order in which `range` visits it.
  pub data Fields : Type 0 where
    end : Fields
    field : Text → Value → Fields → Fields

-- The conversions uint32(v), float32(u), uint64(v), float64(u) of Go, over the bits of the floats.
pub record FloatConv : Type 0 where
  pub to_uint32 : ℕ → ℕ
  pub of_uint32 : ℕ → ℕ
  pub to_uint64 : ℕ → ℕ
  pub of_uint64 : ℕ → ℕ

-- result[key] = val
unfoldable pub put_field : Text → Value → Fields → Fields
put_field k v end = field k v end
put_field k v (field j w fs) = if j == k then field k v fs else field j w (put_field k v fs)

-- `k` is no key of the map.
abbrev pub Absent : Text → Fields → Type 0
Absent k end = Unit
Absent k (field j w fs) = (j ≢ k) × Absent k fs

-- No key of the second map is one of the first.
abbrev pub Disjoint : Fields → Fields → Type 0
Disjoint acc end = Unit
Disjoint acc (field k v fs) = Absent k acc × Disjoint acc fs

abbrev pub append : Fields → Fields → Fields
append end gs = gs
append (field k v fs) gs = field k v (append fs gs)
