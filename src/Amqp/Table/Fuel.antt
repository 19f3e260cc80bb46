-- ===== src/Amqp/Table/Fuel.antt =====
-- ReadTable ends on every input: the fuel of the model is never used up.
use gomq.Prelude.{
  ℕ, zero, suc, ◌+◌, ◌≤◌, ◌<◌, Bool, true, false, [], ◌∷◌, Text, arith, length, length-take,
  length-drop, Result, ok, err, ◌>>=◌, if◌then◌else◌, ◌==◌, nat_eq,
}
use gomq.Amqp.Octets.{Error, out_of_fuel, get_be, read_full}
use gomq.Amqp.Decode.{
  read_uint8, read_uint16, read_uint32, read_uint64, read_int8, read_int16, read_int32, read_int64,
  read_bool, read_string, read_bytes, read_timestamp,
}
use gomq.Amqp.Table.Value.{
  Value, Fields, FloatConv, bool, int8, int16, int32, int64, uint8, uint16, uint32, uint64, float32,
  float64, string, bytes, time, table, end, put_field,
}
use gomq.Amqp.Table.ReadTable.{
  as_value, read_float32, read_float64, read_table_with, read_table_value, read_table_body,
  read_table,
}

-- A value of which `P` holds, or an error of the program.
abbrev pub Ends {ℓ} : {A : Type ℓ} → (A → Type 0) → Result Error A → Type 0
Ends P (ok a) = P a
Ends P (err out_of_fuel) = ⊥
Ends P (err _) = Unit

Ends-bind {ℓ κ} :
    {A : Type ℓ} {B : Type κ} (P : A → Type 0) (Q : B → Type 0) (r : Result Error A)
    (f : A → Result Error B)
    → Ends P r
    → ((x : A) → P x → Ends Q (f x))
    → Ends Q (r >>= f)
Ends-bind P Q (err out_of_fuel) f first then_ends = first
Ends-bind P Q (err _) f first then_ends = tt
Ends-bind P Q (ok x) f first then_ends = then_ends x first

Ends-mono {ℓ} :
    {A : Type ℓ} (P Q : A → Type 0) (r : Result Error A)
    → ((a : A) → P a → Q a)
    → Ends P r
    → Ends Q r
Ends-mono P Q (ok a) f h = f a h
Ends-mono P Q (err out_of_fuel) f h = h
Ends-mono P Q (err _) f h = tt

if-Ends {ℓ} :
    {A : Type ℓ} (P : A → Type 0) (b : Bool) (x y : Result Error A)
    → Ends P x
    → Ends P y
    → Ends P (if b then x else y)
if-Ends P true x y hx hy = hx
if-Ends P false x y hx hy = hy

-- What is left is at least `k` bytes shorter than `n`.
abbrev pub Leaves {ℓ} : {A : Type ℓ} → ℕ → ℕ → A × Text → Type 0
Leaves k n r = length (r.1) + k ≤ n

read_full-Ends :
    (n : ℕ) (d : Text)
    → Ends (λ r. (length (r.0) ≤ length d) × (length (r.1) + n ≤ length d)) (read_full n d)
unfolding read_full
read_full-Ends n [] = ground (arith, length-take {A = ℕ} n [], length-drop {A = ℕ} n [])
read_full-Ends n (b ∷ d) = ground (arith, length-take n (b ∷ d), length-drop n (b ∷ d))

-- A read of `n` bytes and a pure function of what was read.
word-Leaves :
    {A : Type 0} (n k : ℕ) (g : Text → A) (d : Text)
    → k ≤ n
    → Ends (Leaves k (length d)) (read_full n d >>= λ (b, d'). ok (g b, d'))
word-Leaves n k g d h =
    Ends-bind _ (Leaves k (length d)) (read_full n d) _ (read_full-Ends n d)
      λ (b, d') r. omega arith

-- A pure function of the value that was read.
map-Leaves :
    {A B : Type 0} (k n : ℕ) (g : A → B) (r : Result Error (A × Text))
    → Ends (Leaves k n) r
    → Ends (Leaves k n) (r >>= λ (a, d). ok (g a, d))
map-Leaves k n g r h = Ends-bind _ (Leaves k n) r _ h λ (a, d) l. l

read_uint8-Leaves : (d : Text) → Ends (Leaves 1 (length d)) (read_uint8 d)
unfolding read_uint8
read_uint8-Leaves d = word-Leaves 1 1 (get_be 0) d (omega arith)

read_uint16-Leaves : (d : Text) → Ends (Leaves 0 (length d)) (read_uint16 d)
unfolding read_uint16
read_uint16-Leaves d = word-Leaves 2 0 (get_be 0) d (omega arith)

read_uint32-Leaves : (d : Text) → Ends (Leaves 4 (length d)) (read_uint32 d)
unfolding read_uint32
read_uint32-Leaves d = word-Leaves 4 4 (get_be 0) d (omega arith)

read_uint64-Leaves : (d : Text) → Ends (Leaves 0 (length d)) (read_uint64 d)
unfolding read_uint64
read_uint64-Leaves d = word-Leaves 8 0 (get_be 0) d (omega arith)

text-Leaves : (d : Text) → Ends (Leaves 4 (length d)) (read_uint32 d >>= λ (n, d'). read_full n d')
text-Leaves d =
    Ends-bind _ (Leaves 4 (length d)) (read_uint32 d) _ (read_uint32-Leaves d)
      λ (n, d') l. Ends-mono _ _ (read_full n d') (λ r e. omega arith) (read_full-Ends n d')

read_string-Leaves : (d : Text) → Ends (Leaves 4 (length d)) (read_string d)
unfolding read_string
read_string-Leaves d = text-Leaves d

read_table_with-Leaves :
    (body : Text → Result Error Fields) (n : ℕ) (d : Text)
    → length d ≤ n
    → ((octets : Text) → length octets ≤ n → Ends (λ _. Unit) (body octets))
    → Ends (Leaves 0 (length d)) (read_table_with body d)
unfolding read_table_with
read_table_with-Leaves body n d h ends =
    Ends-bind _ (Leaves 0 (length d)) (read_uint32 d) _ (read_uint32-Leaves d) λ (size, d') l.
      if-Ends (Leaves 0 (length d)) (size == 0) _ _ (omega arith) (
        Ends-bind _ (Leaves 0 (length d)) (read_full size d') _ (read_full-Ends size d')
          λ (octets, d'') k.
            Ends-bind (λ _. Unit) (Leaves 0 (length d)) (body octets) _ (ends octets (omega arith))
              λ fs _. omega arith)

byte : (d : Text) → Ends (Leaves 0 (length d)) (read_uint8 d)
byte d = Ends-mono _ _ (read_uint8 d) (λ r e. omega arith) (read_uint8-Leaves d)

word : (d : Text) → Ends (Leaves 0 (length d)) (read_uint32 d)
word d = Ends-mono _ _ (read_uint32 d) (λ r e. omega arith) (read_uint32-Leaves d)

text : (d : Text) → Ends (Leaves 0 (length d)) (read_uint32 d >>= λ (n, d'). read_full n d')
text d =
    Ends-mono (Leaves 4 (length d)) (Leaves 0 (length d)) _ (λ r e. omega arith) (text-Leaves d)

pick :
    {A : Type 0} (n : ℕ) (b : Bool) (wrap : A → Value) (r : Result Error (A × Text))
    (y : Result Error (Value × Text))
    → Ends (Leaves 0 n) r
    → Ends (Leaves 0 n) y
    → Ends (Leaves 0 n) (if b then as_value wrap r else y)
pick n b wrap r y h k = if-Ends (Leaves 0 n) b _ y (map-Leaves 0 n wrap r h) k

module _ (c : FloatConv) (body : Text → Result Error Fields) (n : ℕ)
    (ends : (octets : Text) → length octets ≤ n → Ends (λ _. Unit) (body octets)) where
  read_table_value-Leaves :
      (d : Text) → length d ≤ n → Ends (Leaves 0 (length d)) (read_table_value c body d)
  unfolding read_table_value read_int8 read_int16 read_int32 read_int64 read_bool read_bytes
      read_timestamp read_float32 read_float64 read_string
  read_table_value-Leaves d h =
      Ends-bind _ (Leaves 0 (length d)) (read_uint8 d) _ (read_uint8-Leaves d) λ (typ, d') l.
        Ends-mono (Leaves 0 (length d')) (Leaves 0 (length d)) _ (λ r e. omega arith)
          (pick (length d') (typ == b't') bool (read_bool d') _
            (map-Leaves 0 _ _ (read_uint8 d') (byte d'))
            (pick (length d') (typ == b'b') int8 (read_int8 d') _
              (map-Leaves 0 _ _ (read_uint8 d') (byte d'))
              (pick (length d') (typ == b'B') uint8 (read_uint8 d') _ (byte d') (
                pick (length d') (typ == b's') int16 (read_int16 d') _
                  (map-Leaves 0 _ _ (read_uint16 d') (read_uint16-Leaves d'))
                  (pick (length d') (typ == b'u') uint16 (read_uint16 d') _ (read_uint16-Leaves d')
                    (pick (length d') (typ == b'I') int32 (read_int32 d') _
                      (map-Leaves 0 _ _ (read_uint32 d') (word d'))
                      (pick (length d') (typ == b'i') uint32 (read_uint32 d') _ (word d') (
                        pick (length d') (typ == b'l') int64 (read_int64 d') _
                          (map-Leaves 0 _ _ (read_uint64 d') (read_uint64-Leaves d'))
                          (pick (length d') (typ == b'L') uint64 (read_uint64 d') _
                            (read_uint64-Leaves d')
                            (pick (length d') (typ == b'f') float32 (read_float32 c d') _
                              (map-Leaves 0 _ _ (read_uint32 d') (word d'))
                              (pick (length d') (typ == b'd') float64 (read_float64 c d') _
                                (map-Leaves 0 _ _ (read_uint64 d') (read_uint64-Leaves d'))
                                (pick (length d') (typ == b'S') string (read_string d') _ (text d')
                                  (pick (length d') (typ == b'x') bytes (read_bytes d') _ (text d')
                                    (pick (length d') (typ == b'T') (λ s. time s 0)
                                      (read_timestamp d') _
                                      (map-Leaves 0 _ _ (read_uint64 d') (read_uint64-Leaves d'))
                                      (pick (length d') (typ == b'F') table
                                        (read_table_with body d') _
                                        (read_table_with-Leaves body n d' (omega arith) ends)
                                        tt)))))))))))))))

read_table_body-Ends :
    (c : FloatConv) (f : ℕ) (d : Text) (acc : Fields)
    → length d < f
    → Ends (λ _. Unit) (read_table_body c f d acc)
unfolding read_table_body
read_table_body-Ends c zero d acc h = absurd (omega arith)
read_table_body-Ends c (suc f) [] acc h = tt
read_table_body-Ends c (suc f) (b ∷ d) acc h =
    Ends-bind _ (λ _. Unit) (read_string (b ∷ d)) _ (read_string-Leaves (b ∷ d))
      λ (key, d1) l.
        Ends-bind (Leaves 0 (length d1)) (λ _. Unit) _ _
          (read_table_value-Leaves c _ (length d1)
            (λ octets k. read_table_body-Ends c f octets end (omega arith)) d1 (omega arith))
          λ (val, d2) k. read_table_body-Ends c f d2 (put_field key val acc) (omega arith)

-- ReadTable returns a table or one of Go's errors on every input, never the end of the fuel.
pub read_table-Ends : (c : FloatConv) (d : Text) → Ends (Leaves 0 (length d)) (read_table c d)
unfolding read_table
read_table-Ends c d =
    read_table_with-Leaves _ (length d) d (omega arith)
      λ octets h. read_table_body-Ends c (suc (length octets)) octets end (omega arith)
