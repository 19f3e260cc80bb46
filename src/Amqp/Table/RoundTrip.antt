-- ===== src/Amqp/Table/RoundTrip.antt =====
-- WriteTable against ReadTable.
use mathlib.Core.List.{append_assoc}
use gomq.Prelude.{
  ℕ, zero, suc, ◌+◌, ◌≤◌, ◌<◌, ◌≡◌, ◌≢◌, refl, sym, ap, true, false, [], ◌∷◌, ◌++◌, Text, arith,
  length, length-append, Result, ok, ◌>>=◌, ◌==◌, nat_eq, text_eq, ==_iff, if◌then◌else◌,
}
use gomq.Amqp.Octets.{Error, put_be, length-put_be, read_full_exact}
use gomq.Amqp.Signed.{ℤ, to_word, InRange, of_word-to_word, to_word-lt}
use gomq.Amqp.Encode.{new_encoder}
use gomq.Amqp.Decode.{read_bool, read_string, read_bytes, read_timestamp}
use gomq.Amqp.Words.{
  read_uint8_lem, read_uint16_lem, read_uint32_lem, read_uint64_lem, read_int8_lem, read_int16_lem,
  read_int32_lem, read_int64_lem, read_string_lem,
}
use gomq.Amqp.Table.Value.{
  Value, Fields, FloatConv, bool, int8, int16, int32, int64, uint8, uint16, uint32, uint64, float32,
  float64, string, bytes, time, table, unsupported, end, field, put_field, Absent, Disjoint, append,
}
use gomq.Amqp.Table.Write.{write_table}
use gomq.Amqp.Table.ReadTable.{
  read_float32, read_float64, read_table_with, read_table_value, read_table_body, read_table,
}
use gomq.Amqp.Table.Bytes.{
  prefixed, value_bytes, fields_bytes, IsEncodable, AllEncodable, write_table_lem, u32,
}

put_field-append :
    (k : Text) (v : Value) (acc fs : Fields)
    → Absent k acc
    → append (put_field k v acc) fs ≡ append acc (field k v fs)
unfolding put_field
put_field-append k v end fs h = refl
put_field-append k v (field j w acc) fs h =
    ground (arith, ==_iff j k, put_field-append k v acc fs h.1)

Absent-put_field :
    (j k : Text) (v : Value) (acc : Fields) → k ≢ j → Absent j acc → Absent j (put_field k v acc)
unfolding put_field
Absent-put_field j k v end ne h = (ne, tt)
Absent-put_field j k v (field i w acc) ne h =
    ground (arith, ==_iff i k, Absent-put_field j k v acc ne h.1)

Disjoint-put_field :
    (k : Text) (v : Value) (acc fs : Fields)
    → Absent k fs
    → Disjoint acc fs
    → Disjoint (put_field k v acc) fs
Disjoint-put_field k v acc end a d = tt
Disjoint-put_field k v acc (field j w fs) a d =
    (Absent-put_field j k v acc (λ e. a.0 (sym e)) d.0, Disjoint-put_field k v acc fs a.1 d.1)

Disjoint-end : (fs : Fields) → Disjoint end fs
Disjoint-end end = tt
Disjoint-end (field k v fs) = (tt, Disjoint-end fs)

append-end : (fs : Fields) → append fs end ≡ fs
append-end end = refl
append-end (field k v fs) = ap (field k v) (append-end fs)

read_bytes_lem :
    (s rest : Text)
    → length s < u32
    → read_bytes (put_be 4 (length s) ++ (s ++ rest)) ≡ ok (s, rest)
unfolding read_bytes
read_bytes_lem s rest h =
    rw (read_uint32_lem (length s) (s ++ rest) h) (read_full_exact (length s) s rest refl)

read_timestamp_lem :
    (z : ℤ) (rest : Text)
    → InRange 0x8000_0000_0000_0000 z
    → read_timestamp (put_be 8 (to_word 0x8000_0000_0000_0000 z) ++ rest) ≡ ok (z, rest)
unfolding read_timestamp
read_timestamp_lem z rest h = rw (
  read_uint64_lem _ rest (to_word-lt 0x8000_0000_0000_0000 z (omega arith)),
  of_word-to_word 0x8000_0000_0000_0000 z h,
)

-- A body whose parser reads `data` back, behind its length.
read_table_with_lem :
    (body : Text → Result Error Fields) (octets rest : Text) (fs : Fields)
    → length octets < u32
    → body octets ≡ ok fs
    → (length octets ≡ 0 → fs ≡ end)
    → read_table_with body (prefixed octets ++ rest) ≡ ok (fs, rest)
unfolding read_table_with
read_table_with_lem body octets rest fs h e z =
    rw
      (
        append_assoc (put_be 4 (length octets)) octets rest,
        read_uint32_lem (length octets) (octets ++ rest) h,
        read_full_exact (length octets) octets rest refl,
        e,
      )
      (choose octets z)
  where
    choose :
        (o : Text)
        → (length o ≡ 0 → fs ≡ end)
        → ◌≡◌ {A = Result Error (Fields × Text)}
            (if length o == 0 then ok (end, o ++ rest) else ok (fs, rest))
            (ok (fs, rest))
    choose [] k = rw (k refl)
    choose (x ∷ xs) k = ground arith

no_bytes : (c : FloatConv) (fs : Fields) → length (fields_bytes c fs) ≡ 0 → fs ≡ end
unfolding fields_bytes
no_bytes c end h = refl
no_bytes c (field k v fs) h = absurd (
    omega (
      arith,
      length-append (prefixed k) (value_bytes c v ++ fields_bytes c fs),
      length-append (put_be 4 (length k)) k,
      length-put_be 4 (length k),
    ))

length-prefixed : (s : Text) → length (prefixed s) ≡ 4 + length s
length-prefixed s = omega (arith, length-append (put_be 4 (length s)) s, length-put_be 4 (length s))

-- A round of the loop, on bytes that are there.
read_table_body_round :
    (c : FloatConv) (f : ℕ) (d : Text) (acc : Fields)
    → 0 < length d
    → read_table_body c (suc f) d acc ≡ (
        read_string d >>= λ (key, d1).
        (read_table_value c (λ octets. read_table_body c f octets end) d1 >>= λ (val, d2).
        read_table_body c f d2 (put_field key val acc)))
unfolding read_table_body
read_table_body_round c f [] acc h = absurd (omega arith)
read_table_body_round c f (b ∷ d) acc h = refl

length-field :
    (c : FloatConv) (k : Text) (v : Value) (fs : Fields)
    → length (fields_bytes c (field k v fs))
      ≡ 4 + length k + (length (value_bytes c v) + length (fields_bytes c fs))
unfolding fields_bytes
length-field c k v fs = omega (
  arith,
  length-append (prefixed k) (value_bytes c v ++ fields_bytes c fs),
  length-append (value_bytes c v) (fields_bytes c fs),
  length-prefixed k,
)

mutual
  unfolding value_bytes fields_bytes read_table_value read_table_body

  read_value_lem :
      (c : FloatConv) (v : Value) (f : ℕ) (rest : Text)
      → IsEncodable c v
      → length (value_bytes c v) ≤ f
      → read_table_value c (λ octets. read_table_body c f octets end) (value_bytes c v ++ rest)
        ≡ ok (v, rest)
  read_value_lem c (bool true) f rest h m =
      rw (read_uint8_lem b't' _ (omega arith), read_bool, read_uint8_lem 1 rest (omega arith))
  read_value_lem c (bool false) f rest h m =
      rw (read_uint8_lem b't' _ (omega arith), read_bool, read_uint8_lem 0 rest (omega arith))
  read_value_lem c (int8 v) f rest h m =
      rw (read_uint8_lem b'b' _ (omega arith), read_int8_lem v rest h)
  read_value_lem c (int16 v) f rest h m =
      rw (read_uint8_lem b's' _ (omega arith), read_int16_lem v rest h)
  read_value_lem c (int32 v) f rest h m =
      rw (read_uint8_lem b'I' _ (omega arith), read_int32_lem v rest h)
  read_value_lem c (int64 v) f rest h m =
      rw (read_uint8_lem b'l' _ (omega arith), read_int64_lem v rest h)
  read_value_lem c (uint8 v) f rest h m =
      rw (read_uint8_lem b'B' _ (omega arith), read_uint8_lem v rest h)
  read_value_lem c (uint16 v) f rest h m =
      rw (read_uint8_lem b'u' _ (omega arith), read_uint16_lem v rest h)
  read_value_lem c (uint32 v) f rest h m =
      rw (read_uint8_lem b'i' _ (omega arith), read_uint32_lem v rest h)
  read_value_lem c (uint64 v) f rest h m =
      rw (read_uint8_lem b'L' _ (omega arith), read_uint64_lem v rest h)
  read_value_lem c (float32 v) f rest h m =
      rw (read_uint8_lem b'f' _ (omega arith), read_float32, read_uint32_lem _ rest h.0, h.1)
  read_value_lem c (float64 v) f rest h m =
      rw (read_uint8_lem b'd' _ (omega arith), read_float64, read_uint64_lem _ rest h.0, h.1)
  read_value_lem c (string v) f rest h m = rw (
    read_uint8_lem b'S' _ (omega arith),
    append_assoc (put_be 4 (length v)) v rest,
    read_string_lem v rest h,
  )
  read_value_lem c (bytes v) f rest h m = rw (
    read_uint8_lem b'x' _ (omega arith),
    append_assoc (put_be 4 (length v)) v rest,
    read_bytes_lem v rest h,
  )
  read_value_lem c (time seconds nanos) f rest h m =
      rw (read_uint8_lem b'T' _ (omega arith), read_timestamp_lem seconds rest h.0, h.1)
  read_value_lem c (table fs) f rest h m = rw (
    read_uint8_lem b'F' _ (omega arith),
    read_table_with_lem _ (fields_bytes c fs) rest fs h.1
        (read_body_lem c fs f end h.0 (Disjoint-end fs)
          (omega (arith, length-prefixed (fields_bytes c fs))))
        (no_bytes c fs),
  )
  read_value_lem c unsupported f rest h m = absurd h

  read_body_lem :
      (c : FloatConv) (fs : Fields) (f : ℕ) (acc : Fields)
      → AllEncodable c fs
      → Disjoint acc fs
      → length (fields_bytes c fs) < f
      → read_table_body c f (fields_bytes c fs) acc ≡ ok (append acc fs)
  read_body_lem c end zero acc h d m = absurd (omega arith)
  read_body_lem c end (suc f) acc h d m = rw (append-end acc)
  read_body_lem c (field k v fs) zero acc h d m = absurd (omega arith)
  read_body_lem c (field k v fs) (suc f) acc h d m = rw (
    read_table_body_round c f (fields_bytes c (field k v fs)) acc
        (omega (arith, length-field c k v fs)),
    append_assoc (put_be 4 (length k)) k (value_bytes c v ++ fields_bytes c fs),
    read_string_lem k (value_bytes c v ++ fields_bytes c fs) h.0,
    read_value_lem c v f (fields_bytes c fs) h.1 (omega (arith, length-field c k v fs)),
    read_body_lem c fs f (put_field k v acc) h.3 (Disjoint-put_field k v acc fs h.2 d.1)
        (omega (arith, length-field c k v fs)),
    put_field-append k v acc fs d.0,
  )

-- A table of at most 2 ^ 32 - 1 bytes whose values are encodable, at any depth, is written without
-- an error, and reading the bytes gives the same table, in the same order, and leaves what follows.
pub read_table-write_table :
    (c : FloatConv) (fs : Fields)
    → AllEncodable c fs
    → length (fields_bytes c fs) < u32
    → (wire : Text) × (write_table c new_encoder fs ≡ ok wire)
      × ((rest : Text) → read_table c (wire ++ rest) ≡ ok (fs, rest))
unfolding read_table new_encoder
read_table-write_table c fs h k = (
  prefixed (fields_bytes c fs),
  write_table_lem c fs [] h,
  λ rest.
      read_table_with_lem _ (fields_bytes c fs) rest fs k
        (read_body_lem c fs (suc (length (fields_bytes c fs))) end h (Disjoint-end fs)
          (omega arith))
        (no_bytes c fs),
)
