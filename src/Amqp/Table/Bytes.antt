-- ===== src/Amqp/Table/Bytes.antt =====
-- The bytes of a table, independent of the encoder's buffers, and what a table needs to be read
-- back.
use mathlib.Core.List.{append_assoc, append-nil}
use gomq.Prelude.{ℕ, ◌<◌, ◌≡◌, true, false, [], ◌∷◌, ◌++◌, Text, length, ok, if◌then◌else◌}
use gomq.Amqp.Octets.{put_be}
use gomq.Amqp.Signed.{to_word, InRange}
use gomq.Amqp.Table.Value.{
  Value, Fields, FloatConv, bool, int8, int16, int32, int64, uint8, uint16, uint32, uint64, float32,
  float64, string, bytes, time, table, unsupported, end, field, Absent,
}
use gomq.Amqp.Table.Write.{write_table_value, write_fields, write_table}

abbrev pub u32 : ℕ
u32 = 0x1_0000_0000

-- A text behind its length.
abbrev pub prefixed : Text → Text
prefixed s = put_be 4 (length s) ++ s

unfoldable mutual
  pub value_bytes : FloatConv → Value → Text
  value_bytes c (bool v) = b't' ∷ (if v then 1 else 0) ∷ []
  value_bytes c (int8 v) = b'b' ∷ to_word 128 v ∷ []
  value_bytes c (uint8 v) = b'B' ∷ v ∷ []
  value_bytes c (int16 v) = b's' ∷ put_be 2 (to_word 32768 v)
  value_bytes c (uint16 v) = b'u' ∷ put_be 2 v
  value_bytes c (int32 v) = b'I' ∷ put_be 4 (to_word 0x8000_0000 v)
  value_bytes c (uint32 v) = b'i' ∷ put_be 4 v
  value_bytes c (int64 v) = b'l' ∷ put_be 8 (to_word 0x8000_0000_0000_0000 v)
  value_bytes c (uint64 v) = b'L' ∷ put_be 8 v
  value_bytes c (float32 v) = b'f' ∷ put_be 4 (c.to_uint32 v)
  value_bytes c (float64 v) = b'd' ∷ put_be 8 (c.to_uint64 v)
  value_bytes c (string v) = b'S' ∷ prefixed v
  value_bytes c (bytes v) = b'x' ∷ prefixed v
  value_bytes c (time seconds nanos) = b'T' ∷ put_be 8 (to_word 0x8000_0000_0000_0000 seconds)
  value_bytes c (table fs) = b'F' ∷ prefixed (fields_bytes c fs)
  value_bytes c unsupported = []

  pub fields_bytes : FloatConv → Fields → Text
  fields_bytes c end = []
  fields_bytes c (field key val fs) = prefixed key ++ (value_bytes c val ++ fields_bytes c fs)

-- What reading back needs: numbers in the range of their types, lengths of 32 bits, floats that are
-- whole numbers in the range of the words, times without a fraction, and the distinct keys of a map.
abbrev mutual
  pub IsEncodable : FloatConv → Value → Type 0
  IsEncodable c (bool v) = Unit
  IsEncodable c (int8 v) = InRange 128 v
  IsEncodable c (uint8 v) = v < 256
  IsEncodable c (int16 v) = InRange 32768 v
  IsEncodable c (uint16 v) = v < 0x1_0000
  IsEncodable c (int32 v) = InRange 0x8000_0000 v
  IsEncodable c (uint32 v) = v < u32
  IsEncodable c (int64 v) = InRange 0x8000_0000_0000_0000 v
  IsEncodable c (uint64 v) = v < 0x1_0000_0000_0000_0000
  IsEncodable c (float32 v) = (c.to_uint32 v < u32) × (c.of_uint32 (c.to_uint32 v) ≡ v)
  IsEncodable c (float64 v) =
      (c.to_uint64 v < 0x1_0000_0000_0000_0000) × (c.of_uint64 (c.to_uint64 v) ≡ v)
  IsEncodable c (string v) = length v < u32
  IsEncodable c (bytes v) = length v < u32
  IsEncodable c (time seconds nanos) = InRange 0x8000_0000_0000_0000 seconds × (nanos ≡ 0)
  IsEncodable c (table fs) = AllEncodable c fs × (length (fields_bytes c fs) < u32)
  IsEncodable c unsupported = ⊥

  pub AllEncodable : FloatConv → Fields → Type 0
  AllEncodable c end = Unit
  AllEncodable c (field key val fs) =
      (length key < u32) × IsEncodable c val × Absent key fs × AllEncodable c fs

mutual
  unfolding write_table_value write_fields value_bytes fields_bytes

  write_table_value_lem :
      (c : FloatConv) (v : Value) (e : Text)
      → IsEncodable c v
      → write_table_value c e v ≡ ok (e ++ value_bytes c v)
  write_table_value_lem c (bool true) e h = simp append_assoc
  write_table_value_lem c (bool false) e h = simp append_assoc
  write_table_value_lem c (int8 v) e h = simp append_assoc
  write_table_value_lem c (int16 v) e h = simp append_assoc
  write_table_value_lem c (int32 v) e h = simp append_assoc
  write_table_value_lem c (int64 v) e h = simp append_assoc
  write_table_value_lem c (uint8 v) e h = simp append_assoc
  write_table_value_lem c (uint16 v) e h = simp append_assoc
  write_table_value_lem c (uint32 v) e h = simp append_assoc
  write_table_value_lem c (uint64 v) e h = simp append_assoc
  write_table_value_lem c (float32 v) e h = simp append_assoc
  write_table_value_lem c (float64 v) e h = simp append_assoc
  write_table_value_lem c (string v) e h = simp append_assoc
  write_table_value_lem c (bytes v) e h = simp append_assoc
  write_table_value_lem c (time seconds nanos) e h = simp append_assoc
  write_table_value_lem c (table fs) e h = rw (write_fields_lem c fs [] h.0) (simp append_assoc)
  write_table_value_lem c unsupported e h = absurd h

  write_fields_lem :
      (c : FloatConv) (fs : Fields) (tmp : Text)
      → AllEncodable c fs
      → write_fields c tmp fs ≡ ok (tmp ++ fields_bytes c fs)
  write_fields_lem c end tmp h = simp append-nil
  write_fields_lem c (field key val fs) tmp h =
      rw (write_table_value_lem c val _ h.1, write_fields_lem c fs _ h.3) (simp append_assoc)

pub write_table_lem :
    (c : FloatConv) (fs : Fields) (e : Text)
    → AllEncodable c fs
    → write_table c e fs ≡ ok (e ++ prefixed (fields_bytes c fs))
unfolding write_table
write_table_lem c fs e h = rw (write_fields_lem c fs [] h) (simp append_assoc)
