-- ===== src/Amqp/Table/ReadTable.antt =====
-- ReadTable, readTableBody and readTableValue. A table nests, so the calls between the three run on
-- fuel; the module Fuel shows that the bytes at hand are enough of it.
use gomq.Prelude.{
  ℕ, zero, suc, [], ◌∷◌, Text, length, Result, ok, err, ◌>>=◌, ◌==◌, nat_eq, if◌then◌else◌,
}
use gomq.Amqp.Octets.{Error, Read, unknown_table_type, out_of_fuel, read_full}
use gomq.Amqp.Decode.{
  read_uint8, read_uint16, read_uint32, read_uint64, read_int8, read_int16, read_int32, read_int64,
  read_bool, read_string, read_bytes, read_timestamp,
}
use gomq.Amqp.Table.Value.{
  Value, Fields, FloatConv, bool, int8, int16, int32, int64, uint8, uint16, uint32, uint64, float32,
  float64, string, bytes, time, table, end, put_field,
}

unfoldable pub read_float32 : FloatConv → Read ℕ
unfolding read_uint32
read_float32 c d = do (v, d) ← read_uint32 d; ok (c.of_uint32 v, d)

unfoldable pub read_float64 : FloatConv → Read ℕ
unfolding read_uint64
read_float64 c d = do (v, d) ← read_uint64 d; ok (c.of_uint64 v, d)

-- A value of one type, wrapped.
abbrev pub as_value {ℓ} :
    {A : Type ℓ} → (A → Value) → Result Error (A × Text) → Result Error (Value × Text)
as_value wrap r = r >>= λ (v, d). ok (wrap v, d)

-- ReadTable, with the parser of a body.
unfoldable pub read_table_with : (Text → Result Error Fields) → Read Fields
unfolding read_uint32
read_table_with body d = do
  (size, d) ← read_uint32 d
  if size == 0 then ok (end, d) else do (octets, d) ← read_full size d; fs ← body octets; ok (fs, d)

unfoldable pub read_table_value : FloatConv → (Text → Result Error Fields) → Read Value
unfolding read_uint8 read_uint16 read_uint32 read_uint64 read_int8 read_int16 read_int32 read_int64
    read_bool read_string read_bytes read_timestamp read_float32 read_float64 read_table_with
read_table_value c body d = do
  (typ, d) ← read_uint8 d
  if typ == b't'
      then as_value bool (read_bool d)
      else if typ == b'b'
      then as_value int8 (read_int8 d)
      else if typ == b'B'
      then as_value uint8 (read_uint8 d)
      else if typ == b's'
      then as_value int16 (read_int16 d)
      else if typ == b'u'
      then as_value uint16 (read_uint16 d)
      else if typ == b'I'
      then as_value int32 (read_int32 d)
      else if typ == b'i'
      then as_value uint32 (read_uint32 d)
      else if typ == b'l'
      then as_value int64 (read_int64 d)
      else if typ == b'L'
      then as_value uint64 (read_uint64 d)
      else if typ == b'f'
      then as_value float32 (read_float32 c d)
      else if typ == b'd'
      then as_value float64 (read_float64 c d)
      else if typ == b'S'
      then as_value string (read_string d)
      else if typ == b'x'
      then as_value bytes (read_bytes d)
      else if typ == b'T'
      then as_value (λ s. time s 0) (read_timestamp d)
      else if typ == b'F'
      then as_value table (read_table_with body d)
      else err unknown_table_type

-- The loop `for r.Len() > 0`; `result` is the map so far.
unfoldable pub read_table_body : FloatConv → ℕ → Text → Fields → Result Error Fields
unfolding read_string read_table_value put_field
read_table_body c zero d result = err out_of_fuel
read_table_body c (suc f) [] result = ok result
read_table_body c (suc f) (b ∷ d) result = do
  (key, d) ← read_string (b ∷ d)
  (val, d) ← read_table_value c (λ octets. read_table_body c f octets end) d
  read_table_body c f d (put_field key val result)

unfoldable pub read_table : FloatConv → Read Fields
unfolding read_table_with read_table_body
read_table c d = read_table_with (λ octets. read_table_body c (suc (length octets)) octets end) d
