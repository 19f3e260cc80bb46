-- ===== src/Amqp/Table/Write.antt =====
-- WriteTable and writeTableValue.
use gomq.Prelude.{ℕ, ◌++◌, Text, length, Result, ok, err, ◌>>=◌}
use gomq.Amqp.Octets.{Error, unsupported_value}
use gomq.Amqp.Encode.{
  Encoder, new_encoder, write_uint8, write_bool, write_int8, write_uint16, write_int16,
  write_uint32, write_int32, write_uint64, write_int64, write_string, write_bytes, write_timestamp,
}
use gomq.Amqp.Table.Value.{
  Value, Fields, FloatConv, bool, int8, int16, int32, int64, uint8, uint16, uint32, uint64, float32,
  float64, string, bytes, time, table, unsupported, end, field,
}

-- writeFloat32 and writeFloat64: the number is converted, not its bits.
unfoldable pub write_float32 : FloatConv → Encoder → ℕ → Encoder
unfolding write_uint32
write_float32 c e v = write_uint32 e (c.to_uint32 v)

unfoldable pub write_float64 : FloatConv → Encoder → ℕ → Encoder
unfolding write_uint64
write_float64 c e v = write_uint64 e (c.to_uint64 v)

-- The end of WriteTable: the temporary buffer behind its length.
unfoldable pub close_table : Encoder → Text → Encoder
unfolding write_uint32
close_table e tmp = write_uint32 e (length tmp) ++ tmp

unfoldable mutual
  unfolding new_encoder write_uint8 write_bool write_int8 write_uint16 write_int16 write_uint32
      write_int32 write_uint64 write_int64 write_string write_bytes write_timestamp write_float32
      write_float64 close_table

  pub write_table_value : FloatConv → Encoder → Value → Result Error Encoder
  write_table_value c e (bool v) = ok (write_bool (write_uint8 e b't') v)
  write_table_value c e (int8 v) = ok (write_int8 (write_uint8 e b'b') v)
  write_table_value c e (uint8 v) = ok (write_uint8 (write_uint8 e b'B') v)
  write_table_value c e (int16 v) = ok (write_int16 (write_uint8 e b's') v)
  write_table_value c e (uint16 v) = ok (write_uint16 (write_uint8 e b'u') v)
  write_table_value c e (int32 v) = ok (write_int32 (write_uint8 e b'I') v)
  write_table_value c e (uint32 v) = ok (write_uint32 (write_uint8 e b'i') v)
  write_table_value c e (int64 v) = ok (write_int64 (write_uint8 e b'l') v)
  write_table_value c e (uint64 v) = ok (write_uint64 (write_uint8 e b'L') v)
  write_table_value c e (float32 v) = ok (write_float32 c (write_uint8 e b'f') v)
  write_table_value c e (float64 v) = ok (write_float64 c (write_uint8 e b'd') v)
  write_table_value c e (string v) = ok (write_string (write_uint8 e b'S') v)
  write_table_value c e (bytes v) = ok (write_bytes (write_uint8 e b'x') v)
  write_table_value c e (time seconds nanos) = ok (write_timestamp (write_uint8 e b'T') seconds)
  write_table_value c e (table fs) = do
    tmp ← write_fields c new_encoder fs
    ok (close_table (write_uint8 e b'F') tmp)
  write_table_value c e unsupported = err unsupported_value

  -- The loop of WriteTable over the map, into the temporary encoder.
  pub write_fields : FloatConv → Encoder → Fields → Result Error Encoder
  write_fields c tmp end = ok tmp
  write_fields c tmp (field key val fs) = do
    tmp ← write_table_value c (write_string tmp key) val
    write_fields c tmp fs

unfoldable pub write_table : FloatConv → Encoder → Fields → Result Error Encoder
unfolding new_encoder write_fields close_table
write_table c e fs = do tmp ← write_fields c new_encoder fs; ok (close_table e tmp)
