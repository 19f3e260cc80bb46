-- ===== src/Amqp/Decode.antt =====
-- pkg/protocol/amqp091/decode.go, but for tables. A decoder is the bytes that its reader still
-- holds; a read returns its value and what is left. Go returns a zero value beside an error, and
-- every caller looks at the error first.
use gomq.Prelude.{ℕ, Bool, not, Text, ok, err, ◌>>=◌, ◌==◌, nat_eq, ltb, if◌then◌else◌}
use gomq.Amqp.Octets.{Read, frame_too_large, bad_frame_end, get_be, read_full}
use gomq.Amqp.Signed.{ℤ, of_word}
use gomq.Amqp.Frame.{Frame, frame_end}

unfoldable pub read_uint8 : Read ℕ
read_uint8 d = do (b, d) ← read_full 1 d; ok (get_be 0 b, d)

unfoldable pub read_uint16 : Read ℕ
read_uint16 d = do (b, d) ← read_full 2 d; ok (get_be 0 b, d)

unfoldable pub read_uint32 : Read ℕ
read_uint32 d = do (b, d) ← read_full 4 d; ok (get_be 0 b, d)

unfoldable pub read_uint64 : Read ℕ
read_uint64 d = do (b, d) ← read_full 8 d; ok (get_be 0 b, d)

unfoldable pub read_int8 : Read ℤ
unfolding read_uint8
read_int8 d = do (v, d) ← read_uint8 d; ok (of_word 128 v, d)

unfoldable pub read_int16 : Read ℤ
unfolding read_uint16
read_int16 d = do (v, d) ← read_uint16 d; ok (of_word 32768 v, d)

unfoldable pub read_int32 : Read ℤ
unfolding read_uint32
read_int32 d = do (v, d) ← read_uint32 d; ok (of_word 0x8000_0000 v, d)

unfoldable pub read_int64 : Read ℤ
unfolding read_uint64
read_int64 d = do (v, d) ← read_uint64 d; ok (of_word 0x8000_0000_0000_0000 v, d)

unfoldable pub read_bool : Read Bool
unfolding read_uint8
read_bool d = do (v, d) ← read_uint8 d; ok (not (v == 0), d)

unfoldable pub read_short_string : Read Text
unfolding read_uint8
read_short_string d = do (length, d) ← read_uint8 d; read_full length d

unfoldable pub read_string : Read Text
unfolding read_uint32
read_string d = do (length, d) ← read_uint32 d; read_full length d

unfoldable pub read_bytes : Read Text
unfolding read_uint32
read_bytes d = do (length, d) ← read_uint32 d; read_full length d

-- The seconds of the time that `time.Unix(int64(v), 0)` builds.
unfoldable pub read_timestamp : Read ℤ
unfolding read_uint64
read_timestamp d = do (v, d) ← read_uint64 d; ok (of_word 0x8000_0000_0000_0000 v, d)

-- The part of ReadFrame behind the test of the length.
unfoldable pub read_frame_body : ℕ → ℕ → ℕ → Read Frame
unfolding read_uint8
read_frame_body ft ch length d = do
  (payload, d) ← read_full length d
  (end, d) ← read_uint8 d
  if not (end == frame_end)
      then err bad_frame_end
      else ok (record { frame_type = ft; channel = ch; payload = payload }, d)

unfoldable pub read_frame : ℕ → Read Frame
unfolding read_uint8 read_uint16 read_uint32 read_frame_body
read_frame max_size d = do
  (ft, d) ← read_uint8 d
  (ch, d) ← read_uint16 d
  (length, d) ← read_uint32 d
  if ltb max_size length then err frame_too_large else read_frame_body ft ch length d
