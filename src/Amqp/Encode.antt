-- ===== src/Amqp/Encode.antt =====
-- pkg/protocol/amqp091/encode.go, but for tables. An encoder is its buffer, which grows at the end;
-- bytes.Buffer accepts every write.
use gomq.Prelude.{ℕ, ◌%◌, Bool, [], ◌∷◌, ◌++◌, Text, length, Result, ok, err, not, if◌then◌else◌}
use gomq.Amqp.Octets.{Error, invalid_frame_type, put_be}
use gomq.Amqp.Signed.{ℤ, to_word}
use gomq.Amqp.Frame.{Frame, is_valid_type, frame_end}

abbrev pub Encoder : Type 0
Encoder = Text

unfoldable pub new_encoder : Encoder
new_encoder = []

unfoldable pub reset : Encoder → Encoder
reset e = []

unfoldable pub write_uint8 : Encoder → ℕ → Encoder
write_uint8 e v = e ++ v ∷ []

unfoldable pub write_bool : Encoder → Bool → Encoder
unfolding write_uint8
write_bool e v = if v then write_uint8 e 1 else write_uint8 e 0

unfoldable pub write_uint16 : Encoder → ℕ → Encoder
write_uint16 e v = e ++ put_be 2 v

unfoldable pub write_uint32 : Encoder → ℕ → Encoder
write_uint32 e v = e ++ put_be 4 v

unfoldable pub write_uint64 : Encoder → ℕ → Encoder
write_uint64 e v = e ++ put_be 8 v

unfoldable pub write_int8 : Encoder → ℤ → Encoder
unfolding write_uint8
write_int8 e v = write_uint8 e (to_word 128 v)

unfoldable pub write_int16 : Encoder → ℤ → Encoder
unfolding write_uint16
write_int16 e v = write_uint16 e (to_word 32768 v)

unfoldable pub write_int32 : Encoder → ℤ → Encoder
unfolding write_uint32
write_int32 e v = write_uint32 e (to_word 0x8000_0000 v)

unfoldable pub write_int64 : Encoder → ℤ → Encoder
unfolding write_uint64
write_int64 e v = write_uint64 e (to_word 0x8000_0000_0000_0000 v)

-- The length is cut to a byte: `uint8(len(b))`.
unfoldable pub write_short_string : Encoder → Text → Encoder
unfolding write_uint8
write_short_string e v = write_uint8 e (length v % 256) ++ v

-- `put_be` keeps the low 32 bits, as `uint32(len(b))` does.
unfoldable pub write_string : Encoder → Text → Encoder
unfolding write_uint32
write_string e v = write_uint32 e (length v) ++ v

unfoldable pub write_bytes : Encoder → Text → Encoder
unfolding write_uint32
write_bytes e v = write_uint32 e (length v) ++ v

-- The argument is `v.Unix()`.
unfoldable pub write_timestamp : Encoder → ℤ → Encoder
unfolding write_uint64
write_timestamp e seconds = write_uint64 e (to_word 0x8000_0000_0000_0000 seconds)

unfoldable pub encode_frame : Encoder → Frame → Result Error Encoder
unfolding write_uint8 write_uint16 write_uint32 is_valid_type
encode_frame e f =
    if not (is_valid_type f)
    then err invalid_frame_type
    else ok (
        write_uint8
          (write_uint32 (write_uint16 (write_uint8 e f.frame_type) f.channel) (length f.payload)
            ++ f.payload)
          frame_end)
