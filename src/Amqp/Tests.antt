-- ===== src/Amqp/Tests.antt =====
-- Runs of the codec and of the framer on small frames and tables.
use gomq.Prelude.{
  ℕ, ◌≡◌, refl, ap, get_or, true, [], ◌∷◌, ◌++◌, Text, codes, arith, length, ok, err,
}
use gomq.Amqp.Octets.{put_be}
use gomq.Amqp.Frame.{Frame, frame_heartbeat, is_valid_type, size}
use gomq.Amqp.Signed.{negsuc}
use gomq.Amqp.Encode.{new_encoder, encode_frame}
use gomq.Amqp.Decode.{read_frame}
use gomq.Amqp.FrameTrip.{IsWire, frame_bytes, read_frame-encode_frame}
use gomq.Amqp.Framer.{Framer, next_frame, buffer_full}
use gomq.Amqp.FramerLaws.{next_frame_lem, next_frame_stuck}
use gomq.Amqp.Table.Value.{Fields, FloatConv, int8, string, table, end, field}
use gomq.Amqp.Table.Write.{write_table}
use gomq.Amqp.Table.ReadTable.{read_table}
use gomq.Amqp.Table.Bytes.{AllEncodable, fields_bytes}
use gomq.Amqp.Table.Fuel.{Ends, Leaves, read_table-Ends}
use gomq.Amqp.Table.RoundTrip.{read_table-write_table}

abbrev ping : Frame
ping = record { frame_type = frame_heartbeat; channel = 3; payload = 1 ∷ 2 ∷ [] }

ping-valid : is_valid_type ping ≡ true
unfolding is_valid_type
ping-valid = refl

ping-IsWire : IsWire ping
ping-IsWire = record { channel_fits = omega arith; length_fits = omega arith }

read_frame-encode_frame_example :
    (wire : Text) × (encode_frame new_encoder ping ≡ ok wire)
    × (length wire ≡ size ping)
    × ((rest : Text) → read_frame 131072 (wire ++ rest) ≡ ok (ping, rest))
read_frame-encode_frame_example =
    read_frame-encode_frame 131072 ping ping-valid ping-IsWire (omega arith)

-- A reader whose buffer has room for `n` bytes and that holds the frame and one byte more.
abbrev framer_of : ℕ → Framer
framer_of n = record {
  reader = record { buf_size = n; pending = frame_bytes ping ++ 7 ∷ [] };
  max_size = 4096;
}

size_ping : size ping ≡ 10
unfolding size
size_ping = refl

next_frame_lem_example :
    next_frame (framer_of 16)
    ≡ (record { reader = record { buf_size = 16; pending = 7 ∷ [] }; max_size = 4096 }, ok ping)
next_frame_lem_example =
    next_frame_lem (framer_of 16) ping (7 ∷ []) refl ping-valid ping-IsWire (omega arith)
      (omega arith) (omega (arith, size_ping))

next_frame_stuck_example : next_frame (framer_of 8) ≡ (framer_of 8, err buffer_full)
next_frame_stuck_example =
    next_frame_stuck (framer_of 8) ping (7 ∷ []) refl ping-valid ping-IsWire (omega arith)
      (omega arith) (omega (arith, size_ping))

-- Conversions that leave the bits as they are.
abbrev same_bits : FloatConv
same_bits = record {
  to_uint32 = λ v. v;
  of_uint32 = λ v. v;
  to_uint64 = λ v. v;
  of_uint64 = λ v. v;
}

-- A table in a table.
abbrev args : Fields
args =
    field (codes "a") (int8 (negsuc 4))
      (field (codes "b") (table (field (codes "c") (string (codes "d")) end)) end)

length-args : length (fields_bytes same_bits args) ≡ 28
unfolding fields_bytes put_be
length-args = refl

length-inner : length (fields_bytes same_bits (field (codes "c") (string (codes "d")) end)) ≡ 11
unfolding fields_bytes put_be
length-inner = refl

args-AllEncodable : AllEncodable same_bits args
args-AllEncodable = (
  omega arith,
  omega arith,
  (λ e. omega (arith, ap (λ (t : Text). get_or t 0 0) e), tt),
  (omega arith, ((omega arith, omega arith, tt, tt), omega (arith, length-inner)), tt, tt),
)

read_table-write_table_example :
    (wire : Text) × (write_table same_bits new_encoder args ≡ ok wire)
    × ((rest : Text) → read_table same_bits (wire ++ rest) ≡ ok (args, rest))
read_table-write_table_example =
    read_table-write_table same_bits args args-AllEncodable (omega (arith, length-args))

-- A table whose length is said to be longer than what follows.
read_table-Ends_example : Ends (Leaves 0 5) (read_table same_bits (0 ∷ 0 ∷ 0 ∷ 9 ∷ 1 ∷ []))
read_table-Ends_example = read_table-Ends same_bits (0 ∷ 0 ∷ 0 ∷ 9 ∷ 1 ∷ [])
