-- ===== src/Amqp/FrameTrip.antt =====
-- EncodeFrame against ReadFrame.
use mathlib.Core.List.{append_assoc}
use gomq.Prelude.{
  ℕ, ◌≤◌, ◌<◌, ◌≡◌, refl, true, [], ◌∷◌, ◌++◌, Text, arith, length, length-append, ok, le→ltb,
}
use gomq.Amqp.Octets.{put_be, length-put_be, read_full_exact}
use gomq.Amqp.Frame.{Frame, is_valid_frame_type, is_valid_type, frame_end, size}
use gomq.Amqp.Encode.{Encoder, new_encoder, encode_frame}
use gomq.Amqp.Decode.{read_frame, read_frame_body}
use gomq.Amqp.Words.{read_uint8_lem, read_uint16_lem, read_uint32_lem}

-- The bytes of a frame: type, channel, length, payload and end octet.
unfoldable pub frame_bytes : Frame → Text
frame_bytes f =
    f.frame_type
    ∷ (put_be 2 f.channel ++ (put_be 4 (length f.payload) ++ (f.payload ++ frame_end ∷ [])))

pub encode_frame_lem :
    (e : Encoder) (f : Frame) → is_valid_type f ≡ true → encode_frame e f ≡ ok (e ++ frame_bytes f)
unfolding encode_frame frame_bytes
encode_frame_lem e f h = rw h (simp append_assoc)

pub length-frame_bytes : (f : Frame) → length (frame_bytes f) ≡ size f
unfolding frame_bytes size
length-frame_bytes f = omega (
  arith,
  length-append (put_be 2 f.channel) (put_be 4 (length f.payload) ++ (f.payload ++ frame_end ∷ [])),
  length-append (put_be 4 (length f.payload)) (f.payload ++ frame_end ∷ []),
  length-append f.payload (frame_end ∷ []),
  length-put_be 2 f.channel,
  length-put_be 4 (length f.payload),
)

-- A channel number of 16 bits and a payload length of 32 bits.
pub record IsWire (f : Frame) : Type 0 where
  pub channel_fits : f.channel < 0x1_0000
  pub length_fits : length f.payload < 0x1_0000_0000

frame_type-lt : (t : ℕ) → is_valid_frame_type t ≡ true → t < 256
unfolding is_valid_frame_type
frame_type-lt t h = ground arith

read_frame_body_lem :
    (ft ch : ℕ) (payload rest : Text)
    → read_frame_body ft ch (length payload) (payload ++ (frame_end ∷ rest))
      ≡ ok (record { frame_type = ft; channel = ch; payload = payload }, rest)
unfolding read_frame_body
read_frame_body_lem ft ch payload rest = rw (
  read_full_exact (length payload) payload (frame_end ∷ rest) refl,
  read_uint8_lem frame_end rest (omega arith),
)

read_frame_lem :
    (max_size : ℕ) (f : Frame) (rest : Text)
    → is_valid_type f ≡ true
    → IsWire f
    → length f.payload ≤ max_size
    → read_frame max_size (frame_bytes f ++ rest) ≡ ok (f, rest)
unfolding read_frame frame_bytes is_valid_type
read_frame_lem max_size f rest valid wire small = rw (
  append_assoc (put_be 2 f.channel) _ rest,
  append_assoc (put_be 4 (length f.payload)) _ rest,
  append_assoc f.payload (frame_end ∷ []) rest,
  read_uint8_lem f.frame_type _ (frame_type-lt f.frame_type valid),
  read_uint16_lem f.channel _ wire.channel_fits,
  read_uint32_lem (length f.payload) _ wire.length_fits,
  le→ltb max_size (length f.payload) small,
  read_frame_body_lem f.frame_type f.channel f.payload rest,
)

-- A frame of a known type, with a 16-bit channel and a payload whose length fits 32 bits and the
-- reader's limit, encodes to exactly `size` bytes, and reading these bytes, whatever follows them,
-- gives the frame back and leaves what follows.
pub read_frame-encode_frame :
    (max_size : ℕ) (f : Frame)
    → is_valid_type f ≡ true
    → IsWire f
    → length f.payload ≤ max_size
    → (wire : Text) × (encode_frame new_encoder f ≡ ok wire)
      × (length wire ≡ size f)
      × ((rest : Text) → read_frame max_size (wire ++ rest) ≡ ok (f, rest))
unfolding new_encoder
read_frame-encode_frame max_size f valid wire small = (
  frame_bytes f,
  encode_frame_lem [] f valid,
  length-frame_bytes f,
  λ rest. read_frame_lem max_size f rest valid wire small,
)
