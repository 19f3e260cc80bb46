-- ===== src/Amqp/Framer.antt =====
-- pkg/protocol/amqp091/framer.go: frames read by looking ahead in a buffered reader.
use gomq.Prelude.{
  ℕ, ◌+◌, ◌-◌, not, Text, length, take, drop, get_or, Result, ok, err, ◌==◌, nat_eq, ltb,
  if◌then◌else◌,
}
use gomq.Amqp.Octets.{get_be}
use gomq.Amqp.Frame.{Frame, is_valid_frame_type, frame_end, frame_min_size, frame_max_default}

-- A bufio.Reader: the size of its buffer, and the bytes that it and the stream below it still hold.
pub record Reader : Type 0 where
  pub buf_size : ℕ
  pub pending : Text

pub data FramerError : Type 0 where
  buffer_full end_of_stream invalid_type payload_too_large wrong_end : FramerError

-- bufio.Reader.Peek: a look at more than the buffer holds is ErrBufferFull.
unfoldable pub peek : ℕ → Reader → Result FramerError Text
peek n r =
    if ltb r.buf_size n
    then err buffer_full
    else if ltb (length r.pending) n
    then err end_of_stream
    else ok (take n r.pending)

-- bufio.Reader.Discard, of bytes that a look has found.
unfoldable pub discard : ℕ → Reader → Reader
discard n r = record r { pending = drop n r.pending }

pub record Framer : Type 0 where
  pub reader : Reader
  pub max_size : ℕ

unfoldable pub new_framer : Reader → ℕ → Framer
new_framer r max_size = record {
  reader = r;
  max_size = if ltb max_size frame_min_size then frame_max_default else max_size;
}

-- The frame in the bytes that were looked at.
unfoldable pub frame_of : ℕ → ℕ → Text → Result FramerError Frame
frame_of ft len octets =
    if not (get_or octets (7 + len + 1 - 1) 0 == frame_end)
    then err wrong_end
    else ok (record {
      frame_type = ft;
      channel = get_be 0 (take 2 (drop 1 octets));
      payload = take len (drop 7 octets);
    })

-- The second look, at the whole frame, and what follows it.
unfoldable pub take_frame : Framer → ℕ → ℕ → Framer × Result FramerError Frame
unfolding peek discard frame_of
take_frame f ft len =
    let total = 7 + len + 1 in
    elim (peek total f.reader) [
      | err e ↦ (f, err e)
      | ok octets ↦ (record f { reader = discard total f.reader }, frame_of ft len octets)
    ]

-- What follows the first look.
unfoldable pub next_frame_body : Framer → Text → Framer × Result FramerError Frame
unfolding take_frame is_valid_frame_type
next_frame_body f header =
    let ft = get_or header 0 0 in
    let len = get_be 0 (take 4 (drop 3 header)) in
    if not (is_valid_frame_type ft)
    then (f, err invalid_type)
    else if ltb f.max_size len
    then (f, err payload_too_large)
    else take_frame f ft len

-- The framer after the call, and its result.
unfoldable pub next_frame : Framer → Framer × Result FramerError Frame
unfolding next_frame_body
next_frame f = elim (peek 7 f.reader) [ err e ↦ (f, err e) | ok header ↦ next_frame_body f header ]
