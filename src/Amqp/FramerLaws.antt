-- ===== src/Amqp/FramerLaws.antt =====
-- NextFrame on a stream that begins with an encoded frame.
use gomq.Prelude.{
  ℕ, ◌+◌, ◌-◌, ◌≤◌, ◌<◌, ◌≡◌, refl, ap, ◌∙◌, true, [], ◌∷◌, ◌++◌, Text, arith, length,
  length-append, take, drop, get_or, take-length, drop-length, ok, err, le→ltb, lt→ltb,
}
use gomq.Amqp.Octets.{put_be, get_be, get_be-put_be}
use gomq.Amqp.Frame.{Frame, is_valid_type, frame_end, size}
use gomq.Amqp.FrameTrip.{frame_bytes, length-frame_bytes, IsWire}
use gomq.Amqp.Framer.{
  Reader, Framer, buffer_full, peek, discard, frame_of, take_frame, next_frame_body, next_frame,
}

peek_ok :
    (n : ℕ) (r : Reader) → n ≤ r.buf_size → n ≤ length r.pending → peek n r ≡ ok (take n r.pending)
unfolding peek
peek_ok n r h k = rw (le→ltb r.buf_size n h, le→ltb (length r.pending) n k)

get_or-append : (xs : Text) (a : ℕ) (ys : Text) → get_or (xs ++ a ∷ ys) (length xs) 0 ≡ a
get_or-append [] a ys = refl
get_or-append (x ∷ xs) a ys = get_or-append xs a ys

end_octet : (f : Frame) → get_or (frame_bytes f) (7 + length f.payload + 1 - 1) 0 ≡ frame_end
unfolding frame_bytes put_be
end_octet f =
    let at : 7 + length f.payload + 1 - 1 ≡ length (0 ∷ 0 ∷ 0 ∷ 0 ∷ 0 ∷ 0 ∷ 0 ∷ f.payload) =
      omega arith in
    rw at (get_or-append f.payload frame_end [])

frame_of_lem :
    (f : Frame) → IsWire f → frame_of f.frame_type (length f.payload) (frame_bytes f) ≡ ok f
unfolding frame_of frame_bytes put_be
frame_of_lem f wire =
    let ch : get_be 0 (put_be 2 f.channel) ≡ f.channel =
      get_be-put_be 2 f.channel wire.channel_fits in
    rw (end_octet f, ch, take-length f.payload (frame_end ∷ []))

abbrev header_of : Frame → Text
header_of f = f.frame_type ∷ (put_be 2 f.channel ++ put_be 4 (length f.payload))

take-frame_bytes : (f : Frame) (rest : Text) → take 7 (frame_bytes f ++ rest) ≡ header_of f
unfolding frame_bytes put_be
take-frame_bytes f rest = refl

header_length : (f : Frame) → IsWire f → get_be 0 (take 4 (drop 3 (header_of f))) ≡ length f.payload
unfolding put_be
header_length f wire = unfold put_be in get_be-put_be 4 (length f.payload) wire.length_fits

length-pending : (f : Frame) (rest : Text) → size f ≤ length (frame_bytes f ++ rest)
length-pending f rest = omega (arith, length-append (frame_bytes f) rest, length-frame_bytes f)

-- The framer's first look sees the header.
next_frame-header :
    (fr : Framer) (f : Frame) (rest : Text)
    → fr.reader.pending ≡ frame_bytes f ++ rest
    → 7 ≤ fr.reader.buf_size
    → next_frame fr ≡ next_frame_body fr (header_of f)
unfolding next_frame size
next_frame-header fr f rest e h =
    let seen : peek 7 fr.reader ≡ ok (header_of f) =
      peek_ok 7 fr.reader h (rw e (omega (arith, length-pending f rest)))
      ∙ ap ok (rw e (take-frame_bytes f rest)) in
    rw (seen, next_frame)

module _ (fr : Framer) (f : Frame) (rest : Text) (e : fr.reader.pending ≡ frame_bytes f ++ rest)
    (valid : is_valid_type f ≡ true) (wire : IsWire f) (small : length f.payload ≤ fr.max_size)
    (h : 7 ≤ fr.reader.buf_size) where
  next_frame-take_frame : next_frame fr ≡ take_frame fr f.frame_type (length f.payload)
  unfolding next_frame_body is_valid_type
  next_frame-take_frame = rw (
    next_frame-header fr f rest e h,
    next_frame_body,
    header_length f wire,
    valid,
    le→ltb fr.max_size (length f.payload) small,
  )

  -- NextFrame on a well-formed frame that fits the framer's limit and the reader's buffer returns
  -- it and consumes exactly its bytes.
  pub next_frame_lem :
      size f ≤ fr.reader.buf_size
      → next_frame fr
        ≡ (record fr { reader = record { buf_size = fr.reader.buf_size; pending = rest } }, ok f)
  unfolding size take_frame
  next_frame_lem fits =
      let seen : peek (7 + length f.payload + 1) fr.reader ≡ ok (frame_bytes f) =
        peek_ok _ fr.reader fits (rw e (length-pending f rest))
        ∙ ap ok (rw (e, ← length-frame_bytes f) (take-length (frame_bytes f) rest)) in
      let left : drop (7 + length f.payload + 1) fr.reader.pending ≡ rest =
        rw (e, ← length-frame_bytes f) (drop-length (frame_bytes f) rest) in
      next_frame-take_frame ∙ rw (seen, take_frame, frame_of_lem f wire, discard, left)

  -- Where a well-formed frame is longer than the reader's buffer, which has room for a header,
  -- NextFrame fails, although the frame is within the framer's limit and all its bytes are there, and
  -- consumes nothing.
  pub next_frame_stuck : fr.reader.buf_size < size f → next_frame fr ≡ (fr, err buffer_full)
  unfolding take_frame size peek
  next_frame_stuck over =
      rw
        (
          next_frame-take_frame,
          take_frame,
          lt→ltb fr.reader.buf_size (7 + length f.payload + 1) (omega arith),
        )
        refl
