-- ===== src/Amqp/Frame.antt =====
-- pkg/protocol/amqp091/frame.go.
use gomq.Prelude.{ℕ, ◌+◌, Bool, ◌||◌, ◌==◌, nat_eq, Text, length}

abbrev pub frame_method : ℕ
frame_method = 1

abbrev pub frame_header : ℕ
frame_header = 2

abbrev pub frame_body : ℕ
frame_body = 3

abbrev pub frame_heartbeat : ℕ
frame_heartbeat = 8

abbrev pub frame_end : ℕ
frame_end = 0xCE

abbrev pub frame_min_size : ℕ
frame_min_size = 4096

abbrev pub frame_max_default : ℕ
frame_max_default = 131072

pub record Frame : Type 0 where
  pub frame_type : ℕ
  pub channel : ℕ
  pub payload : Text

unfoldable pub size : Frame → ℕ
size f = 1 + 2 + 4 + length f.payload + 1

-- The switch of `IsValidType`, and of the framer's own `isValidFrameType`.
unfoldable pub is_valid_frame_type : ℕ → Bool
is_valid_frame_type t =
    t == frame_method || t == frame_header || t == frame_body || t == frame_heartbeat

unfoldable pub is_valid_type : Frame → Bool
unfolding is_valid_frame_type
is_valid_type f = is_valid_frame_type f.frame_type
