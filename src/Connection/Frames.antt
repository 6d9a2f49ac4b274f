-- ===== src/Connection/Frames.antt =====
-- `parseFrameHeader` and the loop of `processIncomingData`. The data from the offset on is a list of
-- its own; a frame is the bytes of its header and its payload.
use testserver.Prelude.{
  ℕ, zero, suc, ◌+◌, ◌*◌, ◌%◌, Option, none, some, List, [], ◌∷◌, if◌then◌else◌, ltb, length, take,
  drop,
}
use testserver.Proxy.{Bytes}
use testserver.Proxy.V2.{byte}

abbrev pub frame_header_size : ℕ
frame_header_size = 9

-- `ParsedFrameHeader`
pub record FrameHeader : Type 0 where
  pub length_field : ℕ
  pub type_field : ℕ
  pub flags : ℕ
  pub stream_id : ℕ

unfoldable pub parse_frame_header : Bytes → Option FrameHeader
parse_frame_header s =
    if ltb (length s) frame_header_size
    then none
    else some (record {
      length_field = byte s 0 * 65536 + byte s 1 * 256 + byte s 2;
      type_field = byte s 3;
      flags = byte s 4;
      stream_id = (byte s 5 % 128) * 16777216 + byte s 6 * 65536 + byte s 7 * 256 + byte s 8;
    })

-- A frame that is there as a whole at the start of the data: its stream and its size.
unfoldable pub whole_frame : Bytes → Option (ℕ × ℕ)
whole_frame s = elim (parse_frame_header s) [
  | none ↦ none
  | some header ↦
      if ltb (length s) (frame_header_size + header.length_field)
      then none
      else some (header.stream_id, frame_header_size + header.length_field)
]

-- The loop: the frames, each with its stream, and the data that is left. Each round takes nine bytes
-- at least, so as many rounds as bytes are enough.
unfoldable pub split_frames : ℕ → Bytes → List (ℕ × Bytes) × Bytes
split_frames zero s = ([], s)
split_frames (suc rounds) s = elim (whole_frame s) [
  | none ↦ ([], s)
  | some (stream, size) ↦
      let (frames, rest) = split_frames rounds (drop size s) in
      ((stream, take size s) ∷ frames, rest)
]
