-- ===== src/Endpoints/Echo.antt =====
-- src/endpoints/http/echo.ts: the raw data of an HTTP/1 request, or the frames of an HTTP/2 stream
-- as lines of JSON. A frame has at least the nine bytes of its header.
pub mod Frames
use testserver.Prelude.{
  ℕ, ◌+◌, ◌*◌, ◌/◌, ◌%◌, Bool, true, false, ◌&&◌, ◌||◌, Option, none, some, List, [], ◌∷◌, ◌++◌, ok,
  max, take, drop, length, if◌then◌else◌, ◌==◌, map,
}
use testserver.Text.{Text, codes, text_eq, mem_text}
use testserver.Text.Number.{pos, digit_char, to_decimal}
use testserver.Proxy.{Bytes}
use testserver.Proxy.V2.{byte}
use testserver.Chain.{Endpoint}
use testserver.Endpoints.{
  Json, num, str, arr, obj, texts, Members, no_members, member, Call, write_head, write, finish,
  text, bytes, Exchange, Runtime, Handled, sent, Handling,
}

-- `ParsedFrame`, with the name of its type and of its flags
pub record ParsedFrame : Type 0 where
  pub stream_id : ℕ
  pub type : Text
  pub flags : List Text
  pub length_field : ℕ
  pub payload_hex : Text

abbrev type_name : List Text → ℕ → ℕ → Text
type_name [] i n = codes "UNKNOWN_" ++ to_decimal n
type_name (t ∷ ts) i n = if i == n then t else type_name ts (1 + i) n

-- `FRAME_TYPES[typeNum] || …`
unfoldable pub frame_type : ℕ → Text
frame_type n =
    type_name
      (codes "DATA"
        ∷ codes "HEADERS"
        ∷ codes "PRIORITY"
        ∷ codes "RST_STREAM"
        ∷ codes "SETTINGS"
        ∷ codes "PUSH_PROMISE"
        ∷ codes "PING"
        ∷ codes "GOAWAY"
        ∷ codes "WINDOW_UPDATE"
        ∷ codes "CONTINUATION"
        ∷ [])
      0 n

-- `FRAME_FLAGS[typeNum] || {}`
unfoldable pub flag_defs : ℕ → List (ℕ × Text)
flag_defs n =
    if n == 0
    then (1, codes "END_STREAM") ∷ (8, codes "PADDED") ∷ []
    else if n == 1
    then (1, codes "END_STREAM")
      ∷ (4, codes "END_HEADERS")
      ∷ (8, codes "PADDED")
      ∷ (32, codes "PRIORITY")
      ∷ []
    else if n == 4 || n == 6
    then (1, codes "ACK") ∷ []
    else if n == 5
    then (4, codes "END_HEADERS") ∷ (8, codes "PADDED") ∷ []
    else if n == 9
    then (4, codes "END_HEADERS") ∷ []
    else []

-- `flagsByte & flag` for a flag that is a power of two
abbrev pub has_flag : ℕ → ℕ → Bool
has_flag flags_byte flag = (flags_byte / max 1 flag) % 2 == 1

unfoldable pub flag_names : ℕ → List (ℕ × Text) → List Text
flag_names flags_byte [] = []
flag_names flags_byte ((flag, name) ∷ defs) =
    let rest = flag_names flags_byte defs in if has_flag flags_byte flag then name ∷ rest else rest

-- `payload.toString('hex')`
unfoldable pub hex : Bytes → Text
hex [] = []
hex (b ∷ s) = digit_char (b / 16) ∷ (digit_char (b % 16) ∷ hex s)

-- `frameToOutput`
unfoldable pub frame_to_output : Bytes → ParsedFrame
frame_to_output s =
    let size = byte s 0 * 65536 + byte s 1 * 256 + byte s 2 in
    record {
      stream_id = (byte s 5 % 128) * 16777216 + byte s 6 * 65536 + byte s 7 * 256 + byte s 8;
      type = frame_type (byte s 3);
      flags = flag_names (byte s 4) (flag_defs (byte s 3));
      length_field = size;
      payload_hex = hex (take size (drop 9 s));
    }

abbrev header_members : List (Text × Text) → Members
header_members [] = no_members
header_members ((k, v) ∷ hs) = member k (str v) (header_members hs)

-- The headers of the request stand with the frame that ends them.
abbrev ends_headers : ParsedFrame → Bool
ends_headers f =
    (text_eq f.type (codes "HEADERS") || text_eq f.type (codes "CONTINUATION"))
    && mem_text (codes "END_HEADERS") f.flags

abbrev decoded_headers : Option (List (Text × Text)) → ParsedFrame → Members
decoded_headers none f = no_members
decoded_headers (some hs) f =
    if ends_headers f
    then member (codes "decoded_headers") (obj (header_members hs)) no_members
    else no_members

-- The output for a frame, with the headers of the request if it is one of its stream.
unfoldable pub frame_json : Option (List (Text × Text)) → ParsedFrame → Json
frame_json hs f = obj (
    member (codes "stream_id") (num (pos f.stream_id)) (
      member (codes "type") (str f.type) (
        member (codes "flags") (arr (texts f.flags)) (
          member (codes "length") (num (pos f.length_field))
            (member (codes "payload_hex") (str f.payload_hex) (decoded_headers hs f))))))

module _ {F : Type 0} (R : Runtime F) where
  -- `writeFrame`
  abbrev pub write_frame : Option (List (Text × Text)) → Bytes → Call F
  write_frame hs s = write (text (R.stringify (frame_json hs (frame_to_output s)) ++ codes "\n"))

  -- The callback: the frames of the connection and of the stream of the request.
  unfoldable pub later_calls : List (Text × Text) → ℕ → List Bytes → List (Call F)
  later_calls hs id [] = []
  later_calls hs id (s ∷ frames) =
      let rest = later_calls hs id frames in
      let stream = (frame_to_output s).stream_id in
      if stream == 0
      then write_frame none s ∷ rest
      else if stream == id
      then write_frame (some hs) s ∷ rest
      else rest

  abbrev fails : ℕ → Text → Handled F
  fails code message = sent (write_head (some (pos code)) [] ∷ finish (some (text message)) ∷ [])

  abbrev echo_stream : Exchange → Option (List Bytes × List Bytes) → Option ℕ → Handled F
  echo_stream x none id = fails 500 (codes "Echo endpoint requires data capturing stream")
  echo_stream x (some frames) none = fails 500 (codes "Could not determine stream ID")
  echo_stream x (some (global_frames, stream_frames)) (some id) = sent (
      write_head (some (pos 200)) ((codes "Content-Type", codes "text/plain") ∷ [])
      ∷ (map (write_frame none) global_frames
          ++ (map (write_frame (some x.headers)) stream_frames
              ++ (later_calls x.headers id x.later_frames ++ finish none ∷ []))))

  abbrev concat_all : List Bytes → Bytes
  concat_all [] = []
  concat_all (s ∷ ss) = s ++ concat_all ss

  unfoldable pub handle_echo : Exchange → Handled F
  handle_echo x =
      if x.request.is_http2
      then echo_stream x x.captured x.stream_id
      else if x.pipelining
      then fails 400 (
          codes "Echo endpoint does not support request pipelining. "
          ++ codes "Send requests sequentially or use HTTP/2 multiplexing instead.")
      else sent (
          write_head (some (pos 200))
            ((codes "Content-Length", to_decimal (length (concat_all x.received))) ∷ [])
          ∷ finish (some (bytes (concat_all x.received)))
          ∷ [])

  unfoldable pub echo : Endpoint (Handling F)
  echo = record {
    name = codes "echo";
    match_path = λ path prefix. ok (text_eq path (codes "/echo"));
    get_remaining_path = none;
    rest = record { handle = λ x path. handle_echo x; needs_raw_data = true };
  }
