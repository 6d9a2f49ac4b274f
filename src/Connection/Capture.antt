-- ===== src/Connection/Capture.antt =====
-- `DataCapturingStream`: its state, `processIncomingData`, `routeFrame`, and the operations on the
-- callbacks. A callback is a number; the calls that `setImmediate` puts off are listed in
-- `delivered`, in their order.
use testserver.Prelude.{
  ℕ, Bool, true, false, Option, none, some, List, [], ◌∷◌, ◌++◌, ◌==◌, if◌then◌else◌, length, drop,
}
use testserver.Text.{codes, starts_with}
use testserver.Proxy.{Bytes}
use testserver.Connection.Frames.{split_frames}

-- `StreamState`
pub record StreamState : Type 0 where
  pub callback : Option ℕ
  pub buffer : List Bytes
  pub stopped : Bool

-- `streams` is a `Map`, its keys in the order of insertion.
pub record Capture : Type 0 where
  pub global_frames : List Bytes
  pub streams : List (ℕ × StreamState)
  pub partial_data : Bytes
  pub delivered : List (ℕ × Bytes)

abbrev pub http2_preface : Bytes
http2_preface =
    codes "PRI * HTTP/2.0" ++ (13 ∷ 10 ∷ 13 ∷ 10 ∷ (codes "SM" ++ (13 ∷ 10 ∷ 13 ∷ 10 ∷ [])))

unfoldable pub get_stream : ℕ → List (ℕ × StreamState) → Option StreamState
get_stream id [] = none
get_stream id ((k, st) ∷ m) = if k == id then some st else get_stream id m

unfoldable pub set_stream : ℕ → StreamState → List (ℕ × StreamState) → List (ℕ × StreamState)
set_stream id st [] = (id, st) ∷ []
set_stream id st ((k, old) ∷ m) = if k == id then (k, st) ∷ m else (k, old) ∷ set_stream id st m

unfoldable pub delete_stream : ℕ → List (ℕ × StreamState) → List (ℕ × StreamState)
delete_stream id [] = []
delete_stream id ((k, old) ∷ m) =
    if k == id then delete_stream id m else (k, old) ∷ delete_stream id m

-- the calls of every callback with one frame
abbrev calls : Bytes → List (ℕ × StreamState) → List (ℕ × Bytes)
calls frame [] = []
calls frame ((k, st) ∷ m) = elim st.callback [
  | none ↦ calls frame m
  | some cb ↦ (cb, frame) ∷ calls frame m
]

abbrev pub new_stream : StreamState
new_stream = record { callback = none; buffer = []; stopped = false }

abbrev or_new : Option StreamState → StreamState
or_new none = new_stream
or_new (some st) = st

-- A frame of one stream, whose state is found or made.
unfoldable pub route_to : ℕ → Bytes → StreamState → Capture → Capture
route_to id frame st c = elim st.callback [
  | some cb ↦ record c {
    streams = set_stream id st c.streams;
    delivered = c.delivered ++ (cb, frame) ∷ [];
  }
  | none ↦ record c {
    streams =
        set_stream id (if st.stopped then st else record st { buffer = st.buffer ++ frame ∷ [] })
          c.streams;
  }
]

-- `routeFrame`
unfoldable pub route_frame : ℕ × Bytes → Capture → Capture
route_frame (id, frame) c =
    if id == 0
    then record c {
      global_frames = c.global_frames ++ frame ∷ [];
      delivered = c.delivered ++ calls frame c.streams;
    }
    else route_to id frame (or_new (get_stream id c.streams)) c

unfoldable pub route_frames : List (ℕ × Bytes) → Capture → Capture
route_frames [] c = c
route_frames (f ∷ fs) c = route_frames fs (route_frame f c)

-- The preface is looked for as long as no global frame has come.
unfoldable pub skip_preface : List Bytes → Bytes → Bytes
skip_preface [] s = if starts_with s http2_preface then drop (length http2_preface) s else s
skip_preface (f ∷ fs) s = s

-- `processIncomingData`
unfoldable pub process_incoming_data : Bytes → Capture → Capture
process_incoming_data s c =
    let full = skip_preface c.global_frames (c.partial_data ++ s) in
    let (frames, rest) = split_frames (length full) full in
    record (route_frames frames c) { partial_data = rest }

-- `stopCapturingStream`
unfoldable pub stop_capturing_stream : ℕ → Capture → Capture
stop_capturing_stream id c = record c {
  streams = set_stream id (record { callback = none; buffer = []; stopped = true }) c.streams;
}

-- `addStreamCallback`: the frames captured so far, global and of the stream
unfoldable pub add_stream_callback : ℕ → ℕ → Capture → Capture × (List Bytes × List Bytes)
add_stream_callback id cb c =
    let st = or_new (get_stream id c.streams) in
    (
      record c {
        streams =
            set_stream id (record { callback = some cb; buffer = []; stopped = false }) c.streams;
      },
      (c.global_frames, st.buffer),
    )

-- `removeStreamCallback`
unfoldable pub remove_stream_callback : ℕ → Capture → Capture
remove_stream_callback id c = record c { streams = delete_stream id c.streams }

-- The state of the constructor, before `initialData` is processed.
abbrev pub new_capture : Capture
new_capture = record { global_frames = []; streams = []; partial_data = []; delivered = [] }
