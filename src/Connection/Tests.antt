-- ===== src/Connection/Tests.antt =====
-- Concrete connections and frames.
use testserver.Prelude.{◌≡◌, refl, none, some, List, [], ◌∷◌, ◌++◌, true, take, drop}
use testserver.Text.{Text, codes, split}
use testserver.Text.Number.{parse_int, parse_signed, parse_digits, digits_from, skip_white}
use testserver.Proxy.{Bytes, detect_v1, detect_proxy_protocol, starts_with_signature}
use testserver.Proxy.Parse.{parse_proxy_protocol}
use testserver.Proxy.V1.{
  find_crlf, is_ipv4, is_ipv6, is_valid_address, address_fields, line_fields, parse_v1,
}
use testserver.Connection.Frames.{parse_frame_header, whole_frame, split_frames}
use testserver.Connection.Capture.{
  Capture, new_capture, new_stream, get_stream, set_stream, delete_stream, route_to, route_frame,
  route_frames, skip_preface, process_incoming_data, stop_capturing_stream, add_stream_callback,
  remove_stream_callback, http2_preface,
}
use testserver.Connection.Processor.{
  proxy_wait, to_http1, to_http2, to_tls, destroyed, process_protocol_data, use_header,
  parse_proxy_protocol_header, process_initial_connection, on_readable, run_events,
}
use testserver.Connection.Proxied.{Knows, received, process_initial_connection-Knows}
use testserver.Connection.Reassembly.{process_incoming_data-append}

connection_run : Unit {0}
unfolding split parse_int parse_signed parse_digits digits_from skip_white detect_v1
    detect_proxy_protocol starts_with_signature parse_proxy_protocol find_crlf is_ipv4 is_ipv6
    is_valid_address address_fields line_fields parse_v1 parse_frame_header whole_frame split_frames
    get_stream set_stream delete_stream route_to route_frame route_frames skip_preface
    process_incoming_data stop_capturing_stream add_stream_callback remove_stream_callback
    process_protocol_data use_header parse_proxy_protocol_header on_readable run_events
connection_run = tt

-- A SETTINGS frame without settings, and a DATA frame of three bytes on stream 5.
abbrev settings_frame : Bytes
settings_frame = 0 ∷ 0 ∷ 0 ∷ 4 ∷ 0 ∷ 0 ∷ 0 ∷ 0 ∷ 0 ∷ []

abbrev data_frame : Bytes
data_frame = 0 ∷ 0 ∷ 3 ∷ 0 ∷ 1 ∷ 0 ∷ 0 ∷ 0 ∷ 5 ∷ 97 ∷ 98 ∷ 99 ∷ []

abbrev listening : Capture
listening = (add_stream_callback 5 70 new_capture).0

preface_skipped :
    process_incoming_data (http2_preface ++ (settings_frame ++ data_frame)) listening
    ≡ record listening {
      global_frames = settings_frame ∷ [];
      delivered = (70, settings_frame) ∷ (70, data_frame) ∷ [];
    }
unfolding connection_run
preface_skipped = refl

-- A preface in two chunks: the first is kept as partial data until the second completes it.
split_preface :
    process_incoming_data
      (drop 10 http2_preface ++ (settings_frame ++ data_frame))
      (process_incoming_data (take 10 http2_preface) listening)
    ≡ process_incoming_data (http2_preface ++ (settings_frame ++ data_frame)) listening
unfolding connection_run
split_preface = refl

stopped_stream_keeps_nothing :
    (process_incoming_data data_frame (stop_capturing_stream 5 new_capture)).streams
    ≡ (5, record new_stream { stopped = true }) ∷ []
unfolding connection_run
stopped_stream_keeps_nothing = refl

removed_stream_is_buffered :
    (process_incoming_data data_frame (remove_stream_callback 5 listening)).streams
    ≡ (5, record new_stream { buffer = data_frame ∷ [] }) ∷ []
unfolding connection_run
removed_stream_is_buffered = refl

abbrev started : Capture
started = record listening { global_frames = settings_frame ∷ [] }

process_incoming_data-append_example :
    process_incoming_data
      (3 ∷ 0 ∷ 1 ∷ 0 ∷ 0 ∷ 0 ∷ 5 ∷ 97 ∷ 98 ∷ 99 ∷ [])
      (process_incoming_data (0 ∷ 0 ∷ []) started)
    ≡ process_incoming_data data_frame started
process_incoming_data-append_example =
    process_incoming_data-append (0 ∷ 0 ∷ []) (3 ∷ 0 ∷ 1 ∷ 0 ∷ 0 ∷ 0 ∷ 5 ∷ 97 ∷ 98 ∷ 99 ∷ [])
      started (λ e. cc)

abbrev methods : List Text
methods = codes "GET" ∷ codes "POST" ∷ []

abbrev line_start : Bytes
line_start = codes "PROXY UNKN"

abbrev line_rest : Bytes
line_rest = codes "OWN" ++ 13 ∷ 10 ∷ codes "GET /"

header_in_two_chunks :
    run_events methods
      (some line_rest ∷ [])
      (process_initial_connection methods true (some line_start))
    ≡ record { phase = to_http1 (codes "GET /"); proxy = none }
unfolding connection_run
header_in_two_chunks = refl

one_byte_waits :
    process_initial_connection methods true (some (codes "P"))
    ≡ record { phase = proxy_wait (codes "P"); proxy = none }
unfolding connection_run
one_byte_waits = refl

unknown_protocol_destroyed : process_protocol_data methods (codes "SSH-2.0") ≡ destroyed
unfolding connection_run
unknown_protocol_destroyed = refl

http2_recognised : process_protocol_data methods http2_preface ≡ to_http2 http2_preface
unfolding connection_run
http2_recognised = refl

tls_recognised : process_protocol_data methods (22 ∷ 3 ∷ 1 ∷ []) ≡ to_tls (22 ∷ 3 ∷ 1 ∷ [])
unfolding connection_run
tls_recognised = refl

process_initial_connection-Knows_example :
    Knows
      (line_start ++ received (some line_rest ∷ []))
      (run_events methods
        (some line_rest ∷ [])
        (process_initial_connection methods true (some line_start))).phase
      (run_events methods
        (some line_rest ∷ [])
        (process_initial_connection methods true (some line_start))).proxy
process_initial_connection-Knows_example =
    process_initial_connection-Knows methods (some line_start) (some line_rest ∷ [])
