-- ===== src/Http/Recovery.antt =====
-- The `catch` of `createHttp1Handler` and of `createHttp2Handler` of src/http-handler.ts.
use testserver.Prelude.{Bool, [], if◌then◌else◌}
use testserver.Text.{codes}
use testserver.Chain.{Thrown, status_error, other_error}
use testserver.Http.{Reply}

-- How far the response was when the request handler threw.
pub record ResponseState : Type 0 where
  pub closed : Bool
  pub headers_sent : Bool

pub data Recovery : Type 0 where
  nothing : Recovery
  destroyed : Recovery
  replied : Reply → Recovery

abbrev pub handler_failed : Recovery
handler_failed = replied (record {
  label = codes "unknown";
  status = 500;
  headers = [];
  body = codes "HTTP handler failed";
})

abbrev pub status_reply : Thrown → Recovery
status_reply (status_error status text) =
    replied (record { label = codes "unknown"; status = status; headers = []; body = text })
status_reply (other_error text) = handler_failed

unfoldable pub recover_http1 : ResponseState → Thrown → Recovery
recover_http1 state e =
    if state.closed then nothing else if state.headers_sent then destroyed else status_reply e

unfoldable pub recover_http2 : ResponseState → Thrown → Recovery
recover_http2 state e =
    if state.closed then nothing else if state.headers_sent then destroyed else handler_failed
