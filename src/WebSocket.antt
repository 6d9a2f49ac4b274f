-- ===== src/WebSocket.antt =====
-- src/endpoints/ws and src/endpoints/ws-index.ts: the WebSocket endpoints. A handler is modelled by
-- the calls that it makes on the WebSocket and by what it throws behind them. `Upgrade` is
-- src/ws-handler.ts. `decode` is `decodeURIComponent`, which may throw.
pub mod Upgrade
pub mod Protocols
pub mod Progress
pub mod Settles
pub mod Tests
use testserver.Prelude.{
  ℕ, ◌+◌, Bool, true, false, ◌&&◌, ◌||◌, not, Option, none, some, List, [], ◌∷◌, ◌++◌, ok, err,
  ◌>>=◌, if◌then◌else◌, take, drop, length, ltb, leb, ◌==◌,
}
use testserver.Text.{Text, codes, starts_with, text_eq, index_of}
use testserver.Text.Number.{ℤ, pos, negsuc, parse_int}
use testserver.Chain.{Thrown, status_error, Outcome, Endpoint}
use testserver.Endpoints.{Runtime, query_get, rest_from, number_text}
use testserver.Endpoints.Chained.{part_from}

-- `string | false` of `getProtocol`
pub data Protocol : Type 0 where
  named : Text → Protocol
  no_protocol : Protocol

-- A call of a handler: `send` and the echo look whether the WebSocket is open, `repeat` also until
-- when it sends.
pub data WsCall (F : Type 0) : Type 0 where
  echo_messages : WsCall F
  send_if_open : Text → WsCall F
  repeat_while_open : Text → Option ℤ → WsCall F
  pause : F → WsCall F
  close : Option ℤ → Option Text → WsCall F
  destroy_socket : WsCall F

abbrev pub WsHandled : Type 0 → Type 0
WsHandled F = List (WsCall F) × Option Thrown

-- `WebSocketEndpoint`, but for the matching of paths
pub record WsHandling (F : Type 0) : Type 0 where
  pub handle : List (Text × Text) → Text → WsHandled F
  pub get_protocol : Option (Text → Outcome Protocol)

-- `'/ws' + rest`
abbrev pub under_ws : Option Text → Option Text
under_ws none = none
under_ws (some rest) = some (codes "/ws" ++ rest)

-- `parseCloseCode`
unfoldable pub parse_close_code : Text → Option ℤ
parse_close_code path =
    if text_eq path (codes "/ws/close") then some (pos 1000) else parse_int (drop 10 path)

-- `!(isNaN(code) || code < 1000 || code > 4999)`
abbrev pub is_close_code : Option ℤ → Bool
is_close_code none = false
is_close_code (some (negsuc n)) = false
is_close_code (some (pos n)) = leb 1000 n && leb n 4999

-- What stands behind the next slash of a path, without the slash.
abbrev pub behind_slash : Text → Option Text
behind_slash s = elim (index_of b'/' s) [ none ↦ none | some i ↦ some (drop (1 + i) s) ]

abbrev up_to_slash : Text → Text
up_to_slash s = elim (index_of b'/' s) [ none ↦ s | some i ↦ take i s ]

-- `getRemainingPath` of repeat.ts
unfoldable pub rest_of_repeat : Text → Option Text
rest_of_repeat path = elim (behind_slash (drop 11 path)) [
  | none ↦ none
  | some after ↦ under_ws (rest_from after 0)
]

abbrev rest_without_protocol : Text → Option Text
rest_without_protocol path =
    if ltb 18 (length path) then some (codes "/ws" ++ drop 18 path) else none

abbrev pub is_positive : Option ℤ → Bool
is_positive none = false
is_positive (some (negsuc n)) = false
is_positive (some (pos n)) = ltb 0 n

module _ {F : Type 0} (R : Runtime F) (decode : Text → Outcome Text) where
  abbrev pub calls : List (WsCall F) → WsHandled F
  calls cs = (cs, none)

  abbrev pub calls_of : {A : Type 0} → Outcome A → (A → List (WsCall F)) → WsHandled F
  calls_of (ok a) f = (f a, none)
  calls_of (err e) f = ([], some e)

  unfoldable pub match_close : Text → Outcome Bool
  match_close path =
      if starts_with path (codes "/ws/close/") || text_eq path (codes "/ws/close")
      then (if is_close_code (parse_close_code path)
          then ok true
          else err (
              status_error 400
                (codes "Invalid WebSocket close code: " ++ number_text R (parse_close_code path))))
      else ok false

  unfoldable pub ws_close_endpoint : Endpoint (WsHandling F)
  ws_close_endpoint = record {
    name = codes "wsCloseEndpoint";
    match_path = λ path prefix. match_close path;
    get_remaining_path = none;
    rest = record {
      handle = λ query path.
          calls (close (parse_close_code path) (query_get query (codes "reason")) ∷ []);
      get_protocol = none;
    };
  }

  unfoldable pub parse_delay_seconds : Text → F
  parse_delay_seconds path = R.parse_float (part_from path 10)

  unfoldable pub match_delay : Text → Outcome Bool
  match_delay path =
      if starts_with path (codes "/ws/delay/")
      then (if R.is_nan (parse_delay_seconds path)
          then err (status_error 400 (codes "Invalid delay duration in " ++ path))
          else ok true)
      else ok false

  -- `delay(Math.min(delaySeconds, 10) * 1000)`
  unfoldable pub ws_delay_endpoint : Endpoint (WsHandling F)
  ws_delay_endpoint = record {
    name = codes "wsDelayEndpoint";
    match_path = λ path prefix. match_delay path;
    get_remaining_path = some (λ path. under_ws (rest_from path 10));
    rest = record {
      handle = λ query path. calls (
          pause (R.times (R.min_float (parse_delay_seconds path) (R.float 10)) (R.float 1000))
          ∷ []);
      get_protocol = none;
    };
  }

  unfoldable pub ws_echo_endpoint : Endpoint (WsHandling F)
  ws_echo_endpoint = record {
    name = codes "wsEchoEndpoint";
    match_path = λ path prefix. ok (text_eq path (codes "/ws/echo"));
    get_remaining_path = none;
    rest = record { handle = λ query path. calls (echo_messages ∷ []); get_protocol = none };
  }

  -- `parseMessage`
  unfoldable pub parse_message : Text → Outcome Text
  parse_message path = decode (part_from path 12)

  unfoldable pub ws_message_endpoint : Endpoint (WsHandling F)
  ws_message_endpoint = record {
    name = codes "wsMessageEndpoint";
    match_path = λ path prefix. ok (starts_with path (codes "/ws/message/"));
    get_remaining_path = some (λ path. under_ws (rest_from path 12));
    rest = record {
      handle = λ query path. calls_of (parse_message path) (λ m. send_if_open m ∷ []);
      get_protocol = none;
    };
  }

  -- `parseParams`: the message and the frequency
  unfoldable pub parse_params : Text → Outcome (Text × Option ℤ)
  parse_params path = elim (behind_slash (drop 11 path)) [
    | none ↦ ok ([], none)
    | some after ↦
        decode (up_to_slash (drop 11 path)) >>= λ m. ok (m, parse_int (up_to_slash after))
  ]

  unfoldable pub match_repeat : Text → Outcome Bool
  match_repeat path =
      if starts_with path (codes "/ws/repeat/")
      then parse_params path >>= (λ params.
        if is_positive params.1
        then ok true
        else err (status_error 400 (codes "Invalid repeat frequency in " ++ path)))
      else ok false

  unfoldable pub ws_repeat_endpoint : Endpoint (WsHandling F)
  ws_repeat_endpoint = record {
    name = codes "wsRepeatEndpoint";
    match_path = λ path prefix. match_repeat path;
    get_remaining_path = some rest_of_repeat;
    rest = record {
      handle = λ query path.
          calls_of (parse_params path)
            (λ (params : Text × Option ℤ). repeat_while_open params.0 params.1 ∷ []);
      get_protocol = none;
    };
  }

  unfoldable pub ws_reset_endpoint : Endpoint (WsHandling F)
  ws_reset_endpoint = record {
    name = codes "wsResetEndpoint";
    match_path = λ path prefix. ok (text_eq path (codes "/ws/error/reset"));
    get_remaining_path = none;
    rest = record { handle = λ query path. calls (destroy_socket ∷ []); get_protocol = none };
  }

  unfoldable pub ws_subprotocol_endpoint : Endpoint (WsHandling F)
  ws_subprotocol_endpoint = record {
    name = codes "wsSubprotocolEndpoint";
    match_path =
        λ path prefix. ok (starts_with path (codes "/ws/subprotocol/") && ltb 16 (length path));
    get_remaining_path = some (λ path. under_ws (rest_from path 16));
    rest = record {
      handle = λ query path. calls [];
      get_protocol = some (λ path. decode (part_from path 16) >>= λ name. ok (named name));
    };
  }

  unfoldable pub ws_no_subprotocol_endpoint : Endpoint (WsHandling F)
  ws_no_subprotocol_endpoint = record {
    name = codes "wsNoSubprotocolEndpoint";
    match_path = λ path prefix. ok (
        text_eq path (codes "/ws/no-subprotocol")
        || starts_with path (codes "/ws/no-subprotocol/"));
    get_remaining_path = some rest_without_protocol;
    rest = record { handle = λ query path. calls []; get_protocol = some (λ path. ok no_protocol) };
  }

  -- `wsEndpoints`, in the order of the names of the exports
  unfoldable pub ws_endpoints : List (Endpoint (WsHandling F))
  ws_endpoints =
      ws_close_endpoint ∷ ws_delay_endpoint ∷ ws_echo_endpoint ∷ ws_message_endpoint
      ∷ ws_no_subprotocol_endpoint ∷ ws_repeat_endpoint ∷ ws_reset_endpoint
      ∷ ws_subprotocol_endpoint ∷ []
