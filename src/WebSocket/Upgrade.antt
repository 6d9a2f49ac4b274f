-- ===== src/WebSocket/Upgrade.antt =====
-- src/ws-handler.ts: `handleWebSocketUpgrade` up to the call of the ws library, `handleProtocols`,
-- and the run of the handlers. Logging and metrics are left out. The URL class is the `Platform`'s;
-- what `new URL` and `getProtocol` throw is not caught there, and so not here.
use testserver.Prelude.{
  ℕ, Bool, true, false, Option, none, some, List, [], ◌∷◌, ◌++◌, ok, err, ◌>>=◌, if◌then◌else◌,
  ◌==◌,
}
use testserver.Text.{Text, codes, ends_with}
use testserver.Text.Number.{pos, to_decimal}
use testserver.Tls.{TlsEndpoint, ConfigError}
use testserver.Tls.Config.{get_sni_prefix_parts, strip_root, validate_endpoint_parts}
use testserver.Chain.{
  Thrown, status_error, other_error, Outcome, Endpoint, Entry, resolve_endpoint_chain,
}
use testserver.Http.{Request, Platform}
use testserver.Http.Cors.{filled}
use testserver.Http.Requests.{or_undefined}
use testserver.WebSocket.{Protocol, named, no_protocol, WsCall, close, WsHandling}

-- The upgrade is refused with a status line and the socket destroyed, or the library is called: with
-- the forced protocol, the client's header (or the one put in its place) and the endpoints.
pub data Upgrade (F : Type 0) : Type 0 where
  refused : Text → Upgrade F
  accepted : Option Protocol → Option Text → List (Entry (WsHandling F)) → Upgrade F

abbrev bad_request : Text
bad_request = codes "HTTP/1.1 400 Bad Request\r\n\r\n"

-- The status line for what the chain throws.
unfoldable pub status_line : Thrown → Text
status_line (status_error code message) =
    codes "HTTP/1.1 "
    ++ (to_decimal code
        ++ (codes " "
            ++ ((if code == 404 then codes "Not Found" else codes "Bad Request")
                ++ codes "\r\n\r\n")))
status_line (other_error message) = codes "HTTP/1.1 500 Internal Server Error\r\n\r\n"

-- `handleProtocols`: `no_protocol` is `false`
unfoldable pub handle_protocols : Option Protocol → List Text → Protocol
handle_protocols (some forced) clients = forced
handle_protocols none [] = no_protocol
handle_protocols none ([] ∷ clients) = no_protocol
handle_protocols none ((c ∷ s) ∷ clients) = named (c ∷ s)

-- The header that the library reads is there whenever a protocol is forced.
abbrev pub forced_header : Option Text → Option Text
forced_header none = some (codes "_")
forced_header (some []) = some (codes "_")
forced_header (some (c ∷ s)) = some (c ∷ s)

module _ {F : Type 0} where
  -- `entries.filter(e => e.endpoint.getProtocol)`, with the protocol that each gives
  unfoldable pub protocol_entries : List (Entry (WsHandling F)) → List (Outcome Protocol)
  protocol_entries [] = []
  protocol_entries (e ∷ es) = elim e.endpoint.rest.get_protocol [
    | none ↦ protocol_entries es
    | some f ↦ f e.path ∷ protocol_entries es
  ]

  abbrev pub choose :
      Option Text → List (Entry (WsHandling F)) → List (Outcome Protocol) → Outcome (Upgrade F)
  choose header entries [] = ok (accepted none header entries)
  choose header entries (p ∷ []) =
      p >>= λ protocol. ok (accepted (some protocol) (forced_header header) entries)
  choose header entries (p ∷ (q ∷ ps)) = ok (refused bad_request)

  unfoldable pub choose_protocol : Option Text → List (Entry (WsHandling F)) → Outcome (Upgrade F)
  choose_protocol header entries = choose header entries (protocol_entries entries)

  abbrev pub resolved : Option Text → Outcome (List (Entry (WsHandling F))) → Outcome (Upgrade F)
  resolved header (ok entries) = choose_protocol header entries
  resolved header (err e) = ok (refused (status_line e))

abbrev pub hostname_prefix : Text → Text → Option Text
hostname_prefix root_domain host =
    if ends_with host root_domain then some (strip_root host root_domain) else none

module _ {F U : Type 0} (P : Platform U) (root_domain : Text) (tls_endpoints : List TlsEndpoint)
    (disable_flag : Text → ℕ) (endpoints : List (Endpoint (WsHandling F))) where
  -- `endpointError`, if there is a prefix
  abbrev pub prefix_error : Text → Option Text → Option ConfigError
  prefix_error host none = none
  prefix_error host (some prefix) =
      validate_endpoint_parts disable_flag tls_endpoints (get_sni_prefix_parts host root_domain)

  abbrev pub upgrade_to : Request → Text → Text → Option ConfigError → Outcome (Upgrade F)
  upgrade_to req host path (some e) = ok (refused bad_request)
  upgrade_to req host path none =
      resolved (req.header (codes "sec-websocket-protocol"))
        (resolve_endpoint_chain endpoints path (hostname_prefix root_domain host))

  unfoldable pub handle_web_socket_upgrade : Request → Outcome (Upgrade F)
  handle_web_socket_upgrade req =
      P.parse_url_on req.url (codes "http://" ++ or_undefined (req.header (codes "host")))
      >>= λ url.
          upgrade_to req (P.hostname url) (P.pathname url)
            (prefix_error (P.hostname url) (filled (hostname_prefix root_domain (P.hostname url))))

module _ {F W : Type 0} (perform : WsCall F → W → W × Option Thrown) (is_open : W → Bool) where
  unfoldable pub perform_all : List (WsCall F) → Option Thrown → W → W × Option Thrown
  perform_all [] thrown w = (w, thrown)
  perform_all (c ∷ cs) thrown w =
      let (v, stop) = perform c w in
      elim stop [ none ↦ perform_all cs thrown v | some e ↦ (v, some e) ]

  -- The loop over the endpoints: it stops once the WebSocket is not open, or at a throw.
  unfoldable pub run_entries :
      List (Text × Text) → List (Entry (WsHandling F)) → W → W × Option Thrown
  run_entries query [] w = (w, none)
  run_entries query (e ∷ es) w =
      let handled = e.endpoint.rest.handle query e.path in
      let (v, stop) = perform_all handled.0 handled.1 w in
      elim (is_open w) [
        | true ↦ elim stop [ none ↦ run_entries query es v | some t ↦ (v, some t) ]
        | false ↦ (w, none)
      ]

  -- The callback of `handleUpgrade`: a throw closes a WebSocket that is open.
  abbrev close_on_error : W × Option Thrown → W × Option Thrown
  close_on_error (w, none) = (w, none)
  close_on_error (w, some e) =
      if is_open w
      then perform (close (some (pos 1011)) (some (codes "Internal error"))) w
      else (w, none)

  unfoldable pub run_web_socket :
      List (Text × Text) → List (Entry (WsHandling F)) → W → W × Option Thrown
  run_web_socket query entries w = close_on_error (run_entries query entries w)
