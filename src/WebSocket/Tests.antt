-- ===== src/WebSocket/Tests.antt =====
-- Upgrades to the WebSocket endpoints; `%` alone is what `decode` refuses.
use testserver.Prelude.{
  ℕ, ◌≡◌, refl, ◌⊎◌, false, none, some, List, [], ◌∷◌, ok, err, if◌then◌else◌, arith,
}
use testserver.Text.{Text, codes, text_eq, split, split_dashes}
use testserver.Text.Number.{to_decimal, parse_int}
use testserver.Tls.Fields.{get, set, delete, value_eq}
use testserver.Tls.Merge.{
  field_combiner, merge_value, merge_field, merge_fields, merge_contribution, number_of,
  disable_missing, translate_versions, set_minimum, resolve_enabled_versions, strip_from,
  strip_seclevel, resolve_security_level,
}
use testserver.Tls.Endpoints.{tls_endpoints}
use testserver.Tls.Config.{
  get_sni_prefix_parts, validate_endpoint_parts, merge_endpoint, merge_parts, finish_config,
  get_endpoint_config,
}
use testserver.Chain.{
  other_error, Outcome, Entry, find_endpoint, remaining_path, found_or_throw, no_match,
  resolve_from, finish, resolve_endpoint_chain,
}
use testserver.Chain.Failures.{Stuck}
use testserver.Http.{Request}
use testserver.Http.Tests.{platform, no_flags}
use testserver.Endpoints
use testserver.Endpoints.Chained.{part_from}
use testserver.Endpoints.Tests.{runtime}
use testserver.WebSocket.{
  named, WsHandling, match_close, match_delay, match_repeat, parse_params, parse_close_code,
  ws_close_endpoint, ws_delay_endpoint, ws_echo_endpoint, ws_message_endpoint, ws_repeat_endpoint,
  ws_reset_endpoint, ws_subprotocol_endpoint, ws_no_subprotocol_endpoint, ws_endpoints,
}
use testserver.WebSocket.Upgrade.{
  refused, accepted, status_line, protocol_entries, choose_protocol, handle_web_socket_upgrade,
}
use testserver.WebSocket.Progress.{ws_endpoints_depth}
use testserver.WebSocket.Protocols.{Forced}
use testserver.WebSocket.Settles.{
  HasParts, url_of, chain_of, handle_web_socket_upgrade-throws, handle_web_socket_upgrade-Forced,
}

web_socket_run : Unit {0}
unfolding find_endpoint remaining_path found_or_throw no_match resolve_from finish
    resolve_endpoint_chain split to_decimal parse_int get_sni_prefix_parts validate_endpoint_parts
    Endpoints.rest_from part_from match_close match_delay match_repeat parse_params parse_close_code
    ws_close_endpoint ws_delay_endpoint ws_echo_endpoint ws_message_endpoint ws_repeat_endpoint
    ws_reset_endpoint ws_subprotocol_endpoint ws_no_subprotocol_endpoint ws_endpoints status_line
    protocol_entries choose_protocol handle_web_socket_upgrade
web_socket_run = tt

abbrev decode : Text → Outcome Text
decode s = if text_eq s (codes "%") then err (other_error (codes "URIError")) else ok s

abbrev root : Text
root = codes "testserver.host"

-- A request for a path of the root host, without a protocol of the client.
abbrev request_of : Text → Request
request_of url = record {
  method = codes "GET";
  url = url;
  encrypted = false;
  is_http2 = false;
  sni = none;
  header = λ name. if text_eq name (codes "host") then some root else none;
}

abbrev mqtt : Text
mqtt = codes "/ws/subprotocol/mqtt/echo"

abbrev mqtt_entries : List (Entry (WsHandling ℕ))
mqtt_entries =
    record { endpoint = ws_subprotocol_endpoint runtime decode; path = mqtt }
    ∷ record { endpoint = ws_echo_endpoint runtime decode; path = codes "/ws/echo" }
    ∷ []

mqtt_forced :
    handle_web_socket_upgrade platform root [] no_flags
      (ws_endpoints runtime decode)
      (request_of mqtt)
    ≡ ok (accepted (some (named (codes "mqtt"))) (some (codes "_")) mqtt_entries)
unfolding web_socket_run
mqtt_forced = refl

-- The same for a host with a part.
abbrev http1_request : Request
http1_request = record {
  method = codes "GET";
  url = mqtt;
  encrypted = false;
  is_http2 = false;
  sni = none;
  header =
      λ name. if text_eq name (codes "host") then some (codes "http1.testserver.host") else none;
}

config_run : Unit {0}
unfolding get set delete value_eq field_combiner merge_value merge_field merge_fields
    merge_contribution number_of disable_missing translate_versions set_minimum
    resolve_enabled_versions strip_from strip_seclevel resolve_security_level tls_endpoints
    merge_endpoint merge_parts finish_config get_endpoint_config split_dashes
config_run = tt

http1_forced :
    handle_web_socket_upgrade platform root tls_endpoints no_flags
      (ws_endpoints runtime decode)
      http1_request
    ≡ ok (accepted (some (named (codes "mqtt"))) (some (codes "_")) mqtt_entries)
unfolding web_socket_run config_run
http1_forced = refl

handle_web_socket_upgrade-Forced_example :
    (url : Text × Text) × (url_of platform root tls_endpoints no_flags
        (ws_endpoints runtime decode)
        http1_request
      ≡ ok url)
    × HasParts platform root tls_endpoints no_flags (ws_endpoints runtime decode) url.0
    × (chain_of platform root tls_endpoints no_flags (ws_endpoints runtime decode) url
        ≡ ok mqtt_entries)
    × Forced (some (named (codes "mqtt"))) (some (codes "_")) mqtt_entries
handle_web_socket_upgrade-Forced_example =
    handle_web_socket_upgrade-Forced platform root tls_endpoints no_flags
      (ws_endpoints runtime decode) http1_request (some (codes "_")) mqtt_entries
      (some (named (codes "mqtt"))) http1_forced

abbrev percent : Request
percent = request_of (codes "/ws/subprotocol/%")

-- The upgrade throws, instead of answering.
percent_throws :
    handle_web_socket_upgrade platform root [] no_flags (ws_endpoints runtime decode) percent
    ≡ err (other_error (codes "URIError"))
unfolding web_socket_run
percent_throws = refl

handle_web_socket_upgrade-throws_example :
    (url_of platform root [] no_flags (ws_endpoints runtime decode) percent
      ≡ err (other_error (codes "URIError")))
    ⊎ ((url : Text × Text) × (url_of platform root [] no_flags (ws_endpoints runtime decode) percent
          ≡ ok url)
        × ((entries : List (Entry (WsHandling ℕ))) × (chain_of platform root [] no_flags
                (ws_endpoints runtime decode)
                url
              ≡ ok entries)
            × (protocol_entries entries ≡ err (other_error (codes "URIError")) ∷ [])))
handle_web_socket_upgrade-throws_example =
    handle_web_socket_upgrade-throws platform root [] no_flags (ws_endpoints runtime decode) percent
      (other_error (codes "URIError")) percent_throws

two_protocols :
    handle_web_socket_upgrade platform root [] no_flags
      (ws_endpoints runtime decode)
      (request_of (codes "/ws/no-subprotocol/subprotocol/mqtt"))
    ≡ ok (refused (codes "HTTP/1.1 400 Bad Request\r\n\r\n"))
unfolding web_socket_run
two_protocols = refl

abbrev nowhere : Text
nowhere = codes "/ws/message/hi/nowhere"

nowhere-Stuck :
    Stuck (ws_endpoints runtime decode) nowhere none 11 (no_match nowhere none) (some nowhere)
unfolding web_socket_run
nowhere-Stuck =
    ws_endpoints_depth runtime decode nowhere none (no_match nowhere none) (omega arith) refl
