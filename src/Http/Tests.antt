-- ===== src/Http/Tests.antt =====
-- Requests to a small table of endpoints, on a platform whose URLs are a host and a path.
use testserver.Prelude.{
  ℕ, ◌≡◌, ◌≢◌, refl, true, false, none, some, List, [], ◌∷◌, ◌++◌, drop, ok, if◌then◌else◌, ◌&&◌,
}
use testserver.Text.{Text, codes, starts_with, split, split_dashes}
use testserver.Text.Number.{to_decimal}
use testserver.Tls.{str, num, too_many_parts}
use testserver.Tls.Fields.{get, set, delete, value_eq}
use testserver.Tls.Merge.{
  field_combiner, merge_value, merge_field, merge_fields, merge_contribution, number_of,
  disable_missing, translate_versions, set_minimum, resolve_enabled_versions, strip_from,
  strip_seclevel, resolve_security_level,
}
use testserver.Tls.Endpoints.{tls_endpoints}
use testserver.Tls.Config.{
  get_sni_prefix_parts, merge_endpoint, merge_parts, EndpointConfig, finish_config,
  get_endpoint_config, validate_endpoint_parts, message,
}
use testserver.Chain.{
  status_error, Endpoint, Entry, no_match, find_endpoint, remaining_path, found_or_throw,
  resolve_from, finish, resolve_endpoint_chain,
}
use testserver.Http.{Request, Platform, HandlerOptions, strip_port}
use testserver.Http.Hosts.{
  combine_cert_options, get_local_only_redirect_host, needs_redirect, redirect_host,
  untrusted_root_part,
}
use testserver.Http.Requests.{
  HttpEndpoint, reply, serve, is_proxying, check_authority, check_prefix, run_endpoints, answer_url,
  handle_request, run_handlers,
}
use testserver.Http.Recovery.{ResponseState, replied, recover_http1, recover_http2, handler_failed}
use testserver.Http.Agrees.{redirect_host-agrees}
use testserver.Http.Settles.{redirect_host_settles}
use testserver.Http.Serves.{IsServed, handle_request-IsServed}

http_run : Unit {0}
unfolding get set delete value_eq field_combiner merge_value merge_field merge_fields
    merge_contribution number_of disable_missing translate_versions set_minimum
    resolve_enabled_versions strip_from strip_seclevel resolve_security_level tls_endpoints
    merge_endpoint merge_parts finish_config get_endpoint_config validate_endpoint_parts message
    to_decimal get_sni_prefix_parts split split_dashes find_endpoint remaining_path no_match
    found_or_throw resolve_from finish resolve_endpoint_chain strip_port combine_cert_options
    get_local_only_redirect_host is_proxying check_authority check_prefix run_endpoints answer_url
    handle_request run_handlers recover_http1 recover_http2
http_run = tt

-- A URL is its scheme and host, and its path.
abbrev pub platform : Platform (Text × Text)
platform = record {
  parse_url = λ s. ok (codes "elsewhere.test", s);
  parse_url_on =
      λ s base. ok (drop 3 (drop (if starts_with base (codes "https") then 5 else 4) base), s);
  hostname = λ u. u.0;
  pathname = λ u. u.1;
  to_https = λ u. (codes "https://" ++ u.0, u.1);
  with_hostname = λ host u. (host, u.1);
  href = λ u. u.0 ++ u.1;
  to_lower_case = λ s. s;
  acme_challenge = λ token. none;
  docs_html = codes "docs";
  docs_length = 4;
  json = λ v. codes "?";
  type_error_text = codes "TypeError";
}

abbrev options : HandlerOptions
options = record { root_domain = codes "testserver.host"; using_public_ca = true }

abbrev pub no_flags : Text → ℕ
no_flags version = 0

-- It adds its path to a log.
abbrev log_endpoint : Endpoint (HttpEndpoint (List Text))
log_endpoint = record {
  name = codes "log";
  match_path = λ path prefix. ok (starts_with path (codes "/log"));
  get_remaining_path = some (λ path. some (drop 4 path));
  rest = record { handle = λ path w. (w ++ path ∷ [], none); needs_raw_data = false };
}

abbrev endpoints : List (Endpoint (HttpEndpoint (List Text)))
endpoints = log_endpoint ∷ []

abbrev request : Text → Text → Request
request host path = record {
  method = codes "GET";
  url = path;
  encrypted = false;
  is_http2 = false;
  sni = none;
  header = λ name. if starts_with name (codes "host") then some host else none;
}

abbrev plain_request : Request
plain_request = request (codes "http1.testserver.host") (codes "/log/log")

abbrev entries : List (Entry (HttpEndpoint (List Text)))
entries =
    record { endpoint = log_endpoint; path = codes "/log/log" }
    ∷ record { endpoint = log_endpoint; path = codes "/log" }
    ∷ []

abbrev own_request : Request
own_request = request (codes "testserver.host") (codes "/log/log")

served :
    handle_request platform options tls_endpoints no_flags endpoints own_request
    ≡ ok (serve [] false entries)
unfolding http_run
served = refl

handlers_run :
    run_handlers platform options tls_endpoints no_flags endpoints (λ w. false) entries []
    ≡ (codes "/log/log" ∷ codes "/log" ∷ [], none)
unfolding http_run
handlers_run = refl

tls_redirect :
    handle_request platform options tls_endpoints no_flags endpoints
      (request (codes "tls-v1-2.testserver.host") (codes "/log"))
    ≡ ok (
        reply (record {
          label = codes "tls_redirect";
          status = 301;
          headers =
              (codes "location", codes "https://tls-v1-2.testserver.host/log")
              ∷ (codes "content-type", codes "text/plain")
              ∷ [];
          body =
              codes
                "This endpoint requires HTTPS. Redirecting to https://tls-v1-2.testserver.host/log";
        }))
unfolding http_run
tls_redirect = refl

abbrev four_parts : List Text
four_parts = codes "rsa1024" ∷ codes "tls-v1-2" ∷ codes "http1" ∷ codes "expired" ∷ []

-- Four parts of a local-only endpoint are accepted, and redirected to five, which are not.
four_parts_redirected :
    get_local_only_redirect_host tls_endpoints four_parts options
    ≡ ok (some (codes "rsa1024--tls-v1-2--http1--expired--untrusted-root.testserver.host"))
unfolding http_run
four_parts_redirected = refl

four_parts_accepted : validate_endpoint_parts no_flags tls_endpoints four_parts ≡ none
unfolding http_run
four_parts_accepted = refl

five_parts_refused :
    validate_endpoint_parts no_flags tls_endpoints (
      get_sni_prefix_parts
        (codes "rsa1024--tls-v1-2--http1--expired--untrusted-root.testserver.host")
        (codes "testserver.host"))
    ≡ some (too_many_parts 5)
unfolding http_run
five_parts_refused = refl

-- A path that no endpoint takes is answered by 404 over HTTP/1, and by 500 over HTTP/2.
abbrev nothing_sent : ResponseState
nothing_sent = record { closed = false; headers_sent = false }

http1_status :
    recover_http1 nothing_sent (status_error 404 (codes "no"))
    ≡ replied (record { label = codes "unknown"; status = 404; headers = []; body = codes "no" })
unfolding http_run
http1_status = refl

http2_status : recover_http2 nothing_sent (status_error 404 (codes "no")) ≡ handler_failed
unfolding http_run
http2_status = refl

-- A host with a prefix, over HTTP/2 and TLS.
abbrev prefixed_request : Request
prefixed_request = record {
  method = codes "GET";
  url = codes "/log/log";
  encrypted = true;
  is_http2 = true;
  sni = some (codes "http2.testserver.host");
  header = λ name.
      if starts_with name (codes ":authority") then some (codes "http2.testserver.host") else none;
}

served_with_prefix :
    handle_request platform options tls_endpoints no_flags endpoints prefixed_request
    ≡ ok (serve [] false entries)
unfolding http_run
served_with_prefix = refl

handle_request-IsServed_example :
    IsServed platform options tls_endpoints no_flags endpoints prefixed_request entries
handle_request-IsServed_example =
    handle_request-IsServed platform options tls_endpoints no_flags endpoints prefixed_request []
      false entries (λ e. cc) served_with_prefix

abbrev one_part : List Text
one_part = codes "rsa1024" ∷ []

abbrev one_config : EndpointConfig
one_config = record {
  cert_options = (codes "requiredType", str (codes "local")) ∷ (codes "keyBits", num 1024) ∷ [];
  tls_options = (codes "ciphers", str (codes "DEFAULT@SECLEVEL=1")) ∷ [];
  alpn_preferences = [];
  reject_tls = false;
  require_client_cert = false;
}

one_part_accepted : get_endpoint_config no_flags tls_endpoints one_part ≡ ok one_config
unfolding http_run
one_part_accepted = refl

one_part_redirected :
    get_local_only_redirect_host tls_endpoints one_part options
    ≡ ok (some (codes "rsa1024--untrusted-root.testserver.host"))
unfolding http_run
one_part_redirected = refl

redirect_host-agrees_example :
    get_local_only_redirect_host tls_endpoints one_part options
    ≡ ok (
        if options.using_public_ca && needs_redirect one_part one_config.cert_options
        then some (redirect_host one_part options.root_domain)
        else none)
redirect_host-agrees_example =
    redirect_host-agrees no_flags tls_endpoints one_part options one_part_accepted

redirect_host_settles_example :
    (get_sni_prefix_parts (codes "rsa1024--untrusted-root.testserver.host") options.root_domain
      ≡ one_part ++ untrusted_root_part ∷ [])
    × ((next : Text)
        → get_local_only_redirect_host tls_endpoints
            (get_sni_prefix_parts
              (codes "rsa1024--untrusted-root.testserver.host")
              options.root_domain)
            options
          ≢ ok (some next))
redirect_host_settles_example =
    redirect_host_settles no_flags options (codes "rsa1024--untrusted-root.testserver.host")
      one_part one_part_accepted one_part_redirected
