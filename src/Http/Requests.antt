-- ===== src/Http/Requests.antt =====
-- `createHttpRequestHandler` of src/http-handler.ts: the answer to a request, in the order of its
-- checks. Logging, metrics (but for the label) and the reset of `receivedData` are left out.
use testserver.Prelude.{
  ℕ, Bool, true, false, not, ◌&&◌, Option, none, some, List, [], ◌∷◌, ◌++◌, Result, ok, err, ◌>>=◌,
  if◌then◌else◌, any, get_or,
}
use testserver.Text.{Text, codes, text_eq, starts_with, ends_with, mem_text, split}
use testserver.Text.Number.{to_decimal}
use testserver.Tls.{TlsEndpoint, ConfigError}
use testserver.Tls.Config.{
  find_endpoint, get_sni_prefix_parts, strip_root, validate_endpoint_parts, message,
}
use testserver.Chain.{Thrown, other_error, Outcome, Endpoint, Entry, resolve_endpoint_chain}
use testserver.Http.{Request, Reply, Platform, HandlerOptions, strip_port}
use testserver.Http.Cors.{filled, allow_cors}
use testserver.Http.Hosts.{get_local_only_redirect_host}

-- The handlers of an endpoint, on the state `W` of request and response; a handler may throw.
pub record HttpEndpoint (W : Type 0) : Type 0 where
  pub handle : Text → W → W × Option Thrown
  pub needs_raw_data : Bool

-- A reply, or the endpoints that are run, with the CORS headers that are set before, and whether
-- the raw data is still captured.
pub data Answer (W : Type 0) : Type 0 where
  reply : Reply → Answer W
  serve : List (Text × Text) → Bool → List (Entry (HttpEndpoint W)) → Answer W

abbrev pub or_undefined : Option Text → Text
or_undefined none = codes "undefined"
or_undefined (some s) = s

abbrev or_else : Option Text → Option Text → Option Text
or_else none o = o
or_else (some s) o = some s

-- An error of the configuration as a thrown `Error`.
abbrev pub rethrow : (ConfigError → Text) → Result ConfigError (Option Text) → Outcome (Option Text)
rethrow text (ok o) = ok o
rethrow text (err e) = err (other_error (text e))

module _ {U W : Type 0} (P : Platform U) (options : HandlerOptions)
    (tls_endpoints : List TlsEndpoint) (disable_flag : Text → ℕ)
    (http_endpoints : List (Endpoint (HttpEndpoint W))) where
  abbrev pub is_own_host : Text → Bool
  is_own_host host = ends_with host options.root_domain

  abbrev pub proxy_reject : Reply
  proxy_reject = record {
    label = codes "proxy_reject";
    status = 400;
    headers = (codes "connection", codes "close") ∷ [];
    body = [];
  }

  abbrev pub misdirected : Text → Text → Reply
  misdirected sni host = record {
    label = codes "misdirected";
    status = 421;
    headers = (codes "content-type", codes "text/plain") ∷ [];
    body =
        codes "Misdirected Request: TLS connection was established for "
        ++ (sni ++ (codes " but got a request for " ++ host));
  }

  -- An absolute URL of another host.
  unfoldable pub is_proxying : Request → Outcome Bool
  is_proxying req =
      if starts_with req.url (codes "/")
      then ok false
      else P.parse_url req.url >>= λ url. ok (not (is_own_host (P.hostname url)))

  abbrev pub mismatch : Option Text → Option Text → Option Reply
  mismatch none sni = none
  mismatch (some authority) none = none
  mismatch (some authority) (some name) =
      let host = P.to_lower_case (strip_port authority) in
      if text_eq (P.to_lower_case name) host
      then none
      else some (misdirected (P.to_lower_case name) host)

  -- The check of `:authority` against the server name of the TLS connection.
  unfoldable pub check_authority : Request → Option Reply
  check_authority req =
      if req.encrypted && req.is_http2
      then mismatch (filled (req.header (codes ":authority"))) (filled req.sni)
      else none

  abbrev pub acme_reply : Option Text → Reply
  acme_reply none = record {
    label = codes "acme_challenge";
    status = 404;
    headers = [];
    body = codes "Unrecognized ACME challenge request";
  }
  acme_reply (some response) = record {
    label = codes "acme_challenge";
    status = 200;
    headers = [];
    body = response;
  }

  abbrev pub text_of_error : ConfigError → Text
  text_of_error e = message P.json P.type_error_text e

  abbrev pub invalid_endpoint : Text → Reply
  invalid_endpoint text = record {
    label = codes "invalid_endpoint";
    status = 400;
    headers = (codes "content-type", codes "text/plain") ∷ [];
    body = codes "Invalid endpoint hostname: " ++ text;
  }

  abbrev pub is_tls_only : Option TlsEndpoint → Bool
  is_tls_only none = false
  is_tls_only (some e) = not e.plain_text_allowed

  -- Plain HTTP to a part that configures TLS.
  abbrev pub tls_only : Request → List Text → Bool
  tls_only req parts =
      not req.encrypted && any (λ part. is_tls_only (find_endpoint tls_endpoints part)) parts

  abbrev pub redirect_to : Text → Text → Text → Reply
  redirect_to label target reason = record {
    label = label;
    status = 301;
    headers = (codes "location", target) ∷ (codes "content-type", codes "text/plain") ∷ [];
    body = reason ++ target;
  }

  -- `if (tlsOnly || untrustedRootHost)`
  abbrev pub redirected : Bool → Option Text → U → Option Reply
  redirected false none url = none
  redirected true none url = some (
      redirect_to (codes "tls_redirect") (P.href (P.to_https url))
        (codes "This endpoint requires HTTPS. Redirecting to "))
  redirected tls (some host) url = some (
      redirect_to (codes "untrusted_root_redirect") (P.href (P.to_https (P.with_hostname host url)))
        (codes
          "This local-only endpoint is served by an untrusted CA. Redirecting to the explicit "))

  abbrev pub reply_to_parts : Request → U → List Text → Option Text → Outcome (Option Reply)
  reply_to_parts req url parts (some text) = ok (some (invalid_endpoint text))
  reply_to_parts req url parts none =
      rethrow text_of_error (get_local_only_redirect_host tls_endpoints parts options) >>= λ host.
      ok (redirected (tls_only req parts) (filled host) url)

  abbrev pub error_text : Option ConfigError → Option Text
  error_text none = none
  error_text (some e) = filled (some (text_of_error e))

  abbrev pub reply_to_prefix : Request → U → Option Text → Outcome (Option Reply)
  reply_to_prefix req url none = ok none
  reply_to_prefix req url (some prefix) =
      let parts = get_sni_prefix_parts (P.hostname url) options.root_domain in
      reply_to_parts req url parts
        (error_text (validate_endpoint_parts disable_flag tls_endpoints parts))

  -- The checks of the hostname's prefix.
  unfoldable pub check_prefix : Request → U → Option Text → Outcome (Option Reply)
  check_prefix req url prefix = reply_to_prefix req url (filled prefix)

  -- `hostnamePrefix`
  abbrev pub hostname_prefix : U → Option Text
  hostname_prefix url =
      if is_own_host (P.hostname url)
      then some (strip_root (P.hostname url) options.root_domain)
      else none

  abbrev pub docs_reply : Reply
  docs_reply = record {
    label = codes "docs";
    status = 200;
    headers =
        (codes "content-type", codes "text/html; charset=utf-8")
        ∷ (codes "content-length", to_decimal P.docs_length)
        ∷ [];
    body = P.docs_html;
  }

  abbrev pub is_docs : Text → Option Text → Bool
  is_docs path prefix =
      text_eq path (codes "/")
      && not (elim (filled prefix) [ none ↦ false | some p ↦ mem_text p (codes "example" ∷ []) ])

  -- The endpoints of the path.
  unfoldable pub run_endpoints : Request → Text → Option Text → Outcome (Answer W)
  run_endpoints req path prefix =
      if text_eq req.method (codes "OPTIONS")
      then ok (
          reply (record {
            label = codes "cors_preflight";
            status = 200;
            headers = allow_cors req.header;
            body = [];
          }))
      else resolve_endpoint_chain http_endpoints path prefix >>= λ entries. ok (
          serve (allow_cors req.header)
            (any (λ (e : Entry (HttpEndpoint W)). e.endpoint.rest.needs_raw_data) entries) entries)

  abbrev pub after_prefix : Request → U → Option Reply → Outcome (Answer W)
  after_prefix req url (some r) = ok (reply r)
  after_prefix req url none =
      if is_docs (P.pathname url) (hostname_prefix url)
      then ok (reply docs_reply)
      else run_endpoints req (P.pathname url) (hostname_prefix url)

  -- What follows once the URL is known.
  unfoldable pub answer_url : Request → U → Outcome (Answer W)
  answer_url req url =
      if starts_with (P.pathname url) (codes "/.well-known/acme-challenge/")
      then ok (
          reply
            (acme_reply (filled (P.acme_challenge (get_or (split b'/' (P.pathname url)) 3 [])))))
      else check_prefix req url (hostname_prefix url) >>= after_prefix req url

  abbrev pub base_url : Request → Text
  base_url req =
      (if req.encrypted then codes "https" else codes "http")
      ++ (codes "://"
          ++ or_undefined (or_else (req.header (codes ":authority")) (req.header (codes "host"))))

  abbrev pub answer_own : Request → Option Reply → Outcome (Answer W)
  answer_own req (some r) = ok (reply r)
  answer_own req none = P.parse_url_on req.url (base_url req) >>= answer_url req

  -- `handleRequest`, up to the handlers of the endpoints
  unfoldable pub handle_request : Request → Outcome (Answer W)
  handle_request req = is_proxying req >>= λ proxying. elim proxying [
    | true ↦ ok (reply proxy_reject)
    | false ↦ answer_own req (check_authority req)
  ]

  abbrev pub run_on :
      List (Entry (HttpEndpoint W))
      → (W → W × Option Thrown)
      → W × Option Thrown
      → W × Option Thrown
  run_on entries next (w, some e) = (w, some e)
  run_on entries next (w, none) = next w

  -- The loop over the endpoints: it stops once the response has ended, or at a throw.
  unfoldable pub run_handlers : (W → Bool) → List (Entry (HttpEndpoint W)) → W → W × Option Thrown
  run_handlers ended [] w = (w, none)
  run_handlers ended (entry ∷ entries) w =
      if ended w
      then (w, none)
      else run_on entries (run_handlers ended entries) (entry.endpoint.rest.handle entry.path w)
