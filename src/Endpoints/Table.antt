-- ===== src/Endpoints/Table.antt =====
-- `httpEndpoints` of src/endpoints/endpoint-index.ts: the exports of
-- src/endpoints/http-index.ts in the order of their names, which is that of a module's namespace.
-- `install` makes them the endpoints of the request handler: a call is performed on the state `W` of
-- the response and the socket, and what it throws ends the handler.
pub mod Progress
use testserver.Prelude.{Option, none, some, List, [], ◌∷◌, map}
use testserver.Text.{Text}
use testserver.Chain.{Thrown, Endpoint}
use testserver.Http.Requests.{HttpEndpoint}
use testserver.Endpoints.{Call, Exchange, Runtime, Handled, Handling}
use testserver.Endpoints.Chained.{status, delay_endpoint, informational}
use testserver.Endpoints.Redirects.{
  redirect_to, redirect_n, relative_redirect_n, absolute_redirect_n,
}
use testserver.Endpoints.Bytes.{bytes_endpoint, stream_bytes_endpoint, stream_endpoint}
use testserver.Endpoints.Caching.{cache, cache_with_age, etag}
use testserver.Endpoints.Auth.{basic_auth, hidden_basic_auth, bearer}
use testserver.Endpoints.Cookies.{get_cookies, set_cookies, delete_cookies, response_headers}
use testserver.Endpoints.Inspect.{
  anything, ip, headers, user_agent, get_method_endpoint, non_get_method_endpoint, trailers,
  tls_fingerprint, tls_client_hello, base64_decode,
}
use testserver.Endpoints.Echo.{echo}
use testserver.Endpoints.Documents.{
  robots_txt, close_endpoint, reset_endpoint, json, xml, html, deny, utf8_encoding, example_page,
  uuid, version_json, tls_certificates, gzip, deflate, brotli, zstd, identity,
}

module _ {F : Type 0} (R : Runtime F) where
  unfoldable pub http_endpoints : List (Endpoint (Handling F))
  http_endpoints =
      absolute_redirect_n
      ∷ anything R
      ∷ base64_decode R
      ∷ basic_auth R
      ∷ bearer R
      ∷ brotli R
      ∷ bytes_endpoint R
      ∷ cache R
      ∷ cache_with_age R
      ∷ close_endpoint
      ∷ deflate R
      ∷ delay_endpoint R
      ∷ delete_cookies R
      ∷ deny R
      ∷ echo R
      ∷ etag R
      ∷ example_page R
      ∷ get_cookies R
      ∷ get_method_endpoint R
      ∷ gzip R
      ∷ headers R
      ∷ hidden_basic_auth R
      ∷ html R
      ∷ identity R
      ∷ informational R
      ∷ ip R
      ∷ json R
      ∷ non_get_method_endpoint R
      ∷ redirect_n
      ∷ redirect_to
      ∷ relative_redirect_n
      ∷ reset_endpoint
      ∷ response_headers R
      ∷ robots_txt
      ∷ set_cookies R
      ∷ status R
      ∷ stream_bytes_endpoint R
      ∷ stream_endpoint R
      ∷ tls_certificates R
      ∷ tls_client_hello R
      ∷ tls_fingerprint R
      ∷ trailers R
      ∷ user_agent R
      ∷ utf8_encoding R
      ∷ uuid R
      ∷ version_json R
      ∷ xml R
      ∷ zstd R
      ∷ []

module _ {F W : Type 0} (perform : Call F → W → W × Option Thrown) where
  -- The calls in their order; the first that throws ends them.
  unfoldable pub perform_all : List (Call F) → Option Thrown → W → W × Option Thrown
  perform_all [] thrown w = (w, thrown)
  perform_all (c ∷ cs) thrown w =
      let (v, stop) = perform c w in
      elim stop [ none ↦ perform_all cs thrown v | some e ↦ (v, some e) ]

  unfoldable pub install : Exchange → Endpoint (Handling F) → Endpoint (HttpEndpoint W)
  install x ep = record {
    name = ep.name;
    match_path = ep.match_path;
    get_remaining_path = ep.get_remaining_path;
    rest = record {
      handle = λ path w. let handled = ep.rest.handle x path in perform_all handled.0 handled.1 w;
      needs_raw_data = ep.rest.needs_raw_data;
    };
  }

  unfoldable pub install_all : Runtime F → Exchange → List (Endpoint (HttpEndpoint W))
  install_all R x = map (install x) (http_endpoints R)
