-- ===== src/Endpoints/Table/Progress.antt =====
-- What the endpoints of src/endpoints/http leave of a path for the next endpoint of a chain.
use testserver.Prelude.{
  ℕ, ◌+◌, ◌≤◌, ◌≡◌, refl, sym, Option, some, All, length, drop, err, arith, Option-cases, inl, inr,
  length-drop,
}
use testserver.Text.{Text, index_of}
use testserver.Text.Laws.{index_of-lt}
use testserver.Chain.{Thrown, Endpoint, remaining_path, resolve_endpoint_chain}
use testserver.Chain.Failures.{Stuck, resolve-Stuck}
use testserver.Chain.Shortens.{Shortens, Shortens-le, leaves_rest, keep-Shortens, TooDeep-length}
use testserver.Endpoints.{Runtime, rest_from}
use testserver.Endpoints.Chained.{status, delay_endpoint, informational}
use testserver.Endpoints.Redirects.{
  redirect_to, redirect_n, relative_redirect_n, absolute_redirect_n,
}
use testserver.Endpoints.Bytes.{bytes_endpoint, stream_bytes_endpoint, stream_endpoint}
use testserver.Endpoints.Caching.{cache, cache_with_age, etag}
use testserver.Endpoints.Auth.{basic_auth, hidden_basic_auth, bearer}
use testserver.Endpoints.Cookies.{get_cookies, set_cookies, delete_cookies, response_headers}
use testserver.Endpoints.Inspect.{
  anything, ip, headers, user_agent, get_method_endpoint, non_get_method_endpoint, trailers,
  tls_fingerprint, tls_client_hello, base64_decode,
}
use testserver.Endpoints.Echo.{echo}
use testserver.Endpoints.Documents.{
  robots_txt, close_endpoint, reset_endpoint, json, xml, html, deny, utf8_encoding, example_page,
  uuid, version_json, tls_certificates, gzip, deflate, brotli, zstd, identity,
}
use testserver.Endpoints.Table.{http_endpoints}

-- The rest is what stands from the slash on, at `from` or behind.
pub rest_from-length :
    (path : Text) (from : ℕ) (r : Text)
    → rest_from path from ≡ some r
    → (1 ≤ length r) × (length r + from ≤ length path)
unfolding rest_from
rest_from-length path from r h = elim (Option-cases (index_of b'/' (drop from path))) [
  | inl n ↦ absurd (let g = rw (rest_from, n) at h in ground arith)
  | inr (i, e) ↦
      let g : some (drop i (drop from path)) ≡ some r = rw (rest_from, e) at h in
      let lt = index_of-lt b'/' (drop from path) i e in
      let measured = length-drop i (drop from path) in
      let behind = length-drop from path in
      let same : drop i (drop from path) ≡ r = ground arith in
      rw (sym same) (omega (arith, lt, measured, behind))
]

-- An endpoint that leaves the path from the first slash behind `from` on.
pub leaves_from :
    {T : Type 0} (from : ℕ) (ep : Endpoint T)
    → ep.get_remaining_path ≡ some (λ path. rest_from path from)
    → Shortens from ep
unfolding remaining_path
leaves_from from ep e path prefix r m h =
    let g : rest_from path from ≡ some r = rw e at h in (rest_from-length path from r g).1

-- Whatever follows a `/delay/…` or `/info/…` in a path is shorter, by six units at least; no other
-- endpoint leaves anything.
pub http_endpoints-Shortens : {F : Type 0} (R : Runtime F) → All (Shortens 6) (http_endpoints R)
unfolding leaves_rest http_endpoints absolute_redirect_n anything base64_decode basic_auth bearer
    brotli bytes_endpoint cache cache_with_age close_endpoint deflate delay_endpoint delete_cookies
    deny echo etag example_page get_cookies get_method_endpoint gzip headers hidden_basic_auth html
    identity informational ip json non_get_method_endpoint redirect_n redirect_to
    relative_redirect_n reset_endpoint response_headers robots_txt set_cookies status
    stream_bytes_endpoint stream_endpoint tls_certificates tls_client_hello tls_fingerprint trailers
    user_agent utf8_encoding uuid version_json xml zstd
http_endpoints-Shortens R = keep-Shortens 6 (http_endpoints R) (
  Shortens-le 6 7 (delay_endpoint R) (omega arith) (leaves_from 7 (delay_endpoint R) refl),
  (leaves_from 6 (informational R) refl, tt),
)

-- For a path of at most 66 units the chain of the HTTP endpoints is never refused for its depth: an
-- error is that no endpoint takes a path that is left, or the one that the test of a path throws.
pub http_endpoints_depth :
    {F : Type 0} (R : Runtime F) (path : Text) (prefix : Option Text) (e : Thrown)
    → length path ≤ 66
    → resolve_endpoint_chain (http_endpoints R) path prefix ≡ err e
    → Stuck (http_endpoints R) path prefix 11 e (some path)
http_endpoints_depth R path prefix e h k = elim (resolve-Stuck (http_endpoints R) path prefix e k) [
  | inl stuck ↦ stuck
  | inr deep ↦ absurd (
      omega (
        arith,
        h,
        TooDeep-length (http_endpoints R) prefix 6 (http_endpoints-Shortens R) path e deep,
      ))
]
