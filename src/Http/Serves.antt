-- ===== src/Http/Serves.antt =====
-- What holds of a request that the endpoints are run for.
use testserver.Prelude.{
  ℕ, ◌≡◌, ◌≢◌, refl, sym, ap, ◌∙◌, ◌⊎◌, inl, inr, All, Bool, true, false, Option, none, some, List,
  [], ◌∷◌, Result, ok, err, bind-eq-ok, Bool-cases, arith,
}
use testserver.Text.{Text, codes, text_eq, starts_with}
use testserver.Tls.{TlsEndpoint, ConfigError}
use testserver.Tls.Config.Validated.{message-filled, validated}
use testserver.Tls.Config.{
  EndpointConfig, get_endpoint_config, get_sni_prefix_parts, validate_endpoint_parts,
}
use testserver.Chain.{Endpoint, Entry, resolve_endpoint_chain}
use testserver.Chain.Resolves.{IsChain, resolve-IsChain_iff}
use testserver.Http.{Request, Reply, Platform, HandlerOptions}
use testserver.Http.Cors.{filled}
use testserver.Http.Admits.{
  Prefixed, prefix_cases, AllowsPlainText, StaysHere, SameAuthority, ForThisServer,
  is_proxying-ForThisServer, check_authority-SameAuthority, tls_only-plain, unredirected-StaysHere,
}
use testserver.Http.Hosts.{get_local_only_redirect_host}
use testserver.Http.Requests.{
  HttpEndpoint, reply, serve, rethrow, is_proxying, check_authority, tls_only, redirected,
  reply_to_parts, reply_to_prefix, error_text, check_prefix, hostname_prefix, is_docs,
  run_endpoints, after_prefix, answer_url, base_url, answer_own, handle_request, proxy_reject,
}

rethrow-eq-ok :
    (text : ConfigError → Text) (r : Result ConfigError (Option Text)) (o : Option Text)
    → rethrow text r ≡ ok o
    → r ≡ ok o
rethrow-eq-ok text (ok x) o h = ground arith
rethrow-eq-ok text (err e) o h = cc

module _ {U W : Type 0} (P : Platform U) (options : HandlerOptions)
    (tls_endpoints : List TlsEndpoint) (disable_flag : Text → ℕ)
    (http_endpoints : List (Endpoint (HttpEndpoint W))) where
  -- The parts of the hostname are accepted, the request may use them over its connection, and the
  -- certificate that they want is not one for another host.
  pub record AcceptedParts (req : Request) (parts : List Text) : Type 0 where
    pub config : EndpointConfig
    pub accepted : get_endpoint_config disable_flag tls_endpoints parts ≡ ok config
    pub carried : (req.encrypted ≡ true) ⊎ All (AllowsPlainText tls_endpoints) parts
    pub stays : StaysHere options parts config.cert_options

  -- What the endpoints may rely on.
  pub record IsServed (req : Request) (entries : List (Entry (HttpEndpoint W))) : Type 0 where
    pub own : ForThisServer P options tls_endpoints disable_flag http_endpoints req
    pub directed : SameAuthority P.to_lower_case req
    pub url : U
    pub parsed :
        P.parse_url_on req.url (base_url P options tls_endpoints disable_flag http_endpoints req)
        ≡ ok url
    pub no_challenge : starts_with (P.pathname url) (codes "/.well-known/acme-challenge/") ≡ false
    pub parts_accepted :
        Prefixed options.root_domain
          (P.hostname url)
          (AcceptedParts req (get_sni_prefix_parts (P.hostname url) options.root_domain))
    pub no_preflight : text_eq req.method (codes "OPTIONS") ≡ false
    pub chain :
        IsChain http_endpoints
          (P.pathname url)
          (hostname_prefix P options tls_endpoints disable_flag http_endpoints url)
          entries

  redirected-none :
      (tls : Bool) (o : Option Text) (url : U)
      → redirected P options tls_endpoints disable_flag http_endpoints tls o url ≡ none
      → (tls ≡ false) × (o ≡ none)
  redirected-none false none url h = (refl, refl)
  redirected-none true none url h = cc
  redirected-none true (some host) url h = cc
  redirected-none false (some host) url h = cc

  parts_of_reply :
      (req : Request) (url : U) (parts : List Text) (o : Option ConfigError)
      → P.type_error_text ≢ []
      → validate_endpoint_parts disable_flag tls_endpoints parts ≡ o
      → reply_to_parts P options tls_endpoints disable_flag http_endpoints req url parts
          (error_text P options tls_endpoints disable_flag http_endpoints o)
        ≡ ok none
      → AcceptedParts req parts
  parts_of_reply req url parts none n v h =
      let (c, e) = validated disable_flag tls_endpoints parts v in
      let (host, r, g) =
        bind-eq-ok (rethrow _ (get_local_only_redirect_host tls_endpoints parts options)) _ h in
      let quiet =
        redirected-none (tls_only P options tls_endpoints disable_flag http_endpoints req parts)
          (filled host) url (ground arith) in
      record {
        config = c;
        accepted = e;
        carried =
            tls_only-plain P options tls_endpoints disable_flag http_endpoints req parts quiet.0;
        stays =
            unredirected-StaysHere disable_flag tls_endpoints parts options host e
              (rethrow-eq-ok _ _ host r) quiet.1;
      }
  parts_of_reply req url parts (some e) n v h =
      let (t, f) = message-filled P.json P.type_error_text e n in
      absurd (let g = rw f at h in ground arith)

  parts_of_prefix :
      (req : Request) (url : U) (o : Option Text)
      → P.type_error_text ≢ []
      → reply_to_prefix P options tls_endpoints disable_flag http_endpoints req url o ≡ ok none
      → o ≢ none
      → AcceptedParts req (get_sni_prefix_parts (P.hostname url) options.root_domain)
  parts_of_prefix req url none n h some_prefix = absurd (some_prefix refl)
  parts_of_prefix req url (some prefix) n h some_prefix = parts_of_reply req url _ _ n refl h

  -- The prefix of a hostname that has one.
  hostname-Prefixed :
      (req : Request) (url : U)
      → P.type_error_text ≢ []
      → check_prefix P options tls_endpoints disable_flag http_endpoints req url
          (hostname_prefix P options tls_endpoints disable_flag http_endpoints url)
        ≡ ok none
      → Prefixed options.root_domain
          (P.hostname url)
          (AcceptedParts req (get_sni_prefix_parts (P.hostname url) options.root_domain))
  unfolding check_prefix
  hostname-Prefixed req url n h = elim (prefix_cases (P.hostname url) options.root_domain) [
    | inl other ↦ inl other
    | inr (inl short) ↦ inr (inl short)
    | inr (inr (ends, (c, s, rest))) ↦
        let there : filled (hostname_prefix P options tls_endpoints disable_flag http_endpoints url)
            ≡ some (c ∷ s) =
          rw (ends, rest) refl in
        inr (inr (parts_of_prefix req url _ n h (λ e. let z = sym there ∙ e in cc)))
  ]

  -- The last steps: the endpoints are those of the path.
  run_endpoints-IsChain :
      (req : Request) (path : Text) (prefix : Option Text) (cors : List (Text × Text)) (raw : Bool)
      (entries : List (Entry (HttpEndpoint W)))
      → run_endpoints P options tls_endpoints disable_flag http_endpoints req path prefix
        ≡ ok (serve cors raw entries)
      → (text_eq req.method (codes "OPTIONS") ≡ false) × IsChain http_endpoints path prefix entries
  unfolding run_endpoints
  run_endpoints-IsChain req path prefix cors raw entries h =
      elim (Bool-cases (text_eq req.method (codes "OPTIONS"))) [
        | inl preflight ↦ absurd (let g = rw preflight at h in cc)
        | inr other ↦
            let (es, resolved, g) =
              bind-eq-ok (resolve_endpoint_chain http_endpoints path prefix) _ (rw other at h) in
            let same : es ≡ entries = ground arith in
            (
              other,
              (resolve-IsChain_iff http_endpoints path prefix entries).0 (resolved ∙ ap ok same),
            )
      ]

  after_prefix-IsChain :
      (req : Request) (url : U) (o : Option Reply) (cors : List (Text × Text)) (raw : Bool)
      (entries : List (Entry (HttpEndpoint W)))
      → after_prefix P options tls_endpoints disable_flag http_endpoints req url o
        ≡ ok (serve cors raw entries)
      → (o ≡ none)
        × (text_eq req.method (codes "OPTIONS") ≡ false)
        × IsChain http_endpoints
            (P.pathname url)
            (hostname_prefix P options tls_endpoints disable_flag http_endpoints url)
            entries
  after_prefix-IsChain req url (some r) cors raw entries h = cc
  after_prefix-IsChain req url none cors raw entries h =
      elim (Bool-cases (
        is_docs P options tls_endpoints disable_flag http_endpoints (P.pathname url)
          (hostname_prefix P options tls_endpoints disable_flag http_endpoints url))) [
            | inl docs ↦ absurd (let g = rw docs at h in cc)
            | inr other ↦
                let (method, chain) =
                  run_endpoints-IsChain req _ _ cors raw entries (rw other at h) in
                (refl, method, chain)
          ]

  answer_url-IsServed :
      (req : Request) (url : U) (cors : List (Text × Text)) (raw : Bool)
      (entries : List (Entry (HttpEndpoint W)))
      → P.type_error_text ≢ []
      → is_proxying P options tls_endpoints disable_flag http_endpoints req ≡ ok false
      → check_authority P options tls_endpoints disable_flag http_endpoints req ≡ none
      → P.parse_url_on req.url (base_url P options tls_endpoints disable_flag http_endpoints req)
        ≡ ok url
      → answer_url P options tls_endpoints disable_flag http_endpoints req url
        ≡ ok (serve cors raw entries)
      → IsServed req entries
  unfolding answer_url
  answer_url-IsServed req url cors raw entries n own directed parsed h =
      elim (Bool-cases (starts_with (P.pathname url) (codes "/.well-known/acme-challenge/"))) [
        | inl acme ↦ absurd (let g = rw acme at h in cc)
        | inr other ↦
            let (o, checked, g) =
              bind-eq-ok
                (check_prefix P options tls_endpoints disable_flag http_endpoints req url
                  (hostname_prefix P options tls_endpoints disable_flag http_endpoints url))
                _ (rw other at h) in
            let (quiet, method, chain) = after_prefix-IsChain req url o cors raw entries g in
            record {
              own =
                  is_proxying-ForThisServer P options tls_endpoints disable_flag http_endpoints req
                    own;
              directed =
                  check_authority-SameAuthority P options tls_endpoints disable_flag http_endpoints
                    req directed;
              url = url;
              parsed = parsed;
              no_challenge = other;
              parts_accepted = hostname-Prefixed req url n (checked ∙ ap ok quiet);
              no_preflight = method;
              chain = chain;
            }
      ]

  answer_own-IsServed :
      (req : Request) (proxying : Bool) (cors : List (Text × Text)) (raw : Bool)
      (entries : List (Entry (HttpEndpoint W)))
      → P.type_error_text ≢ []
      → is_proxying P options tls_endpoints disable_flag http_endpoints req ≡ ok proxying
      → (o : Option Reply)
      → check_authority P options tls_endpoints disable_flag http_endpoints req ≡ o
      → elim proxying [
        | true ↦ ok (reply (proxy_reject P options tls_endpoints disable_flag http_endpoints))
        | false ↦ answer_own P options tls_endpoints disable_flag http_endpoints req o
      ]
        ≡ ok (serve cors raw entries)
      → IsServed req entries
  answer_own-IsServed req true cors raw entries n own o c h = cc
  answer_own-IsServed req false cors raw entries n own (some r) c h = cc
  answer_own-IsServed req false cors raw entries n own none c h =
      let (url, parsed, g) = bind-eq-ok (P.parse_url_on req.url _) _ h in
      answer_url-IsServed req url cors raw entries n own c parsed g

  -- The endpoints are run only for a request for a path, or for a URL of a host that ends with
  -- the root domain. Over HTTP/2 and TLS, its `:authority` is the server name of the connection,
  -- where both are there. Where its hostname has a prefix, the parts are accepted; over plain
  -- HTTP none of them names an endpoint that needs TLS; and no certificate that only the local
  -- CA gives is hidden by a public CA: the options do not require the local CA, or they are
  -- self-signed, or `untrusted-root` is a part. The request is neither an ACME challenge nor a
  -- preflight, and the endpoints are the chain that the path and the prefix name. The text of a
  -- `TypeError` is assumed not to be empty.
  pub handle_request-IsServed :
      (req : Request) (cors : List (Text × Text)) (raw : Bool)
      (entries : List (Entry (HttpEndpoint W)))
      → P.type_error_text ≢ []
      → handle_request P options tls_endpoints disable_flag http_endpoints req
        ≡ ok (serve cors raw entries)
      → IsServed req entries
  unfolding handle_request
  handle_request-IsServed req cors raw entries n h =
      let (proxying, own, g) =
        bind-eq-ok (is_proxying P options tls_endpoints disable_flag http_endpoints req) _ h in
      answer_own-IsServed req proxying cors raw entries n own _ refl g
