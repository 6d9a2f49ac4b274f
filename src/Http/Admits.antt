-- ===== src/Http/Admits.antt =====
-- What the checks of the request handler of src/http-handler.ts let through, in terms of the request.
use testserver.Prelude.{
  ℕ, ◌+◌, ◌-◌, ◌≤◌, ◌≡◌, ◌≢◌, refl, sym, ap, ◌∙◌, ◌⊎◌, inl, inr, true, false, ◌&&◌, Option, none,
  some, List, [], ◌∷◌, ◌++◌, ok, bind-eq-ok, Bool-cases, arith, any, All, length, length-take, take,
}
use testserver.Text.{Text, codes, text_eq, starts_with, ends_with, mem_text, join}
use testserver.Text.Laws.{text_eq_iff}
use testserver.Tls.{TlsEndpoint, Value, Fields, str}
use testserver.Tls.Fields.{get, value_eq}
use testserver.Tls.Config.{EndpointConfig, find_endpoint, get_endpoint_config, strip_root}
use testserver.Chain.{Endpoint}
use testserver.Http.{Request, Platform, HandlerOptions, is_truthy_value, strip_port}
use testserver.Http.Cors.{filled}
use testserver.Http.Hosts.{
  get_local_only_redirect_host, needs_redirect, redirect_host, is_text, untrusted_root_part,
}
use testserver.Http.Agrees.{redirect_host-agrees}
use testserver.Http.Requests.{
  HttpEndpoint, is_proxying, check_authority, mismatch, is_tls_only, tls_only,
}

-- A host with a prefix has accepted parts. There is none for a host that does not end with the root
-- domain, nor for one that has at most one character in front of it.
abbrev pub Prefixed : Text → Text → Type 0 → Type 0
Prefixed root_domain host Accepted =
    (ends_with host root_domain ≡ false) ⊎ ((length host ≤ length root_domain + 1) ⊎ Accepted)

strip_root-empty :
    (host root_domain : Text)
    → strip_root host root_domain ≡ []
    → length host ≤ length root_domain + 1
strip_root-empty host root_domain h =
    let n = length host - (length root_domain + 1) - 0 in
    let none_left : length (take n host) ≡ 0 = ap length h in
    omega (arith, none_left, length-take n host)

-- The three cases of a host.
pub prefix_cases :
    (host root_domain : Text)
    → (ends_with host root_domain ≡ false)
      ⊎ ((length host ≤ length root_domain + 1)
          ⊎ ((ends_with host root_domain ≡ true)
              × ((c : ℕ) × (s : Text) × (strip_root host root_domain ≡ c ∷ s))))
prefix_cases host root_domain = elim (Bool-cases (ends_with host root_domain)) [
  | inl y ↦ by_rest y (strip_root host root_domain) refl
  | inr n ↦ inl n
]
  where
    by_rest :
        ends_with host root_domain ≡ true
        → (rest : Text) → strip_root host root_domain ≡ rest
        → (ends_with host root_domain ≡ false)
          ⊎ ((length host ≤ length root_domain + 1)
              ⊎ ((ends_with host root_domain ≡ true)
                  × ((c : ℕ) × (s : Text) × (strip_root host root_domain ≡ c ∷ s))))
    by_rest y [] h = inr (inl (strip_root-empty host root_domain h))
    by_rest y (c ∷ s) h = inr (inr (y, (c, s, h)))

-- A part that plain HTTP may be used for: it names no endpoint, or one that allows it.
abbrev pub AllowsPlainText : List TlsEndpoint → Text → Type 0
AllowsPlainText tls_endpoints part =
    (find_endpoint tls_endpoints part ≡ none)
    ⊎ ((e : TlsEndpoint) × ((find_endpoint tls_endpoints part ≡ some e)
          × (e.plain_text_allowed ≡ true)))

-- No certificate of a public CA is used in the place of one that only the local CA gives.
abbrev pub StaysHere : HandlerOptions → List Text → Fields → Type 0
StaysHere options parts certs =
    (options.using_public_ca ≡ false)
    ⊎ ((get (codes "requiredType") certs ≢ some (str (codes "local")))
        ⊎ ((is_truthy_value (get (codes "selfSigned") certs) ≡ true)
            ⊎ (mem_text (codes "untrusted-root") parts ≡ true)))

-- Where the request came encrypted and in HTTP/2, has an `:authority` and its connection has a server
-- name, these are one host.
abbrev pub SameAuthority : (Text → Text) → Request → Type 0
SameAuthority to_lower_case req =
    ((req.encrypted && req.is_http2) ≡ false)
    ⊎ ((filled (req.header (codes ":authority")) ≡ none)
        ⊎ ((filled req.sni ≡ none)
            ⊎ ((authority : Text) × (name : Text) × ((filled (req.header (codes ":authority"))
                    ≡ some authority)
                  × ((filled req.sni ≡ some name)
                      × (to_lower_case name ≡ to_lower_case (strip_port authority)))))))

is_text-str : (o : Option Value) (t : Text) → is_text o t ≡ false → o ≢ some (str t)
unfolding value_eq
is_text-str none t h e = cc
is_text-str (some v) t h e =
    let same : v ≡ str t = ground arith in
    let yes = (text_eq_iff t t).1 refl in let g = rw same at h in ground arith

module _ {U W : Type 0} (P : Platform U) (options : HandlerOptions)
    (tls_endpoints : List TlsEndpoint) (disable_flag : Text → ℕ)
    (http_endpoints : List (Endpoint (HttpEndpoint W))) where
  -- A request for a path, or for an absolute URL of a host that ends with the root domain.
  abbrev pub ForThisServer : Request → Type 0
  ForThisServer req =
      (starts_with req.url (codes "/") ≡ true)
      ⊎ ((target : U) × ((P.parse_url req.url ≡ ok target)
            × (ends_with (P.hostname target) options.root_domain ≡ true)))

  pub is_proxying-ForThisServer :
      (req : Request)
      → is_proxying P options tls_endpoints disable_flag http_endpoints req ≡ ok false
      → ForThisServer req
  unfolding is_proxying
  is_proxying-ForThisServer req h = elim (Bool-cases (starts_with req.url (codes "/"))) [
    | inl y ↦ inl y
    | inr n ↦
        let (target, parsed, g) = bind-eq-ok (P.parse_url req.url) _ (rw n at h) in
        inr (target, (parsed, ground arith))
  ]

  mismatch-SameAuthority :
      (req : Request) (authority sni : Option Text)
      → filled (req.header (codes ":authority")) ≡ authority
      → filled req.sni ≡ sni
      → mismatch P options tls_endpoints disable_flag http_endpoints authority sni ≡ none
      → SameAuthority P.to_lower_case req
  mismatch-SameAuthority req none sni a b h = inr (inl a)
  mismatch-SameAuthority req (some authority) none a b h = inr (inr (inl b))
  mismatch-SameAuthority req (some authority) (some name) a b h =
      elim (Bool-cases (text_eq (P.to_lower_case name) (P.to_lower_case (strip_port authority)))) [
        | inl y ↦ inr (inr (inr (authority, name, (a, (b, (text_eq_iff _ _).0 y)))))
        | inr n ↦ absurd (let g = rw n at h in cc)
      ]

  pub check_authority-SameAuthority :
      (req : Request)
      → check_authority P options tls_endpoints disable_flag http_endpoints req ≡ none
      → SameAuthority P.to_lower_case req
  unfolding check_authority
  check_authority-SameAuthority req h = elim (Bool-cases (req.encrypted && req.is_http2)) [
    | inl y ↦ mismatch-SameAuthority req _ _ refl refl (rw y at h)
    | inr n ↦ inl n
  ]

  is_tls_only-AllowsPlainText :
      (part : Text) (o : Option TlsEndpoint)
      → find_endpoint tls_endpoints part ≡ o
      → is_tls_only P options tls_endpoints disable_flag http_endpoints o ≡ false
      → AllowsPlainText tls_endpoints part
  is_tls_only-AllowsPlainText part none found h = inl found
  is_tls_only-AllowsPlainText part (some e) found h = inr (e, (found, ground arith))

  any-AllowsPlainText :
      (parts : List Text)
      → any
          (λ part.
            is_tls_only P options tls_endpoints disable_flag http_endpoints
              (find_endpoint tls_endpoints part))
          parts
        ≡ false
      → All (AllowsPlainText tls_endpoints) parts
  any-AllowsPlainText [] h = tt
  any-AllowsPlainText (part ∷ parts) h = (
    is_tls_only-AllowsPlainText part _ refl (ground arith),
    any-AllowsPlainText parts (ground arith),
  )

  pub tls_only-plain :
      (req : Request) (parts : List Text)
      → tls_only P options tls_endpoints disable_flag http_endpoints req parts ≡ false
      → (req.encrypted ≡ true) ⊎ All (AllowsPlainText tls_endpoints) parts
  tls_only-plain req parts h = elim (Bool-cases req.encrypted) [
    | inl y ↦ inl y
    | inr n ↦ inr (any-AllowsPlainText parts (rw n at h))
  ]

filled-append : (s t : Text) (c : ℕ) → filled (some (s ++ c ∷ t)) ≢ none
filled-append [] t c h = cc
filled-append (a ∷ s) t c h = cc

needless-StaysHere :
    (options : HandlerOptions) (parts : List Text) (certs : Fields)
    → (options.using_public_ca && needs_redirect parts certs) ≡ false
    → StaysHere options parts certs
needless-StaysHere options parts certs n =
    elim (Bool-cases (is_text (get (codes "requiredType") certs) (codes "local"))) [
      | inr other ↦ inr (inl (is_text-str _ (codes "local") other))
      | inl local ↦ elim (Bool-cases (is_truthy_value (get (codes "selfSigned") certs))) [
        | inl signed ↦ inr (inr (inl signed))
        | inr unsigned ↦ elim (Bool-cases (mem_text (codes "untrusted-root") parts)) [
          | inl explicit ↦ inr (inr (inr explicit))
          | inr implicit ↦ inl (let g = rw (local, unsigned, implicit) at n in ground arith)
        ]
      ]
    ]

-- No host to redirect to.
pub unredirected-StaysHere :
    (disable_flag : Text → ℕ) (tls_endpoints : List TlsEndpoint) (parts : List Text)
    {c : EndpointConfig} (options : HandlerOptions) (host : Option Text)
    → get_endpoint_config disable_flag tls_endpoints parts ≡ ok c
    → get_local_only_redirect_host tls_endpoints parts options ≡ ok host
    → filled host ≡ none
    → StaysHere options parts c.cert_options
unredirected-StaysHere disable_flag tls_endpoints parts {c} options host accepted searched stays =
    let decided =
      sym searched ∙ redirect_host-agrees disable_flag tls_endpoints parts options accepted in
    elim (Bool-cases (options.using_public_ca && needs_redirect parts c.cert_options)) [
      | inl y ↦
          let same : host ≡ some (redirect_host parts options.root_domain) =
            (let g = rw y at decided in ground arith) in
          absurd (
            filled-append (join (codes "--") (parts ++ untrusted_root_part ∷ []))
              options.root_domain b'.' (sym (ap filled same) ∙ stays))
      | inr n ↦ needless-StaysHere options parts c.cert_options n
    ]
