-- ===== src/Http/Settles.antt =====
-- The host that a request is redirected to is not redirected again.
use mathlib.Core.List.{append_assoc}
use testserver.Prelude.{
  ℕ, ◌≡◌, ◌≢◌, refl, subst, ap, ◌∙◌, inl, inr, Bool, true, false, not, ◌&&◌, ◌||◌, some, List, [],
  ◌∷◌, ◌++◌, ok, bind-eq-ok, Bool-cases, All, All-append, all, find_first-holds, find_first-All,
  arith,
}
use testserver.Text.{Text, codes, mem_text, join, ends_with, includes, split_dashes}
use testserver.Text.Laws.{text_eq_iff}
use testserver.Text.Dashes.{
  IsPlain, has_plain_dashes, split_dashes-join, includes-dashes, ends_with-append, slice-append,
}
use testserver.Tls.{TlsEndpoint}
use testserver.Tls.Fields.{get, value_eq}
use testserver.Tls.Endpoints
use testserver.Tls.Endpoints.{tls_endpoints}
use testserver.Tls.Config.{
  Merged, EndpointConfig, find_endpoint, merge_endpoint, merge_parts, get_endpoint_config,
  nothing_merged, get_sni_prefix_parts, split_prefix,
}
use testserver.Tls.Config.Declares.{endpoint_merged, configured}
use testserver.Http.{HandlerOptions}
use testserver.Http.Hosts.{
  combine_cert_options, get_combined_cert_options, get_local_only_redirect_host, needs_redirect,
  redirect_host, untrusted_root_part,
}
use testserver.Http.Agrees.{redirect_host-agrees}

abbrev PlainName : TlsEndpoint → Type 0
PlainName e = IsPlain e.sni_part

-- No name in the table has two dashes in a row or one at the end.
names_plain : all (λ (e : TlsEndpoint). has_plain_dashes e.sni_part) tls_endpoints ≡ true
unfolding Endpoints.cbc Endpoints.client_cert Endpoints.dh1024 Endpoints.dh2048 Endpoints.example
    Endpoints.expired Endpoints.http1 Endpoints.http2 Endpoints.incomplete_chain
    Endpoints.no_common_name Endpoints.no_tls Endpoints.null_cipher Endpoints.revoked
    Endpoints.rsa1024 Endpoints.rsa2048 Endpoints.rsa4096 Endpoints.rsa512 Endpoints.rsa8192
    Endpoints.self_signed Endpoints.sha1_sig Endpoints.static_rsa Endpoints.tls_v1
    Endpoints.tls_v1_1 Endpoints.tls_v1_2 Endpoints.tls_v1_3 Endpoints.untrusted_root
    Endpoints.wrong_host Endpoints.tls_endpoints
names_plain = refl

all-PlainName :
    (es : List TlsEndpoint)
    → all (λ (e : TlsEndpoint). has_plain_dashes e.sni_part) es ≡ true
    → All PlainName es
all-PlainName [] h = tt
all-PlainName (e ∷ es) h = (ground arith, all-PlainName es (ground arith))

found-IsPlain :
    (endpoints : List TlsEndpoint) (part : Text) (e : TlsEndpoint)
    → All PlainName endpoints
    → find_endpoint endpoints part ≡ some e
    → IsPlain part
found-IsPlain endpoints part e a h =
    subst IsPlain ((text_eq_iff e.sni_part part).0 (find_first-holds _ endpoints e h))
      (find_first-All PlainName _ endpoints e h a)

merged-IsPlain :
    (endpoints : List TlsEndpoint) (parts : List Text) (m : Merged) {m' : Merged}
    → All PlainName endpoints
    → merge_parts endpoints parts m ≡ ok m'
    → All IsPlain parts
unfolding merge_parts
merged-IsPlain endpoints [] m a h = tt
merged-IsPlain endpoints (part ∷ parts) m a h =
    let (mid, first, rest) =
      bind-eq-ok (merge_endpoint part (find_endpoint endpoints part) m) _ h in
    let (e, found, both) = endpoint_merged part _ m first in
    (found-IsPlain endpoints part e a found, merged-IsPlain endpoints parts mid a rest)

-- The prefix of several joined parts is split at the dashes.
split_prefix-dashes :
    (s : Text) → s ≢ [] → includes s (codes "--") ≡ true → split_prefix s ≡ split_dashes s
split_prefix-dashes [] n h = absurd (n refl)
split_prefix-dashes (c ∷ s) n h = rw h refl

join-cons :
    (p q : Text) (ps : List Text)
    → (join (codes "--") (p ∷ (q ∷ ps)) ≢ [])
      × (includes (join (codes "--") (p ∷ (q ∷ ps))) (codes "--") ≡ true)
join-cons [] q ps = ((λ e. cc), includes-dashes [] (join (codes "--") (q ∷ ps)))
join-cons (a ∷ p) q ps = ((λ e. cc), includes-dashes (a ∷ p) (join (codes "--") (q ∷ ps)))

parts-of_host :
    (p q : Text) (ps : List Text) (root : Text)
    → All IsPlain (p ∷ (q ∷ ps))
    → get_sni_prefix_parts (join (codes "--") (p ∷ (q ∷ ps)) ++ b'.' ∷ root) root ≡ p ∷ (q ∷ ps)
unfolding get_sni_prefix_parts
parts-of_host p q ps root h =
    let name = join (codes "--") (p ∷ (q ∷ ps)) in
    let dot : ends_with (name ++ b'.' ∷ root) root ≡ true =
      subst (λ t. ends_with t root ≡ true) (append_assoc name (b'.' ∷ []) root)
        (ends_with-append (name ++ b'.' ∷ []) root) in
    rw (dot, slice-append name root b'.')
      (split_prefix-dashes name (join-cons p q ps).0 (join-cons p q ps).1
        ∙ split_dashes-join (p ∷ (q ∷ ps)) (λ e. cc) h)

mem_text-last : (s : Text) (ts : List Text) → mem_text s (ts ++ s ∷ []) ≡ true
mem_text-last s [] = rw ((text_eq_iff s s).1 refl) refl
mem_text-last s (t ∷ ts) = ground (arith, mem_text-last s ts)

never : (a b : Bool) → not (a || (b || true)) ≡ false
never true b = refl
never false true = refl
never false false = refl

settled :
    (parts : List Text) (options : HandlerOptions) (host : Text)
    → get_local_only_redirect_host tls_endpoints (parts ++ untrusted_root_part ∷ []) options
      ≢ ok (some host)
unfolding get_local_only_redirect_host
settled parts options host h = elim (Bool-cases options.using_public_ca) [
  | inr off ↦ let g = rw off at h in ground arith
  | inl on ↦
      let (certs, found, g) =
        bind-eq-ok (get_combined_cert_options tls_endpoints (parts ++ untrusted_root_part ∷ [])) _
          (rw on at h) in
      let no : needs_redirect (parts ++ untrusted_root_part ∷ []) certs ≡ false =
        rw (mem_text-last untrusted_root_part parts) (never _ _) in
      let g' = rw no at g in ground arith
]

-- Parts that ask for a redirect are some parts at least.
no_parts :
    (options : HandlerOptions) (host : Text)
    → get_local_only_redirect_host tls_endpoints [] options ≢ ok (some host)
unfolding get_local_only_redirect_host combine_cert_options get value_eq
no_parts options host h = elim (Bool-cases options.using_public_ca) [
  | inr off ↦ let g = rw off at h in ground arith
  | inl on ↦ let g = rw on at h in ground arith
]

host_parts :
    (root : Text) (parts : List Text)
    → All IsPlain parts
    → parts ≢ []
    → get_sni_prefix_parts (redirect_host parts root) root ≡ parts ++ untrusted_root_part ∷ []
host_parts root [] a n = absurd (n refl)
host_parts root (p ∷ []) a n = parts-of_host p untrusted_root_part [] root (a.0, (refl, tt))
host_parts root (p ∷ (q ∷ ps)) a n =
    parts-of_host p q (ps ++ untrusted_root_part ∷ []) root
      (All-append IsPlain (p ∷ (q ∷ ps)) (untrusted_root_part ∷ []) a (refl, tt))

module _ (disable_flag : Text → ℕ) (options : HandlerOptions) (host : Text)
    {c : EndpointConfig} where
  redirected_to :
      (parts : List Text)
      → get_endpoint_config disable_flag tls_endpoints parts ≡ ok c
      → get_local_only_redirect_host tls_endpoints parts options ≡ ok (some host)
      → host ≡ redirect_host parts options.root_domain
  redirected_to parts v h =
      elim (Bool-cases (options.using_public_ca && needs_redirect parts c.cert_options)) [
        | inl on ↦
            let a = redirect_host-agrees disable_flag tls_endpoints parts options v in
            let g = rw on at a in ground arith
        | inr off ↦
            let a = redirect_host-agrees disable_flag tls_endpoints parts options v in
            let g = rw off at a in ground arith
      ]

  -- Where the parts of an accepted hostname are redirected to a host, the parts of that host are the
  -- same parts and `untrusted-root` behind them, and these are not redirected again.
  pub redirect_host_settles :
      (parts : List Text)
      → get_endpoint_config disable_flag tls_endpoints parts ≡ ok c
      → get_local_only_redirect_host tls_endpoints parts options ≡ ok (some host)
      → (get_sni_prefix_parts host options.root_domain ≡ parts ++ untrusted_root_part ∷ [])
        × ((next : Text)
            → get_local_only_redirect_host tls_endpoints
                (get_sni_prefix_parts host options.root_domain)
                options
              ≢ ok (some next))
  redirect_host_settles parts v h =
      let s = configured disable_flag tls_endpoints parts v in
      let plain =
        merged-IsPlain tls_endpoints parts nothing_merged (all-PlainName tls_endpoints names_plain)
          s.merging in
      let some_parts : parts ≢ [] = λ e. no_parts options host (rw e at h) in
      let e =
        ap (λ t. get_sni_prefix_parts t options.root_domain) (redirected_to parts v h)
        ∙ host_parts options.root_domain parts plain some_parts in
      (e, λ next g. settled parts options next (rw e at g))
