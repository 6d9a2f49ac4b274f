-- ===== src/Server.antt =====
-- src/server.ts: which certificate `generateCertificate` gives for a hostname, with and without ACME.
-- The local CA, ACME and the start of the server are left out: what is asked of them is the `Made`.
pub mod Covers
pub mod Tests
use testserver.Prelude.{
  ℕ, ◌+◌, ◌-◌, Bool, true, false, ◌&&◌, not, Option, none, some, ◌∷◌, ◌++◌, if◌then◌else◌, length,
}
use testserver.Text.{Text, codes, text_eq, ends_with, slice, includes}
use testserver.Tls.{bool, num, str, strs, Value, Fields}
use testserver.Tls.Fields.{get}
use testserver.Http.{is_truthy_value}
use testserver.CertCache.{CachedCertificate, Certs, get_cert}
use testserver.CertCache.Keys.{calculate_cert_cache_key}
use testserver.Acme

-- What is given: a certificate of the local CA for a domain, temporary or not; one of the ACME cache;
-- one that ACME is waited for with; or an error.
pub data Made : Type 0 where
  local : Text → Bool → Made
  cached : CachedCertificate → Made
  awaited : Text → Made
  refused : Made

-- `isWildcardCoverable`
unfoldable pub is_wildcard_coverable : Text → Text → Bool
is_wildcard_coverable domain root_domain =
    if ends_with domain (codes "." ++ root_domain)
    then not (includes (slice domain 0 (length domain - (length root_domain + 1))) (codes "."))
    else false

abbrev pub is_text : Text → Option Value → Bool
is_text t none = false
is_text t (some (bool b)) = false
is_text t (some (num n)) = false
is_text t (some (str s)) = text_eq s t
is_text t (some (strs ss)) = false

-- `requiredType === 'local'`, and so on
abbrev pub requires : Text → Fields → Bool
requires type options = is_text type (get (codes "requiredType") options)

-- Without ACME.
unfoldable pub generate_locally : Text → Fields → Made
generate_locally domain options =
    if requires (codes "acme") options then refused else local domain false

unfoldable pub effective_domain : Text → Bool → Text → Fields → Text
effective_domain root_domain has_dns domain options =
    if has_dns
      && (is_wildcard_coverable domain root_domain
          && not (is_truthy_value (get (codes "overridePrefix") options)))
    then codes "*." ++ root_domain
    else domain

abbrev pub wanted : Text → Fields → Acme.Wanted
wanted domain options = record {
  domain = domain;
  cache_key = calculate_cert_cache_key domain options;
  expired = is_truthy_value (get (codes "expired") options);
  revoked = is_truthy_value (get (codes "revoked") options);
}

-- Behind `tryGetCertificateSync`.
abbrev pub fall_back : Text → Text → Fields → Option CachedCertificate → Made
fall_back domain effective options (some c) = cached c
fall_back domain effective options none =
    if requires (codes "acme") options then awaited effective else local domain true

-- With ACME.
unfoldable pub generate_certificate : Text → Bool → ℕ → Certs → Text → Fields → Made
generate_certificate root_domain has_dns now certs domain options =
    let effective = effective_domain root_domain has_dns domain options in
    let w = wanted effective options in
    if requires (codes "local") options
    then local domain false
    else fall_back domain effective options
        (Acme.try_get_certificate_sync now w (get_cert w.cache_key certs)).0
