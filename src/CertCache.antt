-- ===== src/CertCache.antt =====
-- src/tls-certificates/cert-cache.ts: the cache of issued certificates over a store that is shared
-- with other servers. `CertStoreBackend` is a record of functions on the store's state `S`; a write
-- or a deletion that fails leaves that state as it is. Keys are those of `calculateCertCacheKey`,
-- which hold a `+`, so that none is the name of a property that every object has.
pub mod Keys
pub mod Coherent
pub mod Latest
pub mod Tests
use testserver.Prelude.{ℕ, Option, none, some, List, [], ◌∷◌, Result, ok, err, if◌then◌else◌}
use testserver.Text.{Text, text_eq}

-- `CachedCertificate`
pub record CachedCertificate : Type 0 where
  pub cache_key : Text
  pub domain : Text
  pub key : Text
  pub cert : Text
  pub expiry : ℕ

abbrev pub Certs : Type 0
Certs = List (Text × CachedCertificate)

-- `CertStoreBackend`, but for `writeIfAbsent`, which the cache does not call
pub record Backend (S : Type 0) : Type 0 where
  pub read_all : S → Result Text (List CachedCertificate)
  pub read : Text → S → Result Text (Option CachedCertificate)
  pub write : CachedCertificate → S → S
  pub delete_from : Text → S → S

unfoldable pub put : Text → CachedCertificate → Certs → Certs
put key cert [] = (key, cert) ∷ []
put key cert ((k, old) ∷ certs) =
    let rest = put key cert certs in if text_eq k key then (k, cert) ∷ certs else (k, old) ∷ rest

unfoldable pub forget : Text → Certs → Certs
forget key [] = []
forget key ((k, old) ∷ certs) =
    let rest = forget key certs in if text_eq k key then rest else (k, old) ∷ rest

-- `getCert`
unfoldable pub get_cert : Text → Certs → Option CachedCertificate
get_cert key [] = none
get_cert key ((k, cert) ∷ certs) = if text_eq k key then some cert else get_cert key certs

unfoldable pub put_all : List CachedCertificate → Certs → Certs
put_all [] certs = certs
put_all (c ∷ cs) certs = put_all cs (put c.cache_key c certs)

abbrev pub load_result : Result Text (List CachedCertificate) → Certs → Certs
load_result (err e) certs = certs
load_result (ok cs) certs = put_all cs certs

-- `fetchCert`, up to its `await`: a certificate that is here is the answer; with `none` the store is
-- read.
unfoldable pub begin_fetch : Text → Certs → Option CachedCertificate
begin_fetch key certs = get_cert key certs

-- `fetchCert` behind its `await`, with what the store has given: its result or the error of the
-- store, and the cache.
unfoldable pub end_fetch :
    Text
    → Result Text (Option CachedCertificate)
    → Certs
    → Result Text (Option CachedCertificate) × Certs
end_fetch key (err e) certs = (err e, certs)
end_fetch key (ok none) certs = (ok none, certs)
end_fetch key (ok (some c)) certs = (ok (some c), put key c certs)

module _ {S : Type 0} (backend : Backend S) where
  -- `loadCache`, which the server awaits before it uses the cache: an outage of the store leaves the
  -- cache as it is.
  unfoldable pub load_cache : Certs × S → Certs × S
  load_cache (certs, s) = (load_result (backend.read_all s) certs, s)

  -- `cacheCert`
  unfoldable pub cache_cert : CachedCertificate → Certs × S → Certs × S
  cache_cert cert (certs, s) = (put cert.cache_key cert certs, backend.write cert s)

  -- `clearCache`
  unfoldable pub clear_cache : Text → Certs × S → Certs × S
  clear_cache key (certs, s) = (forget key certs, backend.delete_from key s)
