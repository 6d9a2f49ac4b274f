-- ===== src/CertCache/Tests.antt =====
-- One store and two certificates.
use testserver.Prelude.{◌≡◌, refl, arith, true, false, none, some, List, [], ◌∷◌, ok, err}
use testserver.Text.{Text, codes}
use testserver.Text.Number.{to_decimal}
use testserver.Tls.{bool, num, str, Fields}
use testserver.Tls.Fields.{get}
use testserver.CertCache.{
  CachedCertificate, Certs, Backend, put, forget, get_cert, put_all, load_cache, cache_cert,
  clear_cache, begin_fetch, end_fetch,
}
use testserver.CertCache.Keys.{calculate_cert_cache_key}
use testserver.CertCache.Coherent.{IsCoherent, IsHonest, operations-IsCoherent}
use testserver.CertCache.Latest
use testserver.CertCache.Latest.{fetched, loaded, Event, after, get_cert-latest}

cert_run : Unit {0}
unfolding get to_decimal put forget get_cert put_all load_cache cache_cert clear_cache begin_fetch
    end_fetch calculate_cert_cache_key
cert_run = tt

abbrev certificate : Text → CachedCertificate
certificate key = record {
  cache_key = key;
  domain = codes "d";
  key = codes "k";
  cert = codes "c";
  expiry = 9;
}

-- A store that has a certificate for every key.
abbrev generous : Backend (List Text)
generous = record {
  read_all = λ s. err (codes "down");
  read = λ key s. ok (some (certificate key));
  write = λ c s. c.cache_key ∷ s;
  delete_from = λ key s. s;
}

outage : load_cache generous ([], []) ≡ ([], [])
unfolding cert_run
outage = refl

cleared :
    clear_cache generous (codes "a+") (cache_cert generous (certificate (codes "a+")) ([], []))
    ≡ ([], codes "a+" ∷ [])
unfolding cert_run
cleared = refl

-- `wrong-host` and `wrong-host--untrusted-root` have one key.
abbrev wrong_host_options : Fields
wrong_host_options = (codes "overridePrefix", str (codes "example")) ∷ []

abbrev untrusted_options : Fields
untrusted_options =
    (codes "overridePrefix", str (codes "example"))
    ∷ (codes "requiredType", str (codes "local"))
    ∷ (codes "selfSigned", bool false)
    ∷ []

one_key :
    calculate_cert_cache_key (codes "example.test") wrong_host_options
    ≡ calculate_cert_cache_key (codes "example.test") untrusted_options
unfolding cert_run
one_key = refl

key_of_options :
    calculate_cert_cache_key (codes "a.test") (
      (codes "keyBits", num 1024)
      ∷ (codes "revoked", bool true)
      ∷ (codes "expired", bool true)
      ∷ [])
    ≡ codes "a.test+expired+revoked+keyBits=1024"
unfolding cert_run
key_of_options = refl

-- The store is asked while there is no certificate, and one is cached before it answers.
abbrev raced : List Event
raced =
    fetched (codes "b+") (ok none)
    ∷ Latest.cached (certificate (codes "b+"))
    ∷ Latest.cleared (codes "a+")
    ∷ loaded (generous.read_all [])
    ∷ []

get_cert-latest_example :
    (get_cert (codes "b+") (after generous raced []).0 ≡ some (certificate (codes "b+")))
    × (begin_fetch (codes "b+") (after generous raced []).0 ≡ some (certificate (codes "b+")))
get_cert-latest_example = get_cert-latest generous raced [] (codes "b+")

stored_elsewhere :
    end_fetch (codes "b+") (generous.read (codes "b+") []) []
    ≡ (ok (some (certificate (codes "b+"))), (codes "b+", certificate (codes "b+")) ∷ [])
unfolding cert_run
stored_elsewhere = refl

generous-IsHonest : IsHonest generous
generous-IsHonest key s c h = let same : certificate key ≡ c = ground arith in rw⁻¹ same refl

abbrev one_cert : Certs
one_cert = (codes "a+", certificate (codes "a+")) ∷ []

operations-IsCoherent_example :
    IsCoherent (load_cache generous (one_cert, [])).0
    × IsCoherent (cache_cert generous (certificate (codes "b+")) (one_cert, [])).0
    × IsCoherent (clear_cache generous (codes "a+") (one_cert, [])).0
    × IsCoherent (end_fetch (codes "a+") (generous.read (codes "a+") []) one_cert).1
operations-IsCoherent_example =
    operations-IsCoherent generous (codes "a+") (certificate (codes "b+")) one_cert [] []
      generous-IsHonest (refl, tt)
