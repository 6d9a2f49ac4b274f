-- ===== src/Server/Tests.antt =====
-- A hostname of one label, behind a root domain with a DNS server.
use testserver.Prelude.{◌≡◌, refl, true, [], ◌∷◌}
use testserver.Text.{codes}
use testserver.Tls.{str, Fields}
use testserver.Tls.Fields.{get}
use testserver.CertCache.{CachedCertificate, Certs, get_cert}
use testserver.CertCache.Keys.{calculate_cert_cache_key}
use testserver.Acme
use testserver.Server.{
  local, cached, awaited, refused, is_wildcard_coverable, generate_locally, effective_domain,
  generate_certificate,
}
use testserver.Server.Covers.{Allowed, generate_certificate-Allowed}

server_run : Unit {0}
unfolding get get_cert calculate_cert_cache_key Acme.try_get_certificate_sync is_wildcard_coverable
    generate_locally effective_domain generate_certificate
server_run = tt

abbrev acme_only : Fields
acme_only = (codes "requiredType", str (codes "acme")) ∷ []

waits_for_wildcard :
    generate_certificate (codes "t.io") true 5 [] (codes "a.t.io") acme_only
    ≡ awaited (codes "*.t.io")
unfolding server_run
waits_for_wildcard = refl

two_labels :
    generate_certificate (codes "t.io") true 5 [] (codes "b.a.t.io") []
    ≡ local (codes "b.a.t.io") true
unfolding server_run
two_labels = refl

locally : generate_locally (codes "a.t.io") acme_only ≡ refused
unfolding server_run
locally = refl

abbrev for_all : CachedCertificate
for_all = record {
  cache_key = codes "*.t.io+";
  domain = codes "*.t.io";
  key = codes "k";
  cert = codes "c";
  expiry = 9;
}

abbrev certs : Certs
certs = (codes "*.t.io+", for_all) ∷ []

from_cache_of_acme :
    generate_certificate (codes "t.io") true 5 certs (codes "a.t.io") [] ≡ cached for_all
unfolding server_run
from_cache_of_acme = refl

generate_certificate-Allowed_example :
    Allowed
      (codes "t.io")
      5
      certs
      (codes "a.t.io")
      []
      (generate_certificate (codes "t.io") true 5 certs (codes "a.t.io") [])
generate_certificate-Allowed_example =
    generate_certificate-Allowed (codes "t.io") true (codes "a.t.io") [] 5 certs
