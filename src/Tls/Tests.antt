-- ===== src/Tls/Tests.antt =====
-- The configuration of hostnames on concrete parts.
use mathlib.Core.List.{Memᴰ}
use testserver.Prelude.{ℕ, ◌≡◌, refl, ◌↔◌, true, false, some, List, [], ◌∷◌, ok, err}
use testserver.Text.{Text, codes, split, split_dashes}
use testserver.Text.Number.{to_decimal}
use testserver.Tls.{bool, str, duplicate_parts, no_tls_combined}
use testserver.Tls.Fields.{get, set, delete, value_eq}
use testserver.Tls.Merge.{
  field_combiner, merge_value, merge_field, merge_fields, merge_contribution, number_of,
  disable_missing, translate_versions, set_minimum, resolve_enabled_versions, strip_from,
  strip_seclevel, resolve_security_level,
}
use testserver.Tls.Endpoints.{tls_endpoints}
use testserver.Tls.Config.{
  get_sni_prefix_parts, merge_endpoint, merge_parts, EndpointConfig, finish_config,
  get_endpoint_config,
}
use testserver.Tls.Config.Declares.{Declared, get_endpoint_config-Declared}
use testserver.Tls.Config.Clean.{LacksMarkers, endpoints_fit, get_endpoint_config-LacksMarkers}
use testserver.Tls.Config.Table.{
  client_cert_part, no_tls_part, require_client_cert_iff, reject_tls_iff,
}
use testserver.Tls.Merge.Typed.{option_fits, contribution_fits, fits}

config_run : Unit {0}
unfolding get set delete value_eq field_combiner merge_value merge_field merge_fields
    merge_contribution number_of disable_missing translate_versions set_minimum
    resolve_enabled_versions strip_from strip_seclevel resolve_security_level tls_endpoints
    merge_endpoint merge_parts finish_config get_endpoint_config to_decimal get_sni_prefix_parts
    split split_dashes
config_run = tt

abbrev no_flags : Text → ℕ
no_flags version = 0

abbrev parts : List Text
parts = codes "expired" ∷ client_cert_part ∷ codes "sha1-sig" ∷ []

abbrev config : EndpointConfig
config = record {
  cert_options =
      (codes "expired", bool true)
      ∷ (codes "requiredType", str (codes "local"))
      ∷ (codes "sha1Signature", bool true)
      ∷ [];
  tls_options = (codes "ciphers", str (codes "DEFAULT@SECLEVEL=0")) ∷ [];
  alpn_preferences = [];
  reject_tls = false;
  require_client_cert = true;
}

configures : get_endpoint_config no_flags tls_endpoints parts ≡ ok config
unfolding config_run
configures = refl

dashes :
    get_sni_prefix_parts (codes "expired--http2.testserver.host") (codes "testserver.host")
    ≡ codes "expired" ∷ codes "http2" ∷ []
unfolding config_run
dashes = refl

dots :
    get_sni_prefix_parts (codes "expired.http2.testserver.host") (codes "testserver.host")
    ≡ codes "expired" ∷ codes "http2" ∷ []
unfolding config_run
dots = refl

repeats :
    get_endpoint_config no_flags tls_endpoints (codes "http2" ∷ codes "http2" ∷ [])
    ≡ err (duplicate_parts (codes "http2" ∷ codes "http2" ∷ []))
unfolding config_run
repeats = refl

combined :
    get_endpoint_config no_flags tls_endpoints (codes "http2" ∷ no_tls_part ∷ [])
    ≡ err (no_tls_combined (codes "http2" ∷ no_tls_part ∷ []))
unfolding config_run
combined = refl

get_endpoint_config-Declared_example :
    (get (codes "expired") config.cert_options ≡ some (bool true))
    ↔ Declared tls_endpoints true (codes "expired") (bool true) parts
get_endpoint_config-Declared_example =
    get_endpoint_config-Declared no_flags tls_endpoints parts (codes "expired") (bool true)
      (unfold field_combiner in refl) configures

table_fits : endpoints_fit tls_endpoints ≡ true
unfolding endpoints_fit option_fits contribution_fits fits tls_endpoints
table_fits = refl

get_endpoint_config-LacksMarkers_example : LacksMarkers config.tls_options
get_endpoint_config-LacksMarkers_example =
    get_endpoint_config-LacksMarkers no_flags tls_endpoints parts table_fits configures

require_client_cert_iff_example : (config.require_client_cert ≡ true) ↔ Memᴰ client_cert_part parts
require_client_cert_iff_example = require_client_cert_iff no_flags parts configures

reject_tls_iff_example : (config.reject_tls ≡ true) ↔ (parts ≡ no_tls_part ∷ [])
reject_tls_iff_example = reject_tls_iff no_flags parts configures
