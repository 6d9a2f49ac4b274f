-- ===== src/TlsHandler/Tests.antt =====
-- Connections by their server names.
use mathlib.Core.List.{Memᴰ}
use testserver.Prelude.{ℕ, ◌≡◌, ◌↔◌, refl, true, false, some, [], ◌∷◌}
use testserver.Text.{Text, codes, split, split_dashes}
use testserver.Text.Number.{to_decimal}
use testserver.Tls.{Fields, unknown_endpoint}
use testserver.Tls.Fields.{get, set, delete, value_eq}
use testserver.Tls.Merge.{
  field_combiner, merge_value, merge_field, merge_fields, merge_contribution, number_of,
  disable_missing, translate_versions, set_minimum, resolve_enabled_versions, strip_from,
  strip_seclevel, resolve_security_level,
}
use testserver.Tls.Endpoints.{tls_endpoints}
use testserver.Tls.Config.{
  get_sni_prefix_parts, merge_endpoint, merge_parts, finish_config, get_endpoint_config,
}
use testserver.Tls.Config.Table.{client_cert_part, no_tls_part}
use testserver.CertCache.Keys.{calculate_cert_cache_key}
use testserver.TlsHandler.{
  Setup, refused, failed, set_up, domain_of, calculate_context_cache_key, handle_connection,
}
use testserver.TlsHandler.Decides.{handle_connection-client_cert, handle_connection-refused}

tls_run : Unit {0}
unfolding get set delete value_eq field_combiner merge_value merge_field merge_fields
    merge_contribution number_of disable_missing translate_versions set_minimum
    resolve_enabled_versions strip_from strip_seclevel resolve_security_level tls_endpoints
    merge_endpoint merge_parts finish_config get_endpoint_config to_decimal get_sni_prefix_parts
    split split_dashes calculate_cert_cache_key calculate_context_cache_key handle_connection
tls_run = tt

abbrev no_flags : Text → ℕ
no_flags version = 0

abbrev json : Fields → Text
json options = codes "{}"

abbrev root : Text
root = codes "t.host"

abbrev setup : Setup
setup = record {
  cert_domain = codes "example.t.host";
  cache_key = codes "example.t.host+override=example|client-cert";
  leaf_only = false;
  request_client_cert = true;
  alpn_protocols = codes "h2" ∷ [];
  endpoint_label = codes "wrong-host--client-cert--http2";
}

three_parts :
    handle_connection json no_flags tls_endpoints root
      (some (codes "wrong-host--client-cert--http2.t.host"))
    ≡ set_up setup
unfolding tls_run
three_parts = refl

unknown_part :
    handle_connection json no_flags tls_endpoints root (some (codes "what.t.host"))
    ≡ failed (unknown_endpoint (codes "what"))
unfolding tls_run
unknown_part = refl

no_tls_refused :
    handle_connection json no_flags tls_endpoints root (some (codes "no-tls.t.host")) ≡ refused
unfolding tls_run
no_tls_refused = refl

handle_connection-client_cert_example :
    (setup.request_client_cert ≡ true)
    ↔ Memᴰ client_cert_part (
        get_sni_prefix_parts
          (domain_of (some (codes "wrong-host--client-cert--http2.t.host")) root)
          root)
handle_connection-client_cert_example =
    handle_connection-client_cert json no_flags root
      (some (codes "wrong-host--client-cert--http2.t.host")) setup three_parts

handle_connection-refused_example :
    get_sni_prefix_parts (domain_of (some (codes "no-tls.t.host")) root) root ≡ no_tls_part ∷ []
handle_connection-refused_example =
    handle_connection-refused json no_flags root (some (codes "no-tls.t.host")) no_tls_refused
