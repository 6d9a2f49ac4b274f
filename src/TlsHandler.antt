-- ===== src/TlsHandler.antt =====
-- src/tls-handler.ts: how `handleConnection` sets a TLS connection up, from the server name of the
-- client hello. The certificate, the secure context and the socket are made by others: what they are
-- made from is the `Setup`. `JSON.stringify` of the options with sorted keys is a parameter.
pub mod Decides
pub mod Tests
use testserver.Prelude.{
  ℕ, ltb, Bool, true, false, Option, none, some, List, [], ◌∷◌, ◌++◌, Result, ok, err,
  if◌then◌else◌, length,
}
use testserver.Text.{Text, codes, join}
use testserver.Tls.{Value, Fields, TlsEndpoint, ConfigError}
use testserver.Tls.Fields.{get}
use testserver.Tls.Config.{EndpointConfig, get_endpoint_config, get_sni_prefix_parts}
use testserver.CertCache.Keys.{calculate_cert_cache_key, show_value}
use testserver.Http.{is_truthy_value}

-- What the connection is set up with.
pub record Setup : Type 0 where
  pub cert_domain : Text
  pub cache_key : Text
  pub leaf_only : Bool
  pub request_client_cert : Bool
  pub alpn_protocols : List Text
  pub endpoint_label : Text

-- The connection is destroyed as `no-tls` wants it, or for an error, or it is set up.
pub data Decision : Type 0 where
  refused : Decision
  failed : ConfigError → Decision
  set_up : Setup → Decision

abbrev pub default_alpn_protocols : List Text
default_alpn_protocols = codes "http/1.1" ∷ codes "h2" ∷ []

-- `serverName || rootDomain`
abbrev pub domain_of : Option Text → Text → Text
domain_of none root = root
domain_of (some []) root = root
domain_of (some (c ∷ s)) root = c ∷ s

abbrev pub or_default : List Text → List Text
or_default [] = default_alpn_protocols
or_default (p ∷ ps) = p ∷ ps

abbrev pub label_of : List Text → Text
label_of [] = codes "default"
label_of (p ∷ ps) = join (codes "--") (p ∷ ps)

module _ (json_sorted : Fields → Text) where
  abbrev tls_key : Fields → Text
  tls_key [] = []
  tls_key (f ∷ fs) = codes "|" ++ json_sorted (f ∷ fs)

  -- `calculateContextCacheKey`
  unfoldable pub calculate_context_cache_key : Text → Fields → Fields → Text
  calculate_context_cache_key domain cert_options tls_options =
      calculate_cert_cache_key domain cert_options
      ++ ((if is_truthy_value (get (codes "incompleteChain") cert_options)
            then codes "|incomplete-chain"
            else [])
          ++ tls_key tls_options)

  abbrev pub cert_domain_of : Text → Text → Fields → Text
  cert_domain_of domain root cert_options =
      if is_truthy_value (get (codes "overridePrefix") cert_options)
      then show_value (get (codes "overridePrefix") cert_options) ++ b'.' ∷ root
      else domain

  abbrev pub setup_of : Text → Text → List Text → EndpointConfig → Setup
  setup_of domain root parts c = record {
    cert_domain = cert_domain_of domain root c.cert_options;
    cache_key =
        calculate_context_cache_key (cert_domain_of domain root c.cert_options) c.cert_options
          c.tls_options
        ++ (if c.require_client_cert then codes "|client-cert" else []);
    leaf_only = is_truthy_value (get (codes "incompleteChain") c.cert_options);
    request_client_cert = c.require_client_cert;
    alpn_protocols = or_default c.alpn_preferences;
    endpoint_label = label_of parts;
  }

  abbrev pub decide : Text → Text → List Text → Result ConfigError EndpointConfig → Decision
  decide domain root parts (err e) = failed e
  decide domain root parts (ok c) =
      if c.reject_tls then refused else set_up (setup_of domain root parts c)

  -- `handleConnection`, by the server name
  unfoldable pub handle_connection : (Text → ℕ) → List TlsEndpoint → Text → Option Text → Decision
  handle_connection disable_flag endpoints root server_name =
      let domain = domain_of server_name root in
      let parts = get_sni_prefix_parts domain root in
      decide domain root parts (get_endpoint_config disable_flag endpoints parts)
