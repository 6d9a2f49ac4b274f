-- ===== src/Tls/Config/Validated.antt =====
-- What `validateEndpointParts` of src/endpoints/endpoint-config.ts says of a configuration.
use testserver.Prelude.{ℕ, ◌≡◌, ◌≢◌, refl, none, some, List, [], ◌∷◌, Result, ok, err, arith}
use testserver.Text.{Text}
use testserver.Tls.{
  TlsEndpoint, ConfigError, too_many_parts, duplicate_parts, unknown_endpoint, conflicting,
  no_tls_combined, type_error,
}
use testserver.Tls.Config.{EndpointConfig, get_endpoint_config, validate_endpoint_parts, message}
use testserver.Http.Cors.{filled}

-- The text of an error is never empty, if that of a `TypeError` is not.
pub message-filled :
    (json : _ → Text) (type_text : Text) (e : ConfigError)
    → type_text ≢ []
    → (t : Text) × (filled (some (message json type_text e)) ≡ some t)
unfolding message
message-filled json type_text (too_many_parts n) h = (_, refl)
message-filled json type_text (duplicate_parts parts) h = (_, refl)
message-filled json type_text (unknown_endpoint part) h = (_, refl)
message-filled json type_text (conflicting key a b) h = (_, refl)
message-filled json type_text (no_tls_combined parts) h = (_, refl)
message-filled json [] type_error h = absurd (h refl)
message-filled json (c ∷ s) type_error h = (_, refl)

validated_of :
    (r : Result ConfigError EndpointConfig)
    → elim r [ ok c ↦ none | err e ↦ some e ] ≡ none
    → (c : EndpointConfig) × (r ≡ ok c)
validated_of (ok c) h = (c, refl)
validated_of (err e) h = absurd (ground arith)

-- Parts without an error have a configuration.
pub validated :
    (disable_flag : Text → ℕ) (tls_endpoints : List TlsEndpoint) (parts : List Text)
    → validate_endpoint_parts disable_flag tls_endpoints parts ≡ none
    → (c : EndpointConfig) × (get_endpoint_config disable_flag tls_endpoints parts ≡ ok c)
unfolding validate_endpoint_parts
validated disable_flag tls_endpoints parts h =
    validated_of (get_endpoint_config disable_flag tls_endpoints parts) h
