-- ===== src/Tls.antt =====
-- The TLS options that the parts of a hostname configure: src/endpoints/tls-index.ts (the type of
-- an endpoint), tls-merge.ts, the endpoints of src/endpoints/tls/ and endpoint-config.ts.
pub mod Fields
pub mod Merge
pub mod Endpoints
pub mod Config
pub mod Tests
use testserver.Prelude.{ℕ, Bool, Option, List}
use testserver.Text.{Text}

-- The values of an options object; a TLS version is its name.
pub data Value : Type 0 where
  bool : Bool → Value
  num : ℕ → Value
  str : Text → Value
  strs : List Text → Value

-- An accumulator, `Record<string, unknown>`, its keys in the order of insertion. A key that is not
-- there reads as `undefined`.
abbrev pub Fields : Type 0
Fields = List (Text × Value)

-- What one endpoint declares: an object literal. `none` is a value `undefined`.
abbrev pub Contribution : Type 0
Contribution = List (Text × Option Value)

-- `TlsEndpoint`, without its documentation (`meta`). An absent method is `none`.
pub record TlsEndpoint : Type 0 where
  pub sni_part : Text
  pub plain_text_allowed : Bool
  pub configure_cert_options : Option Contribution
  pub configure_tls_options : Option Contribution
  pub configure_alpn_preferences : Option (List Text → List Text)

-- The errors that the configuration of a hostname throws.
pub data ConfigError : Type 0 where
  too_many_parts : ℕ → ConfigError
  duplicate_parts : List Text → ConfigError
  unknown_endpoint : Text → ConfigError
  conflicting : Text → Value → Value → ConfigError
  no_tls_combined : List Text → ConfigError
  type_error : ConfigError
