-- ===== src/Tls/Config.antt =====
-- src/endpoints/endpoint-config.ts. The table of the endpoints is a parameter of the loop, and the
-- source's table is `tls_endpoints`.
pub mod Declares
pub mod Validated
pub mod Table
pub mod Options
pub mod Clean
use testserver.Prelude.{
  ℕ, ◌+◌, Bool, true, false, ◌&&◌, ◌||◌, Option, none, some, List, [], ◌∷◌, ◌++◌, Result, ok, err,
  ◌>>=◌, leb, ltb, if◌then◌else◌, find_first, length, ◌-◌,
}
use testserver.Text.{
  Text, codes, text_eq, ends_with, slice, includes, split, split_dashes, mem_text, join,
}
use testserver.Text.Number.{to_decimal}
use testserver.Tls.{
  Value, bool, Fields, TlsEndpoint, ConfigError, too_many_parts, duplicate_parts, unknown_endpoint,
  conflicting, no_tls_combined, type_error,
}
use testserver.Tls.Fields.{get, delete}
use testserver.Tls.Merge.{merge_contribution, resolve_enabled_versions, resolve_security_level}

abbrev pub max_sni_parts : ℕ
max_sni_parts = 4

-- `servername.slice(0, -rootDomain.length - 1)`: a start of the text, empty where it is too short
abbrev pub strip_root : Text → Text → Text
strip_root servername root = slice servername 0 (length servername - (length root + 1))

abbrev pub split_prefix : Text → List Text
split_prefix [] = []
split_prefix (c ∷ s) =
    if includes (c ∷ s) (codes "--") then split_dashes (c ∷ s) else split b'.' (c ∷ s)

-- `getSNIPrefixParts`
unfoldable pub get_sni_prefix_parts : Text → Text → List Text
get_sni_prefix_parts servername root =
    split_prefix (if ends_with servername root then strip_root servername root else servername)

-- `new Set(parts).size !== parts.length`
abbrev pub has_duplicates : List Text → Bool
has_duplicates [] = false
has_duplicates (p ∷ ps) = mem_text p ps || has_duplicates ps

-- What the loop over the parts accumulates.
pub record Merged : Type 0 where
  pub cert_options : Fields
  pub tls_options : Fields
  pub alpn_preferences : List Text

abbrev pub nothing_merged : Merged
nothing_merged = record { cert_options = []; tls_options = []; alpn_preferences = [] }

abbrev pub find_endpoint : List TlsEndpoint → Text → Option TlsEndpoint
find_endpoint endpoints part = find_first (λ (e : TlsEndpoint). text_eq e.sni_part part) endpoints

-- `endpoint.configureAlpnPreferences?.(alpnPreferences) ?? alpnPreferences`
abbrev pub prefer : Option (List Text → List Text) → List Text → List Text
prefer none preferences = preferences
prefer (some f) preferences = f preferences

unfoldable pub merge_endpoint : Text → Option TlsEndpoint → Merged → Result ConfigError Merged
merge_endpoint part none m = err (unknown_endpoint part)
merge_endpoint part (some e) m =
    merge_contribution m.cert_options e.configure_cert_options >>= λ certs.
    merge_contribution m.tls_options e.configure_tls_options >>= λ tls. ok (record {
      cert_options = certs;
      tls_options = tls;
      alpn_preferences = prefer e.configure_alpn_preferences m.alpn_preferences;
    })

unfoldable pub merge_parts : List TlsEndpoint → List Text → Merged → Result ConfigError Merged
merge_parts endpoints [] m = ok m
merge_parts endpoints (part ∷ parts) m =
    merge_endpoint part (find_endpoint endpoints part) m >>= λ m'. merge_parts endpoints parts m'

pub record EndpointConfig : Type 0 where
  pub cert_options : Fields
  pub tls_options : Fields
  pub alpn_preferences : List Text
  pub reject_tls : Bool
  pub require_client_cert : Bool

-- `value === true`
abbrev pub is_true : Option Value → Bool
is_true (some (bool true)) = true
is_true _ = false

-- The text of an error; `JSON.stringify` is a parameter, and the text of a `TypeError` too.
unfoldable pub message : (Value → Text) → Text → ConfigError → Text
message json type_text (too_many_parts n) =
    codes "Too many endpoint parts ("
    ++ (to_decimal n ++ (codes ", max " ++ (to_decimal max_sni_parts ++ codes ")")))
message json type_text (duplicate_parts parts) =
    codes "Duplicate endpoint parts in '" ++ (join (codes "--") parts ++ codes "'")
message json type_text (unknown_endpoint part) = codes "Unknown endpoint '" ++ (part ++ codes "'")
message json type_text (conflicting key a b) =
    codes "Conflicting endpoint options: '"
    ++ (key ++ (codes "' is set to both " ++ (json a ++ (codes " and " ++ json b))))
message json type_text (no_tls_combined parts) =
    codes "'no-tls' can't be combined with other endpoints in '"
    ++ (join (codes "--") parts ++ codes "'")
message json type_text type_error = type_text

module _ (disable_flag : Text → ℕ) where
  -- What follows the loop.
  unfoldable pub finish_config : List Text → Merged → Result ConfigError EndpointConfig
  finish_config parts m =
      let tls = resolve_security_level (resolve_enabled_versions disable_flag m.tls_options) in
      let reject_tls = is_true (get (codes "rejectTls") tls) in
      let tls₁ = delete (codes "rejectTls") tls in
      let require_client_cert = is_true (get (codes "requireClientCert") tls₁) in
      let tls₂ = delete (codes "requireClientCert") tls₁ in
      if reject_tls && ltb 1 (length parts)
      then err (no_tls_combined parts)
      else ok (record {
        cert_options = m.cert_options;
        tls_options = tls₂;
        alpn_preferences = m.alpn_preferences;
        reject_tls = reject_tls;
        require_client_cert = require_client_cert;
      })

  -- `getEndpointConfig`
  unfoldable pub get_endpoint_config :
      List TlsEndpoint → List Text → Result ConfigError EndpointConfig
  get_endpoint_config endpoints parts =
      if ltb max_sni_parts (length parts)
      then err (too_many_parts (length parts))
      else if has_duplicates parts
      then err (duplicate_parts parts)
      else merge_parts endpoints parts nothing_merged >>= finish_config parts

  -- `validateEndpointParts`: the error of `getEndpointConfig`, if it throws one
  unfoldable pub validate_endpoint_parts : List TlsEndpoint → List Text → Option ConfigError
  validate_endpoint_parts endpoints parts = elim (get_endpoint_config endpoints parts) [
    | ok c ↦ none
    | err e ↦ some e
  ]
