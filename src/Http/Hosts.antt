-- ===== src/Http/Hosts.antt =====
-- `getCombinedCertOptions` and `getLocalOnlyRedirectHost` of src/http-handler.ts.
use testserver.Prelude.{
  Bool, false, not, ◌||◌, Option, none, some, List, [], ◌∷◌, ◌++◌, Result, ok, ◌>>=◌, if◌then◌else◌,
}
use testserver.Text.{Text, codes, mem_text, join}
use testserver.Tls.{Value, str, Fields, TlsEndpoint, Contribution, ConfigError}
use testserver.Tls.Fields.{get, value_eq}
use testserver.Tls.Merge.{merge_contribution}
use testserver.Tls.Config.{find_endpoint}
use testserver.Http.{HandlerOptions, is_truthy_value}

-- `endpoint?.configureCertOptions?.()`
abbrev pub cert_contribution : Option TlsEndpoint → Option Contribution
cert_contribution none = none
cert_contribution (some e) = e.configure_cert_options

-- The loop of `getCombinedCertOptions`.
unfoldable pub combine_cert_options :
    List TlsEndpoint → List Text → Fields → Result ConfigError Fields
combine_cert_options endpoints [] options = ok options
combine_cert_options endpoints (part ∷ parts) options =
    merge_contribution options (cert_contribution (find_endpoint endpoints part)) >>= λ merged.
    combine_cert_options endpoints parts merged

abbrev pub get_combined_cert_options : List TlsEndpoint → List Text → Result ConfigError Fields
get_combined_cert_options endpoints parts = combine_cert_options endpoints parts []

-- `value === s`
abbrev pub is_text : Option Value → Text → Bool
is_text none s = false
is_text (some v) s = value_eq v (str s)

abbrev pub untrusted_root_part : Text
untrusted_root_part = codes "untrusted-root"

abbrev pub needs_redirect : List Text → Fields → Bool
needs_redirect parts options = not (
    not (is_text (get (codes "requiredType") options) (codes "local"))
    || (is_truthy_value (get (codes "selfSigned") options) || mem_text untrusted_root_part parts))

abbrev pub redirect_host : List Text → Text → Text
redirect_host parts root = join (codes "--") (parts ++ untrusted_root_part ∷ []) ++ b'.' ∷ root

-- `getLocalOnlyRedirectHost`
unfoldable pub get_local_only_redirect_host :
    List TlsEndpoint → List Text → HandlerOptions → Result ConfigError (Option Text)
get_local_only_redirect_host endpoints parts options =
    if not options.using_public_ca
    then ok none
    else get_combined_cert_options endpoints parts >>= λ certs. ok (
        if needs_redirect parts certs then some (redirect_host parts options.root_domain) else none)
