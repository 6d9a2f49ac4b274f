-- ===== src/Http/Agrees.antt =====
-- The HTTP handler and the TLS configuration agree on the certificate options of a hostname.
use testserver.Prelude.{
  ℕ, ◌≡◌, refl, sym, ap, ◌∙◌, true, none, some, List, [], ◌∷◌, ok, bind-eq-ok, if◌then◌else◌, ◌&&◌,
  Bool-cases, inl, inr, arith,
}
use testserver.Text.{Text}
use testserver.Tls.{TlsEndpoint}
use testserver.Tls.Config.{
  Merged, EndpointConfig, find_endpoint, merge_endpoint, merge_parts, get_endpoint_config,
  nothing_merged,
}
use testserver.Tls.Config.Declares.{endpoint_merged, configured, finish-cert_options}
use testserver.Http.{HandlerOptions}
use testserver.Http.Hosts.{
  combine_cert_options, get_combined_cert_options, get_local_only_redirect_host, needs_redirect,
  redirect_host,
}

combine-merge_parts :
    (endpoints : List TlsEndpoint) (parts : List Text) (m : Merged) {m' : Merged}
    → merge_parts endpoints parts m ≡ ok m'
    → combine_cert_options endpoints parts m.cert_options ≡ ok m'.cert_options
unfolding merge_parts combine_cert_options
combine-merge_parts endpoints [] m h = ground arith
combine-merge_parts endpoints (part ∷ parts) m h =
    let (mid, first, rest) =
      bind-eq-ok (merge_endpoint part (find_endpoint endpoints part) m) _ h in
    let (e, found, both) = endpoint_merged part _ m first in
    rw (found, both true) (combine-merge_parts endpoints parts mid rest)

module _ (disable_flag : Text → ℕ) (endpoints : List TlsEndpoint) (parts : List Text)
    {c : EndpointConfig} where
  combined-same :
      get_endpoint_config disable_flag endpoints parts ≡ ok c
      → get_combined_cert_options endpoints parts ≡ ok c.cert_options
  combined-same h =
      let s = configured disable_flag endpoints parts h in
      combine-merge_parts endpoints parts nothing_merged s.merging
      ∙ ap ok (sym (finish-cert_options disable_flag endpoints parts s.merged s.finishing))

  -- For a hostname that the TLS configuration accepts, the search for a host to redirect to does not
  -- throw, and decides by the very certificate options of that configuration.
  pub redirect_host-agrees :
      (options : HandlerOptions)
      → get_endpoint_config disable_flag endpoints parts ≡ ok c
      → get_local_only_redirect_host endpoints parts options
        ≡ ok (
            if options.using_public_ca && needs_redirect parts c.cert_options
            then some (redirect_host parts options.root_domain)
            else none)
  unfolding get_local_only_redirect_host
  redirect_host-agrees options h = elim (Bool-cases options.using_public_ca) [
    | inl on ↦ rw (on, combined-same h) refl
    | inr off ↦ rw off refl
  ]
