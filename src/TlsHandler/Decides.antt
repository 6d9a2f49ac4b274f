-- ===== src/TlsHandler/Decides.antt =====
-- The decision on a connection, by the parts of its server name.
use mathlib.Core.List.{Memᴰ}
use testserver.Prelude.{
  ℕ, ◌≡◌, refl, sym, ap, inl, inr, ◌↔◌, true, Option, List, [], ◌∷◌, Result, ok, err, Bool-cases,
  arith,
}
use testserver.Text.{Text}
use testserver.Tls.{Fields, ConfigError}
use testserver.Tls.Endpoints.{tls_endpoints}
use testserver.Tls.Config.{EndpointConfig, get_sni_prefix_parts}
use testserver.Tls.Config.Table.{
  client_cert_part, no_tls_part, require_client_cert_iff, reject_tls_iff,
}
use testserver.TlsHandler.{Setup, refused, set_up, domain_of, setup_of, decide, handle_connection}

module _ (json_sorted : Fields → Text) (disable_flag : Text → ℕ) (domain root : Text)
    (parts : List Text) where
  decided_setup :
      (r : Result ConfigError EndpointConfig) (s : Setup)
      → decide json_sorted domain root parts r ≡ set_up s
      → (c : EndpointConfig) × (r ≡ ok c) × (s.request_client_cert ≡ c.require_client_cert)
  decided_setup (err e) s h = cc
  decided_setup (ok c) s h = elim (Bool-cases c.reject_tls) [
    | inl yes_it ↦ absurd (let g = rw yes_it at h in cc)
    | inr not_so ↦
        let g = rw not_so at h in
        let same : setup_of json_sorted domain root parts c ≡ s = ground arith in
        (c, refl, ap (λ (x : Setup). x.request_client_cert) (sym same))
  ]

  decided_refused :
      (r : Result ConfigError EndpointConfig)
      → decide json_sorted domain root parts r ≡ refused
      → (c : EndpointConfig) × (r ≡ ok c) × (c.reject_tls ≡ true)
  decided_refused (err e) h = cc
  decided_refused (ok c) h = elim (Bool-cases c.reject_tls) [
    | inl yes_it ↦ (c, refl, yes_it)
    | inr not_so ↦ absurd (let g = rw not_so at h in cc)
  ]

module _ (json_sorted : Fields → Text) (disable_flag : Text → ℕ) (root : Text)
    (server_name : Option Text) where
  abbrev parts_of_name : List Text
  parts_of_name = get_sni_prefix_parts (domain_of server_name root) root

  -- A connection that is set up asks for a client certificate exactly when `client-cert` is among the
  -- parts of its server name.
  pub handle_connection-client_cert :
      (s : Setup)
      → handle_connection json_sorted disable_flag tls_endpoints root server_name ≡ set_up s
      → (s.request_client_cert ≡ true)
        ↔ Memᴰ client_cert_part (get_sni_prefix_parts (domain_of server_name root) root)
  unfolding handle_connection
  handle_connection-client_cert s h =
      let (c, accepted, same) =
        decided_setup json_sorted disable_flag (domain_of server_name root) root parts_of_name _ s
          h in
      rw same (require_client_cert_iff disable_flag parts_of_name accepted)

  -- A connection that is refused without an error has the one part `no-tls`.
  pub handle_connection-refused :
      handle_connection json_sorted disable_flag tls_endpoints root server_name ≡ refused
      → get_sni_prefix_parts (domain_of server_name root) root ≡ no_tls_part ∷ []
  unfolding handle_connection
  handle_connection-refused h =
      let (c, accepted, rejects) =
        decided_refused json_sorted disable_flag (domain_of server_name root) root parts_of_name _
          h in
      (reject_tls_iff disable_flag parts_of_name accepted).0 rejects
