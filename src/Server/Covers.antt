-- ===== src/Server/Covers.antt =====
-- For which names src/server.ts gives a certificate.
use testserver.Prelude.{
  ℕ, ◌+◌, ◌-◌, ◌≤◌, ◌≡◌, refl, sym, ap, subst, ◌∙◌, ◌⊎◌, inl, inr, Bool, true, false, ◌&&◌, not,
  Option, none, some, ◌++◌, if◌then◌else◌, length, take, drop, take-append-drop, leb, leb→le,
  Bool-cases, arith,
}
use testserver.Text.{Text, codes, ends_with, slice, includes}
use testserver.Text.Laws.{text_eq_iff}
use testserver.Tls.{Fields}
use testserver.Tls.Fields.{get}
use testserver.Http.{is_truthy_value}
use testserver.CertCache.{CachedCertificate, Certs, get_cert}
use testserver.CertCache.Keys.{calculate_cert_cache_key}
use testserver.Acme
use testserver.Server.{
  local, cached, awaited, refused, Made, is_wildcard_coverable, requires, effective_domain, wanted,
  fall_back, generate_certificate,
}

-- A certificate for the name is one for the domain: by the name, or by a wildcard for one label.
abbrev pub Covers : Text → Text → Text → Type 0
Covers root_domain name domain =
    (name ≡ domain)
    ⊎ ((name ≡ codes "*." ++ root_domain)
        × ((label : Text) × ((domain ≡ label ++ (codes "." ++ root_domain))
              × (includes label (codes ".") ≡ false))))

-- What may be given to a connection for the domain that has the options.
abbrev pub Allowed : Text → ℕ → Certs → Text → Fields → Made → Type 0
Allowed root_domain now certs domain options (local name temporary) =
    (name ≡ domain)
    × (if temporary
        then requires (codes "acme") options ≡ false
        else requires (codes "local") options ≡ true)
Allowed root_domain now certs domain options (cached c) =
    (requires (codes "local") options ≡ false)
    × ((is_truthy_value (get (codes "expired") options) ≡ false ⊎ (c.expiry ≤ now))
        × ((name : Text) × (Covers root_domain name domain
              × (get_cert (calculate_cert_cache_key name options) certs ≡ some c))))
Allowed root_domain now certs domain options (awaited name) =
    (requires (codes "acme") options ≡ true) × Covers root_domain name domain
Allowed root_domain now certs domain options refused = ⊥

ends_with-split : (s p : Text) → ends_with s p ≡ true → s ≡ take (length s - length p) s ++ p
ends_with-split s p h =
    let same : drop (length s - length p) s ≡ p = (text_eq_iff _ p).0 (ground arith) in
    sym (take-append-drop (length s - length p) s) ∙ ap (◌++◌ (take (length s - length p) s)) same

module _ (root_domain : Text) (has_dns : Bool) (domain : Text) (options : Fields) where
  covered_label :
      is_wildcard_coverable domain root_domain ≡ true
      → (label : Text) × ((domain ≡ label ++ (codes "." ++ root_domain))
          × (includes label (codes ".") ≡ false))
  unfolding is_wildcard_coverable
  covered_label h =
      let ends : ends_with domain (codes "." ++ root_domain) ≡ true = ground arith in
      let cut : length domain - length (codes "." ++ root_domain)
          ≡ length domain - (length root_domain + 1) - 0 =
        omega arith in
      (
        slice domain 0 (length domain - (length root_domain + 1)),
        (
          ends_with-split domain (codes "." ++ root_domain) ends
              ∙ ap (λ n. take n domain ++ (codes "." ++ root_domain)) cut,
          ground arith,
        ),
      )

  effective_domain-Covers :
      Covers root_domain (effective_domain root_domain has_dns domain options) domain
  unfolding effective_domain
  effective_domain-Covers =
      elim (Bool-cases (
        has_dns
        && (is_wildcard_coverable domain root_domain
            && not (is_truthy_value (get (codes "overridePrefix") options))))) [
              | inl y ↦ rw y (inr (refl, covered_label (ground arith)))
              | inr n ↦ rw n (inl refl)
            ]

  none_given : {c : CachedCertificate} → ◌≡◌ {A = Option CachedCertificate} none (some c) → ⊥
  none_given h = ground arith

  valid_at :
      (expired : Bool) (c : CachedCertificate) (now : ℕ)
      → (expired && not (leb c.expiry now)) ≡ false
      → expired ≡ false ⊎ (c.expiry ≤ now)
  valid_at true c now h = inr (leb→le c.expiry now (ground arith))
  valid_at false c now h = inl refl

  served_from :
      (now : ℕ) (w : Acme.Wanted) (o : Option CachedCertificate) (c : CachedCertificate)
      → (Acme.try_get_certificate_sync now w o).0 ≡ some c
      → (o ≡ some c) × (w.expired ≡ false ⊎ (c.expiry ≤ now))
  unfolding Acme.try_get_certificate_sync
  served_from now w none c h = absurd (ground arith)
  served_from now w (some d) c h = elim (Bool-cases (w.expired && not (leb d.expiry now))) [
    | inl y ↦ absurd (none_given (rw y at h))
    | inr n ↦
        let same : ◌≡◌ {A = Option CachedCertificate} (some d) (some c) = rw n at h in
        let equal : d ≡ c = ground arith in
        (
          same,
          subst (λ (e : CachedCertificate). w.expired ≡ false ⊎ (e.expiry ≤ now)) equal
              (valid_at w.expired d now n),
        )
  ]

  fall_back-Allowed :
      (now : ℕ) (certs : Certs) (effective : Text) (o : Option CachedCertificate)
      → requires (codes "local") options ≡ false
      → Covers root_domain effective domain
      → ((c : CachedCertificate)
          → o ≡ some c
          → (is_truthy_value (get (codes "expired") options) ≡ false ⊎ (c.expiry ≤ now))
            × (get_cert (calculate_cert_cache_key effective options) certs ≡ some c))
      → Allowed root_domain now certs domain options (fall_back domain effective options o)
  fall_back-Allowed now certs effective (some c) other covers k =
      let (valid, found) = k c refl in (other, (valid, (effective, (covers, found))))
  fall_back-Allowed now certs effective none other covers k =
      elim (Bool-cases (requires (codes "acme") options)) [
        | inl y ↦ rw y (y, covers)
        | inr n ↦ rw n (refl, n)
      ]

  -- With ACME, a certificate of the local CA is one for the hostname itself: a temporary one
  -- only if the options do not require ACME, and any other only if they require the local CA. A
  -- certificate from the cache of ACME, or awaited of it, is for the hostname, or for the
  -- wildcard of the root domain where the hostname is one label in front of it. From the cache
  -- it is the one kept for that name and the options, the options do not require the local CA,
  -- and it has expired if they ask for that; it is awaited only if ACME is required.
  pub generate_certificate-Allowed :
      (now : ℕ) (certs : Certs)
      → Allowed root_domain now certs domain options
          (generate_certificate root_domain has_dns now certs domain options)
  unfolding generate_certificate
  generate_certificate-Allowed now certs =
      let effective = effective_domain root_domain has_dns domain options in
      elim (Bool-cases (requires (codes "local") options)) [
        | inl y ↦ rw y (refl, y)
        | inr n ↦ rw n (
            fall_back-Allowed now certs effective _ n effective_domain-Covers (λ c h.
              let (found, valid) = served_from now (wanted effective options) _ c h in
              (valid, found)))
      ]
