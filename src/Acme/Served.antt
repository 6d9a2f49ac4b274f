-- ===== src/Acme/Served.antt =====
-- Which certificates src/tls-certificates/acme.ts serves from the cache.
use testserver.Prelude.{
  ℕ, ◌+◌, ◌≤◌, ◌<◌, ◌≡◌, refl, ap, subst, ◌⊎◌, inl, inr, Bool, true, false, Option, none, some,
  Result, ok, err, if◌then◌else◌, leb, leb→le, not, ◌&&◌, arith,
}
use testserver.Text.{Text}
use testserver.Text.Laws.{text_eq_iff}
use testserver.CertCache.{CachedCertificate, Backend}
use testserver.Acme

-- An expired certificate is served to those who ask for one; any other is not expired, and if it
-- soon expires, its renewal is pending.
abbrev pub ServedFrom : {S : Type 0} → ℕ → Acme.Wanted → CachedCertificate → Acme.Acme S → Type 0
ServedFrom now w c s =
    ((c.expiry ≤ now) × (w.expired ≡ true))
    ⊎ ((now < c.expiry)
        × ((w.expired ≡ true)
            ⊎ ((now + Acme.proactive_refresh_time ≤ c.expiry)
                ⊎ ((p : ℕ) × (s.pending w.cache_key ≡ some p)))))

if-cases :
    {A : Type 0} (b : Bool) (x y z : A)
    → (if b then x else y) ≡ z
    → ((b ≡ true) × (x ≡ z)) ⊎ ((b ≡ false) × (y ≡ z))
if-cases true x y z h = inl (refl, h)
if-cases false x y z h = inr (refl, h)

module _ {S : Type 0} (w : Acme.Wanted) where
  begin_pending : (s : Acme.Acme S) → (Acme.begin w s).pending w.cache_key ≡ some s.next
  unfolding Acme.begin
  begin_pending s = rw ((text_eq_iff w.cache_key w.cache_key).1 refl) refl

  refresh_pending :
      (s : Acme.Acme S) (o : Option ℕ)
      → s.pending w.cache_key ≡ o
      → (p : ℕ) × ((Acme.refresh w o s).pending w.cache_key ≡ some p)
  unfolding Acme.refresh
  refresh_pending s (some p) h = (p, h)
  refresh_pending s none h = (s.next, begin_pending s)

  same_certificate :
      (c d : CachedCertificate) (s t : Acme.Acme S)
      → ◌≡◌ {A = Acme.Acme S × Acme.Answer} (s, Acme.from_cache c) (t, Acme.from_cache d)
      → (c ≡ d) × (s ≡ t)
  same_certificate c d s t h =
      let answers : Acme.from_cache c ≡ Acme.from_cache d =
        ap (λ (r : Acme.Acme S × Acme.Answer). r.1) h in
      (ground arith, ap (λ (r : Acme.Acme S × Acme.Answer). r.0) h)

  -- A promise is not a certificate.
  share_or_begin-not_served :
      (o : Option ℕ) (s t : Acme.Acme S) (c : CachedCertificate)
      → Acme.share_or_begin w o s ≡ (t, Acme.from_cache c)
      → ⊥
  unfolding Acme.share_or_begin
  share_or_begin-not_served none s t c h =
      let answers : Acme.promised s.next ≡ Acme.from_cache c =
        ap (λ (r : Acme.Acme S × Acme.Answer). r.1) h in
      ground arith
  share_or_begin-not_served (some p) s t c h =
      let answers : Acme.promised p ≡ Acme.from_cache c =
        ap (λ (r : Acme.Acme S × Acme.Answer). r.1) h in
      ground arith

far_off_at :
    (asked : Bool) (c : CachedCertificate) (now : ℕ)
    → (not asked && Acme.is_near_expiry c now) ≡ false
    → (asked ≡ true) ⊎ (now + Acme.proactive_refresh_time ≤ c.expiry)
far_off_at true c now h = inl refl
far_off_at false c now h = inr (ground arith)

weaken : {A B C : Type 0} → A ⊎ B → A ⊎ (B ⊎ C)
weaken (inl a) = inl a
weaken (inr b) = inr (inl b)

module _ {S : Type 0} (backend : Backend S) (now : ℕ) (w : Acme.Wanted) where
  use_cached-ServedFrom :
      (c d : CachedCertificate) (s t : Acme.Acme S)
      → Acme.use_cached backend now w c s ≡ (t, Acme.from_cache d)
      → (c ≡ d) × ServedFrom now w c t
  unfolding Acme.use_cached
  use_cached-ServedFrom c d s t h = elim (if-cases (leb c.expiry now) _ _ _ h) [
    | inl (past, k) ↦ elim (if-cases w.expired _ _ _ k) [
      | inl (asked, same) ↦
          ((same_certificate w c d s t same).0, inl (leb→le c.expiry now past, asked))
      | inr (not_asked, other) ↦ absurd (ground arith)
    ]
    | inr (ahead, k) ↦
        let not_yet : now < c.expiry = ground arith in
        elim (if-cases (not w.expired && Acme.is_near_expiry c now) _ _ _ k) [
          | inl (near, same) ↦
              let (equal, state) = same_certificate w c d _ t same in
              let (p, renewing) = refresh_pending w s (s.pending w.cache_key) refl in
              (
                equal,
                inr (
                  not_yet,
                  inr (inr (p, subst (λ u. u.pending w.cache_key ≡ some p) state renewing)),
                ),
              )
          | inr (at_distance, same) ↦ (
            (same_certificate w c d s t same).0,
            inr (not_yet, weaken (far_off_at w.expired c now at_distance)),
          )
        ]
  ]

  -- A certificate that `getCertificate` serves from the cache is the one that was fetched. It has
  -- not expired, or the caller asked for an expired one; and if it expires within the refresh time,
  -- the caller asked for an expired one, or a renewal is pending for its key.
  pub resume-ServedFrom :
      (fetched : Result Text (Option CachedCertificate)) (c : CachedCertificate) (s t : Acme.Acme S)
      → Acme.resume backend now w fetched s ≡ (t, Acme.from_cache c)
      → (fetched ≡ ok (some c)) × ServedFrom now w c t
  unfolding Acme.resume
  resume-ServedFrom (err e) c s t h = absurd (ground arith)
  resume-ServedFrom (ok none) c s t h =
      absurd (share_or_begin-not_served w (s.pending w.cache_key) s t c h)
  resume-ServedFrom (ok (some d)) c s t h =
      let (same, served) = use_cached-ServedFrom d c s t h in
      (ap (λ x. ok (some x)) same, subst (λ x. ServedFrom now w x t) same served)
