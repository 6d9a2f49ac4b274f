-- ===== src/CertCache/Coherent.antt =====
-- Under which keys the certificates of src/tls-certificates/cert-cache.ts stand.
use testserver.Prelude.{
  ◌≡◌, refl, sym, ◌∙◌, inl, inr, Option, none, some, List, [], ◌∷◌, Result, ok, err, All,
  Bool-cases,
}
use testserver.Text.{Text, text_eq}
use testserver.Text.Laws.{text_eq_iff}
use testserver.CertCache.{
  CachedCertificate, Certs, Backend, put, forget, put_all, load_result, load_cache, cache_cert,
  clear_cache, end_fetch,
}

-- Each certificate stands under its own key.
abbrev Keyed : Text × CachedCertificate → Type 0
Keyed (k, c) = c.cache_key ≡ k

abbrev pub IsCoherent : Certs → Type 0
IsCoherent certs = All Keyed certs

put-IsCoherent :
    (key : Text) (c : CachedCertificate) (certs : Certs)
    → c.cache_key ≡ key
    → IsCoherent certs
    → IsCoherent (put key c certs)
unfolding put
put-IsCoherent key c [] e h = (e, tt)
put-IsCoherent key c ((k, old) ∷ certs) e (p, h) = elim (Bool-cases (text_eq k key)) [
  | inl y ↦ rw y (e ∙ sym ((text_eq_iff k key).0 y), h)
  | inr n ↦ rw n (p, put-IsCoherent key c certs e h)
]

forget-IsCoherent : (key : Text) (certs : Certs) → IsCoherent certs → IsCoherent (forget key certs)
unfolding forget
forget-IsCoherent key [] h = tt
forget-IsCoherent key ((k, old) ∷ certs) (p, h) = elim (Bool-cases (text_eq k key)) [
  | inl y ↦ rw y (forget-IsCoherent key certs h)
  | inr n ↦ rw n (p, forget-IsCoherent key certs h)
]

put_all-IsCoherent :
    (cs : List CachedCertificate) (certs : Certs) → IsCoherent certs → IsCoherent (put_all cs certs)
unfolding put_all
put_all-IsCoherent [] certs h = h
put_all-IsCoherent (c ∷ cs) certs h =
    put_all-IsCoherent cs (put c.cache_key c certs) (put-IsCoherent c.cache_key c certs refl h)

load_result-IsCoherent :
    (r : Result Text (List CachedCertificate)) (certs : Certs)
    → IsCoherent certs
    → IsCoherent (load_result r certs)
load_result-IsCoherent (ok cs) certs h = put_all-IsCoherent cs certs h
load_result-IsCoherent (err e) certs h = h

-- A store that returns no certificate of another key.
abbrev pub IsHonest : {S : Type 0} → Backend S → Type 0
IsHonest {S} backend =
    (key : Text) (s : S) (c : CachedCertificate)
    → backend.read key s ≡ ok (some c)
    → c.cache_key ≡ key

end_fetch-IsCoherent :
    (key : Text) (certs : Certs) (r : Result Text (Option CachedCertificate))
    → ((c : CachedCertificate) → r ≡ ok (some c) → c.cache_key ≡ key)
    → IsCoherent certs
    → IsCoherent (end_fetch key r certs).1
unfolding end_fetch
end_fetch-IsCoherent key certs (err e) f h = h
end_fetch-IsCoherent key certs (ok none) f h = h
end_fetch-IsCoherent key certs (ok (some c)) f h = put-IsCoherent key c certs (f c refl) h

module _ {S : Type 0} (backend : Backend S) where
  -- Every operation keeps each certificate under its own key, if the store returns no certificate
  -- of another key than the one it is asked for, whatever its state when it is read.
  pub operations-IsCoherent :
      (key : Text) (cert : CachedCertificate) (certs : Certs) (s read_in : S)
      → IsHonest backend
      → IsCoherent certs
      → IsCoherent (load_cache backend (certs, s)).0
        × IsCoherent (cache_cert backend cert (certs, s)).0
        × IsCoherent (clear_cache backend key (certs, s)).0
        × IsCoherent (end_fetch key (backend.read key read_in) certs).1
  unfolding load_cache cache_cert clear_cache
  operations-IsCoherent key cert certs s read_in b h = (
    load_result-IsCoherent (backend.read_all s) certs h,
    put-IsCoherent cert.cache_key cert certs refl h,
    forget-IsCoherent key certs h,
    end_fetch-IsCoherent key certs (backend.read key read_in) (λ c e. b key read_in c e) h,
  )
