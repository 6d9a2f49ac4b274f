-- ===== src/CertCache/Latest.antt =====
-- What `getCert` of src/tls-certificates/cert-cache.ts answers after any operations in any order.
use testserver.Prelude.{
  ◌≡◌, refl, sym, ap, ◌∙◌, inl, inr, Bool, true, false, Option, none, some, List, [], ◌∷◌, Result,
  ok, err, if◌then◌else◌, Bool-cases, arith,
}
use testserver.Text.{Text, text_eq}
use testserver.Text.Laws.{text_eq_iff}
use testserver.CertCache.{
  CachedCertificate, Certs, Backend, put, forget, get_cert, put_all, load_result, begin_fetch,
  end_fetch, cache_cert, clear_cache,
}

-- The parts of the operations that change the cache, between two awaits: the store answers
-- `loadCache`, a certificate is cached or cleared, or the store answers a `fetchCert`.
pub data Event : Type 0 where
  loaded : Result Text (List CachedCertificate) → Event
  cached : CachedCertificate → Event
  cleared : Text → Event
  fetched : Text → Result Text (Option CachedCertificate) → Event

-- What an event says of a key: nothing, or what the cache has for it from then on.
abbrev last_loaded : Text → List CachedCertificate → Option (Option CachedCertificate)
last_loaded key [] = none
last_loaded key (c ∷ cs) = elim (last_loaded key cs) [
  | some o ↦ some o
  | none ↦ if text_eq c.cache_key key then some (some c) else none
]

abbrev pub says : Text → Event → Option (Option CachedCertificate)
says key (loaded (err e)) = none
says key (loaded (ok cs)) = last_loaded key cs
says key (cached c) = if text_eq c.cache_key key then some (some c) else none
says key (cleared k) = if text_eq k key then some none else none
says key (fetched k (err e)) = none
says key (fetched k (ok none)) = none
says key (fetched k (ok (some c))) = if text_eq k key then some (some c) else none

-- What the latest event that says anything of a key has said. The latest event stands first.
abbrev pub or_before :
    Option (Option CachedCertificate) → Option CachedCertificate → Option CachedCertificate
or_before (some o) before = o
or_before none before = before

abbrev pub latest : Text → List Event → Option CachedCertificate
latest key [] = none
latest key (e ∷ events) = or_before (says key e) (latest key events)

module _ {S : Type 0} (backend : Backend S) where
  abbrev pub happen : Event → Certs × S → Certs × S
  happen (loaded r) (certs, s) = (load_result r certs, s)
  happen (cached c) x = cache_cert backend c x
  happen (cleared key) x = clear_cache backend key x
  happen (fetched key r) (certs, s) = ((end_fetch key r certs).1, s)

  -- The events from an empty cache.
  unfoldable pub after : List Event → S → Certs × S
  after [] s = ([], s)
  after (e ∷ events) s = happen e (after events s)

or_before-if :
    (b : Bool) (o before : Option CachedCertificate)
    → or_before (if b then some o else none) before ≡ (if b then o else before)
or_before-if true o before = refl
or_before-if false o before = refl

if-twice :
    (b : Bool) (x y z : Option CachedCertificate)
    → (if b then x else z) ≡ (if b then x else if b then y else z)
if-twice true x y z = refl
if-twice false x y z = refl

-- Two keys, of which one is a third.
text_eq-other :
    (l k key : Text) → text_eq l k ≡ false → text_eq l key ≡ true → text_eq k key ≡ false
text_eq-other l k key n y = elim (Bool-cases (text_eq k key)) [
  | inl e ↦
      let same : l ≡ k = (text_eq_iff l key).0 y ∙ sym ((text_eq_iff k key).0 e) in
      absurd (let z = (text_eq_iff l k).1 same in ground arith)
  | inr e ↦ e
]

get_cert-put :
    (k key : Text) (c : CachedCertificate) (certs : Certs)
    → get_cert key (put k c certs) ≡ (if text_eq k key then some c else get_cert key certs)
unfolding get_cert put
get_cert-put k key c [] = refl
get_cert-put k key c ((l, old) ∷ certs) = elim (Bool-cases (text_eq l k)) [
  | inl y ↦
      let same : l ≡ k = (text_eq_iff l k).0 y in
      rw (y, same) (if-twice (text_eq k key) (some c) (some old) (get_cert key certs))
  | inr n ↦ elim (Bool-cases (text_eq l key)) [
    | inl y ↦ rw (n, y, text_eq-other l k key n y) refl
    | inr m ↦ rw (n, m) (get_cert-put k key c certs)
  ]
]

get_cert-forget :
    (k key : Text) (certs : Certs)
    → get_cert key (forget k certs) ≡ (if text_eq k key then none else get_cert key certs)
unfolding get_cert forget
get_cert-forget k key [] = elim (Bool-cases (text_eq k key)) [
  | inl e ↦ rw e refl
  | inr e ↦ rw e refl
]
get_cert-forget k key ((l, old) ∷ certs) = elim (Bool-cases (text_eq l k)) [
  | inl y ↦
      let same : l ≡ k = (text_eq_iff l k).0 y in
      rw (y, same)
        (get_cert-forget k key certs
          ∙ if-twice (text_eq k key) none (some old) (get_cert key certs))
  | inr n ↦ elim (Bool-cases (text_eq l key)) [
    | inl y ↦ rw (n, y, text_eq-other l k key n y) refl
    | inr m ↦ rw (n, m) (get_cert-forget k key certs)
  ]
]

or_before-or_before :
    (o : Option (Option CachedCertificate)) (b : Bool) (c : CachedCertificate)
    (before : Option CachedCertificate)
    → or_before o (if b then some c else before)
      ≡ or_before (elim o [ some p ↦ some p | none ↦ if b then some (some c) else none ]) before
or_before-or_before (some p) b c before = refl
or_before-or_before none true c before = refl
or_before-or_before none false c before = refl

get_cert-put_all :
    (key : Text) (cs : List CachedCertificate) (certs : Certs)
    → get_cert key (put_all cs certs) ≡ or_before (last_loaded key cs) (get_cert key certs)
unfolding put_all
get_cert-put_all key [] certs = refl
get_cert-put_all key (c ∷ cs) certs =
    get_cert-put_all key cs (put c.cache_key c certs)
    ∙ ap (or_before (last_loaded key cs)) (get_cert-put c.cache_key key c certs)
    ∙ or_before-or_before (last_loaded key cs) (text_eq c.cache_key key) c (get_cert key certs)

module _ {S : Type 0} (backend : Backend S) where
  happen-says :
      (key : Text) (e : Event) (x : Certs × S)
      → get_cert key (happen backend e x).0 ≡ or_before (says key e) (get_cert key x.0)
  unfolding cache_cert clear_cache end_fetch
  happen-says key (loaded (err e)) (certs, s) = refl
  happen-says key (loaded (ok cs)) (certs, s) = get_cert-put_all key cs certs
  happen-says key (cached c) (certs, s) =
      get_cert-put c.cache_key key c certs ∙ sym (or_before-if _ (some c) (get_cert key certs))
  happen-says key (cleared k) (certs, s) =
      get_cert-forget k key certs ∙ sym (or_before-if _ none (get_cert key certs))
  happen-says key (fetched k (err e)) (certs, s) = refl
  happen-says key (fetched k (ok none)) (certs, s) = refl
  happen-says key (fetched k (ok (some c))) (certs, s) =
      get_cert-put k key c certs ∙ sym (or_before-if _ (some c) (get_cert key certs))

  -- After any operations in any order, also while others wait for the store, and whatever the store
  -- answers to `loadCache` and `fetchCert`: `getCert`, and a `fetchCert` that does not wait, answer
  -- what the latest operation that put a certificate under the key or cleared it left there, or
  -- nothing if there was none.
  pub get_cert-latest :
      (events : List Event) (s : S) (key : Text)
      → (get_cert key (after backend events s).0 ≡ latest key events)
        × (begin_fetch key (after backend events s).0 ≡ latest key events)
  unfolding after begin_fetch
  get_cert-latest events s key = (answered events, answered events)
    where
      answered : (events : List Event) → get_cert key (after backend events s).0 ≡ latest key events
      answered [] = unfold get_cert in refl
      answered (e ∷ events) =
          happen-says key e (after backend events s) ∙ ap (or_before (says key e)) (answered events)
