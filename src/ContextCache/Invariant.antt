-- ===== src/ContextCache/Invariant.antt =====
-- What every interleaving keeps: the size, and what the entries are.
use mathlib.Core.List.{Memᴰ}
use testserver.Prelude.{
  ℕ, zero, suc, ◌≤◌, ◌<◌, ◌≡◌, refl, sym, subst, inl, inr, Option, none, some, List, [], ◌∷◌, ◌++◌,
  ltb, length, All, arith, Bool-cases,
}
use testserver.Text.{Text, text_eq}
use testserver.Text.Laws.{text_eq_iff}
use testserver.ContextCache.{
  CacheEntry, Created, Cache, max_expiry, get, delete, set, look_up, found, delete_oldest, evict,
  store, set_evicted,
}
use testserver.ContextCache.Run.{Pending, Creation, State, begin, Run, start, call, answer}

module _ {ℓ} {C : Type ℓ} where
  -- Lengths.
  pub delete-length : (key : Text) (m : Cache C) → length (delete key m) ≤ length m
  unfolding delete
  delete-length key [] = omega arith
  delete-length key ((k, e) ∷ m) = ground (arith, delete-length key m)

  pub found_delete-length :
      (key : Text) (m : Cache C) (e : CacheEntry C)
      → get key m ≡ some e
      → length (delete key m) < length m
  unfolding delete get
  found_delete-length key [] e h = absurd (ground arith)
  found_delete-length key ((k, e₁) ∷ m) e h = elim (Bool-cases (text_eq k key)) [
    | inl y ↦ rw y (omega (arith, delete-length key m))
    | inr n ↦ rw n (omega (arith, found_delete-length key m e (rw n at h)))
  ]

  set-length : (key : Text) (e : CacheEntry C) (m : Cache C) → length (set key e m) ≤ suc (length m)
  unfolding set
  set-length key e [] = omega arith
  set-length key e ((k, e₁) ∷ m) = ground (arith, set-length key e m)

  -- A predicate on every entry.
  module _ {κ} (P : Text × CacheEntry C → Type κ) where
    delete-All : (key : Text) (m : Cache C) → All P m → All P (delete key m)
    unfolding delete
    delete-All key [] h = tt
    delete-All key ((k, e) ∷ m) (p, h) = elim (Bool-cases (text_eq k key)) [
      | inl y ↦ rw y (delete-All key m h)
      | inr n ↦ rw n (p, delete-All key m h)
    ]

    set-All :
        (key : Text) (e : CacheEntry C) (m : Cache C) → P (key, e) → All P m → All P (set key e m)
    unfolding set
    set-All key e [] q h = (q, tt)
    set-All key e ((k, e₁) ∷ m) q (p, h) = elim (Bool-cases (text_eq k key)) [
      | inl y ↦ rw y (subst (λ x. P (x, e)) (sym ((text_eq_iff k key).0 y)) q, h)
      | inr n ↦ rw n (p, set-All key e m q h)
    ]

    pub get-All :
        (key : Text) (e : CacheEntry C) (m : Cache C) → get key m ≡ some e → All P m → P (key, e)
    unfolding get
    get-All key e [] g h = absurd (ground arith)
    get-All key e ((k, e₁) ∷ m) g (p, h) = elim (Bool-cases (text_eq k key)) [
      | inl y ↦
          let same : e₁ ≡ e = (let g' = rw y at g in ground arith) in
          subst (λ x. P (key, x)) same (subst (λ x. P (x, e₁)) ((text_eq_iff k key).0 y) p)
      | inr n ↦ get-All key e m (rw n at g) h
    ]

    pub delete_oldest-All : (m : Cache C) → All P m → All P (delete_oldest m)
    unfolding delete_oldest
    delete_oldest-All [] h = tt
    delete_oldest-All (([], e) ∷ m) h = h
    delete_oldest-All ((c ∷ k, e) ∷ m) h = delete-All (c ∷ k) ((c ∷ k, e) ∷ m) h

    evict-All :
        (max_size rounds : ℕ) (m m' : Cache C)
        → evict max_size rounds m ≡ some m'
        → All P m
        → All P m' × (length m' < max_size)
    unfolding evict
    evict-All max_size zero m m' h a = absurd (ground arith)
    evict-All max_size (suc rounds) m m' h a = elim (Bool-cases (ltb (length m) max_size)) [
      | inl y ↦
          let same : m ≡ m' = (let g = rw (y, evict) at h in ground arith) in
          subst (λ x. All P x × (length x < max_size)) same (a, ground arith)
      | inr n ↦
          evict-All max_size rounds (delete_oldest m) m' (rw (n, evict) at h)
            (delete_oldest-All m a)
    ]

  -- The entry was created for its key, by one of the answered calls.
  pub record MadeBy (history : List (Creation C)) (key : Text) (e : CacheEntry C) : Type ℓ where
    pub creation : Creation C
    pub member : Memᴰ creation history
    pub same_key : creation.key ≡ key
    pub same_context : creation.made.context ≡ e.context
    pub capped : e.expiry ≡ max_expiry creation.time creation.made.expiry

  abbrev pub IsMade : List (Creation C) → Text × CacheEntry C → Type ℓ
  IsMade history (key, e) = MadeBy history key e

  -- The invariant.
  pub record IsValid (max_size : ℕ) (history : List (Creation C)) (s : State C) : Type ℓ where
    pub made : All (IsMade history) s.cache
    pub size : length s.cache ≤ max_size

  later :
      (c : Creation C) (history : List (Creation C)) (m : Cache C)
      → All (IsMade history) m
      → All (IsMade (c ∷ history)) m
  later c history [] h = tt
  later c history ((k, e) ∷ m) (d, h) = (
    record {
      creation = d.creation;
      member = Memᴰ.tail d.member;
      same_key = d.same_key;
      same_context = d.same_context;
      capped = d.capped;
    },
    later c history m h,
  )

  found-IsMade :
      (history : List (Creation C)) (key : Text) (now : ℕ) (o : Option (CacheEntry C)) (m : Cache C)
      → get key m ≡ o
      → All (IsMade history) m
      → All (IsMade history) (found key now o m).0 × (length (found key now o m).0 ≤ length m)
  found-IsMade history key now none m g h = (h, omega arith)
  found-IsMade history key now (some e) m g h = elim (Bool-cases (ltb now e.expiry)) [
    | inl fresh ↦ rw fresh (
      set-All (IsMade history) key e (delete key m) (get-All (IsMade history) key e m g h)
          (delete-All (IsMade history) key m h),
      omega (arith, set-length key e (delete key m), found_delete-length key m e g),
    )
    | inr old ↦ rw old (delete-All (IsMade history) key m h, delete-length key m)
  ]

  begin-IsValid :
      (max_size : ℕ) (history : List (Creation C)) (s : State C) (key : Text) (now : ℕ)
      → IsValid max_size history s
      → IsValid max_size history (begin key now s)
  unfolding look_up
  begin-IsValid max_size history s key now v =
      let f = found-IsMade history key now _ s.cache refl v.made in
      record { made = f.0; size = omega (arith, f.1, v.size) }

  set_evicted-IsMade :
      (max_size : ℕ) (history : List (Creation C)) (key : Text) (e : CacheEntry C)
      (o : Option (Cache C)) (m' : Cache C)
      → ((m : Cache C) → o ≡ some m → All (IsMade history) m × (length m < max_size))
      → IsMade history (key, e)
      → set_evicted key e o ≡ some m'
      → All (IsMade history) m' × (length m' ≤ max_size)
  set_evicted-IsMade max_size history key e none m' h k g = absurd (ground arith)
  set_evicted-IsMade max_size history key e (some m) m' h k g =
      let same : set key e m ≡ m' = ground arith in
      subst (λ x. All (IsMade history) x × (length x ≤ max_size)) same
        (
          set-All (IsMade history) key e m k (h m refl).0,
          omega (arith, set-length key e m, (h m refl).1),
        )

  store-IsValid :
      (max_size rounds : ℕ) (history : List (Creation C)) (cache cache' : Cache C)
      (before after : List Pending) (p : Pending) (made : Created C)
      → IsValid max_size history (record { cache = cache; pending = before ++ p ∷ after })
      → store max_size rounds p.key p.time made cache ≡ some cache'
      → IsValid max_size
          (record { key = p.key; time = p.time; made = made } ∷ history)
          (record { cache = cache'; pending = before ++ after })
  unfolding store
  store-IsValid max_size rounds history cache cache' before after p made v h =
      let c : Creation C = record { key = p.key; time = p.time; made = made } in
      let r =
        set_evicted-IsMade max_size (c ∷ history) p.key _ (evict max_size rounds cache) cache'
          (λ m e.
            evict-All (IsMade (c ∷ history)) max_size rounds cache m e
              (later c history cache v.made))
          (record {
            creation = c;
            member = Memᴰ.head refl;
            same_key = refl;
            same_context = refl;
            capped = refl;
          })
          h in
      record { made = r.0; size = r.1 }

  -- Whatever the order in which the calls' factories answer, the cache never exceeds its size, and
  -- each entry has the context that some factory gave for its key, with the expiry `maxExpiry`
  -- computed from the time at which that call began.
  pub Run-IsValid :
      (max_size : ℕ) (history : List (Creation C)) (s : State C)
      → Run max_size history s
      → IsValid max_size history s
  Run-IsValid max_size history s start = record { made = tt; size = omega arith }
  Run-IsValid max_size history s (call before key now r) =
      begin-IsValid max_size history before key now (Run-IsValid max_size history before r)
  Run-IsValid max_size history s (answer cache before after p made rounds r h) =
      store-IsValid max_size rounds _ cache _ before after p made (Run-IsValid max_size _ _ r) h
