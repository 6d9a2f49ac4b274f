-- ===== src/ContextCache/Evicts.antt =====
-- The loop that evicts ends.
use mathlib.Core.List.{Memᴰ}
use testserver.Prelude.{
  ℕ, zero, suc, ◌≤◌, ◌<◌, ◌≡◌, ◌≢◌, refl, subst, inl, inr, some, List, [], ◌∷◌, ltb, length, All,
  arith, Bool-cases, ap, lt→ltb,
}
use testserver.Text.{Text, text_eq}
use testserver.Text.Laws.{text_eq_iff}
use testserver.ContextCache.{
  CacheEntry, Created, Cache, get, delete_oldest, evict, store, set, set_evicted, look_up,
  max_expiry,
}
use testserver.ContextCache.Run.{Creation, State, Run}
use testserver.ContextCache.Invariant.{
  IsMade, MadeBy, found_delete-length, delete_oldest-All, Run-IsValid,
}

-- The oldest entry is deleted only if its key is not empty.
abbrev pub HasKey {ℓ} : {C : Type ℓ} → Creation C → Type 0
HasKey c = c.key ≢ []

All-Memᴰ {ℓ} :
    {C : Type ℓ} (c : Creation C) (history : List (Creation C))
    → All HasKey history
    → Memᴰ c history
    → HasKey c
All-Memᴰ c [] h m = elim m [ ]
All-Memᴰ c (d ∷ history) (k, h) (Memᴰ.head e) = rw e k
All-Memᴰ c (d ∷ history) (k, h) (Memᴰ.tail m) = All-Memᴰ c history h m

module _ {ℓ} {C : Type ℓ} (history : List (Creation C)) (filled : All HasKey history) where
  MadeBy-filled : {key : Text} {e : CacheEntry C} → MadeBy history key e → key ≢ []
  MadeBy-filled d = subst (λ k. k ≢ []) d.same_key (All-Memᴰ d.creation history filled d.member)

  delete_oldest-length :
      (m : Cache C) → All (IsMade history) m → 1 ≤ length m → length (delete_oldest m) < length m
  unfolding delete_oldest get
  delete_oldest-length [] h l = absurd (omega arith)
  delete_oldest-length (([], e) ∷ m) (d, h) l = absurd (MadeBy-filled d refl)
  delete_oldest-length ((c ∷ k, e) ∷ m) h l =
      found_delete-length (c ∷ k) ((c ∷ k, e) ∷ m) e
        (rw ((text_eq_iff (c ∷ k) (c ∷ k)).1 refl) refl)

  evict_ends :
      (max_size rounds : ℕ) (m : Cache C)
      → All (IsMade history) m
      → 1 ≤ max_size
      → length m < rounds
      → (m' : Cache C) × (evict max_size rounds m ≡ some m')
  unfolding evict
  evict_ends max_size zero m h p l = absurd (omega arith)
  evict_ends max_size (suc rounds) m h p l = elim (Bool-cases (ltb (length m) max_size)) [
    | inl y ↦ (m, rw (y, evict) refl)
    | inr n ↦
        let shorter = delete_oldest-length m h (ground arith) in
        let r =
          evict_ends max_size rounds (delete_oldest m) (delete_oldest-All (IsMade history) m h) p
            (omega (arith, shorter)) in
        (r.0, rw (n, evict) r.1)
  ]

get-set_same {ℓ} :
    {C : Type ℓ} (key : Text) (e : CacheEntry C) (m : Cache C) → get key (set key e m) ≡ some e
unfolding get set
get-set_same key e [] = rw ((text_eq_iff key key).1 refl) refl
get-set_same key e ((k, e₁) ∷ m) = elim (Bool-cases (text_eq k key)) [
  | inl y ↦ rw (y, y) refl
  | inr n ↦ rw (n, n) (get-set_same key e m)
]

look_up-fresh {ℓ} :
    {C : Type ℓ} (key : Text) (now : ℕ) (e : CacheEntry C) (m : Cache C)
    → get key m ≡ some e
    → now < e.expiry
    → (look_up key now m).1 ≡ some e.context
unfolding look_up
look_up-fresh key now e m g l = rw (g, lt→ltb now e.expiry l) refl

-- After any interleaving of calls, if no call that was answered had an empty key and there is room
-- for one entry at least, a call whose factory has answered stores its context: the loop that evicts
-- ends, in as many rounds as the cache has places and one more, and behind it the context is served for its key until the expiry that was computed.
pub store_ends {ℓ} :
    {C : Type ℓ} (history : List (Creation C)) (max_size : ℕ) (s : State C) (key : Text) (now : ℕ)
    (made : Created C)
    → Run max_size history s
    → All HasKey history
    → 1 ≤ max_size
    → (m : Cache C) × (store max_size (suc max_size) key now made s.cache ≡ some m)
      × ((time : ℕ)
          → time < max_expiry now made.expiry
          → (look_up key time m).1 ≡ some made.context)
unfolding store
store_ends history max_size s key now made r filled p =
    let v = Run-IsValid max_size history s r in
    let e =
      evict_ends history filled max_size (suc max_size) s.cache v.made p (omega (arith, v.size)) in
    let entry : CacheEntry _ = record {
      context = made.context;
      expiry = max_expiry now made.expiry;
    } in
    (
      set key entry e.0,
      ap (set_evicted key entry) e.1,
      λ time l. look_up-fresh key time entry _ (get-set_same key entry e.0) l,
    )
