-- ===== src/ContextCache/Served.antt =====
-- The contexts that are served from the cache.
use mathlib.Core.List.{Memᴰ}
use testserver.Prelude.{
  ℕ, ◌+◌, ◌<◌, ◌≡◌, refl, subst, ◌∙◌, inl, inr, Option, none, some, List, ltb, leb, arith,
  Bool-cases, ltb→lt,
}
use testserver.Text.{Text}
use testserver.ContextCache.{CacheEntry, Cache, one_day, max_expiry, found, look_up}
use testserver.ContextCache.Run.{Creation, State, Run}
use testserver.ContextCache.Invariant.{IsMade, MadeBy, get-All, Run-IsValid}

-- Where a served context comes from.
pub record ServedFrom {ℓ} {C : Type ℓ} (history : List (Creation C)) (key : Text) (now : ℕ)
    (context : C) : Type ℓ where
  pub creation : Creation C
  pub member : Memᴰ creation history
  pub same_key : creation.key ≡ key
  pub same_context : creation.made.context ≡ context
  pub within_day : now < creation.time + one_day
  pub unexpired : creation.time < creation.made.expiry → now < creation.made.expiry

max_expiry-bounds :
    (now time expiry : ℕ)
    → now < max_expiry time expiry
    → (now < time + one_day) × (time < expiry → now < expiry)
max_expiry-bounds now time expiry h = elim (Bool-cases (leb expiry time)) [
  | inl old ↦ (let g = rw old at h in g, λ l. absurd (ground arith))
  | inr new ↦ (let g = rw new at h in omega arith, λ l. let g = rw new at h in omega arith)
]

module _ {ℓ} {C : Type ℓ} (history : List (Creation C)) (key : Text) (now : ℕ) (context : C) where
  served_entry :
      (e : CacheEntry C)
      → MadeBy history key e
      → now < e.expiry
      → e.context ≡ context
      → ServedFrom history key now context
  served_entry e d l c =
      let b =
        max_expiry-bounds now d.creation.time d.creation.made.expiry
          (subst (λ x. now < x) d.capped l) in
      record {
        creation = d.creation;
        member = d.member;
        same_key = d.same_key;
        same_context = d.same_context ∙ c;
        within_day = b.0;
        unexpired = b.1;
      }

  found-ServedFrom :
      (o : Option (CacheEntry C)) (m : Cache C)
      → ((e : CacheEntry C) → o ≡ some e → IsMade history (key, e))
      → (found key now o m).1 ≡ some context
      → ServedFrom history key now context
  found-ServedFrom none m made h = absurd (ground arith)
  found-ServedFrom (some e) m made h = elim (Bool-cases (ltb now e.expiry)) [
    | inl fresh ↦
        served_entry e (made e refl) (ltb→lt now e.expiry fresh)
          (let g = rw fresh at h in ground arith)
    | inr old ↦ absurd (let g = rw old at h in ground arith)
  ]

  -- A context that `getOrCreate` serves from the cache, after any interleaving of calls, was given by
  -- the factory of a call with the same key that began less than a day before; and if the
  -- certificate was valid when that call began, then it is valid still.
  pub look_up-ServedFrom :
      (max_size : ℕ) (s : State C)
      → Run max_size history s
      → (look_up key now s.cache).1 ≡ some context
      → ServedFrom history key now context
  unfolding look_up
  look_up-ServedFrom max_size s r h =
      found-ServedFrom _ s.cache
        (λ e g. get-All (IsMade history) key e s.cache g (Run-IsValid max_size history s r).made) h
