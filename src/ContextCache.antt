-- ===== src/ContextCache.antt =====
-- src/tls-certificates/secure-context-cache.ts: the cache of secure contexts. `getOrCreate` is cut
-- in two at its `await factory()`: other calls run in between. Times are milliseconds since 1970.
pub mod Run
pub mod Invariant
pub mod Served
pub mod Evicts
pub mod Tests
use testserver.Prelude.{
  ℕ, zero, suc, ◌+◌, ◌*◌, min, Bool, true, false, Option, none, some, List, [], ◌∷◌, ltb, leb,
  if◌then◌else◌, length,
}
use testserver.Text.{Text, text_eq}

abbrev pub default_max_size : ℕ
default_max_size = 1000

abbrev pub one_day : ℕ
one_day = 24 * 60 * 60 * 1000

-- `CacheEntry`; a `tls.SecureContext` is a value of `C`.
pub record CacheEntry {ℓ} (C : Type ℓ) : Type ℓ where
  pub context : C
  pub expiry : ℕ

-- What the factory gives.
pub record Created {ℓ} (C : Type ℓ) : Type ℓ where
  pub context : C
  pub expiry : ℕ

-- `Map`, its entries in the order of insertion
abbrev pub Cache {ℓ} : Type ℓ → Type ℓ
Cache C = List (Text × CacheEntry C)

-- `expiry <= now ? now + ONE_DAY : Math.min(expiry, now + ONE_DAY)`
abbrev pub max_expiry : ℕ → ℕ → ℕ
max_expiry now expiry = if leb expiry now then now + one_day else min expiry (now + one_day)

module _ {ℓ} {C : Type ℓ} where
  unfoldable pub get : Text → Cache C → Option (CacheEntry C)
  get key [] = none
  get key ((k, e) ∷ m) = if text_eq k key then some e else get key m

  unfoldable pub delete : Text → Cache C → Cache C
  delete key [] = []
  delete key ((k, e) ∷ m) = let rest = delete key m in if text_eq k key then rest else (k, e) ∷ rest

  -- A key that is there keeps its place.
  unfoldable pub set : Text → CacheEntry C → Cache C → Cache C
  set key entry [] = (key, entry) ∷ []
  set key entry ((k, e) ∷ m) =
      let rest = set key entry m in if text_eq k key then (k, entry) ∷ m else (k, e) ∷ rest

  abbrev pub found : Text → ℕ → Option (CacheEntry C) → Cache C → Cache C × Option C
  found key now none cache = (cache, none)
  found key now (some e) cache =
      if ltb now e.expiry
      then (set key e (delete key cache), some e.context)
      else (delete key cache, none)

  -- `getOrCreate` up to the call of the factory: the cache, and the context if one is served.
  unfoldable pub look_up : Text → ℕ → Cache C → Cache C × Option C
  look_up key now cache = found key now (get key cache) cache

  -- `if (oldestKey) this.cache.delete(oldestKey)`: the empty key is no key there.
  unfoldable pub delete_oldest : Cache C → Cache C
  delete_oldest [] = []
  delete_oldest (([], e) ∷ m) = ([], e) ∷ m
  delete_oldest ((c ∷ k, e) ∷ m) = delete (c ∷ k) ((c ∷ k, e) ∷ m)

  -- The loop that evicts, by rounds; `none` while it still runs.
  unfoldable pub evict : ℕ → ℕ → Cache C → Option (Cache C)
  evict max_size zero cache = none
  evict max_size (suc rounds) cache = elim (ltb (length cache) max_size) [
    | true ↦ some cache
    | false ↦ evict max_size rounds (delete_oldest cache)
  ]

  abbrev pub set_evicted : Text → CacheEntry C → Option (Cache C) → Option (Cache C)
  set_evicted key e none = none
  set_evicted key e (some cache) = some (set key e cache)

  -- `getOrCreate` behind the factory's answer; `now` is the time at which the call began.
  unfoldable pub store : ℕ → ℕ → Text → ℕ → Created C → Cache C → Option (Cache C)
  store max_size rounds key now made cache =
      set_evicted key (record { context = made.context; expiry = max_expiry now made.expiry })
        (evict max_size rounds cache)
