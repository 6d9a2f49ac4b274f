-- ===== src/Chain/Spec.antt =====
-- What a chain of endpoints is, without the loop: each path is matched by the first endpoint that
-- takes it, and the rest of the path is the next entry's.
use testserver.Prelude.{ℕ, ◌≡◌, true, false, Option, some, List, [], ◌∷◌, ok}
use testserver.Text.{Text}
use testserver.Chain.{Endpoint, Entry, remaining_path}

-- `First eps path prefix ep`: `ep` is the first of `eps` whose test holds, and no test before it
-- throws.
pub data First {ℓ} {T : Type ℓ} (path : Text) (prefix : Option Text) (ep : Endpoint T)
    : List (Endpoint T) → Type ℓ where
  here :
      {eps : List (Endpoint T)}
      → ep.match_path path prefix ≡ ok true
      → First path prefix ep (ep ∷ eps)
  later :
      {other : Endpoint T} {eps : List (Endpoint T)}
      → other.match_path path prefix ≡ ok false
      → First path prefix ep eps
      → First path prefix ep (other ∷ eps)

-- `Chains eps prefix path entries last`: the entries lead from `path` to the remaining path `last`.
pub data Chains {ℓ} {T : Type ℓ} (eps : List (Endpoint T)) (prefix : Option Text)
    (last : Option Text) : Option Text → List (Entry T) → Type ℓ where
  stop : {path : Option Text} → path ≡ last → Chains eps prefix last path []
  step :
      {c : ℕ} {s : Text} {ep : Endpoint T} {entries : List (Entry T)}
      → First (c ∷ s) prefix ep eps
      → Chains eps prefix last (remaining_path ep (c ∷ s)) entries
      → Chains eps prefix last (some (c ∷ s)) (record { endpoint = ep; path = c ∷ s } ∷ entries)
