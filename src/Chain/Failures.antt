-- ===== src/Chain/Failures.antt =====
-- The errors of `resolveEndpointChain`.
use testserver.Prelude.{
  ℕ, zero, suc, ◌≤◌, ◌≡◌, refl, ap, ◌∙◌, ◌⊎◌, inl, inr, true, Option, none, some, List, [], ◌∷◌, ok,
  err, ◌>>=◌, arith, length, Bool-cases,
}
use testserver.Text.{Text}
use testserver.Chain.{
  Thrown, Outcome, Endpoint, Entry, max_chain_depth, find_endpoint, remaining_path, is_truthy,
  no_match, too_deep, found_or_throw, resolve_from, finish, resolve_endpoint_chain,
}
use testserver.Chain.Spec.{Chains, stop, step}
use testserver.Chain.Resolves.{find_endpoint-First, resolve_from-Ran}

module _ {ℓ} {T : Type ℓ} (eps : List (Endpoint T)) (initial : Text) (prefix : Option Text) where
  -- Why a path ends the chain with the error `e`.
  pub data Fails (e : Thrown) : Option Text → Type ℓ where
    unmatched :
        (path : Text)
        → find_endpoint eps path prefix ≡ ok none
        → e ≡ no_match initial prefix
        → Fails e (some path)
    threw : (path : Text) → find_endpoint eps path prefix ≡ err e → Fails e (some path)

  -- The entries that were found before the error `e`, and the path that was left.
  pub record Stuck (left : ℕ) (e : Thrown) (path : Option Text) : Type ℓ where
    pub added : List (Entry T)
    pub last : Option Text
    pub chain : Chains eps prefix last path added
    pub bound : suc (length added) ≤ left
    pub reason : Fails e last

  Stuck-here :
      (left : ℕ) (e : Thrown) (path : Text) → Fails e (some path) → Stuck (suc left) e (some path)
  Stuck-here left e path f = record {
    added = [];
    last = some path;
    chain = stop refl;
    bound = omega arith;
    reason = f;
  }

  round-Stuck :
      (left : ℕ) (done : List (Entry T)) (e : Thrown) (c : ℕ) (s : Text)
      (r : Outcome (Option (Endpoint T)))
      → find_endpoint eps (c ∷ s) prefix ≡ r
      → ((ep : Endpoint T) (more : List (Entry T))
          → resolve_from eps initial prefix left more (remaining_path ep (c ∷ s)) ≡ err e
          → Stuck left e (remaining_path ep (c ∷ s)))
      → resolve_from eps initial prefix (suc left) done (some (c ∷ s)) ≡ err e
      → Stuck (suc left) e (some (c ∷ s))
  unfolding resolve_from found_or_throw
  round-Stuck left done e c s (err t) m ih h =
      Stuck-here left e (c ∷ s) (threw (c ∷ s) (ground arith))
  round-Stuck left done e c s (ok none) m ih h =
      Stuck-here left e (c ∷ s) (unmatched (c ∷ s) m (ground arith))
  round-Stuck left done e c s (ok (some ep)) m ih h =
      let r = ih ep _ (rw m at h) in
      record {
        added = record { endpoint = ep; path = c ∷ s } ∷ r.added;
        last = r.last;
        chain = step (find_endpoint-First (c ∷ s) prefix eps ep m) r.chain;
        bound = omega (arith, r.bound);
        reason = r.reason;
      }

  resolve_from-Stuck :
      (left : ℕ) (done : List (Entry T)) (e : Thrown) (path : Option Text)
      → resolve_from eps initial prefix left done path ≡ err e
      → Stuck left e path
  unfolding resolve_from
  resolve_from-Stuck zero done e path h = cc
  resolve_from-Stuck (suc left) done e none h = cc
  resolve_from-Stuck (suc left) done e (some []) h = cc
  resolve_from-Stuck (suc left) done e (some (c ∷ s)) h =
      round-Stuck left done e c s (find_endpoint eps (c ∷ s) prefix) refl
        (λ ep more. resolve_from-Stuck left more e (remaining_path ep (c ∷ s))) h

  -- The chain has used up its entries, and a path is left.
  pub record TooDeep (e : Thrown) : Type ℓ where
    pub entries : List (Entry T)
    pub last : Option Text
    pub chain : Chains eps prefix last (some initial) entries
    pub full : length entries ≡ suc max_chain_depth
    pub path_left : is_truthy last ≡ true
    pub reason : e ≡ too_deep initial

  resolved-TooDeep :
      (r : Outcome (List (Entry T) × Option Text)) (e : Thrown)
      → resolve_from eps initial prefix (suc max_chain_depth) [] (some initial) ≡ r
      → (r >>= finish eps initial prefix) ≡ err e
      → Stuck (suc max_chain_depth) e (some initial) ⊎ TooDeep e
  unfolding finish
  resolved-TooDeep (err t) e m h =
      let same : t ≡ e = ground arith in
      inl (resolve_from-Stuck (suc max_chain_depth) [] e (some initial) (m ∙ ap err same))
  resolved-TooDeep (ok (es, last)) e m h = elim (Bool-cases (is_truthy last)) [
    | inl more ↦
        let r =
          resolve_from-Ran eps initial prefix (suc max_chain_depth) [] es (some initial) last m in
        inr record {
          entries = r.added;
          last = last;
          chain = r.chain;
          full = ground (arith, r.ended);
          path_left = more;
          reason = ground arith;
        }
    | inr ended ↦ absurd (ground arith)
  ]

  -- An error of `resolveEndpointChain` has one of three causes. Within the first
  -- MAX_CHAIN_DEPTH entries a path is reached that no endpoint takes (the 404 error) or at which a
  -- test throws that very error; or MAX_CHAIN_DEPTH + 1 entries are found and a path is left (the
  -- 400 error).
  pub resolve-Stuck :
      (e : Thrown)
      → resolve_endpoint_chain eps initial prefix ≡ err e
      → Stuck (suc max_chain_depth) e (some initial) ⊎ TooDeep e
  unfolding resolve_endpoint_chain
  resolve-Stuck e h = resolved-TooDeep _ e refl h
