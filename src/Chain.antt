-- ===== src/Chain.antt =====
-- src/endpoint-chain.ts: the chain of endpoints that a path names, and the errors it throws.
-- `StatusError` (of @httptoolkit/util) is its status and message; any other thrown value is
-- `other_error`.
pub mod Spec
pub mod Resolves
pub mod Failures
pub mod Shortens
pub mod Tests
use testserver.Prelude.{
  ℕ, zero, suc, ◌+◌, Bool, true, false, Option, none, some, List, [], ◌∷◌, ◌++◌, Result, ok, err,
  ◌>>=◌,
}
use testserver.Text.{Text, codes}

pub data Thrown : Type 0 where
  status_error : ℕ → Text → Thrown
  other_error : Text → Thrown

-- `Outcome A`: what a call that may throw gives.
abbrev pub Outcome {ℓ} : Type ℓ → Type ℓ
Outcome A = Result Thrown A

-- `ChainableEndpoint & { name: string }`; `getRemainingPath` may be absent. The handlers of an
-- endpoint, which the chain never calls, are its `T`.
pub record Endpoint {ℓ} (T : Type ℓ) : Type ℓ where
  pub name : Text
  pub match_path : Text → Option Text → Outcome Bool
  pub get_remaining_path : Option (Text → Option Text)
  pub rest : T

pub record Entry {ℓ} (T : Type ℓ) : Type ℓ where
  pub endpoint : Endpoint T
  pub path : Text

abbrev pub max_chain_depth : ℕ
max_chain_depth = 10

-- `path` is a string that is not empty
abbrev pub is_truthy : Option Text → Bool
is_truthy none = false
is_truthy (some []) = false
is_truthy (some (c ∷ s)) = true

abbrev prefix_suffix : Option Text → Text
prefix_suffix none = []
prefix_suffix (some []) = []
prefix_suffix (some (c ∷ s)) = codes " (" ++ (c ∷ s) ++ codes ")"

unfoldable pub no_match : Text → Option Text → Thrown
no_match initial prefix =
    status_error 404 (codes "Could not match endpoint for " ++ initial ++ prefix_suffix prefix)

unfoldable pub too_deep : Text → Thrown
too_deep initial = status_error 400 (codes "Endpoint chain exceeded maximum depth for " ++ initial)

module _ {ℓ} {T : Type ℓ} where
  -- `endpoints.find(ep => ep.matchPath(path!, hostnamePrefix))`: a throw of a test ends the search
  unfoldable pub find_endpoint :
      List (Endpoint T) → Text → Option Text → Outcome (Option (Endpoint T))
  find_endpoint [] path prefix = ok none
  find_endpoint (ep ∷ eps) path prefix =
      let later = find_endpoint eps path prefix in
      ep.match_path path prefix >>= λ found. elim found [ true ↦ ok (some ep) | false ↦ later ]

  -- `endpoint.getRemainingPath?.(path)`
  unfoldable pub remaining_path : Endpoint T → Text → Option Text
  remaining_path ep path = elim ep.get_remaining_path [ none ↦ none | some f ↦ f path ]

  -- `if (!endpoint) throw …`
  unfoldable pub found_or_throw : Thrown → Option (Endpoint T) → Outcome (Endpoint T)
  found_or_throw e none = err e
  found_or_throw e (some ep) = ok ep

  module _ (endpoints : List (Endpoint T)) (initial : Text) (prefix : Option Text) where
    -- The loop, by the rounds that `entries.length <= MAX_CHAIN_DEPTH` still allows. It gives the
    -- entries and the value of `path` behind it.
    unfoldable pub resolve_from :
        ℕ → List (Entry T) → Option Text → Outcome (List (Entry T) × Option Text)
    resolve_from zero entries path = ok (entries, path)
    resolve_from (suc left) entries none = ok (entries, none)
    resolve_from (suc left) entries (some []) = ok (entries, some [])
    resolve_from (suc left) entries (some (c ∷ s)) =
        find_endpoint endpoints (c ∷ s) prefix
        >>= found_or_throw (no_match initial prefix)
        >>= λ ep.
            resolve_from left (entries ++ record { endpoint = ep; path = c ∷ s } ∷ [])
              (remaining_path ep (c ∷ s))

    -- `if (path) throw …; return entries;`
    unfoldable pub finish : List (Entry T) × Option Text → Outcome (List (Entry T))
    finish (entries, path) = elim (is_truthy path) [
      | true ↦ err (too_deep initial)
      | false ↦ ok entries
    ]

    unfoldable pub resolve_endpoint_chain : Outcome (List (Entry T))
    unfolding resolve_from finish
    resolve_endpoint_chain = resolve_from (suc max_chain_depth) [] (some initial) >>= finish
