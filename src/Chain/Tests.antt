-- ===== src/Chain/Tests.antt =====
-- The chain of endpoints on two concrete endpoints.
use testserver.Prelude.{◌≡◌, length, refl, ◌⊎◌, ◌↔◌, none, some, List, [], ◌∷◌, ok, err, drop, suc}
use testserver.Text.{codes, starts_with, text_eq}
use testserver.Chain.{
  Endpoint, Entry, max_chain_depth, no_match, find_endpoint, remaining_path, found_or_throw,
  resolve_from, finish, resolve_endpoint_chain,
}
use testserver.Chain.Resolves.{IsChain, resolve-IsChain_iff}
use testserver.Chain.Failures.{Stuck, TooDeep, resolve-Stuck}

chain_run : Unit {0}
unfolding find_endpoint remaining_path no_match found_or_throw resolve_from finish
    resolve_endpoint_chain
chain_run = tt

-- takes paths that begin with "/a", and leaves the rest
abbrev step_endpoint : Endpoint (Unit {0})
step_endpoint = record {
  name = codes "step";
  match_path = λ path prefix. ok (starts_with path (codes "/a"));
  get_remaining_path = some (λ path. some (drop 2 path));
  rest = tt;
}

abbrev last_endpoint : Endpoint (Unit {0})
last_endpoint = record {
  name = codes "last";
  match_path = λ path prefix. ok (text_eq path (codes "/end"));
  get_remaining_path = none;
  rest = tt;
}

abbrev two_endpoints : List (Endpoint (Unit {0}))
two_endpoints = step_endpoint ∷ last_endpoint ∷ []

abbrev two_entries : List (Entry (Unit {0}))
two_entries =
    record { endpoint = step_endpoint; path = codes "/a/end" }
    ∷ record { endpoint = last_endpoint; path = codes "/end" }
    ∷ []

two_entries_found : resolve_endpoint_chain two_endpoints (codes "/a/end") none ≡ ok two_entries
unfolding chain_run
two_entries_found = refl

resolve-IsChain_iff_example :
    (resolve_endpoint_chain two_endpoints (codes "/a/end") none ≡ ok two_entries)
    ↔ IsChain two_endpoints (codes "/a/end") none two_entries
resolve-IsChain_iff_example = resolve-IsChain_iff two_endpoints (codes "/a/end") none two_entries

not_found :
    resolve_endpoint_chain two_endpoints (codes "/a/b") none ≡ err (no_match (codes "/a/b") none)
unfolding chain_run
not_found = refl

resolve-Stuck_example :
    Stuck two_endpoints
      (codes "/a/b")
      none
      (suc max_chain_depth)
      (no_match (codes "/a/b") none)
      (some (codes "/a/b"))
    ⊎ TooDeep two_endpoints (codes "/a/b") none (no_match (codes "/a/b") none)
resolve-Stuck_example =
    resolve-Stuck two_endpoints (codes "/a/b") none (no_match (codes "/a/b") none) not_found

-- MAX_CHAIN_DEPTH is 10, and 11 entries are accepted.
eleven_entries :
    (entries : List (Entry (Unit {0}))) × (resolve_endpoint_chain two_endpoints
        (codes "/a/a/a/a/a/a/a/a/a/a/end")
        none
      ≡ ok entries)
    × (length entries ≡ 11)
unfolding chain_run
eleven_entries = (_, refl, refl)
