-- ===== src/Chain/Resolves.antt =====
-- The loop of `resolveEndpointChain` against the chains of `Spec`.
use mathlib.Core.List.{append-nil, append_assoc}
use testserver.Prelude.{
  ℕ, zero, suc, ◌≤◌, ◌≡◌, refl, sym, subst, ap, ◌∙◌, ◌⊎◌, inl, inr, ◌↔◌, Bool, true, false, Option,
  none, some, List, [], ◌∷◌, ◌++◌, ok, err, bind-eq-ok, arith, length,
}
use testserver.Text.{Text}
use testserver.Chain.{
  Thrown, Outcome, Endpoint, Entry, max_chain_depth, find_endpoint, remaining_path, is_truthy,
  found_or_throw, resolve_from, finish, resolve_endpoint_chain,
}
use testserver.Chain.Spec.{First, here, later, Chains, stop, step}

module _ {ℓ} {T : Type ℓ} (path : Text) (prefix : Option Text) where
  find_step :
      (x : Endpoint T) (eps : List (Endpoint T)) (ep : Endpoint T) (r : Outcome Bool)
      → x.match_path path prefix ≡ r
      → (find_endpoint eps path prefix ≡ ok (some ep) → First path prefix ep eps)
      → find_endpoint (x ∷ eps) path prefix ≡ ok (some ep)
      → First path prefix ep (x ∷ eps)
  unfolding find_endpoint
  find_step x eps ep (ok true) m ih e =
      let same : x ≡ ep = ground arith in subst (λ y. First path prefix y (x ∷ eps)) same (here m)
  find_step x eps ep (ok false) m ih e = later m (ih (ground arith))
  find_step x eps ep (err t) m ih e = absurd (ground arith)

  pub find_endpoint-First :
      (eps : List (Endpoint T)) (ep : Endpoint T)
      → find_endpoint eps path prefix ≡ ok (some ep)
      → First path prefix ep eps
  find_endpoint-First [] ep e = unfold find_endpoint in cc
  find_endpoint-First (x ∷ eps) ep e =
      find_step x eps ep (x.match_path path prefix) refl (find_endpoint-First eps ep) e

  pub First-find_endpoint :
      {ep : Endpoint T} {eps : List (Endpoint T)}
      → First path prefix ep eps
      → find_endpoint eps path prefix ≡ ok (some ep)
  unfolding find_endpoint
  First-find_endpoint (here m) = rw m
  First-find_endpoint (later m f) = rw m (First-find_endpoint f)

module _ {ℓ} {T : Type ℓ} (eps : List (Endpoint T)) (initial : Text) (prefix : Option Text) where
  -- One round of the loop that goes on.
  round_of_First :
      (left : ℕ) (done : List (Entry T)) (c : ℕ) (s : Text) (ep : Endpoint T)
      → First (c ∷ s) prefix ep eps
      → resolve_from eps initial prefix (suc left) done (some (c ∷ s))
        ≡ resolve_from eps initial prefix left
            (done ++ record { endpoint = ep; path = c ∷ s } ∷ [])
            (remaining_path ep (c ∷ s))
  unfolding resolve_from found_or_throw
  round_of_First left done c s ep f = rw (First-find_endpoint (c ∷ s) prefix f)

  resolve_from_stop :
      (left : ℕ) (done : List (Entry T)) (path : Option Text)
      → (is_truthy path ≡ false) ⊎ (left ≡ 0)
      → resolve_from eps initial prefix left done path ≡ ok (done, path)
  unfolding resolve_from
  resolve_from_stop zero done path h = refl
  resolve_from_stop (suc left) done none h = refl
  resolve_from_stop (suc left) done (some []) h = refl
  resolve_from_stop (suc left) done (some (c ∷ s)) h = ground arith

  -- A chain that is no longer than the rounds left is what the loop appends.
  pub resolve_from_of_Chains :
      {last path : Option Text} {entries : List (Entry T)} (left : ℕ) (done : List (Entry T))
      → Chains eps prefix last path entries
      → length entries ≤ left
      → (is_truthy last ≡ false) ⊎ (length entries ≡ left)
      → resolve_from eps initial prefix left done path ≡ ok (done ++ entries, last)
  resolve_from_of_Chains left done (stop e) h k =
      rw (e, append-nil) (resolve_from_stop left done _ (ground arith))
  resolve_from_of_Chains zero done (step f c) h k = absurd (omega arith)
  resolve_from_of_Chains (suc left) done (step {c = c} {s = s} {ep = ep} f r) h k =
      round_of_First left done c s ep f
      ∙ resolve_from_of_Chains left _ r (omega arith) (ground arith)
      ∙ rw append_assoc

  -- What the loop has done when it ends with `entries` and `last`.
  pub record Ran (left : ℕ) (done : List (Entry T)) (path : Option Text) (entries : List (Entry T))
      (last : Option Text) : Type ℓ where
    pub added : List (Entry T)
    pub entries_are : entries ≡ done ++ added
    pub chain : Chains eps prefix last path added
    pub bound : length added ≤ left
    pub ended : (is_truthy last ≡ false) ⊎ (length added ≡ left)

  Ran-stop :
      (left : ℕ) (done entries : List (Entry T)) (path last : Option Text)
      → (is_truthy path ≡ false) ⊎ (left ≡ 0)
      → resolve_from eps initial prefix left done path ≡ ok (entries, last)
      → Ran left done path entries last
  Ran-stop left done entries path last h e =
      let r = sym (resolve_from_stop left done path h) ∙ e in
      let same : path ≡ last = ground arith in
      record {
        added = [];
        entries_are = ground (arith, append-nil done);
        chain = stop same;
        bound = omega arith;
        ended = ground arith;
      }

  Ran-step :
      (left : ℕ) (done : List (Entry T)) (c : ℕ) (s : Text) (ep : Endpoint T)
      {entries : List (Entry T)} {last : Option Text}
      → First (c ∷ s) prefix ep eps
      → Ran left
          (done ++ record { endpoint = ep; path = c ∷ s } ∷ [])
          (remaining_path ep (c ∷ s))
          entries
          last
      → Ran (suc left) done (some (c ∷ s)) entries last
  Ran-step left done c s ep f r = record {
    added = record { endpoint = ep; path = c ∷ s } ∷ r.added;
    entries_are = r.entries_are ∙ append_assoc done _ r.added;
    chain = step f r.chain;
    bound = omega (arith, r.bound);
    ended = ground (arith, r.ended);
  }

  found-eq-ok :
      (e : Thrown) (o : Option (Endpoint T)) (ep : Endpoint T)
      → found_or_throw e o ≡ ok ep
      → o ≡ some ep
  unfolding found_or_throw
  found-eq-ok e none ep h = cc
  found-eq-ok e (some x) ep h = ground arith

  pub resolve_from-Ran :
      (left : ℕ) (done entries : List (Entry T)) (path last : Option Text)
      → resolve_from eps initial prefix left done path ≡ ok (entries, last)
      → Ran left done path entries last
  unfolding resolve_from
  resolve_from-Ran zero done entries path last e = Ran-stop 0 done entries path last (inr refl) e
  resolve_from-Ran (suc left) done entries none last e =
      Ran-stop (suc left) done entries none last (inl refl) e
  resolve_from-Ran (suc left) done entries (some []) last e =
      Ran-stop (suc left) done entries (some []) last (inl refl) e
  resolve_from-Ran (suc left) done entries (some (c ∷ s)) last e =
      let (ep, found, e') = bind-eq-ok _ _ e in
      let (o, searched, got) = bind-eq-ok _ _ found in
      let f =
        find_endpoint-First (c ∷ s) prefix eps ep (searched ∙ ap ok (found-eq-ok _ o ep got)) in
      Ran-step left done c s ep f (resolve_from-Ran left _ entries _ last e')

  finish-eq-ok :
      (r : List (Entry T) × Option Text) (entries : List (Entry T))
      → finish eps initial prefix r ≡ ok entries
      → (r.0 ≡ entries) × (is_truthy r.1 ≡ false)
  unfolding finish
  finish-eq-ok (es, none) entries h = ground arith
  finish-eq-ok (es, some []) entries h = ground arith
  finish-eq-ok (es, some (c ∷ s)) entries h = ground arith

  abbrev pub IsChain : List (Entry T) → Type ℓ
  IsChain entries =
      (last : Option Text) × Chains eps prefix last (some initial) entries
      × (is_truthy last ≡ false)
      × (length entries ≤ suc max_chain_depth)

  resolve-IsChain :
      (entries : List (Entry T))
      → resolve_endpoint_chain eps initial prefix ≡ ok entries
      → IsChain entries
  unfolding resolve_endpoint_chain
  resolve-IsChain entries e =
      let ((es, last), looped, e') = bind-eq-ok _ _ e in
      let (same, ended) = finish-eq-ok (es, last) entries e' in
      let r = resolve_from-Ran (suc max_chain_depth) [] es (some initial) last looped in
      (
        last,
        subst (Chains eps prefix last (some initial)) (sym r.entries_are ∙ same) r.chain,
        ended,
        omega (arith, r.bound, ap length (sym r.entries_are ∙ same)),
      )

  IsChain-resolve :
      (entries : List (Entry T))
      → IsChain entries
      → resolve_endpoint_chain eps initial prefix ≡ ok entries
  unfolding resolve_endpoint_chain
  IsChain-resolve entries (last, chain, ended, bound) =
      rw (resolve_from_of_Chains (suc max_chain_depth) [] chain bound (inl ended))
        (rw (finish, ended))

  -- `resolveEndpointChain` returns `entries` exactly when they are a chain from the initial path to
  -- no path or an empty one, each entry the first endpoint that takes its path, and there are at
  -- most MAX_CHAIN_DEPTH + 1 of them.
  pub resolve-IsChain_iff :
      (entries : List (Entry T))
      → (resolve_endpoint_chain eps initial prefix ≡ ok entries) ↔ IsChain entries
  resolve-IsChain_iff entries = (resolve-IsChain entries, IsChain-resolve entries)
