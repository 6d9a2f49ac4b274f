-- ===== src/Chain/Shortens.antt =====
-- The rest that an endpoint leaves of its path is shorter than the path: how long a path must be for
-- the chain of src/endpoint-chain.ts to be refused for its depth.
use native.Mathlib.Nat.{suc-mul}
use testserver.Prelude.{
  ℕ, suc, ◌+◌, ◌*◌, ◌≤◌, ◌≡◌, refl, sym, subst, Bool, true, false, Option, none, some, List, [],
  ◌∷◌, All, keep, length, ok, arith, Option-cases, Bool-cases, inl, inr,
}
use testserver.Text.{Text}
use testserver.Chain.{Thrown, Endpoint, Entry, remaining_path, is_truthy, max_chain_depth}
use testserver.Chain.Spec.{First, here, later, Chains, stop, step}
use testserver.Chain.Failures.{TooDeep}

-- A path that an endpoint matches is longer than what it leaves, by `least` units at least.
abbrev pub Shortens : {T : Type 0} → ℕ → Endpoint T → Type 0
Shortens least ep =
    (path : Text) (prefix : Option Text) (r : Text)
    → ep.match_path path prefix ≡ ok true
    → remaining_path ep path ≡ some r
    → length r + least ≤ length path

-- An endpoint without a `getRemainingPath` leaves nothing.
pub leaves_nothing :
    {T : Type 0} (least : ℕ) (ep : Endpoint T) → ep.get_remaining_path ≡ none → Shortens least ep
unfolding remaining_path
leaves_nothing least ep e path prefix r m h = absurd (let g = rw e at h in ground arith)

pub Shortens-le : {T : Type 0} (a b : ℕ) (ep : Endpoint T) → a ≤ b → Shortens b ep → Shortens a ep
Shortens-le a b ep h s path prefix r m k = omega (arith, h, s path prefix r m k)

unfoldable pub leaves_rest : {T : Type 0} → Endpoint T → Bool
leaves_rest ep = elim ep.get_remaining_path [ none ↦ false | some f ↦ true ]

no_rest_path :
    {T : Type 0} (ep : Endpoint T) → leaves_rest ep ≡ false → ep.get_remaining_path ≡ none
unfolding leaves_rest
no_rest_path ep h = elim (Option-cases ep.get_remaining_path) [
  | inl e ↦ e
  | inr (f, e) ↦ absurd (let g = rw e at h in ground arith)
]

-- Only the endpoints with a `getRemainingPath` need be looked at.
pub keep-Shortens :
    {T : Type 0} (least : ℕ) (eps : List (Endpoint T))
    → All (Shortens least) (keep leaves_rest eps)
    → All (Shortens least) eps
keep-Shortens least [] a = tt
keep-Shortens least (ep ∷ eps) a = elim (Bool-cases (leaves_rest ep)) [
  | inr e ↦ (leaves_nothing least ep (no_rest_path ep e), keep-Shortens least eps (rw e at a))
  | inl e ↦ let b = rw e at a in (b.0, keep-Shortens least eps b.1)
]

-- The endpoint that takes a path shortens it.
First-length :
    {T : Type 0} (least : ℕ) (path : Text) (prefix : Option Text) (ep : Endpoint T)
    (eps : List (Endpoint T)) (r : Text)
    → All (Shortens least) eps
    → First path prefix ep eps
    → remaining_path ep path ≡ some r
    → length r + least ≤ length path
First-length least path prefix ep [] r a f k = elim f [ ]
First-length least path prefix ep (x ∷ eps) r a (here m) k = a.0 path prefix r m k
First-length least path prefix ep (x ∷ eps) r a (later m f) k =
    First-length least path prefix ep eps r a.1 f k

truthy-length : (l : Text) → is_truthy (some l) ≡ true → 1 ≤ length l
truthy-length [] h = absurd (ground arith)
truthy-length (c ∷ l) h = omega arith

module _ {T : Type 0} (eps : List (Endpoint T)) (prefix : Option Text) (least : ℕ)
    (shortens : All (Shortens least) eps) where
  Chains-none :
      (last : Text) (entries : List (Entry T)) → ¬ Chains eps prefix (some last) none entries
  Chains-none last entries (stop k) = ground arith

  -- A chain that leaves a path was longer by `least` units for each of its entries.
  pub Chains-length :
      (last path : Text) (start : Option Text) (entries : List (Entry T))
      → start ≡ some path
      → Chains eps prefix (some last) start entries
      → length last + length entries * least ≤ length path
  Chains-length last path start [] e (stop k) =
      let same : path ≡ last = ground arith in rw same (omega arith)
  Chains-length last path start (x ∷ entries) e (step {c = c} {s = s} {ep = ep} f chain) =
      let same : c ∷ s ≡ path = ground arith in
      elim (Option-cases (remaining_path ep (c ∷ s))) [
        | inr (r, k) ↦
            let shorter = First-length least (c ∷ s) prefix ep eps r shortens f k in
            let rest = Chains-length last r _ entries k chain in
            rw (sym same) (omega (arith, suc-mul (length entries) least, shorter, rest))
        | inl k ↦ absurd (
            Chains-none last entries (subst (λ p. Chains eps prefix (some last) p entries) k chain))
      ]

  -- A path whose chain is too deep has more than `least` units for each of the entries.
  pub TooDeep-length :
      (path : Text) (e : Thrown)
      → TooDeep eps path prefix e
      → suc (suc max_chain_depth * least) ≤ length path
  TooDeep-length path e t = elim (Option-cases t.last) [
    | inl k ↦ absurd (let g = t.path_left in let h = rw k at g in ground arith)
    | inr (l, k) ↦
        let shorter =
          Chains-length l path (some path) t.entries refl
            (subst (λ p. Chains eps prefix p (some path) t.entries) k t.chain) in
        let some_left : 1 ≤ length l = (let g = t.path_left in truthy-length l (rw k at g)) in
        let filled = t.full in rw (sym filled) (omega (arith, shorter, some_left))
  ]
