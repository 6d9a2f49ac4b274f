-- ===== src/Text/Splits.antt =====
-- Splitting at one code unit is the inverse of joining with it.
use testserver.Prelude.{
  ℕ, ◌≡◌, ◌≢◌, refl, ap, ◌∙◌, true, false, List, [], ◌∷◌, ◌++◌, ◌==◌, arith, All, Bool-cases, inl,
  inr,
}
use testserver.Text.{Text, split, join, add_head}

-- The text does not hold the code unit.
abbrev pub Lacks : ℕ → Text → Type 0
Lacks c s = All (λ a. (a == c) ≡ false) s

pub split-Lacks : (c : ℕ) (p : Text) → Lacks c p → split c p ≡ p ∷ []
unfolding split
split-Lacks c [] h = refl
split-Lacks c (a ∷ p) h = rw (h.0, split-Lacks c p h.1) refl

pub split-cons : (c : ℕ) (p s : Text) → Lacks c p → split c (p ++ c ∷ s) ≡ p ∷ split c s
unfolding split
split-cons c [] s h = let e : (c == c) ≡ true = ground arith in rw e refl
split-cons c (a ∷ p) s h = rw (h.0, split-cons c p s h.1) refl

-- Every part that a split gives lacks the separator, and the parts join to the text.
abbrev pub AllLack : ℕ → List Text → Type 0
AllLack c ps = All (Lacks c) ps

add_head-Lacks :
    (c a : ℕ) (ps : List Text) → (a == c) ≡ false → AllLack c ps → AllLack c (add_head a ps)
add_head-Lacks c a [] e h = ((e, tt), tt)
add_head-Lacks c a (p ∷ ps) e h = ((e, h.0), h.1)

pub split-AllLack : (c : ℕ) (s : Text) → AllLack c (split c s)
unfolding split
split-AllLack c [] = (tt, tt)
split-AllLack c (a ∷ s) = elim (Bool-cases (a == c)) [
  | inl e ↦ rw e (tt, split-AllLack c s)
  | inr e ↦ rw e (add_head-Lacks c a (split c s) e (split-AllLack c s))
]

join-add_head :
    (c a : ℕ) (ps : List Text) → ps ≢ [] → join (c ∷ []) (add_head a ps) ≡ a ∷ join (c ∷ []) ps
join-add_head c a [] h = absurd (h refl)
join-add_head c a (p ∷ []) h = refl
join-add_head c a (p ∷ (q ∷ ps)) h = refl

add_head-ne-nil : (a : ℕ) (ps : List Text) → add_head a ps ≢ []
add_head-ne-nil a [] e = cc
add_head-ne-nil a (p ∷ ps) e = cc

pub split-ne-nil : (c : ℕ) (s : Text) → split c s ≢ []
unfolding split
split-ne-nil c [] e = cc
split-ne-nil c (a ∷ s) e = ground (arith, add_head-ne-nil a (split c s))

join-nil-cons : (sep : Text) (ps : List Text) → ps ≢ [] → join sep ([] ∷ ps) ≡ sep ++ join sep ps
join-nil-cons sep [] h = absurd (h refl)
join-nil-cons sep (p ∷ ps) h = refl

pub join-split : (c : ℕ) (s : Text) → join (c ∷ []) (split c s) ≡ s
unfolding split
join-split c [] = refl
join-split c (a ∷ s) = elim (Bool-cases (a == c)) [
  | inl e ↦
      let p : c ≡ a = ground arith in
      rw e (join-nil-cons (c ∷ []) (split c s) (split-ne-nil c s) ∙ rw (join-split c s, p) refl)
  | inr e ↦ rw e (join-add_head c a (split c s) (split-ne-nil c s) ∙ ap (◌∷◌ a) (join-split c s))
]

pub split-join : (c : ℕ) (ps : List Text) → ps ≢ [] → AllLack c ps → split c (join (c ∷ []) ps) ≡ ps
split-join c [] n h = absurd (n refl)
split-join c (p ∷ []) n h = split-Lacks c p h.0
split-join c (p ∷ (q ∷ ps)) n h =
    split-cons c p (join (c ∷ []) (q ∷ ps)) h.0 ∙ ap (◌∷◌ p) (split-join c (q ∷ ps) (λ e. cc) h.1)
