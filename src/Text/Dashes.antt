-- ===== src/Text/Dashes.antt =====
-- Texts that joining with `--` keeps apart.
use testserver.Prelude.{
  ℕ, ◌+◌, ◌-◌, ◌≡◌, ◌≢◌, refl, ap, ◌∙◌, Bool, true, false, not, ◌&&◌, List, [], ◌∷◌, ◌++◌, ◌==◌,
  leb, length, length-append, drop-append, take-append, All, arith,
}
use testserver.Text.{Text, codes, ends_with, slice, includes, split_dashes, join}
use testserver.Text.Laws.{text_eq_iff}

-- No two dashes in a row, and none at the end.
abbrev pub has_plain_dashes : Text → Bool
has_plain_dashes [] = true
has_plain_dashes (a ∷ []) = not (a == b'-')
has_plain_dashes (a ∷ (b ∷ s)) = not (a == b'-' && b == b'-') && has_plain_dashes (b ∷ s)

abbrev pub IsPlain : Text → Type 0
IsPlain s = has_plain_dashes s ≡ true

split_dashes-plain : (p : Text) → IsPlain p → split_dashes p ≡ p ∷ []
unfolding split_dashes
split_dashes-plain [] h = refl
split_dashes-plain (a ∷ []) h = refl
split_dashes-plain (a ∷ (b ∷ s)) h =
    let e : (a == b'-' && b == b'-') ≡ false = ground arith in
    let rest : IsPlain (b ∷ s) = ground arith in rw (e, split_dashes-plain (b ∷ s) rest) refl

split_dashes-cons :
    (p s : Text) → IsPlain p → split_dashes (p ++ (codes "--" ++ s)) ≡ p ∷ split_dashes s
unfolding split_dashes
split_dashes-cons [] s h = refl
split_dashes-cons (a ∷ []) s h =
    let e : (a == b'-' && b'-' == b'-') ≡ false = ground arith in rw e refl
split_dashes-cons (a ∷ (b ∷ p)) s h =
    let e : (a == b'-' && b == b'-') ≡ false = ground arith in
    let rest : IsPlain (b ∷ p) = ground arith in rw (e, split_dashes-cons (b ∷ p) s rest) refl

pub split_dashes-join :
    (ps : List Text) → ps ≢ [] → All IsPlain ps → split_dashes (join (codes "--") ps) ≡ ps
split_dashes-join [] n h = absurd (n refl)
split_dashes-join (p ∷ []) n h = split_dashes-plain p h.0
split_dashes-join (p ∷ (q ∷ ps)) n h =
    split_dashes-cons p (join (codes "--") (q ∷ ps)) h.0
    ∙ ap (◌∷◌ p) (split_dashes-join (q ∷ ps) (λ e. cc) h.1)

pub includes-dashes : (p s : Text) → includes (p ++ (codes "--" ++ s)) (codes "--") ≡ true
includes-dashes [] s = refl
includes-dashes (a ∷ p) s = ground (arith, includes-dashes p s)

-- A text that ends in another, and what stands before it and one more code unit.
pub ends_with-append : (s t : Text) → ends_with (s ++ t) t ≡ true
ends_with-append s t =
    let l : length (s ++ t) - length t ≡ length s = omega (arith, length-append s t) in
    let k : leb (length t) (length (s ++ t)) ≡ true = ground (arith, length-append s t) in
    rw (l, k, drop-append s t) ((text_eq_iff t t).1 refl)

pub slice-append :
    (s t : Text) (c : ℕ) → slice (s ++ c ∷ t) 0 (length (s ++ c ∷ t) - (length t + 1)) ≡ s
slice-append s t c =
    let l : length (s ++ c ∷ t) - (length t + 1) - 0 ≡ length s =
      omega (arith, length-append s (c ∷ t)) in
    rw l (take-append s (c ∷ t))
