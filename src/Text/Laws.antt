-- ===== src/Text/Laws.antt =====
-- Laws of the string operations.
use testserver.Prelude.{
  ℕ, ◌<◌, ◌≡◌, ◌↔◌, true, some, [], ◌∷◌, length, ◌==◌, Bool-cases, Option-cases, inl, inr, arith,
}
use testserver.Text.{Text, text_eq, index_of}

pub text_eq_iff : (s t : Text) → (text_eq s t ≡ true) ↔ (s ≡ t)
text_eq_iff [] [] = ground arith
text_eq_iff [] (b ∷ t) = ground arith
text_eq_iff (a ∷ s) [] = ground arith
text_eq_iff (a ∷ s) (b ∷ t) = ground (arith, text_eq_iff s t)

pub index_of-lt : (c : ℕ) (s : Text) (i : ℕ) → index_of c s ≡ some i → i < length s
index_of-lt c [] i h = absurd (ground arith)
index_of-lt c (a ∷ s) i h = elim (Bool-cases (a == c)) [
  | inl e ↦ let g : some 0 ≡ some i = rw e at h in ground arith
  | inr e ↦ elim (Option-cases (index_of c s)) [
    | inl n ↦ absurd (let g = rw (e, n) at h in ground arith)
    | inr (j, k) ↦ let g = rw (e, k) at h in let b = index_of-lt c s j k in ground arith
  ]
]
