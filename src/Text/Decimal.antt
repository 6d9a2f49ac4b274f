-- ===== src/Text/Decimal.antt =====
-- Printing a natural number in decimal and reading it back.
use testserver.Prelude.{
  ℕ, zero, suc, ◌+◌, ◌*◌, ◌/◌, ◌≤◌, ◌<◌, ◌≡◌, refl, ◌∙◌, ap, some, [], ◌∷◌, Bool-cases, inl, inr,
  ltb, arith, All, length, max,
}
use testserver.Text.{Text}
use testserver.Text.Number.{
  pos, skip_white, digits_from, parse_digits, parse_signed, parse_int, print_from, to_decimal,
}

abbrev pub IsDigit : ℕ → Type 0
IsDigit c = (b'0' ≤ c) × (c ≤ b'9')

digits_from-print_from :
    (fuel n : ℕ) (out : Text)
    → n < fuel
    → digits_from 0 (print_from 10 fuel n out) ≡ digits_from n out
unfolding print_from digits_from
digits_from-print_from zero n out h = absurd (omega arith)
digits_from-print_from (suc fuel) n out h = elim (Bool-cases (ltb n 10)) [
  | inl small ↦ ground arith
  | inr large ↦ rw large (digits_from-print_from fuel (n / 10) _ (ground arith) ∙ ground arith)
]

print_from-All :
    (fuel n : ℕ) (out : Text) → n < fuel → All IsDigit out → All IsDigit (print_from 10 fuel n out)
unfolding print_from
print_from-All zero n out h a = absurd (omega arith)
print_from-All (suc fuel) n out h a = elim (Bool-cases (ltb n 10)) [
  | inl small ↦ ground arith
  | inr large ↦ rw large (print_from-All fuel (n / 10) _ (ground arith) (ground arith))
]

print_from-length :
    (fuel n : ℕ) (out : Text) → n < fuel → suc (length out) ≤ length (print_from 10 fuel n out)
unfolding print_from
print_from-length zero n out h = absurd (omega arith)
print_from-length (suc fuel) n out h = elim (Bool-cases (ltb n 10)) [
  | inl small ↦ rw small (omega arith)
  | inr large ↦ rw large (omega (arith, print_from-length fuel (n / 10) (_ ∷ out) (ground arith)))
]

abbrev pub pow10 : ℕ → ℕ
pow10 zero = 1
pow10 (suc k) = 10 * pow10 k

print_from-short :
    (k fuel n : ℕ) (out : Text)
    → n < pow10 k
    → length (print_from 10 fuel n out) ≤ max 1 k + length out
unfolding print_from
print_from-short k zero n out h = omega arith
print_from-short zero (suc fuel) n out h = elim (Bool-cases (ltb n 10)) [
  | inl small ↦ rw small (omega arith)
  | inr large ↦ absurd (ground arith)
]
print_from-short (suc zero) (suc fuel) n out h = elim (Bool-cases (ltb n 10)) [
  | inl small ↦ rw small (omega arith)
  | inr large ↦ absurd (ground arith)
]
print_from-short (suc (suc k)) (suc fuel) n out h = elim (Bool-cases (ltb n 10)) [
  | inl small ↦ rw small (omega arith)
  | inr large ↦
      rw large (omega (arith, print_from-short (suc k) fuel (n / 10) (_ ∷ out) (omega arith)))
]

-- The decimal digits of a number.
pub to_decimal-All : (n : ℕ) → All IsDigit (to_decimal n)
unfolding to_decimal
to_decimal-All n = print_from-All (suc n) n [] (omega arith) tt

pub to_decimal-length : (n k : ℕ) → n < pow10 k → length (to_decimal n) ≤ max 1 k
unfolding to_decimal
to_decimal-length n k h = omega (arith, print_from-short k (suc n) n [] h)

to_decimal-value : (n : ℕ) → digits_from 0 (to_decimal n) ≡ n
unfolding to_decimal
to_decimal-value n = digits_from-print_from (suc n) n [] (omega arith) ∙ unfold digits_from in refl

pub to_decimal-nonempty : (n : ℕ) → 1 ≤ length (to_decimal n)
unfolding to_decimal
to_decimal-nonempty n = print_from-length (suc n) n [] (omega arith)

-- A text of digits has no sign and no white space in front.
parse_int-digits :
    (s : Text) → 1 ≤ length s → All IsDigit s → parse_int s ≡ some (pos (digits_from 0 s))
unfolding parse_int parse_signed skip_white parse_digits digits_from
parse_int-digits [] h a = absurd (omega arith)
parse_int-digits (c ∷ s) h a = ground arith

-- `parseInt(String(n), 10)` is `n`.
pub parse_int-to_decimal : (n : ℕ) → parse_int (to_decimal n) ≡ some (pos n)
parse_int-to_decimal n =
    parse_int-digits (to_decimal n) (to_decimal-nonempty n) (to_decimal-All n)
    ∙ ap (λ k. some (pos k)) (to_decimal-value n)
