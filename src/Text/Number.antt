-- ===== src/Text/Number.antt =====
-- `parseInt(s, 10)`, and the decimal and hexadecimal printing of natural numbers.
-- A parsed number is exact here; a double rounds above 2^53, where the program compares it with
-- bounds below 2^17, and these comparisons come out alike, or hands it on.
use testserver.Prelude.{
  ℕ, zero, suc, ◌+◌, ◌-◌, ◌*◌, ◌/◌, ◌%◌, Bool, ◌&&◌, ◌||◌, Option, none, some, [], ◌∷◌, ◌==◌, leb,
  ltb, if◌then◌else◌,
}
use testserver.Text.{Text}

pub data ℤ : Type 0 where
  pos : ℕ → ℤ
  negsuc : ℕ → ℤ

abbrev pub negate : ℕ → ℤ
negate zero = pos zero
negate (suc n) = negsuc n

-- `WhiteSpace` and `LineTerminator` of ECMAScript
abbrev pub is_white : ℕ → Bool
is_white c =
    (leb 9 c && leb c 13)
    || c == 32
    || c == 0xa0
    || c == 0x1680
    || (leb 0x2000 c && leb c 0x200a)
    || c == 0x2028
    || c == 0x2029
    || c == 0x202f
    || c == 0x205f
    || c == 0x3000
    || c == 0xfeff

abbrev pub is_digit : ℕ → Bool
is_digit c = leb b'0' c && leb c b'9'

unfoldable pub skip_white : Text → Text
skip_white [] = []
skip_white (c ∷ s) = if is_white c then skip_white s else c ∷ s

-- the value of the leading digits, after at least one
unfoldable pub digits_from : ℕ → Text → ℕ
digits_from acc [] = acc
digits_from acc (c ∷ s) =
    let more = digits_from (acc * 10 + (c - b'0')) s in if is_digit c then more else acc

unfoldable pub parse_digits : Text → Option ℕ
unfolding digits_from
parse_digits [] = none
parse_digits (c ∷ s) = if is_digit c then some (digits_from (c - b'0') s) else none

abbrev signed : (ℕ → ℤ) → Option ℕ → Option ℤ
signed f none = none
signed f (some n) = some (f n)

unfoldable pub parse_signed : Text → Option ℤ
unfolding parse_digits
parse_signed [] = none
parse_signed (c ∷ s) =
    if c == b'-'
    then signed negate (parse_digits s)
    else if c == b'+'
    then signed pos (parse_digits s)
    else signed pos (parse_digits (c ∷ s))

-- `none` stands for `NaN`
unfoldable pub parse_int : Text → Option ℤ
unfolding parse_signed skip_white
parse_int s = parse_signed (skip_white s)

abbrev pub digit_char : ℕ → ℕ
digit_char d = if ltb d 10 then b'0' + d else b'a' + (d - 10)

-- `n.toString(base)`: the fuel is never used up, since `n` falls below itself at each digit
unfoldable pub print_from : ℕ → ℕ → ℕ → Text → Text
print_from base zero n out = out
print_from base (suc fuel) n out =
    let more = print_from base fuel (n / base) (digit_char (n % base) ∷ out) in
    if ltb n base then digit_char n ∷ out else more

unfoldable pub to_decimal : ℕ → Text
unfolding print_from
to_decimal n = print_from 10 (suc n) n []

unfoldable pub to_hex : ℕ → Text
unfolding print_from
to_hex n = print_from 16 (suc n) n []
