-- ===== src/Text.antt =====
-- The strings of the program as lists of UTF-16 code units, with the operations of
-- `String.prototype` that it calls. Literals are ASCII, so `codes` gives their code units.
pub mod Number
pub mod Laws
pub mod Decimal
pub mod Splits
pub mod Dashes
use Prim.Native.Char.{code}
use Prim.Native.String
use Prim.Native.String.{String}
use testserver.Prelude.{
  ℕ, zero, suc, ◌+◌, ◌-◌, Bool, true, false, ◌&&◌, ◌||◌, Option, none, some, List, [], ◌∷◌, ◌++◌,
  ◌==◌, leb, if◌then◌else◌, take, drop, length, any,
}

abbrev pub Text : Type 0
Text = List ℕ

abbrev pub codes : String → Text
codes String.[] = []
codes (String.◌∷◌ c s) = code c ∷ codes s

abbrev pub text_eq : Text → Text → Bool
text_eq [] [] = true
text_eq (a ∷ s) (b ∷ t) = a == b && text_eq s t
text_eq _ _ = false

-- `s.startsWith(p)`
abbrev pub starts_with : Text → Text → Bool
starts_with s [] = true
starts_with [] (b ∷ p) = false
starts_with (a ∷ s) (b ∷ p) = a == b && starts_with s p

-- `s.endsWith(p)`
abbrev pub ends_with : Text → Text → Bool
ends_with s p = leb (length p) (length s) && text_eq (drop (length s - length p) s) p

-- `s.slice(a, b)` for positions that are not negative
abbrev pub slice : Text → ℕ → ℕ → Text
slice s a b = take (b - a) (drop a s)

-- `s.includes(p)`
abbrev pub includes : Text → Text → Bool
includes [] p = starts_with [] p
includes (a ∷ s) p = starts_with (a ∷ s) p || includes s p

-- `s.indexOf(c, from)` for one code unit `c`; `none` stands for -1
abbrev pub index_of : ℕ → Text → Option ℕ
index_of c [] = none
index_of c (a ∷ s) =
    if a == c then some 0 else elim (index_of c s) [ none ↦ none | some i ↦ some (suc i) ]

abbrev pub index_from : ℕ → Text → ℕ → Option ℕ
index_from c s from = elim (index_of c (drop from s)) [ none ↦ none | some i ↦ some (from + i) ]

-- `s.split(c)` for one code unit `c`: the part that is open stands at the head
abbrev pub add_head : ℕ → List Text → List Text
add_head a [] = (a ∷ []) ∷ []
add_head a (p ∷ ps) = (a ∷ p) ∷ ps

unfoldable pub split : ℕ → Text → List Text
split c [] = [] ∷ []
split c (a ∷ s) = if a == c then [] ∷ split c s else add_head a (split c s)

-- `s.split('--')`: the separators are taken from the left and do not overlap
unfoldable pub split_dashes : Text → List Text
split_dashes [] = [] ∷ []
split_dashes (a ∷ []) = (a ∷ []) ∷ []
split_dashes (a ∷ (b ∷ s)) =
    if a == b'-' && b == b'-' then [] ∷ split_dashes s else add_head a (split_dashes (b ∷ s))

-- `parts.join(sep)`
abbrev pub join : Text → List Text → Text
join sep [] = []
join sep (p ∷ []) = p
join sep (p ∷ (q ∷ ps)) = p ++ (sep ++ join sep (q ∷ ps))

abbrev pub mem_text : Text → List Text → Bool
mem_text t ts = any (text_eq t) ts
