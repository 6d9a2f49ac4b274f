-- ===== src/Tls/Merge.antt =====
-- src/endpoints/tls-merge.ts. The flags of OpenSSL that disable a version
-- (`crypto.constants.SSL_OP_NO_…`) are a parameter, a function of the version's name.
pub mod Declared
pub mod Typed
use Prim.Native.Nat.{bit_or}
use testserver.Prelude.{
  ℕ, zero, suc, ◌+◌, ◌-◌, min, Bool, true, false, not, ◌&&◌, ◌||◌, Option, none, some, List, [],
  ◌∷◌, ◌++◌, Result, ok, err, ◌>>=◌, ◌==◌, if◌then◌else◌, find_first, length, drop,
}
use testserver.Text.{Text, codes, text_eq, starts_with, mem_text}
use testserver.Text.Number.{is_digit, to_decimal}
use testserver.Tls.{
  Value, bool, num, str, strs, Fields, Contribution, ConfigError, conflicting, type_error,
}
use testserver.Tls.Fields.{get, set, delete, value_eq}

abbrev pub enabled_versions : Text
enabled_versions = codes "enabledVersions"

abbrev pub security_level : Text
security_level = codes "securityLevel"

abbrev pub version_order : List Text
version_order = codes "TLSv1" ∷ codes "TLSv1.1" ∷ codes "TLSv1.2" ∷ codes "TLSv1.3" ∷ []

-- `FIELD_COMBINERS[key]`: values of another type than the field's, which the type of a
-- contribution rules out, are a `type_error`.
abbrev combine_versions : Value → Value → Result ConfigError Value
combine_versions (strs a) (strs b) = ok (strs (a ++ b))
combine_versions _ _ = err type_error

abbrev combine_levels : Value → Value → Result ConfigError Value
combine_levels (num a) (num b) = ok (num (min a b))
combine_levels _ _ = err type_error

unfoldable pub field_combiner : Text → Option (Value → Value → Result ConfigError Value)
field_combiner key =
    if text_eq key enabled_versions
    then some combine_versions
    else if text_eq key security_level
    then some combine_levels
    else none

-- The value of a key that is set already and is set again.
unfoldable pub merge_value :
    Text
    → Option (Value → Value → Result ConfigError Value)
    → Value
    → Value
    → Result ConfigError Value
merge_value key (some combine) old new = combine old new
merge_value key none old new = if value_eq old new then ok old else err (conflicting key old new)

unfoldable pub merge_field : Fields → Text → Value → Result ConfigError Fields
merge_field acc key value = elim (get key acc) [
  | none ↦ ok (set key value acc)
  | some old ↦ merge_value key (field_combiner key) old value >>= λ v. ok (set key v acc)
]

unfoldable pub merge_fields : Fields → Contribution → Result ConfigError Fields
merge_fields acc [] = ok acc
merge_fields acc ((key, none) ∷ fs) = merge_fields acc fs
merge_fields acc ((key, some v) ∷ fs) = merge_field acc key v >>= λ acc'. merge_fields acc' fs

-- `mergeContribution`; the accumulator that it writes is the result.
unfoldable pub merge_contribution : Fields → Option Contribution → Result ConfigError Fields
merge_contribution acc none = ok acc
merge_contribution acc (some fs) = merge_fields acc fs

-- `(tlsOptions.… as number | undefined)`
unfoldable pub number_of : Option Value → Option ℕ
number_of (some (num n)) = some n
number_of _ = none

abbrev number_or : ℕ → Option ℕ → ℕ
number_or d none = d
number_or d (some n) = n

-- The lowest enabled version as `minVersion`, with the security level that a legacy one needs.
unfoldable pub set_minimum : Option Text → Fields → Fields
set_minimum none opts = opts
set_minimum (some lowest) opts =
    let opts' = set (codes "minVersion") (str lowest) opts in
    if text_eq lowest (codes "TLSv1") || text_eq lowest (codes "TLSv1.1")
    then set security_level (num 0) opts'
    else opts'

module _ (disable_flag : Text → ℕ) where
  -- `for (const version of VERSION_ORDER) if (!enabled.includes(version)) secureOptions |= …`
  unfoldable pub disable_missing : List Text → ℕ → List Text → ℕ
  disable_missing enabled options [] = options
  disable_missing enabled options (v ∷ vs) =
      disable_missing enabled
        (if mem_text v enabled then options else bit_or options (disable_flag v)) vs

  -- The options with the list of the enabled versions taken out and translated.
  unfoldable pub translate_versions : List Text → Fields → Fields
  translate_versions enabled opts =
      let options = number_or 0 (number_of (get (codes "secureOptions") opts)) in
      set_minimum (find_first (λ v. mem_text v enabled) version_order)
        (set (codes "secureOptions") (num (disable_missing enabled options version_order)) opts)

  -- `resolveEnabledVersions`. `Math.min(level ?? Infinity, 0)` is 0, since no level is negative.
  unfoldable pub resolve_enabled_versions : Fields → Fields
  resolve_enabled_versions opts = elim (get enabled_versions opts) [
    | some (strs enabled) ↦ translate_versions enabled (delete enabled_versions opts)
    | _ ↦ opts
  ]

-- `.replace(/@SECLEVEL=\d+/g, '')`: the length of a match at the start of a text
abbrev seclevel : Text
seclevel = codes "@SECLEVEL="

abbrev count_digits : Text → ℕ
count_digits [] = 0
count_digits (c ∷ s) = if is_digit c then suc (count_digits s) else 0

abbrev match_seclevel : Text → ℕ
match_seclevel s =
    if starts_with s seclevel
    then elim (count_digits (drop 10 s)) [ zero ↦ 0 | suc n ↦ 10 + suc n ]
    else 0

-- The first argument is how many units of a match are still to be left out.
unfoldable pub strip_from : ℕ → Text → Text
strip_from skip [] = []
strip_from (suc skip) (c ∷ s) = strip_from skip s
strip_from zero (c ∷ s) = elim (match_seclevel (c ∷ s)) [
  | zero ↦ c ∷ strip_from 0 s
  | suc n ↦ strip_from n s
]

unfoldable pub strip_seclevel : Text → Text
strip_seclevel = strip_from 0

abbrev text_or : Text → Option Value → Text
text_or d (some (str s)) = s
text_or d _ = d

-- `resolveSecurityLevel`
unfoldable pub resolve_security_level : Fields → Fields
resolve_security_level opts = elim (number_of (get security_level opts)) [
  | none ↦ opts
  | some level ↦
      let opts₁ = delete security_level opts in
      let base = strip_seclevel (text_or (codes "DEFAULT") (get (codes "ciphers") opts₁)) in
      set (codes "ciphers") (str (base ++ (seclevel ++ to_decimal level))) opts₁
]
