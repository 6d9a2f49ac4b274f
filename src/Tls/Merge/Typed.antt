-- ===== src/Tls/Merge/Typed.antt =====
-- The fields that are combined keep their types: a list of versions, a number.
use testserver.Prelude.{
  ◌≡◌, refl, sym, ◌∙◌, inl, inr, Bool, true, false, ◌&&◌, Option, none, some, [], ◌∷◌, ok,
  bind-eq-ok, arith, if◌then◌else◌, Bool-cases,
}
use testserver.Text.{Text, text_eq}
use testserver.Text.Laws.{text_eq_iff}
use testserver.Tls.{Value, num, strs, Fields, Contribution}
use testserver.Tls.Fields.{get, set, get-set}
use testserver.Tls.Merge.{
  enabled_versions, security_level, field_combiner, merge_value, merge_field, merge_fields,
  merge_contribution,
}

abbrev is_list : Value → Bool
is_list (strs l) = true
is_list _ = false

abbrev is_number : Value → Bool
is_number (num n) = true
is_number _ = false

-- The types of `TlsOptionContribution` for the fields that are combined.
unfoldable pub fits : Text → Value → Bool
fits key v =
    if text_eq key enabled_versions
    then is_list v
    else if text_eq key security_level
    then is_number v
    else true

abbrev pub field_fits : Text × Option Value → Bool
field_fits (key, none) = true
field_fits (key, some v) = fits key v

unfoldable pub contribution_fits : Contribution → Bool
contribution_fits [] = true
contribution_fits (f ∷ fs) = field_fits f && contribution_fits fs

abbrev pub FieldsFit : Fields → Type 0
FieldsFit fs = (key : Text) (v : Value) → get key fs ≡ some v → fits key v ≡ true

merge_value-fits :
    (key : Text) (old new v : Value)
    → fits key old ≡ true
    → fits key new ≡ true
    → merge_value key (field_combiner key) old new ≡ ok v
    → fits key v ≡ true
unfolding merge_value field_combiner fits
merge_value-fits key (strs a) (strs b) v p q h = ground arith
merge_value-fits key (num a) (num b) v p q h = ground arith
merge_value-fits key old new v p q h = ground arith

set-fits :
    (key : Text) (new : Value) (acc : Fields)
    → FieldsFit acc
    → fits key new ≡ true
    → FieldsFit (set key new acc)
set-fits key new acc a q k v g = elim (Bool-cases (text_eq key k)) [
  | inl same ↦
      let p = (text_eq_iff key k).0 same in
      let r : some new ≡ some v = sym (rw (get-set key k new acc, same) refl) ∙ g in
      let e : new ≡ v = ground arith in rw (← p, ← e) q
  | inr other ↦ a k v (sym (rw (get-set key k new acc, other) refl) ∙ g)
]

merge_field-fits :
    (acc : Fields) (key : Text) (new : Value) (o : Option Value) {acc' : Fields}
    → get key acc ≡ o
    → FieldsFit acc
    → fits key new ≡ true
    → merge_field acc key new ≡ ok acc'
    → FieldsFit acc'
unfolding merge_field
merge_field-fits acc key new none {acc'} e a q h =
    let same : set key new acc ≡ acc' = ground arith in rw (← same) (set-fits key new acc a q)
merge_field-fits acc key new (some old) {acc'} e a q h =
    let (v, m, w) =
      bind-eq-ok (merge_value key (field_combiner key) old new) _ (rw (e, merge_field) at h) in
    let same : set key v acc ≡ acc' = ground arith in
    rw (← same) (set-fits key v acc a (merge_value-fits key old new v (a key old e) q m))

pub merge_fields-fits :
    (fs : Contribution) (acc : Fields) {acc' : Fields}
    → contribution_fits fs ≡ true
    → FieldsFit acc
    → merge_fields acc fs ≡ ok acc'
    → FieldsFit acc'
unfolding merge_fields contribution_fits
merge_fields-fits [] acc {acc'} t a h = let same : acc ≡ acc' = ground arith in rw (← same) a
merge_fields-fits ((key, none) ∷ fs) acc t a h = merge_fields-fits fs acc t a h
merge_fields-fits ((key, some new) ∷ fs) acc t a h =
    let (mid, first, rest) = bind-eq-ok (merge_field acc key new) _ h in
    merge_fields-fits fs mid (ground arith)
      (merge_field-fits acc key new _ refl a (ground arith) first) rest

unfoldable pub option_fits : Option Contribution → Bool
option_fits none = true
option_fits (some fs) = contribution_fits fs

pub merge_contribution-fits :
    (o : Option Contribution) (acc : Fields) {acc' : Fields}
    → option_fits o ≡ true
    → FieldsFit acc
    → merge_contribution acc o ≡ ok acc'
    → FieldsFit acc'
unfolding merge_contribution option_fits
merge_contribution-fits none acc {acc'} t a h =
    let same : acc ≡ acc' = ground arith in rw (← same) a
merge_contribution-fits (some fs) acc t a h = merge_fields-fits fs acc t a h
