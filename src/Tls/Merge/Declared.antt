-- ===== src/Tls/Merge/Declared.antt =====
-- What merging one contribution does to the fields that are not combined.
use mathlib.Core.List.{Memᴰ}
use testserver.Prelude.{
  ◌≡◌, refl, sym, ◌∙◌, ap, subst, Bool-cases, ◌⊎◌, inl, inr, Option, none, some, [], ◌∷◌, ok,
  bind-eq-ok, arith, if◌then◌else◌,
}
use testserver.Text.{Text, text_eq}
use testserver.Text.Laws.{text_eq_iff}
use testserver.Tls.{Value, Fields, Contribution}
use testserver.Tls.Fields.{get, set, value_eq-eq, get-set}
use testserver.Tls.Merge.{field_combiner, merge_value, merge_field, merge_fields}

-- A field that two parts may not set to different values.
abbrev pub IsExclusive : Text → Type 0
IsExclusive key = field_combiner key ≡ none

merge_value-eq-ok :
    (key : Text) (old new v : Value) → merge_value key none old new ≡ ok v → (v ≡ old) × (v ≡ new)
unfolding merge_value
merge_value-eq-ok key old new v h = ground (arith, value_eq-eq old new)

get-set_self : (key : Text) (v : Value) (fs : Fields) → get key (set key v fs) ≡ some v
get-set_self key v fs = ground (arith, get-set key key v fs, text_eq_iff key key)

-- A merge of one field writes that key alone. An exclusive field gets the new value, which is the
-- old one if there is one.
record Written (acc : Fields) (key : Text) (new : Value) (acc' : Fields) : Type 0 where
  value : Value
  wrote : acc' ≡ set key value acc
  is_new : IsExclusive key → value ≡ new
  is_old : (old : Value) → get key acc ≡ some old → IsExclusive key → value ≡ old

merge_field-Written :
    (acc : Fields) (key : Text) (new : Value) (o : Option Value) {acc' : Fields}
    → get key acc ≡ o
    → merge_field acc key new ≡ ok acc'
    → Written acc key new acc'
unfolding merge_field
merge_field-Written acc key new none e h = record {
  value = new;
  wrote = ground arith;
  is_new = λ x. refl;
  is_old = λ old p x. absurd (ground arith);
}
merge_field-Written acc key new (some old) e h =
    let (v, m, w) =
      bind-eq-ok (merge_value key (field_combiner key) old new) _ (rw (e, merge_field) at h) in
    record {
      value = v;
      wrote = ground arith;
      is_new = λ x. (merge_value-eq-ok key old new v (rw x at m)).1;
      is_old = λ old' p x. (merge_value-eq-ok key old new v (rw x at m)).0 ∙ ground arith;
    }

-- A key other than the one written keeps its value; the exclusive key that is written has it.
Written-get :
    (acc : Fields) (key k : Text) (new : Value) {acc' : Fields}
    → Written acc key new acc'
    → IsExclusive key
    → get k acc' ≡ (if text_eq key k then some new else get k acc)
Written-get acc key k new w x = rw (w.wrote, get-set key k w.value acc, w.is_new x)

-- What an exclusive field holds it keeps.
Written-kept :
    (acc : Fields) (key k : Text) (new v : Value) {acc' : Fields}
    → Written acc key new acc'
    → IsExclusive k
    → get k acc ≡ some v
    → get k acc' ≡ some v
Written-kept acc key k new v w x g = elim (Bool-cases (text_eq key k)) [
  | inl same ↦
      let p = (text_eq_iff key k).0 same in
      rw (w.wrote, get-set key k w.value acc, same)
        (ap some (w.is_old v (rw p g) (subst IsExclusive (sym p) x)))
  | inr other ↦ rw (w.wrote, get-set key k w.value acc, other) g
]

module _ (k : Text) (v : Value) (x : IsExclusive k) where
  pub merge_fields-kept :
      (fs : Contribution) (acc : Fields) {acc' : Fields}
      → merge_fields acc fs ≡ ok acc'
      → get k acc ≡ some v
      → get k acc' ≡ some v
  unfolding merge_fields
  merge_fields-kept [] acc h g = ground arith
  merge_fields-kept ((key, none) ∷ fs) acc h g = merge_fields-kept fs acc h g
  merge_fields-kept ((key, some new) ∷ fs) acc h g =
      let (mid, first, rest) = bind-eq-ok (merge_field acc key new) _ h in
      merge_fields-kept fs mid rest
        (Written-kept acc key k new v (merge_field-Written acc key new _ refl first) x g)

  declared_first :
      (fs : Contribution) (acc : Fields) {acc' : Fields}
      → merge_fields acc ((k, some v) ∷ fs) ≡ ok acc'
      → get k acc' ≡ some v
  unfolding merge_fields
  declared_first fs acc h =
      let (mid, first, rest) = bind-eq-ok (merge_field acc k v) _ h in
      let w = merge_field-Written acc k v _ refl first in
      merge_fields-kept fs mid rest (rw (w.wrote, w.is_new x) (get-set_self k v acc))

  merge_fields-rest :
      (f : Text × Option Value) (fs : Contribution) (acc : Fields) {acc' : Fields}
      → merge_fields acc (f ∷ fs) ≡ ok acc'
      → (mid : Fields) × (merge_fields mid fs ≡ ok acc')
  unfolding merge_fields
  merge_fields-rest (key, none) fs acc h = (acc, h)
  merge_fields-rest (key, some new) fs acc h =
      let (mid, first, rest) = bind-eq-ok (merge_field acc key new) _ h in (mid, rest)

  pub merge_fields-declared :
      (fs : Contribution) (acc : Fields) {acc' : Fields}
      → merge_fields acc fs ≡ ok acc'
      → Memᴰ (k, some v) fs
      → get k acc' ≡ some v
  merge_fields-declared [] acc h m = elim m [ ]
  merge_fields-declared (f ∷ fs) acc h (Memᴰ.head e) = declared_first fs acc (rw (← e) at h)
  merge_fields-declared (f ∷ fs) acc h (Memᴰ.tail m) =
      let (mid, rest) = merge_fields-rest f fs acc h in merge_fields-declared fs mid rest m

  origin_step :
      (key : Text) (new : Value) (fs : Contribution) (acc mid : Fields)
      → Written acc key new mid
      → (get k mid ≡ some v) ⊎ Memᴰ (k, some v) fs
      → (get k acc ≡ some v) ⊎ Memᴰ (k, some v) ((key, some new) ∷ fs)
  origin_step key new fs acc mid w (inr m) = inr (Memᴰ.tail m)
  origin_step key new fs acc mid w (inl g) = elim (Bool-cases (text_eq key k)) [
    | inl same ↦
        let p = (text_eq_iff key k).0 same in
        let q : some w.value ≡ some v =
          sym (rw (w.wrote, get-set key k w.value acc, same) refl) ∙ g in
        let r : w.value ≡ new = w.is_new (rw p x) in
        let e : new ≡ v = ground arith in inr (Memᴰ.head (λ i. (sym p i, some (sym e i))))
    | inr other ↦ inl (sym (rw (w.wrote, get-set key k w.value acc, other) refl) ∙ g)
  ]

  -- An exclusive field of the result was there before or is declared by the contribution.
  pub merge_fields-origin :
      (fs : Contribution) (acc : Fields) {acc' : Fields}
      → merge_fields acc fs ≡ ok acc'
      → get k acc' ≡ some v
      → (get k acc ≡ some v) ⊎ Memᴰ (k, some v) fs
  unfolding merge_fields
  merge_fields-origin [] acc h g = inl (ground arith)
  merge_fields-origin ((key, none) ∷ fs) acc h g = elim (merge_fields-origin fs acc h g) [
    | inl old ↦ inl old
    | inr m ↦ inr (Memᴰ.tail m)
  ]
  merge_fields-origin ((key, some new) ∷ fs) acc h g =
      let (mid, first, rest) = bind-eq-ok (merge_field acc key new) _ h in
      origin_step key new fs acc mid (merge_field-Written acc key new _ refl first)
        (merge_fields-origin fs mid rest g)
