-- ===== src/Endpoints/Httpbin/Multidict.antt =====
-- `entriesToMultidict` of src/httpbin-compat.ts against the grouping of entries by their keys.
use mathlib.Core.List.{append-nil, append_assoc}
use testserver.Prelude.{
  ◌≡◌, refl, sym, ap, subst, ◌∙◌, true, false, Option, none, some, List, [], ◌∷◌, ◌++◌, Bool-cases,
  inl, inr, ◌⊎◌,
}
use testserver.Text.{Text, text_eq}
use testserver.Text.Laws.{text_eq_iff}
use testserver.Endpoints.{Json, str, arr, item, Members, no_members, member, texts, query_get_all}
use testserver.Endpoints.Entries.{
  member_get, member_set, push_item, add_value, or_found, of_prototype, current_value, Reduced,
  proto, add_proto, on_array, add_entry, add_entries, inherited, entries_to_multidict,
}

-- What a key with these values has: nothing, its value, or the list of its values.
abbrev pub grouped : List Text → Option Json
grouped [] = none
grouped (v ∷ []) = some (str v)
grouped (v ∷ (w ∷ vs)) = some (arr (texts (v ∷ (w ∷ vs))))

member_get-set : (ms : Members) (k : Text) (j : Json) → member_get (member_set ms k j) k ≡ some j
unfolding member_get member_set
member_get-set no_members k j = rw ((text_eq_iff k k).1 refl) refl
member_get-set (member l v ms) k j = elim (Bool-cases (text_eq l k)) [
  | inl e ↦ rw (e, e) refl
  | inr e ↦ rw (e, e) (member_get-set ms k j)
]

member_get-set_other :
    (ms : Members) (k l : Text) (j : Json)
    → text_eq l k ≡ false
    → member_get (member_set ms l j) k ≡ member_get ms k
unfolding member_get member_set
member_get-set_other no_members k l j h = rw h refl
member_get-set_other (member m v ms) k l j h = elim (Bool-cases (text_eq m l)) [
  | inl e ↦ let same : m ≡ l = (text_eq_iff m l).0 e in rw (e, same, h) refl
  | inr e ↦ elim (Bool-cases (text_eq m k)) [
    | inl f ↦ rw (e, f) refl
    | inr f ↦ rw (e, f) (member_get-set_other ms k l j h)
  ]
]

push_item-texts : (ts : List Text) (t : Text) → push_item (texts ts) (str t) ≡ texts (ts ++ t ∷ [])
push_item-texts [] t = refl
push_item-texts (s ∷ ts) t = ap (item (str s)) (push_item-texts ts t)

-- One more value for a key.
add_value-grouped :
    (ts : List Text) (t : Text) → some (add_value (grouped ts) t) ≡ grouped (ts ++ t ∷ [])
add_value-grouped [] t = refl
add_value-grouped (a ∷ []) t = refl
add_value-grouped (a ∷ (b ∷ ts)) t = ap (λ is. some (arr is)) (push_item-texts (a ∷ (b ∷ ts)) t)

-- What a key's entries find and leave is its own member: the prototype stays that of an object, or
-- the key is none of an array's.
abbrev Apart : Text → Option (List Text) → List (Text × Text) → Type 0
Apart k prototype es = ((prototype ≡ none) × (query_get_all es proto ≡ [])) ⊎ (on_array k ≡ false)

not_on_array :
    (k : Text) (prototype : Option (List Text))
    → on_array k ≡ false
    → of_prototype prototype k ≡ none
not_on_array k none h = refl
not_on_array k (some vs) h = rw h refl

of_prototype-Apart :
    (k : Text) (prototype : Option (List Text)) (es : List (Text × Text))
    → Apart k prototype es
    → of_prototype prototype k ≡ none
of_prototype-Apart k prototype es (inl (e, rest)) = rw e refl
of_prototype-Apart k prototype es (inr h) = not_on_array k prototype h

own : (o : Option Json) → or_found o none ≡ o
own none = refl
own (some j) = refl

current_value-own :
    (r : Reduced) (k : Text)
    → inherited k ≡ false
    → of_prototype r.prototype k ≡ none
    → current_value r k ≡ member_get r.members k
current_value-own r k h e = rw (e, h) (own (member_get r.members k))

-- The first entry is one for `__proto__`, or it is one for another key.
Apart-rest :
    (k l v : Text) (prototype : Option (List Text)) (es : List (Text × Text))
    → Apart k prototype ((l, v) ∷ es)
    → text_eq l proto ≡ false
    → Apart k prototype es
unfolding query_get_all
Apart-rest k l v prototype es (inl (e, rest)) n = inl (e, rw n at rest)
Apart-rest k l v prototype es (inr h) n = inr h

Apart-proto :
    (k l v : Text) (prototype : Option (List Text)) (es : List (Text × Text))
    → Apart k prototype ((l, v) ∷ es)
    → text_eq l proto ≡ true
    → on_array k ≡ false
unfolding query_get_all
Apart-proto k l v prototype es (inl (e, rest)) y = absurd (let g = rw y at rest in cc)
Apart-proto k l v prototype es (inr h) y = h

not_proto : (l k : Text) → text_eq l proto ≡ true → text_eq k proto ≡ false → text_eq l k ≡ false
not_proto l k y n = elim (Bool-cases (text_eq l k)) [
  | inl e ↦
      let same : k ≡ proto = sym ((text_eq_iff l k).0 e) ∙ (text_eq_iff l proto).0 y in
      absurd (let z = (text_eq_iff k proto).1 same in cc)
  | inr e ↦ e
]

abbrev moved : Reduced → Text → Reduced
moved r v = record { members = r.members; prototype = add_proto v r.prototype }

abbrev grown : Reduced → Text → Text → Reduced
grown r l v = record {
  members = member_set r.members l (add_value (current_value r l) v);
  prototype = r.prototype;
}

add_entry-moved : (r : Reduced) (l v : Text) → text_eq l proto ≡ true → add_entry r l v ≡ moved r v
add_entry-moved r l v y = rw y refl

add_entry-grown :
    (r : Reduced) (l v : Text) → text_eq l proto ≡ false → add_entry r l v ≡ grown r l v
add_entry-grown r l v n = rw n refl

-- The member of a key that gets a value.
grown-grouped :
    (r : Reduced) (k v : Text) (ts : List Text)
    → inherited k ≡ false
    → of_prototype r.prototype k ≡ none
    → member_get r.members k ≡ grouped ts
    → member_get (grown r k v).members k ≡ grouped (ts ++ v ∷ [])
grown-grouped r k v ts h e g =
    member_get-set r.members k (add_value (current_value r k) v)
    ∙ ap (λ o. some (add_value o v)) (current_value-own r k h e ∙ g)
    ∙ add_value-grouped ts v

add_entries-grouped :
    (es : List (Text × Text)) (r : Reduced) (k : Text) (ts : List Text)
    → inherited k ≡ false
    → text_eq k proto ≡ false
    → Apart k r.prototype es
    → member_get r.members k ≡ grouped ts
    → member_get (add_entries r es).members k ≡ grouped (ts ++ query_get_all es k)
unfolding add_entries query_get_all
add_entries-grouped [] r k ts h p a g = rw append-nil g
add_entries-grouped ((l, v) ∷ es) r k ts h p a g = elim (Bool-cases (text_eq l proto)) [
  | inl y ↦
      let off = Apart-proto k l v r.prototype es a y in
      rw (not_proto l k y p) (
        ap (λ (x : Reduced). member_get (add_entries x es).members k) (add_entry-moved r l v y)
        ∙ add_entries-grouped es (moved r v) k ts h p (inr off) g)
  | inr n ↦
      let rest = Apart-rest k l v r.prototype es a n in
      let first =
        ap (λ (x : Reduced). member_get (add_entries x es).members k) (add_entry-grown r l v n) in
      elim (Bool-cases (text_eq l k)) [
        | inl e ↦
            let found =
              grown-grouped r k v ts h (of_prototype-Apart k r.prototype ((l, v) ∷ es) a) g in
            let here =
              subst (λ x. member_get (grown r x v).members k ≡ grouped (ts ++ v ∷ []))
                (sym ((text_eq_iff l k).0 e)) found in
            rw e (
              first
              ∙ add_entries-grouped es (grown r l v) k (ts ++ v ∷ []) h p rest here
              ∙ ap grouped (append_assoc ts (v ∷ []) (query_get_all es k)))
        | inr e ↦
            let kept = member_get-set_other r.members k l (add_value (current_value r l) v) e ∙ g in
            rw e (first ∙ add_entries-grouped es (grown r l v) k ts h p rest kept)
      ]
]

add_entries-proto :
    (es : List (Text × Text)) (r : Reduced)
    → member_get r.members proto ≡ none
    → member_get (add_entries r es).members proto ≡ none
unfolding add_entries
add_entries-proto [] r g = g
add_entries-proto ((l, v) ∷ es) r g = elim (Bool-cases (text_eq l proto)) [
  | inl y ↦
      ap (λ (x : Reduced). member_get (add_entries x es).members proto) (add_entry-moved r l v y)
      ∙ add_entries-proto es (moved r v) g
  | inr n ↦
      ap (λ (x : Reduced). member_get (add_entries x es).members proto) (add_entry-grown r l v n)
      ∙ add_entries-proto es (grown r l v)
          (member_get-set_other r.members proto l (add_value (current_value r l) v) n ∙ g)
]

Apart-start :
    (es : List (Text × Text)) (k : Text)
    → (query_get_all es proto ≡ []) ⊎ (on_array k ≡ false)
    → Apart k none es
Apart-start es k (inl quiet) = inl (refl, quiet)
Apart-start es k (inr off) = inr off

-- `entriesToMultidict` gives a key what its values in the entries are: no member, the one value, or
-- the array of all its values in their order. It holds for every key that is no method of
-- `Object.prototype`, nor `__proto__`, if no entry has the key `__proto__`, or the key is no index,
-- `length` or method of an array. For the key `__proto__` there never is a member.
pub entries_to_multidict-grouped :
    (es : List (Text × Text)) (k : Text)
    → inherited k ≡ false
    → text_eq k proto ≡ false
    → (query_get_all es proto ≡ []) ⊎ (on_array k ≡ false)
    → (member_get (entries_to_multidict es) k ≡ grouped (query_get_all es k))
      × (member_get (entries_to_multidict es) proto ≡ none)
unfolding entries_to_multidict
entries_to_multidict-grouped es k h p a =
    let start : Reduced = record { members = no_members; prototype = none } in
    (
      add_entries-grouped es start k [] h p (Apart-start es k a) (unfold member_get in refl),
      add_entries-proto es start (unfold member_get in refl),
    )
