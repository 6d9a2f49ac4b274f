-- ===== src/Dns/Records.antt =====
-- What queries find after records were set and removed.
use mathlib.Core.List.{Memᴰ}
use testserver.Prelude.{
  ◌≡◌, ◌≢◌, refl, ap, ◌∙◌, inl, inr, true, false, ◌&&◌, Option, none, some, List, [], ◌∷◌, ◌++◌,
  Bool-cases, arith,
}
use testserver.Text.{Text, text_eq, mem_text, starts_with}
use testserver.Text.Laws.{text_eq_iff}
use testserver.Dns.{
  Records, acme_challenge_prefix, add_value, remove_value, get, add, unless_empty, remove,
  ChallengeStore, Question, is_empty, answers_for, set_txt_record, remove_txt_record, values_of,
  handle_query, on_store,
}

abbrev or_none : Option (List Text) → List Text
or_none none = []
or_none (some values) = values

get-add_same :
    (key value : Text) (r : Records)
    → get key (add key value r) ≡ some (add_value value (or_none (get key r)))
unfolding get add
get-add_same key value [] = rw ((text_eq_iff key key).1 refl) refl
get-add_same key value ((k, values) ∷ r) = elim (Bool-cases (text_eq k key)) [
  | inl y ↦ rw (y, y) refl
  | inr n ↦ rw (n, n) (get-add_same key value r)
]

mem-last : (value : Text) (values : List Text) → mem_text value (values ++ value ∷ []) ≡ true
mem-last value [] = rw ((text_eq_iff value value).1 refl) refl
mem-last value (v ∷ values) = ground (arith, mem-last value values)

mem-add_value : (value : Text) (values : List Text) → mem_text value (add_value value values) ≡ true
mem-add_value value values = elim (Bool-cases (mem_text value values)) [
  | inl y ↦ rw (y, y) refl
  | inr n ↦ rw n (mem-last value values)
]

-- A removed value that was the last one to be added.
remove_value-last :
    (value : Text) (values : List Text)
    → mem_text value values ≡ false
    → remove_value value (values ++ value ∷ []) ≡ values
remove_value-last value [] h = rw ((text_eq_iff value value).1 refl) refl
remove_value-last value (v ∷ values) h =
    let n : text_eq value v ≡ false = ground arith in
    let rest : mem_text value values ≡ false = ground arith in
    rw n (ap (◌∷◌ v) (remove_value-last value values rest))

unless_empty-cons :
    (k : Text) (values : List Text) (r : Records)
    → values ≢ []
    → unless_empty k values r ≡ (k, values) ∷ r
unless_empty-cons k [] r n = absurd (n refl)
unless_empty-cons k (v ∷ values) r n = refl

remove_same :
    (k key value : Text) (values : List Text) (r : Records)
    → text_eq k key ≡ true
    → mem_text value values ≡ false
    → values ≢ []
    → remove key value ((k, add_value value values) ∷ r) ≡ (k, values) ∷ r
unfolding remove
remove_same k key value values r y m n =
    rw (m, y, remove_value-last value values m) (unless_empty-cons k values r n)

remove-add :
    (key value : Text) (r : Records)
    → mem_text value (or_none (get key r)) ≡ false
    → get key r ≢ some []
    → remove key value (add key value r) ≡ r
unfolding get add remove
remove-add key value [] h n =
    rw ((text_eq_iff key key).1 refl, (text_eq_iff value value).1 refl) refl
remove-add key value ((k, values) ∷ r) h n = elim (Bool-cases (text_eq k key)) [
  | inl y ↦ rw y (remove_same k key value values r y (rw y at h) (λ e. n (rw (y, e) refl)))
  | inr n₁ ↦ rw (n₁, n₁) (ap (◌∷◌ (k, values)) (remove-add key value r (rw n₁ at h) (rw n₁ at n)))
]

map-Memᴰ :
    (name value : Text) (values : List Text)
    → mem_text value values ≡ true
    → Memᴰ (record { name = name; data_text = value }) (answers_for name (some values))
map-Memᴰ name value [] h = absurd (ground arith)
map-Memᴰ name value (v ∷ values) h = elim (Bool-cases (text_eq value v)) [
  | inl y ↦ Memᴰ.head (rw ((text_eq_iff value v).0 y) refl)
  | inr n ↦ Memᴰ.tail (map-Memᴰ name value values (rw n at h))
]

add_value-filled :
    (value : Text) (values : List Text) → is_empty (some (add_value value values)) ≡ false
add_value-filled value [] = refl
add_value-filled value (v ∷ values) = elim (Bool-cases (mem_text value (v ∷ values))) [
  | inl y ↦ rw y refl
  | inr n ↦ rw n refl
]

values_of_local :
    {S : Type 0} (to_lower_case : Text → Text) (store : Option (ChallengeStore S)) (q : Question)
    (name : Text) (r : Records) (s : S)
    → (q.is_txt && (is_empty (get name r) && starts_with name acme_challenge_prefix)) ≡ false
    → values_of to_lower_case store q name (r, s) ≡ get name r
values_of_local to_lower_case none q name r s h = refl
values_of_local to_lower_case (some c) q name r s h = rw h refl

module _ {S : Type 0} (to_lower_case : Text → Text) (store : Option (ChallengeStore S)) where
  -- A value that was set is among the answers to a query of type TXT for the name, whatever the case
  -- of its letters and whatever the shared store holds.
  pub set_txt_record-answered :
      (fqdn value : Text) (q : Question) (r : Records) (s : S)
      → q.is_txt ≡ true
      → to_lower_case q.name ≡ to_lower_case fqdn
      → Memᴰ
          (record { name = q.name; data_text = value })
          (handle_query to_lower_case store q
            (set_txt_record to_lower_case store fqdn value (r, s)))
  unfolding handle_query set_txt_record
  set_txt_record-answered fqdn value q r s t same =
      let key = to_lower_case fqdn in
      let here = get-add_same key value r in
      let full : is_empty (get key (add key value r)) ≡ false =
        rw here (add_value-filled value (or_none (get key r))) in
      let values : values_of to_lower_case store q (to_lower_case q.name)
            (set_txt_record to_lower_case store fqdn value (r, s))
          ≡ some (add_value value (or_none (get key r))) =
        rw same (
          values_of_local to_lower_case store q key (add key value r)
            (on_store to_lower_case store (λ c. c.set key value) s) (ground arith)
          ∙ here) in
      rw (values, t) (map-Memᴰ q.name value _ (mem-add_value value (or_none (get key r))))

  -- `removeTxtRecord` undoes `setTxtRecord`: the records are as before, if the name did not have the
  -- value and was not kept without values.
  pub remove_txt_record-set_txt_record :
      (fqdn value : Text) (r : Records) (s : S)
      → mem_text value (or_none (get (to_lower_case fqdn) r)) ≡ false
      → get (to_lower_case fqdn) r ≢ some []
      → (remove_txt_record to_lower_case store fqdn value
          (set_txt_record to_lower_case store fqdn value (r, s))).0
        ≡ r
  unfolding remove_txt_record set_txt_record
  remove_txt_record-set_txt_record fqdn value r s h n = remove-add (to_lower_case fqdn) value r h n

  -- The answers for a name that is no ACME challenge do not depend on the shared store.
  pub handle_query-local :
      (q : Question) (r : Records) (s s' : S)
      → starts_with (to_lower_case q.name) acme_challenge_prefix ≡ false
      → handle_query to_lower_case store q (r, s) ≡ handle_query to_lower_case store q (r, s')
  unfolding handle_query
  handle_query-local q r s s' h =
      let off : (q.is_txt
            && (is_empty (get (to_lower_case q.name) r)
                && starts_with (to_lower_case q.name) acme_challenge_prefix))
          ≡ false =
        ground arith in
      rw
        (
          values_of_local to_lower_case store q (to_lower_case q.name) r s off,
          values_of_local to_lower_case store q (to_lower_case q.name) r s' off,
        )
        refl
