-- ===== src/Dns.antt =====
-- src/dns-server.ts: the TXT records, and the answer to a query. The packets, which dns-packet
-- decodes and encodes, and the socket are left out; `toLowerCase` is a parameter. The shared
-- challenge store is a parameter too: `Shared` is its state, and reading it may fail.
pub mod Records
pub mod Tests
use testserver.Prelude.{
  Bool, true, false, not, ◌&&◌, Option, none, some, List, [], ◌∷◌, ◌++◌, map, if◌then◌else◌, keep,
  Result, ok, err,
}
use testserver.Text.{Text, codes, text_eq, starts_with, mem_text}

-- `Map<string, Set<string>>`, a set as the list of its values in the order of insertion
abbrev pub Records : Type 0
Records = List (Text × List Text)

abbrev pub acme_challenge_prefix : Text
acme_challenge_prefix = codes "_acme-challenge."

abbrev pub add_value : Text → List Text → List Text
add_value value values = if mem_text value values then values else values ++ value ∷ []

abbrev pub remove_value : Text → List Text → List Text
remove_value value values = keep (λ v. not (text_eq value v)) values

unfoldable pub get : Text → Records → Option (List Text)
get key [] = none
get key ((k, values) ∷ r) = if text_eq k key then some values else get key r

unfoldable pub add : Text → Text → Records → Records
add key value [] = (key, value ∷ []) ∷ []
add key value ((k, values) ∷ r) =
    let rest = add key value r in
    if text_eq k key then (k, add_value value values) ∷ r else (k, values) ∷ rest

-- The key is deleted with its last value.
abbrev pub unless_empty : Text → List Text → Records → Records
unless_empty k [] r = r
unless_empty k (v ∷ values) r = (k, v ∷ values) ∷ r

unfoldable pub remove : Text → Text → Records → Records
remove key value [] = []
remove key value ((k, values) ∷ r) =
    let rest = remove key value r in
    if text_eq k key then unless_empty k (remove_value value values) r else (k, values) ∷ rest

-- `ChallengeStore`, on a state of its own
pub record ChallengeStore (S : Type 0) : Type 0 where
  pub set : Text → Text → S → S
  pub remove_from : Text → Text → S → S
  pub get_shared : Text → S → Result Text (List Text)

-- A question of a query.
pub record Question : Type 0 where
  pub name : Text
  pub is_txt : Bool

-- `TxtAnswer`, but for its constant fields
pub record TxtAnswer : Type 0 where
  pub name : Text
  pub data_text : Text

-- `new Set(values)`
abbrev pub distinct_from : List Text → List Text → List Text
distinct_from done [] = done
distinct_from done (v ∷ values) = distinct_from (add_value v done) values

abbrev pub is_empty : Option (List Text) → Bool
is_empty none = true
is_empty (some []) = true
is_empty (some (v ∷ values)) = false

abbrev pub take_shared : Result Text (List Text) → Option (List Text) → Option (List Text)
take_shared (err e) values = values
take_shared (ok []) values = values
take_shared (ok (v ∷ shared)) values = some (distinct_from [] (v ∷ shared))

abbrev pub answers_for : Text → Option (List Text) → List TxtAnswer
answers_for name none = []
answers_for name (some values) = map (λ v. record { name = name; data_text = v }) values

module _ {S : Type 0} (to_lower_case : Text → Text) (store : Option (ChallengeStore S)) where
  abbrev pub on_store : (ChallengeStore S → S → S) → S → S
  on_store f s = elim store [ none ↦ s | some c ↦ f c s ]

  -- `setTxtRecord`
  unfoldable pub set_txt_record : Text → Text → Records × S → Records × S
  set_txt_record fqdn value (r, s) =
      let key = to_lower_case fqdn in (add key value r, on_store (λ c. c.set key value) s)

  -- `removeTxtRecord`
  unfoldable pub remove_txt_record : Text → Text → Records × S → Records × S
  remove_txt_record fqdn value (r, s) =
      let key = to_lower_case fqdn in
      (remove key value r, on_store (λ c. c.remove_from key value) s)

  -- The values of a name: on a local miss, those of the shared store for a challenge.
  abbrev pub values_of : Question → Text → Records × S → Option (List Text)
  values_of q name (r, s) =
      let values = get name r in
      elim store [
        | none ↦ values
        | some c ↦
            if q.is_txt && (is_empty values && starts_with name acme_challenge_prefix)
            then take_shared (c.get_shared name s) values
            else values
      ]

  -- `handleQuery`, from the question to the answers
  unfoldable pub handle_query : Question → Records × S → List TxtAnswer
  handle_query q state =
      if q.is_txt then answers_for q.name (values_of q (to_lower_case q.name) state) else []
