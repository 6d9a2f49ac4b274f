-- ===== src/Endpoints/Httpbin.antt =====
-- src/httpbin-compat.ts: the details of a request as JSON, in the format of httpbin.
-- Header values that are no strings are left out; `TypeError` is the error of a header's name with an
-- empty part.
pub mod Multidict
use testserver.Prelude.{
  ℕ, zero, suc, Bool, true, false, ◌&&◌, ◌||◌, Option, none, some, List, [], ◌∷◌, ◌++◌, map, Result,
  ok, err, ◌>>=◌, if◌then◌else◌, drop, length, ltb, ◌==◌, not, all,
}
use testserver.Text.{Text, codes, starts_with, text_eq, includes, split, join, mem_text}
use testserver.Text.Number.{pos, is_digit, to_decimal, is_white, skip_white}
use testserver.Chain.{other_error, Outcome}
use testserver.Endpoints.{
  Json, null, str, arr, obj, Items, no_items, item, Members, no_members, member, Exchange, Runtime,
  Handled, sent, on_outcome, write_head, finish, text, serialize_json, base_url, num, texts,
}
use testserver.Endpoints.Entries.{
  member_get, member_set, push_item, add_value, inherited, proto, on_array, Reduced, of_array,
  of_prototype, or_found, current_value, add_proto, add_entry, add_entries, entries_to_multidict,
}

-- `(\S+)`
abbrev until_white : Text → Text
until_white [] = []
until_white (c ∷ s) = if is_white c then [] else c ∷ until_white s

abbrev non_empty : Text → Option Text
non_empty [] = none
non_empty (c ∷ s) = some (c ∷ s)

-- `contentType.match(/;\s*boundary=(\S+)/)`
unfoldable pub boundary : Text → Option Text
boundary [] = none
boundary (c ∷ s) =
    let later = boundary s in
    let after = skip_white s in
    if c == b';' && starts_with after (codes "boundary=")
    then elim (non_empty (until_white (drop 9 after))) [ none ↦ later | some b ↦ some b ]
    else later

-- `k.split('-').map(kp => kp[0].toUpperCase() + kp.slice(1)).join('-')`
abbrev capitalize : (Text → Text) → List Text → Outcome (List Text)
capitalize to_upper [] = ok []
capitalize to_upper ([] ∷ ps) = err (other_error (codes "TypeError"))
capitalize to_upper ((c ∷ p) ∷ ps) =
    capitalize to_upper ps >>= λ qs. ok ((to_upper (c ∷ []) ++ p) ∷ qs)

unfoldable pub title_case : (Text → Text) → Text → Outcome Text
title_case to_upper k = capitalize to_upper (split b'-' k) >>= λ ps. ok (join (codes "-") ps)

abbrev title_case_all : (Text → Text) → List (Text × Text) → Outcome (List (Text × Text))
title_case_all to_upper [] = ok []
title_case_all to_upper ((k, v) ∷ hs) =
    title_case to_upper k >>= λ t. title_case_all to_upper hs >>= λ rest. ok ((t, v) ∷ rest)

unfoldable pub text_lt : Text → Text → Bool
text_lt [] [] = false
text_lt [] (b ∷ t) = true
text_lt (a ∷ s) [] = false
text_lt (a ∷ s) (b ∷ t) = ltb a b || (a == b && text_lt s t)

-- Two pairs are compared as their texts.
abbrev pair_text : Text × Text → Text
pair_text (k, v) = k ++ (codes "," ++ v)

-- The sort of the pairs, which is stable.
abbrev insert_pair : Text × Text → List (Text × Text) → List (Text × Text)
insert_pair p [] = p ∷ []
insert_pair p (q ∷ qs) =
    if text_lt (pair_text q) (pair_text p) then q ∷ insert_pair p qs else p ∷ (q ∷ qs)

unfoldable pub sort_pairs : List (Text × Text) → List (Text × Text)
sort_pairs [] = []
sort_pairs (p ∷ ps) = insert_pair p (sort_pairs ps)

abbrev pub from_pairs : Members → List (Text × Text) → Members
from_pairs ms [] = ms
from_pairs ms ((k, v) ∷ ps) = from_pairs (member_set ms k (str v)) ps

-- `rawOrigin?.replace(/^::ffff:/, '')` of the address of the PROXY header or of the socket
abbrev strip_mapped : Text → Text
strip_mapped a = if starts_with a (codes "::ffff:") then drop 7 a else a

unfoldable pub origin : Exchange → Option Text
origin x = elim x.source_address [
  | some a ↦ some (strip_mapped a)
  | none ↦ elim x.remote_address [ none ↦ none | some a ↦ some (strip_mapped a) ]
]

-- A value that is `undefined` is no member of the JSON text.
abbrev optional : Text → Option Text → Members → Members
optional k none ms = ms
optional k (some v) ms = member k (str v) ms

-- `_.pick(result, options.fieldFilter)`
abbrev pick : Members → List Text → Members
pick result [] = no_members
pick result (f ∷ fs) = elim (member_get result f) [
  | none ↦ pick result fs
  | some v ↦ member f v (pick result fs)
]

abbrev filter_fields : Option (List Text) → Members → Members
filter_fields none result = result
filter_fields (some fields) result = pick result fields

module _ {F : Type 0} (R : Runtime F) where
  -- `asJsonSafeString`
  unfoldable pub as_json_safe_string : List ℕ → Option Text → Text
  as_json_safe_string data_bytes content = elim (R.decode_utf8 data_bytes) [
    | some s ↦ s
    | none ↦
        codes "data:"
        ++ ((elim content [ none ↦ codes "application/octet-stream" | some c ↦ c ])
            ++ (codes ";base64," ++ R.to_base64 data_bytes))
  ]

  abbrev file_entries : List (Option Text × (Option Text × List ℕ)) → List (Text × Text)
  file_entries [] = []
  file_entries ((name, (type, content)) ∷ parts) =
      ((elim name [ none ↦ [] | some n ↦ n ]), as_json_safe_string content type)
      ∷ file_entries parts

  -- `getFiles`
  unfoldable pub get_files : List ℕ → Option Text → Members
  get_files body none = no_members
  get_files body (some content) =
      if includes content (codes "multipart/form-data")
      then elim (boundary content) [
        | none ↦ no_members
        | some b ↦ entries_to_multidict (file_entries (R.multipart body b))
      ]
      else no_members

  abbrev form : List ℕ → Option Text → Members
  form body none = no_members
  form body (some content) =
      if starts_with content (codes "application/x-www-form-urlencoded")
      then R.parse_querystring (R.utf8_text body)
      else no_members

  abbrev json_value : Option Json → Json
  json_value none = null
  json_value (some j) = j

  -- `buildHttpBinAnythingData`
  unfoldable pub anything_data : Option (List Text) → Exchange → Outcome Json
  anything_data fields x = R.url_text x.request.url (base_url x.request) >>= λ url.
      title_case_all R.to_upper x.headers >>= λ headers.
      let content = x.request.header (codes "content-type") in
      ok (
        obj (
          filter_fields fields (
            member (codes "args") (obj (entries_to_multidict x.query)) (
              member (codes "data") (str (as_json_safe_string x.input content)) (
                member (codes "files") (obj (get_files x.input content)) (
                  member (codes "form") (obj (form x.input content)) (
                    member (codes "headers") (obj (from_pairs no_members (sort_pairs headers))) (
                      member (codes "json") (json_value (R.parse_json (R.utf8_text x.input))) (
                        member (codes "method") (str x.request.method) (
                          optional (codes "origin") (origin x)
                            (member (codes "url") (str url) no_members)))))))))))

  -- `buildHttpBinAnythingEndpoint`
  unfoldable pub anything_endpoint : Option (List Text) → Exchange → Handled F
  anything_endpoint fields x = on_outcome (anything_data fields x) λ result. sent (
      write_head (some (pos 200)) ((codes "Content-Type", codes "application/json") ∷ [])
      ∷ finish (some (text (serialize_json R result)))
      ∷ [])
