-- ===== src/Endpoints/Caching.antt =====
-- src/endpoints/http/cache.ts and etag.ts: conditional requests.
pub mod Conditions
use testserver.Prelude.{
  ℕ, Bool, true, false, ◌&&◌, ◌||◌, Option, none, some, List, [], ◌∷◌, ◌++◌, ok, err, drop, length,
  ltb, map, if◌then◌else◌, ◌==◌,
}
use testserver.Text.{Text, codes, starts_with, text_eq, mem_text, split}
use testserver.Text.Number.{ℤ, pos, parse_int, is_white, skip_white}
use testserver.Chain.{status_error, Outcome, Endpoint}
use testserver.Endpoints.{
  write_head, finish, text, Exchange, Runtime, Handled, sent, on_outcome, Handling, url_path,
  content_json, serialize_json, number_text,
}
use testserver.Endpoints.Httpbin.{anything_data}

abbrev get_fields : List Text
get_fields = codes "url" ∷ codes "args" ∷ codes "headers" ∷ codes "origin" ∷ []

-- A header that is present and not empty.
unfoldable pub has_header : Exchange → Text → Bool
has_header x name = elim (x.request.header name) [ none ↦ false | some s ↦ ltb 0 (length s) ]

abbrev trim_end : Text → Text
trim_end [] = []
trim_end (c ∷ s) = elim (trim_end s) [
  | [] ↦ if is_white c then [] else c ∷ []
  | d ∷ t ↦ c ∷ (d ∷ t)
]

-- `s.trim()`
unfoldable pub trim : Text → Text
unfolding skip_white
trim s = trim_end (skip_white s)

-- The text before a quote that ends it and holds no line terminator, which `.` does not match.
abbrev is_line_end : ℕ → Bool
is_line_end c = c == 10 || c == 13 || c == 0x2028 || c == 0x2029

abbrev before_quote : Text → Option Text
before_quote [] = none
before_quote (c ∷ []) = if c == b'"' then some [] else none
before_quote (c ∷ (d ∷ s)) =
    if is_line_end c
    then none
    else elim (before_quote (d ∷ s)) [ none ↦ none | some t ↦ some (c ∷ t) ]

abbrev or_self : Text → Option Text → Text
or_self s none = s
or_self s (some t) = t

-- `s.replace(/^"(.*)"$/, '$1')`
unfoldable pub unquote : Text → Text
unquote [] = []
unquote (c ∷ s) = if c == b'"' then or_self (c ∷ s) (before_quote s) else c ∷ s

unfoldable pub parse_etag_list : Text → List Text
parse_etag_list header = map (λ s. unquote (trim s)) (split b',' header)

-- `tags.includes(etagValue) || tags.includes('*')`
unfoldable pub covers : Text → Text → Bool
covers header value =
    let tags = parse_etag_list header in mem_text value tags || mem_text (codes "*") tags

module _ {F : Type 0} (R : Runtime F) where
  abbrev reply_data : Exchange → List (Text × Text) → Handled F
  reply_data x headers = on_outcome (anything_data R (some get_fields) x) λ details. sent (
      write_head (some (pos 200)) (content_json ++ headers)
      ∷ finish (some (text (serialize_json R details)))
      ∷ [])

  unfoldable pub handle_cache : Exchange → Handled F
  handle_cache x =
      if has_header x (codes "if-modified-since") || has_header x (codes "if-none-match")
      then sent (write_head (some (pos 304)) [] ∷ finish none ∷ [])
      else reply_data x []

  unfoldable pub cache : Endpoint (Handling F)
  cache = record {
    name = codes "cache";
    match_path = λ path prefix. ok (text_eq path (codes "/cache"));
    get_remaining_path = none;
    rest = record { handle = λ x path. handle_cache x; needs_raw_data = false };
  }

  abbrev accept_duration : Text → Option ℤ → Outcome Bool
  accept_duration path none = err (status_error 400 (codes "Invalid cache duration in " ++ path))
  accept_duration path (some n) = ok true

  unfoldable pub match_cache_age : Text → Outcome Bool
  match_cache_age path =
      if starts_with path (codes "/cache/")
      then accept_duration path (parse_int (drop 7 path))
      else ok false

  -- The duration is read from the URL of the request, not from the path of the endpoint.
  unfoldable pub handle_cache_age : Exchange → Handled F
  handle_cache_age x =
      let n = number_text R (parse_int (drop 7 (url_path x))) in
      reply_data x ((codes "cache-control", codes "public, max-age=" ++ n) ∷ [])

  unfoldable pub cache_with_age : Endpoint (Handling F)
  cache_with_age = record {
    name = codes "cacheWithAge";
    match_path = λ path prefix. match_cache_age path;
    get_remaining_path = none;
    rest = record { handle = λ x path. handle_cache_age x; needs_raw_data = false };
  }

  abbrev pub reply_etag : ℕ → Text → Handled F
  reply_etag status value =
      sent (write_head (some (pos status)) ((codes "etag", value) ∷ []) ∷ finish none ∷ [])

  abbrev pub current_data : Exchange → Text → Handled F
  current_data x value = reply_data x ((codes "etag", value) ∷ [])

  abbrev pub check_match : Exchange → Text → Option Text → Handled F
  check_match x value none = current_data x value
  check_match x value (some []) = current_data x value
  check_match x value (some (c ∷ s)) =
      if covers (c ∷ s) value then current_data x value else reply_etag 412 value

  abbrev pub check_none_match : Exchange → Text → Option Text → Handled F → Handled F
  check_none_match x value none next = next
  check_none_match x value (some []) next = next
  check_none_match x value (some (c ∷ s)) next =
      if covers (c ∷ s) value then reply_etag 304 value else next

  -- The value is read from the URL of the request, not from the path of the endpoint.
  unfoldable pub handle_etag : Exchange → Handled F
  handle_etag x =
      let value = drop 6 (url_path x) in
      check_none_match x value (x.request.header (codes "if-none-match"))
        (check_match x value (x.request.header (codes "if-match")))

  unfoldable pub etag : Endpoint (Handling F)
  etag = record {
    name = codes "etag";
    match_path = λ path prefix. ok (starts_with path (codes "/etag/") && ltb 6 (length path));
    get_remaining_path = none;
    rest = record { handle = λ x path. handle_etag x; needs_raw_data = false };
  }
