-- ===== src/Endpoints/Cookies.antt =====
-- src/endpoints/http/cookies.ts and response-headers.ts: headers that the query asks for. An array
-- of raw headers is the list of its pairs; the key `__proto__`, which sets no property, is left out.
use testserver.Prelude.{
  Bool, false, ◌&&◌, ◌||◌, none, some, List, [], ◌∷◌, ◌++◌, ok, drop, length, get_or, map, ◌>>=◌,
  ◌==◌,
}
use testserver.Text.{Text, codes, starts_with, text_eq, split}
use testserver.Text.Number.{pos}
use testserver.Chain.{Outcome, Endpoint}
use testserver.Endpoints.{
  obj, no_members, member, json_members, Multi, single, several, Call, set_header, write_head,
  finish, text, Exchange, Runtime, Handled, sent, on_outcome, Handling, query_get, query_get_all,
  query_keys, or_default, content_json, serialize_json,
}

unfoldable pub match_set_cookies : Text → Bool
match_set_cookies path =
    text_eq path (codes "/cookies/set")
    || (starts_with path (codes "/cookies/set/") && length (split b'/' path) == 5)

abbrev first_value : List (Text × Text) → Text → Text × Text
first_value query key = (key, or_default (query_get query key) [])

-- `cookiesToSet`
abbrev cookies_of : List (Text × Text) → List Text → List (Text × Text)
cookies_of query [] = map (first_value query) (query_keys query)
cookies_of query (key ∷ rest) = (key, get_or rest 0 []) ∷ []

unfoldable pub cookies_to_set : List (Text × Text) → Text → List (Text × Text)
cookies_to_set query path = cookies_of query (drop 3 (split b'/' path))

-- A key with its value, or with all its values.
abbrev multi : List Text → Multi
multi (v ∷ []) = single v
multi vs = several vs

unfoldable pub query_headers : List (Text × Text) → List (Text × Multi)
query_headers query = map (λ key. (key, multi (query_get_all query key))) (query_keys query)

module _ {F : Type 0} (R : Runtime F) where
  unfoldable pub handle_get_cookies : Exchange → Handled F
  handle_get_cookies x = sent (
      write_head (some (pos 200)) ((codes "Content-Type", codes "application/json") ∷ [])
      ∷ finish (
          some (
            text (
              serialize_json R (
                obj (
                  member (codes "cookies")
                    (obj (R.cookie_parse (or_default (x.request.header (codes "cookie")) [])))
                    no_members)))))
      ∷ [])

  unfoldable pub get_cookies : Endpoint (Handling F)
  get_cookies = record {
    name = codes "getCookies";
    match_path = λ path prefix. ok (text_eq path (codes "/cookies"));
    get_remaining_path = none;
    rest = record { handle = λ x path. handle_get_cookies x; needs_raw_data = false };
  }

  abbrev set_cookie_headers : List (Text × Text) → Outcome (List (Text × Text))
  set_cookie_headers [] = ok []
  set_cookie_headers ((key, value) ∷ cookies) = R.cookie_serialize key value >>= λ c.
      set_cookie_headers cookies >>= λ hs. ok ((codes "set-cookie", c) ∷ hs)

  abbrev redirect_to_cookies : List (Text × Text) → Handled F
  redirect_to_cookies headers = sent (
      write_head (some (pos 302)) ((codes "Location", codes "/cookies") ∷ headers)
      ∷ finish none
      ∷ [])

  unfoldable pub handle_set_cookies : Exchange → Text → Handled F
  handle_set_cookies x path =
      on_outcome (set_cookie_headers (cookies_to_set x.query path)) redirect_to_cookies

  unfoldable pub set_cookies : Endpoint (Handling F)
  set_cookies = record {
    name = codes "setCookies";
    match_path = λ path prefix. ok (match_set_cookies path);
    get_remaining_path = none;
    rest = record { handle = handle_set_cookies; needs_raw_data = false };
  }

  abbrev deleting_header : Text → Text × Text
  deleting_header key = (
    codes "set-cookie",
    key ++ codes "=; Expires=Thu, 01-Jan-1970 00:00:00 GMT; Max-Age=0; Path=/",
  )

  unfoldable pub handle_delete_cookies : Exchange → Handled F
  handle_delete_cookies x = redirect_to_cookies (map deleting_header (query_keys x.query))

  unfoldable pub delete_cookies : Endpoint (Handling F)
  delete_cookies = record {
    name = codes "deleteCookies";
    match_path = λ path prefix. ok (text_eq path (codes "/cookies/delete"));
    get_remaining_path = none;
    rest = record { handle = λ x path. handle_delete_cookies x; needs_raw_data = false };
  }

  abbrev set_headers : List (Text × Multi) → List (Call F)
  set_headers hs = map (λ (h : Text × Multi). set_header h.0 h.1) hs

  unfoldable pub handle_response_headers : Exchange → Handled F
  handle_response_headers x =
      let headers = query_headers x.query in
      sent (
        set_headers headers
        ++ write_head (some (pos 200)) content_json
          ∷ finish (some (text (serialize_json R (obj (json_members headers)))))
          ∷ [])

  unfoldable pub response_headers : Endpoint (Handling F)
  response_headers = record {
    name = codes "responseHeaders";
    match_path = λ path prefix. ok (text_eq path (codes "/response-headers"));
    get_remaining_path = none;
    rest = record { handle = λ x path. handle_response_headers x; needs_raw_data = false };
  }
