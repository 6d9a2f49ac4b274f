-- ===== src/Endpoints/Chained.antt =====
-- src/endpoints/http/status.ts, delay.ts and informational.ts: the final status, and the two
-- endpoints that other endpoints may follow.
use testserver.Prelude.{
  ℕ, Bool, true, false, ◌&&◌, not, Option, none, some, List, [], ◌∷◌, ◌++◌, ok, err, if◌then◌else◌,
  take, drop, length, leb, ltb, ◌==◌,
}
use testserver.Text.{Text, codes, starts_with, index_of}
use testserver.Text.Number.{ℤ, pos, negsuc, parse_int, to_decimal}
use testserver.Chain.{status_error, Outcome, Endpoint}
use testserver.Endpoints.{
  Json, null, num, obj, no_members, member, json_members, Multi, several, Call, write_head, finish,
  text, write_raw, additional_headers, pause, Informing, raw_writer, header_stream, nothing,
  Exchange, Runtime, Handled, sent, Handling, query_get_all, rest_from, content_json, number_text,
}
use testserver.Endpoints.Httpbin.{anything_endpoint}

-- `parseStatusCode`
unfoldable pub parse_status_code : Text → Option ℤ
parse_status_code path = parse_int (drop 8 path)

-- `path.slice(from, idx)` up to the next slash
unfoldable pub part_from : Text → ℕ → Text
part_from path from = elim (index_of b'/' (drop from path)) [
  | none ↦ drop from path
  | some i ↦ take i (drop from path)
]

-- `parseCode` of informational.ts
unfoldable pub parse_code : Text → Option ℤ
unfolding part_from
parse_code path = parse_int (part_from path 6)

-- A remaining path is never empty, so that it is true wherever it is defined.
abbrev has_rest : Option Text → Bool
has_rest none = false
has_rest (some []) = false
has_rest (some (c ∷ s)) = true

abbrev invalid_code : Text → Outcome Bool
invalid_code path = err (status_error 400 (codes "Invalid status code in " ++ path))

-- `statusCode >= 100 && statusCode < 200`
abbrev is_informational : ℕ → Bool
is_informational n = leb 100 n && ltb n 200

abbrev accept_status : Text → Option ℤ → Outcome Bool
accept_status path none = invalid_code path
accept_status path (some (negsuc n)) = ok true
accept_status path (some (pos n)) =
    if is_informational n
    then err (
        status_error 400 (
          codes "1xx codes are informational and cannot be used as a final response. "
          ++ (codes "Use /info/" ++ (to_decimal n ++ codes " instead."))))
    else ok true

unfoldable pub match_status : Text → Outcome Bool
match_status path =
    if starts_with path (codes "/status/")
    then accept_status path (parse_status_code path)
    else ok false

-- `isSupportedInformationalCode`
unfoldable pub is_supported_informational_code : ℤ → Bool
is_supported_informational_code (negsuc n) = false
is_supported_informational_code (pos n) = is_informational n && not (n == 101)

module _ {F : Type 0} (R : Runtime F) where
  unfoldable pub status : Endpoint (Handling F)
  status = record {
    name = codes "status";
    match_path = λ path prefix. match_status path;
    get_remaining_path = none;
    rest = record {
      handle = λ x path. sent (write_head (parse_status_code path) [] ∷ finish none ∷ []);
      needs_raw_data = false;
    };
  }

  unfoldable pub parse_delay_seconds : Text → F
  parse_delay_seconds path = R.parse_float (part_from path 7)

  unfoldable pub match_delay : Text → Outcome Bool
  match_delay path =
      if starts_with path (codes "/delay/")
      then (if R.is_nan (parse_delay_seconds path)
          then err (status_error 400 (codes "Invalid delay duration in " ++ path))
          else ok true)
      else ok false

  -- `Math.min(delaySeconds, 10) * 1000`
  abbrev capped_delay : F → F
  capped_delay seconds = R.times (R.min_float seconds (R.float 10)) (R.float 1000)

  abbrev default_fields : List Text
  default_fields =
      codes "url"
      ∷ codes "args"
      ∷ codes "form"
      ∷ codes "data"
      ∷ codes "origin"
      ∷ codes "headers"
      ∷ codes "files"
      ∷ []

  abbrev pub before : Call F → Handled F → Handled F
  before call (calls, thrown) = (call ∷ calls, thrown)

  unfoldable pub handle_delay : Exchange → Text → Handled F
  handle_delay x path =
      before (pause (capped_delay (parse_delay_seconds path))) (
        if has_rest (rest_from path 7)
        then sent []
        else anything_endpoint R (some default_fields) x)

  unfoldable pub delay_endpoint : Endpoint (Handling F)
  delay_endpoint = record {
    name = codes "delayEndpoint";
    match_path = λ path prefix. match_delay path;
    get_remaining_path = some (λ path. rest_from path 7);
    rest = record { handle = handle_delay; needs_raw_data = false };
  }

  abbrev accept_code : Text → Option ℤ → Outcome Bool
  accept_code path none = invalid_code path
  accept_code path (some code) =
      if is_supported_informational_code code
      then ok true
      else err (
          status_error 400 (
            R.number_text code
            ++ (codes " is not a 1xx informational status code. "
                ++ (codes "Use any code in 100-199 except 101 "
                    ++ codes "(which is reserved for protocol upgrades)."))))

  unfoldable pub match_informational : Text → Outcome Bool
  match_informational path =
      if starts_with path (codes "/info/") then accept_code path (parse_code path) else ok false

  abbrev crlf : Text
  crlf = 13 ∷ 10 ∷ []

  abbrev header_lines : Text → List Text → Text
  header_lines name [] = []
  header_lines name (v ∷ vs) = name ++ (codes ": " ++ (v ++ (crlf ++ header_lines name vs)))

  -- The headers are at most `link`, with the values of the query.
  abbrev link_headers : List Text → List (Text × Multi)
  link_headers [] = []
  link_headers (l ∷ ls) = (codes "link", several (l ∷ ls)) ∷ []

  -- `sendInformational`
  unfoldable pub send_informational : Informing → Option ℤ → List Text → Handled F
  send_informational raw_writer code links = sent (
      write_raw (
        codes "HTTP/1.1 "
        ++ (number_text R code
            ++ (codes " "
                ++ (R.status_text code ++ (crlf ++ (header_lines (codes "link") links ++ crlf))))))
      ∷ [])
  send_informational header_stream code links =
      sent (additional_headers code (link_headers links) ∷ [])
  send_informational nothing code links =
      ([], some (status_error 500 (codes "No mechanism available to send informational response")))

  abbrev code_json : Option ℤ → Json
  code_json none = null
  code_json (some n) = num n

  abbrev sent_body : Option ℤ → List Text → Text
  sent_body code links = R.stringify_pretty (
      obj (
        member (codes "sent")
          (obj (
            member (codes "code") (code_json code)
              (member (codes "headers") (obj (json_members (link_headers links))) no_members)))
          no_members))

  abbrev reply_body : Text → List (Call F)
  reply_body body =
      write_head (some (pos 200))
        (content_json ++ (codes "content-length", to_decimal (length (R.utf8 body))) ∷ [])
      ∷ finish (some (text body))
      ∷ []

  abbrev and_then : Handled F → List (Call F) → Handled F
  and_then (calls, none) more = (calls ++ more, none)
  and_then (calls, some e) more = (calls, some e)

  unfoldable pub handle_informational : Exchange → Text → Handled F
  handle_informational x path =
      let code = parse_code path in
      let links = query_get_all x.query (codes "link") in
      and_then (send_informational x.informing code links)
        (if has_rest (rest_from path 6) then [] else reply_body (sent_body code links))

  unfoldable pub informational : Endpoint (Handling F)
  informational = record {
    name = codes "informational";
    match_path = λ path prefix. match_informational path;
    get_remaining_path = some (λ path. rest_from path 6);
    rest = record { handle = handle_informational; needs_raw_data = false };
  }
