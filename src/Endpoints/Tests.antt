-- ===== src/Endpoints/Tests.antt =====
-- Requests to the endpoints, with a runtime whose hashes are three bytes long.
use testserver.Prelude.{
  inl, ℕ, zero, suc, ◌+◌, ◌*◌, ◌≡◌, refl, min, true, false, none, some, List, [], ◌∷◌, ◌++◌, length,
  take, drop, ok, err, arith, ◌↔◌, ◌||◌, if◌then◌else◌,
}
use testserver.Text.{Text, codes, split, text_eq, mem_text}
use testserver.Text.Number.{pos, parse_int, to_decimal}
use testserver.Chain.{
  status_error, other_error, find_endpoint, remaining_path, found_or_throw, resolve_from, finish,
  resolve_endpoint_chain,
}
use testserver.Chain.Failures.{Stuck}
use testserver.Endpoints
use testserver.Endpoints.{
  null, str, arr, texts, no_members, Call, write_head, write, bytes, Exchange, Runtime, Handling,
  nothing,
}
use testserver.Endpoints.Bytes.{
  parse_bytes, chunk_size, hash_parts, chunk, stream_chunks, handle_stream_bytes, octets,
  parse_lines, handle_stream,
}
use testserver.Endpoints.Bytes.Sizes.{Sized, flatten, writes, Chunks, stream_bytes-Chunks}
use testserver.Endpoints.Entries.{member_get, entries_to_multidict, add_entries, proto, member_set}
use testserver.Endpoints.Httpbin.{title_case}
use testserver.Endpoints.Httpbin.Multidict.{grouped, entries_to_multidict-grouped}
use testserver.Endpoints.Redirects.Follows.{visit, follow, redirect_n-follows}
use testserver.Endpoints.Redirects.{
  parse_redirects, match_redirect, handle_redirect, redirect_to, redirect_n, relative_redirect_n,
  absolute_redirect_n,
}
use testserver.Endpoints.Echo.{frame_to_output}
use testserver.Endpoints.Echo.Frames.{frame_to_output-whole}
use testserver.Endpoints.Auth.{authenticated, handle_basic_auth, basic_auth}
use testserver.Endpoints.Auth.Grants.{credentials_path, Presents, basic_auth_iff}
use testserver.Endpoints.Caching.{reply_etag, check_match, handle_etag}
use testserver.Endpoints.Caching.Conditions.{handle_etag-tags}
use testserver.Connection.Frames.{whole_frame, parse_frame_header}
use testserver.Endpoints.Table.{http_endpoints}
use testserver.Endpoints.Table.Progress.{http_endpoints_depth}

endpoints_run : Unit {0}
unfolding Endpoints.query_get Endpoints.query_get_all Endpoints.parse_n parse_int parse_bytes
    parse_lines handle_stream Endpoints.url_path chunk_size hash_parts chunk stream_chunks
    handle_stream_bytes to_decimal follow visit find_endpoint found_or_throw remaining_path
    resolve_from finish resolve_endpoint_chain absolute_redirect_n redirect_n redirect_to
    relative_redirect_n match_redirect parse_redirects handle_redirect Endpoints.has_count
    http_endpoints member_get member_set add_entries entries_to_multidict frame_to_output
    whole_frame parse_frame_header title_case split
endpoints_run = tt

abbrev pub zeros : ℕ → List ℕ
zeros zero = []
zeros (suc n) = 0 ∷ zeros n

-- `parse_float` reads nothing; a sum of parts is their concatenation.
abbrev pub runtime : Runtime ℕ
runtime = record {
  stringify = λ j. codes "{}";
  stringify_pretty = λ j. codes "{}";
  number_text = λ n. codes "7";
  to_upper = λ s. s;
  parse_float = λ s. 0;
  is_nan = λ f. false;
  float = λ n. n;
  min_float = min;
  times = ◌*◌;
  sha256 = λ t. 1 ∷ 2 ∷ 3 ∷ [];
  random_bytes = λ k size. elim size [ none ↦ err (status_error 500 []) | some n ↦ ok (zeros n) ];
  concat =
      λ parts size. elim size [ none ↦ err (status_error 500 []) | some n ↦ ok (flatten parts) ];
  random_uuid = codes "uuid";
  utf8 = λ s. s;
  utf8_text = λ s. s;
  decode_utf8 = some;
  to_base64 = λ s. s;
  from_base64 = λ s. s;
  methods = codes "GET" ∷ codes "POST" ∷ [];
  status_text = λ n. codes "OK";
  cookie_parse = λ s. no_members;
  cookie_serialize = λ k v. ok (k ++ v);
  parse_json = λ s. none;
  parse_querystring = λ s. no_members;
  url_text = λ s base. ok (base ++ s);
  multipart = λ body b. [];
  certificate = λ name. none;
  version_hash = none;
  page = λ name. name;
  compress = λ function s. s;
}

abbrev pub exchange_of : Text → List (Text × Text) → Exchange
exchange_of url query = record {
  request = record {
    method = codes "GET";
    url = url;
    encrypted = false;
    is_http2 = false;
    sni = none;
    header = λ name. none;
  };
  query = query;
  headers = [];
  input = [];
  raw_trailers = [];
  source_address = none;
  remote_address = none;
  informing = nothing;
  has_underlying = true;
  wraps_underlying = false;
  fingerprint = none;
  hello_json = none;
  pipelining = false;
  received = [];
  stream_id = none;
  captured = none;
  later_frames = [];
}

zeros-length : (n : ℕ) → length (zeros n) ≡ n
zeros-length zero = refl
zeros-length (suc n) = omega (arith, zeros-length n)

runtime-Sized : Sized runtime
runtime-Sized = record {
  hash_not_empty = λ t. omega arith;
  random_size = λ k n. (zeros n, refl, zeros-length n);
  concat_parts = λ parts n h. refl;
}

abbrev seeded : Exchange
seeded =
    exchange_of (codes "/stream-bytes/10")
      ((codes "seed", codes "a") ∷ (codes "chunk_size", codes "4") ∷ [])

seeded_stream : handle_stream_bytes runtime seeded (codes "/stream-bytes/10") ≡ (
  write_head (some (pos 200)) octets
      ∷ (writes ((1 ∷ 2 ∷ 3 ∷ 1 ∷ []) ∷ (1 ∷ 2 ∷ 3 ∷ 1 ∷ []) ∷ (1 ∷ 2 ∷ []) ∷ [])
          ++ Endpoints.finish none ∷ []),
  none,
)
unfolding endpoints_run
seeded_stream = refl

stream_bytes-Chunks_example :
    (chunks : List (List ℕ)) × (handle_stream_bytes runtime seeded (codes "/stream-bytes/10")
      ≡ (write_head (some (pos 200)) octets ∷ (writes chunks ++ Endpoints.finish none ∷ []), none))
    × Chunks 4 10 chunks
unfolding endpoints_run
stream_bytes-Chunks_example =
    stream_bytes-Chunks runtime runtime-Sized seeded (codes "/stream-bytes/10") 10 4 refl refl

-- `?a=1&b=2&a=3`
abbrev three_entries : List (Text × Text)
three_entries = (codes "a", codes "1") ∷ (codes "b", codes "2") ∷ (codes "a", codes "3") ∷ []

entries_to_multidict-grouped_example :
    (member_get (entries_to_multidict three_entries) (codes "a")
      ≡ grouped (Endpoints.query_get_all three_entries (codes "a")))
    × (member_get (entries_to_multidict three_entries) proto ≡ none)
unfolding endpoints_run
entries_to_multidict-grouped_example =
    entries_to_multidict-grouped three_entries (codes "a") refl refl (inl refl)

-- `?__proto__=x&length=5&1=y`: the prototype is an array, which the other keys find.
array_prototype :
    entries_to_multidict
      ((proto, codes "x") ∷ (codes "length", codes "5") ∷ (codes "1", codes "y") ∷ [])
    ≡ Endpoints.member
        (codes "length")
        (arr (Endpoints.item (Endpoints.num (pos 2)) (texts (codes "5" ∷ []))))
        (Endpoints.member
          (codes "1")
          (arr (texts (codes "x" ∷ codes "y" ∷ [])))
          Endpoints.no_members)
unfolding endpoints_run
array_prototype = refl

-- A key that `Object.prototype` has gets a list with its method in front, which is printed as null.
inherited_key :
    member_get (entries_to_multidict ((codes "toString", codes "1") ∷ [])) (codes "toString")
    ≡ some (arr (Endpoints.item null (texts (codes "1" ∷ []))))
unfolding endpoints_run
inherited_key = refl

redirect_n-follows_example :
    follow ℕ (exchange_of (codes "/redirect/3") []) 3 (codes "/redirect/" ++ to_decimal 3)
    ≡ some (codes "/get")
redirect_n-follows_example =
    redirect_n-follows ℕ (exchange_of (codes "/redirect/3") []) 3 (omega arith) (omega arith)

-- A PING frame of eight bytes, and the start of another frame.
abbrev ping : List ℕ
ping = 0 ∷ 0 ∷ 8 ∷ 6 ∷ 1 ∷ 0 ∷ 0 ∷ 0 ∷ 0 ∷ 1 ∷ 2 ∷ 3 ∷ 4 ∷ 5 ∷ 6 ∷ 7 ∷ 8 ∷ 0 ∷ 0 ∷ []

frame_to_output-whole_example :
    ((frame_to_output (take 17 ping)).stream_id ≡ 0)
    × ((frame_to_output (take 17 ping)).length_field + 9 ≡ 17)
    × (length (frame_to_output (take 17 ping)).payload_hex
        ≡ 2 * (frame_to_output (take 17 ping)).length_field)
unfolding endpoints_run
frame_to_output-whole_example = frame_to_output-whole ping 0 17 refl

abbrev no_count : Text
no_count = codes "/absolute-redirect/0"

http_endpoints_depth_example :
    Stuck
      (http_endpoints runtime)
      no_count
      none
      11
      (status_error 400 (codes "Invalid redirect count in /absolute-redirect/0"))
      (some no_count)
unfolding endpoints_run
http_endpoints_depth_example =
    http_endpoints_depth runtime no_count none
      (status_error 400 (codes "Invalid redirect count in /absolute-redirect/0")) (omega arith) refl

-- The number of lines is read from the URL: behind another endpoint it is no number.
behind_a_delay :
    handle_stream runtime (exchange_of (codes "/delay/1/stream/5") [])
    ≡ ([], some (status_error 400 (codes "Invalid stream count in /delay/1/stream/5")))
unfolding endpoints_run
behind_a_delay = refl

-- A header's name with two dashes in a row is not printed.
two_dashes : title_case (λ s. s) (codes "x--y") ≡ err (other_error (codes "TypeError"))
unfolding endpoints_run
two_dashes = refl

abbrev with_header : Text → Text → Exchange → Exchange
with_header name value x =
    let request = x.request in
    record x {
      request = record request { header = λ n. if text_eq n name then some value else none };
    }

-- Base64 is the identity here.
abbrev alice : Exchange
alice =
    with_header (codes "authorization") (codes "Basic alice:secret") (exchange_of (codes "/") [])

abbrev alice_Presents : Presents runtime alice (codes "alice") (codes "secret")
alice_Presents = ([], tt, refl)

basic_auth_iff_example :
    ((basic_auth runtime).match_path (credentials_path (codes "alice") (codes "secret")) none
      ≡ ok true)
    × ((handle_basic_auth runtime alice (credentials_path (codes "alice") (codes "secret"))
          ≡ authenticated runtime (codes "user") (codes "alice"))
        ↔ Presents runtime alice (codes "alice") (codes "secret"))
basic_auth_iff_example =
    basic_auth_iff runtime alice (codes "alice") (codes "secret") (ground arith) (ground arith)
      (omega arith) (omega arith) (ground arith)

abbrev two_tags : List Text
two_tags = codes "a" ∷ codes "b" ∷ []

abbrev tagged : Exchange
tagged =
    with_header (codes "if-none-match") (codes "\"a\", \"b\"")
      (exchange_of (codes "/etag/b?x=1") [])

handle_etag-tags_example : handle_etag runtime tagged ≡ (
    if mem_text (drop 6 (Endpoints.url_path tagged)) two_tags || mem_text (codes "*") two_tags
    then reply_etag runtime 304 (drop 6 (Endpoints.url_path tagged))
    else check_match runtime tagged
        (drop 6 (Endpoints.url_path tagged))
        (tagged.request.header (codes "if-match")))
handle_etag-tags_example = handle_etag-tags runtime tagged two_tags (λ e. cc) (ground arith) refl
