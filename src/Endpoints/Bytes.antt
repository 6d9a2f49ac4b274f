-- ===== src/Endpoints/Bytes.antt =====
-- src/endpoints/http/bytes.ts, stream-bytes.ts and stream.ts: bodies of a given number of bytes or
-- lines. A loop runs on fuel: each round of the inner loop takes the length of a hash from what
-- remains, each round of the outer one at least a byte, so that the number itself is enough.
pub mod Sizes
use testserver.Prelude.{
  ℕ, zero, suc, ◌-◌, min, max, Bool, false, Option, none, some, List, [], ◌∷◌, ◌++◌, ok, err,
  length, take, if◌then◌else◌, ◌==◌,
}
use testserver.Text.{Text, codes}
use testserver.Text.Number.{ℤ, pos, negsuc, parse_int, to_decimal}
use testserver.Chain.{Thrown, status_error, Outcome, Endpoint}
use testserver.Endpoints.{
  Json, num, obj, Members, no_members, member, Call, write_head, write, finish, text, bytes,
  Exchange, Runtime, Handled, sent, on_outcome, Handling, query_get, or_default, has_count, parse_n,
  tested, url_path, content_type, content_json,
}
use testserver.Endpoints.Httpbin.{anything_data}
use testserver.Endpoints.Chained.{before}

abbrev pub max_bytes : ℕ
max_bytes = 102400

abbrev pub max_lines : ℕ
max_lines = 100

-- `parseN` of bytes.ts and stream-bytes.ts
unfoldable pub parse_bytes : Text → Text → Outcome ℕ
parse_bytes prefix path =
    parse_n path prefix 0 max_bytes (status_error 400 (codes "Invalid byte count in " ++ path))
      (status_error 400 (codes "Byte count exceeds maximum of " ++ to_decimal max_bytes))

unfoldable pub match_bytes : Text → Text → Outcome Bool
match_bytes prefix path = tested (has_count path prefix) (parse_bytes prefix path)

-- `parseN` of stream.ts
unfoldable pub parse_lines : Text → Outcome ℕ
parse_lines path =
    parse_n path (codes "/stream/") 0 max_lines
      (status_error 400 (codes "Invalid stream count in " ++ path))
      (status_error 400 (codes "Stream count exceeds maximum of " ++ to_decimal max_lines))

-- `Math.max(1, parseInt(query.get('chunk_size') || '10240', 10))`; `none` is `NaN`
abbrev pub at_least_one : Option ℤ → Option ℕ
at_least_one none = none
at_least_one (some (negsuc n)) = some 1
at_least_one (some (pos n)) = some (max 1 n)

unfoldable pub chunk_size : List (Text × Text) → Option ℕ
chunk_size query =
    at_least_one (parse_int (or_default (query_get query (codes "chunk_size")) (codes "10240")))

abbrev pub octets : List (Text × Text)
octets = content_type (codes "application/octet-stream")

module _ {F : Type 0} (R : Runtime F) where
  -- `` createHash('sha256').update(`${seed}:${counter}`).digest() ``
  abbrev pub digest : Text → ℕ → List ℕ
  digest seed counter = R.sha256 (seed ++ (codes ":" ++ to_decimal counter))

  -- The chain of hashes, with the counter behind it.
  unfoldable pub hash_parts : Text → ℕ → ℕ → ℕ → List (List ℕ) × ℕ
  hash_parts seed zero counter remaining = ([], counter)
  hash_parts seed (suc fuel) counter remaining =
      let hash = digest seed counter in
      let rest = hash_parts seed fuel (suc counter) (remaining - length hash) in
      if remaining == 0
      then ([], counter)
      else (take (min remaining (length hash)) hash ∷ rest.0, rest.1)

  -- The data of bytes.ts: seeded, or random.
  unfoldable pub data_bytes : Option Text → ℕ → Outcome (List ℕ)
  data_bytes (some seed) n = R.concat (hash_parts seed n 0 n).0 (some n)
  data_bytes none n = R.random_bytes 0 (some n)

  abbrev reply_bytes : ℕ → Outcome (List ℕ) → Handled F
  reply_bytes n made = on_outcome made λ content. sent (
      write_head (some (pos 200)) (octets ++ (codes "content-length", to_decimal n) ∷ [])
      ∷ finish (some (bytes content))
      ∷ [])

  unfoldable pub handle_bytes : Exchange → Text → Handled F
  handle_bytes x path =
      on_outcome (parse_bytes (codes "/bytes/") path)
        λ n. reply_bytes n (data_bytes (query_get x.query (codes "seed")) n)

  unfoldable pub bytes_endpoint : Endpoint (Handling F)
  bytes_endpoint = record {
    name = codes "bytesEndpoint";
    match_path = λ path prefix. match_bytes (codes "/bytes/") path;
    get_remaining_path = none;
    rest = record { handle = handle_bytes; needs_raw_data = false };
  }

  -- The chunk of a round of stream-bytes.ts, with the counter behind it. No hash is made for a size
  -- that is `NaN`. Without a seed the counter only numbers the calls of `randomBytes`.
  unfoldable pub chunk : Option Text → ℕ → Option ℕ → Outcome (List ℕ) × ℕ
  chunk (some seed) counter none = (R.concat [] none, counter)
  chunk (some seed) counter (some size) =
      let parts = hash_parts seed size counter size in (R.concat parts.0 (some size), parts.1)
  chunk none counter size = (R.random_bytes counter size, suc counter)

  abbrev pub write_then : Outcome (List ℕ) → Handled F → Handled F
  write_then (ok content) rest = before R (write (bytes content)) rest
  write_then (err e) rest = ([], some e)

  -- The loop of stream-bytes.ts and the end of the response. Behind a size that is `NaN` the
  -- remaining number is `NaN` as well, which ends the loop.
  unfoldable pub stream_chunks : Option Text → Option ℕ → ℕ → ℕ → ℕ → Handled F
  stream_chunks seed limit zero counter remaining = sent (finish none ∷ [])
  stream_chunks seed none (suc fuel) counter remaining =
      if remaining == 0
      then sent (finish none ∷ [])
      else write_then (chunk seed counter none).0 (sent (finish none ∷ []))
  stream_chunks seed (some limit) (suc fuel) counter remaining =
      let size = min remaining limit in
      let made = chunk seed counter (some size) in
      let rest = stream_chunks seed (some limit) fuel made.1 (remaining - size) in
      if remaining == 0 then sent (finish none ∷ []) else write_then made.0 rest

  unfoldable pub handle_stream_bytes : Exchange → Text → Handled F
  handle_stream_bytes x path = on_outcome (parse_bytes (codes "/stream-bytes/") path) λ n.
      before R (write_head (some (pos 200)) octets)
        (stream_chunks (query_get x.query (codes "seed")) (chunk_size x.query) n 0 n)

  unfoldable pub stream_bytes_endpoint : Endpoint (Handling F)
  stream_bytes_endpoint = record {
    name = codes "streamBytesEndpoint";
    match_path = λ path prefix. match_bytes (codes "/stream-bytes/") path;
    get_remaining_path = none;
    rest = record { handle = handle_stream_bytes; needs_raw_data = false };
  }

  -- `{ id: i, ...data }`, for data without an `id`
  abbrev with_id : ℕ → Json → Json
  with_id i (obj members) = obj (member (codes "id") (num (pos i)) members)
  with_id i j = obj (member (codes "id") (num (pos i)) no_members)

  -- The lines from number `i` on, and the end of the response.
  unfoldable pub stream_lines : Json → ℕ → ℕ → List (Call F)
  stream_lines details i zero = finish none ∷ []
  stream_lines details i (suc n) =
      write (text (R.stringify (with_id i details) ++ codes "\n")) ∷ stream_lines details (suc i) n

  -- The number is read from the URL of the request, not from the path of the endpoint.
  unfoldable pub handle_stream : Exchange → Handled F
  handle_stream x = on_outcome (parse_lines (url_path x)) λ n.
      on_outcome
        (anything_data R (some (codes "url" ∷ codes "args" ∷ codes "headers" ∷ codes "origin" ∷ []))
          x)
        λ details. sent (write_head (some (pos 200)) content_json ∷ stream_lines details 0 n)

  unfoldable pub stream_endpoint : Endpoint (Handling F)
  stream_endpoint = record {
    name = codes "streamEndpoint";
    match_path = λ path prefix. tested (has_count path (codes "/stream/")) (parse_lines path);
    get_remaining_path = none;
    rest = record { handle = λ x path. handle_stream x; needs_raw_data = false };
  }
