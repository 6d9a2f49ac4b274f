-- ===== src/Endpoints.antt =====
-- src/endpoints/http-index.ts and src/endpoints/http: the HTTP endpoints. A handler is modelled by
-- the calls that it makes on the response and the socket, and by what it throws after them; the
-- request, with what the handlers read of it, is an `Exchange`. What they call of Node and of the
-- libraries is a `Runtime`. `Table` is the list of the endpoints, `Install` gives it to the request
-- handler of src/http-handler.ts.
pub mod Entries
pub mod Httpbin
pub mod Chained
pub mod Redirects
pub mod Bytes
pub mod Caching
pub mod Auth
pub mod Cookies
pub mod Inspect
pub mod Echo
pub mod Documents
pub mod Table
pub mod Tests
use testserver.Prelude.{
  ℕ, zero, suc, Bool, true, false, ◌&&◌, ◌||◌, not, Option, none, some, List, [], ◌∷◌, ◌++◌, map,
  Result, ok, err, if◌then◌else◌, all, drop, length, ltb, get_or, ◌>>=◌,
}
use testserver.Text.{Text, codes, starts_with, text_eq, mem_text, index_of, split}
use testserver.Text.Number.{ℤ, pos, negsuc, is_digit, parse_int}
use testserver.Chain.{Thrown, Outcome}
use testserver.Http.{Request}

-- What `JSON.stringify` is called on. Members stand in their order.
mutual
  pub data Json : Type 0 where
    null : Json
    bool : Bool → Json
    num : ℤ → Json
    str : Text → Json
    arr : Items → Json
    obj : Members → Json

  pub data Items : Type 0 where
    no_items : Items
    item : Json → Items → Items

  pub data Members : Type 0 where
    no_members : Members
    member : Text → Json → Members → Members

abbrev pub texts : List Text → Items
texts [] = no_items
texts (t ∷ ts) = item (str t) (texts ts)

-- A value of type `string | string[]`.
pub data Multi : Type 0 where
  single : Text → Multi
  several : List Text → Multi

abbrev pub json_of : Multi → Json
json_of (single t) = str t
json_of (several ts) = arr (texts ts)

abbrev pub json_members : List (Text × Multi) → Members
json_members [] = no_members
json_members ((k, v) ∷ ms) = member k (json_of v) (json_members ms)

-- The argument of `write` and `end`.
pub data Body : Type 0 where
  text : Text → Body
  bytes : List ℕ → Body

-- The socket that `error/reset` resets: the raw one under the request's socket, the one under the
-- stream that this wraps, or the request's socket.
pub data ResetTarget : Type 0 where
  underlying : ResetTarget
  wrapped_underlying : ResetTarget
  socket : ResetTarget

-- A call on the response or the socket. A status is a number or `NaN`; `F` are the numbers that
-- `parseFloat` gives.
pub data Call (F : Type 0) : Type 0 where
  set_header : Text → Multi → Call F
  write_head : Option ℤ → List (Text × Text) → Call F
  write : Body → Call F
  add_trailers : List (Text × Text) → Call F
  finish : Option Body → Call F
  write_raw : Text → Call F
  additional_headers : Option ℤ → List (Text × Multi) → Call F
  pause : F → Call F
  end_socket : Call F
  reset_socket : ResetTarget → Call F

-- The way to send an informational response that `res` has.
pub data Informing : Type 0 where
  raw_writer : Informing
  header_stream : Informing
  nothing : Informing

-- A request with its query, headers, body and trailers, and what is known of its connection.
-- `headers` are the entries of `req.headers` whose values are strings. A fingerprint is that of the
-- client hello, JA3 and JA4; `hello_json` is the annotated client hello. `received` is the data of
-- the HTTP/1 connection; for HTTP/2, `captured` are the frames of the connection and of the stream
-- that are captured already, where they are captured, and `later_frames` those that come before the
-- end of the request.
pub record Exchange : Type 0 where
  pub request : Request
  pub query : List (Text × Text)
  pub headers : List (Text × Text)
  pub input : List ℕ
  pub raw_trailers : List Text
  pub source_address : Option Text
  pub remote_address : Option Text
  pub informing : Informing
  pub has_underlying : Bool
  pub wraps_underlying : Bool
  pub fingerprint : Option (Option Text × Option Text)
  pub hello_json : Option Text
  pub pipelining : Bool
  pub received : List (List ℕ)
  pub stream_id : Option ℕ
  pub captured : Option (List (List ℕ) × List (List ℕ))
  pub later_frames : List (List ℕ)

-- What the handlers call, with the fixed texts of the pages, the certificates for download and the
-- hash of the version. A request has one answer, so that a random UUID is one text; `random_bytes`
-- and `concat` have the number of the call or the parts, and a size that may be `NaN`.
pub record Runtime (F : Type 0) : Type 0 where
  pub stringify : Json → Text
  pub stringify_pretty : Json → Text
  pub number_text : ℤ → Text
  pub to_upper : Text → Text
  pub parse_float : Text → F
  pub is_nan : F → Bool
  pub float : ℕ → F
  pub min_float : F → F → F
  pub times : F → F → F
  pub sha256 : Text → List ℕ
  pub random_bytes : ℕ → Option ℕ → Outcome (List ℕ)
  pub concat : List (List ℕ) → Option ℕ → Outcome (List ℕ)
  pub random_uuid : Text
  pub utf8 : Text → List ℕ
  pub utf8_text : List ℕ → Text
  pub decode_utf8 : List ℕ → Option Text
  pub to_base64 : List ℕ → Text
  pub from_base64 : Text → List ℕ
  pub methods : List Text
  pub status_text : Option ℤ → Text
  pub cookie_parse : Text → Members
  pub cookie_serialize : Text → Text → Outcome Text
  pub parse_json : Text → Option Json
  pub parse_querystring : Text → Members
  pub url_text : Text → Text → Outcome Text
  pub multipart : List ℕ → Text → List (Option Text × (Option Text × List ℕ))
  pub certificate : Text → Option Text
  pub version_hash : Option Text
  pub page : Text → Text
  pub compress : Text → Text → List ℕ

-- The calls of a handler, and what it throws behind them.
abbrev pub Handled : Type 0 → Type 0
Handled F = List (Call F) × Option Thrown

abbrev pub sent : {F : Type 0} → List (Call F) → Handled F
sent calls = (calls, none)

abbrev pub on_outcome : {F A : Type 0} → Outcome A → (A → Handled F) → Handled F
on_outcome (ok a) next = next a
on_outcome (err e) next = ([], some e)

-- What an endpoint has besides its matching of paths.
pub record Handling (F : Type 0) : Type 0 where
  pub handle : Exchange → Text → Handled F
  pub needs_raw_data : Bool

-- `query.get(key)` and `query.getAll(key)`
unfoldable pub query_get : List (Text × Text) → Text → Option Text
query_get [] key = none
query_get ((k, v) ∷ q) key = if text_eq k key then some v else query_get q key

unfoldable pub query_get_all : List (Text × Text) → Text → List Text
query_get_all [] key = []
query_get_all ((k, v) ∷ q) key =
    let rest = query_get_all q key in if text_eq k key then v ∷ rest else rest

-- `new Set(query.keys())`, in the order of the first occurrences
unfoldable pub distinct : List Text → List Text → List Text
distinct seen [] = []
distinct seen (k ∷ ks) = if mem_text k seen then distinct seen ks else k ∷ distinct (k ∷ seen) ks

abbrev pub query_keys : List (Text × Text) → List Text
query_keys q = distinct [] (map (λ (e : Text × Text). e.0) q)

-- `s || d`
abbrev pub or_default : Option Text → Text → Text
or_default none d = d
or_default (some []) d = d
or_default (some (c ∷ s)) d = c ∷ s

-- `path.match(/^…\d+$/)` for a literal prefix
unfoldable pub has_count : Text → Text → Bool
has_count path prefix =
    let rest = drop (length prefix) path in
    starts_with path prefix && (ltb 0 (length rest) && all is_digit rest)

-- `path.slice(path.indexOf('/', from))`, if there is one
unfoldable pub rest_from : Text → ℕ → Option Text
rest_from path from = elim (index_of b'/' (drop from path)) [
  | none ↦ none
  | some i ↦ some (drop i (drop from path))
]

-- `` `${isHTTPS ? 'https' : 'http'}://${req.headers[':authority'] || req.headers.host}` ``
abbrev pub host_text : Option Text → Option Text → Text
host_text (some (c ∷ s)) host = c ∷ s
host_text authority none = codes "undefined"
host_text authority (some s) = s

unfoldable pub base_url : Request → Text
base_url req =
    (if req.encrypted then codes "https" else codes "http")
    ++ (codes "://" ++ host_text (req.header (codes ":authority")) (req.header (codes "host")))

-- `req.url!.split('?')[0]`
unfoldable pub url_path : Exchange → Text
url_path x = get_or (split b'?' x.request.url) 0 []

-- `parseN` of the rest of a path behind its prefix: a number from `least` to `most`
abbrev checked : Bool → Thrown → Outcome ℕ → Outcome ℕ
checked true e next = err e
checked false e next = next

abbrev in_range : Option ℤ → ℕ → ℕ → Thrown → Thrown → Outcome ℕ
in_range none least most invalid exceeds = err invalid
in_range (some (negsuc n)) least most invalid exceeds = err invalid
in_range (some (pos n)) least most invalid exceeds =
    checked (ltb n least) invalid (checked (ltb most n) exceeds (ok n))

unfoldable pub parse_n : Text → Text → ℕ → ℕ → Thrown → Thrown → Outcome ℕ
parse_n path prefix least most invalid exceeds =
    in_range (parse_int (drop (length prefix) path)) least most invalid exceeds

-- A test of a path that parses the number in it.
abbrev pub tested : Bool → Outcome ℕ → Outcome Bool
tested false parsed = ok false
tested true parsed = parsed >>= λ n. ok true

abbrev pub content_json : List (Text × Text)
content_json = (codes "content-type", codes "application/json") ∷ []

abbrev pub content_type : Text → List (Text × Text)
content_type t = (codes "content-type", t) ∷ []

module _ {F : Type 0} (R : Runtime F) where
  -- `serializeJson`
  abbrev pub serialize_json : Json → Text
  serialize_json json = R.stringify_pretty json ++ codes "\n"

  -- A number in a template.
  abbrev pub number_text : Option ℤ → Text
  number_text none = codes "NaN"
  number_text (some n) = R.number_text n
