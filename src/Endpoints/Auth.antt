-- ===== src/Endpoints/Auth.antt =====
-- src/endpoints/http/basic-auth.ts, hidden-basic-auth.ts and bearer.ts: authentication.
pub mod Grants
use testserver.Prelude.{
  ℕ, Bool, true, false, ◌&&◌, Option, none, some, List, [], ◌∷◌, ◌++◌, ok, drop, length, ltb,
  get_or, if◌then◌else◌,
}
use testserver.Text.{Text, codes, starts_with, text_eq, split}
use testserver.Text.Number.{pos}
use testserver.Chain.{Endpoint}
use testserver.Endpoints.{
  Json, bool, str, obj, no_members, member, Call, write_head, finish, text, Exchange, Runtime,
  Handled, sent, Handling, content_json, serialize_json,
}

-- `path.match(/^…([^\/]+)\/([^\/]+)$/)` for a literal prefix
abbrev pub two_parts : List Text → Bool
two_parts (u ∷ (p ∷ [])) = ltb 0 (length u) && ltb 0 (length p)
two_parts parts = false

unfoldable pub match_credentials : Text → Text → Bool
match_credentials prefix path =
    starts_with path prefix && two_parts (split b'/' (drop (length prefix) path))

-- `const [username, password] = path.split('/').slice(2)`
abbrev pub username : Text → Text
username path = get_or (split b'/' path) 2 []

abbrev pub password : Text → Text
password path = get_or (split b'/' path) 3 []

-- `const [authType, authValue] = authHeader.split(' ')`
abbrev pub is_basic : List Text → Text → Bool
is_basic [] expected = false
is_basic (type ∷ []) expected = false
is_basic (type ∷ (value ∷ rest)) expected = text_eq type (codes "Basic") && text_eq value expected

module _ {F : Type 0} (R : Runtime F) where
  abbrev pub check_header : Option Text → Text → Text → Bool
  check_header none name secret = false
  check_header (some []) name secret = false
  check_header (some (c ∷ header)) name secret =
      is_basic (split b' ' (c ∷ header)) (R.to_base64 (R.utf8 (name ++ (codes ":" ++ secret))))

  -- `checkBasicAuth`
  unfoldable pub check_basic_auth : Exchange → Text → Text → Bool
  check_basic_auth x name secret =
      check_header (x.request.header (codes "authorization")) name secret

  abbrev pub reply_status : List (Text × Text) → ℕ → Handled F
  reply_status headers status = sent (write_head (some (pos status)) headers ∷ finish none ∷ [])

  abbrev pub authenticated : Text → Text → Handled F
  authenticated key value = sent (
      write_head (some (pos 200)) content_json
      ∷ finish (
          some (
            text (
              serialize_json R (
                obj (
                  member (codes "authenticated") (bool true)
                    (member key (str value) no_members))))))
      ∷ [])

  abbrev pub challenge : Handled F
  challenge = reply_status ((codes "www-authenticate", codes "Basic realm=\"Fake Realm\"") ∷ []) 401

  abbrev pub is_present : Option Text → Bool
  is_present none = false
  is_present (some s) = ltb 0 (length s)

  unfoldable pub handle_basic_auth : Exchange → Text → Handled F
  handle_basic_auth x path =
      if is_present (x.request.header (codes "authorization"))
      then (if check_basic_auth x (username path) (password path)
          then authenticated (codes "user") (username path)
          else reply_status [] 403)
      else challenge

  unfoldable pub basic_auth : Endpoint (Handling F)
  basic_auth = record {
    name = codes "basicAuth";
    match_path = λ path prefix. ok (match_credentials (codes "/basic-auth/") path);
    get_remaining_path = none;
    rest = record { handle = handle_basic_auth; needs_raw_data = false };
  }

  unfoldable pub handle_hidden : Exchange → Text → Handled F
  handle_hidden x path =
      if check_basic_auth x (username path) (password path)
      then authenticated (codes "user") (username path)
      else reply_status [] 404

  unfoldable pub hidden_basic_auth : Endpoint (Handling F)
  hidden_basic_auth = record {
    name = codes "hiddenBasicAuth";
    match_path = λ path prefix. ok (match_credentials (codes "/hidden-basic-auth/") path);
    get_remaining_path = none;
    rest = record { handle = handle_hidden; needs_raw_data = false };
  }

  -- The token of an `Authorization` header.
  abbrev token : Option Text → Text
  token none = []
  token (some header) = if starts_with header (codes "Bearer ") then drop 7 header else []

  abbrev with_token : Text → Handled F
  with_token [] = reply_status ((codes "www-authenticate", codes "Bearer") ∷ []) 401
  with_token (c ∷ t) = authenticated (codes "token") (c ∷ t)

  unfoldable pub handle_bearer : Exchange → Handled F
  handle_bearer x = with_token (token (x.request.header (codes "authorization")))

  unfoldable pub bearer : Endpoint (Handling F)
  bearer = record {
    name = codes "bearer";
    match_path = λ path prefix. ok (text_eq path (codes "/bearer"));
    get_remaining_path = none;
    rest = record { handle = λ x path. handle_bearer x; needs_raw_data = false };
  }
