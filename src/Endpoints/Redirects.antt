-- ===== src/Endpoints/Redirects.antt =====
-- src/endpoints/http/redirect.ts: redirects to a URL of the query, and chains of redirects.
pub mod Follows
use testserver.Prelude.{
  ℕ, ◌-◌, Bool, true, false, Option, none, some, List, [], ◌∷◌, ◌++◌, ok, if◌then◌else◌, leb,
}
use testserver.Text.{Text, codes, text_eq}
use testserver.Text.Number.{ℤ, pos, parse_int, to_decimal}
use testserver.Chain.{status_error, Outcome, Endpoint}
use testserver.Endpoints.{
  Call, write_head, finish, text, Exchange, Handled, sent, on_outcome, Handling, query_get,
  or_default, has_count, parse_n, tested, base_url,
}

abbrev pub max_redirects : ℕ
max_redirects = 100

-- `parseN`
unfoldable pub parse_redirects : Text → Text → Outcome ℕ
parse_redirects path prefix =
    parse_n path prefix 1 max_redirects
      (status_error 400 (codes "Invalid redirect count in " ++ path))
      (status_error 400 (codes "Redirect count exceeds maximum of " ++ to_decimal max_redirects))

unfoldable pub match_redirect : Text → Text → Outcome Bool
match_redirect prefix path = tested (has_count path prefix) (parse_redirects path prefix)

-- The path that the answer to `n` redirects names, with the prefix of the next ones.
abbrev pub next_path : Text → ℕ → Text
next_path prefix n = if leb n 1 then codes "/get" else prefix ++ to_decimal (n - 1)

module _ {F : Type 0} where
  abbrev found : Option ℤ → Text → List (Call F)
  found code location = write_head code ((codes "location", location) ∷ []) ∷ finish none ∷ []

  abbrev redirected : Exchange → Option Text → List (Call F)
  redirected x none =
      write_head (some (pos 400)) []
      ∷ finish (some (text (codes "Missing \"url\" query parameter")))
      ∷ []
  redirected x (some []) =
      write_head (some (pos 400)) []
      ∷ finish (some (text (codes "Missing \"url\" query parameter")))
      ∷ []
  redirected x (some (c ∷ url)) =
      found (parse_int (or_default (query_get x.query (codes "status_code")) (codes "302")))
        (c ∷ url)

  unfoldable pub handle_redirect_to : Exchange → Handled F
  handle_redirect_to x = sent (redirected x (query_get x.query (codes "url")))

  unfoldable pub redirect_to : Endpoint (Handling F)
  redirect_to = record {
    name = codes "redirectTo";
    match_path = λ path prefix. ok (text_eq path (codes "/redirect-to"));
    get_remaining_path = none;
    rest = record { handle = λ x path. handle_redirect_to x; needs_raw_data = false };
  }

  -- A redirect from a path with one prefix to one with another.
  unfoldable pub handle_redirect : Text → Text → Text → Handled F
  handle_redirect prefix next path =
      on_outcome (parse_redirects path prefix) λ n. sent (found (some (pos 302)) (next_path next n))

  unfoldable pub redirect_n : Endpoint (Handling F)
  redirect_n = record {
    name = codes "redirectN";
    match_path = λ path prefix. match_redirect (codes "/redirect/") path;
    get_remaining_path = none;
    rest = record {
      handle = λ x path. handle_redirect (codes "/redirect/") (codes "/relative-redirect/") path;
      needs_raw_data = false;
    };
  }

  unfoldable pub relative_redirect_n : Endpoint (Handling F)
  relative_redirect_n = record {
    name = codes "relativeRedirectN";
    match_path = λ path prefix. match_redirect (codes "/relative-redirect/") path;
    get_remaining_path = none;
    rest = record {
      handle = λ x path.
          handle_redirect (codes "/relative-redirect/") (codes "/relative-redirect/") path;
      needs_raw_data = false;
    };
  }

  unfoldable pub handle_absolute : Exchange → Text → Handled F
  handle_absolute x path = on_outcome (parse_redirects path (codes "/absolute-redirect/")) λ n.
      sent
        (found (some (pos 302)) (base_url x.request ++ next_path (codes "/absolute-redirect/") n))

  unfoldable pub absolute_redirect_n : Endpoint (Handling F)
  absolute_redirect_n = record {
    name = codes "absoluteRedirectN";
    match_path = λ path prefix. match_redirect (codes "/absolute-redirect/") path;
    get_remaining_path = none;
    rest = record { handle = handle_absolute; needs_raw_data = false };
  }
