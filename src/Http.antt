-- ===== src/Http.antt =====
-- src/http-handler.ts: what is answered to an HTTP request. `Requests` is the request handler,
-- `Hosts` its redirects to a host of an untrusted root, `Recovery` the handling of what it throws.
-- `new URL`, `toLowerCase` and the text of the documentation page are parameters (`Platform`).
pub mod Cors
pub mod Hosts
pub mod Requests
pub mod Recovery
pub mod Agrees
pub mod Admits
pub mod Settles
pub mod Serves
pub mod Tests
use testserver.Prelude.{
  ℕ, Bool, true, false, Option, none, some, List, [], ◌∷◌, ◌&&◌, not, ◌==◌, if◌then◌else◌, all,
}
use testserver.Text.{Text}
use testserver.Text.Number.{is_digit}
use testserver.Tls.{Value, bool, num, str, strs}
use testserver.Chain.{Outcome}

-- What the handler reads of a request. `sni` is the server name of the client hello; `header`
-- gives the value of a header by its name.
pub record Request : Type 0 where
  pub method : Text
  pub url : Text
  pub encrypted : Bool
  pub is_http2 : Bool
  pub sni : Option Text
  pub header : Text → Option Text

-- A response without handlers: the status, headers and body, and the label of the metrics.
pub record Reply : Type 0 where
  pub label : Text
  pub status : ℕ
  pub headers : List (Text × Text)
  pub body : Text

-- The URL class and the rest that the handler calls.
pub record Platform (U : Type 0) : Type 0 where
  pub parse_url : Text → Outcome U
  pub parse_url_on : Text → Text → Outcome U
  pub hostname : U → Text
  pub pathname : U → Text
  pub to_https : U → U
  pub with_hostname : Text → U → U
  pub href : U → Text
  pub to_lower_case : Text → Text
  pub acme_challenge : Text → Option Text
  pub docs_html : Text
  pub docs_length : ℕ
  pub json : Value → Text
  pub type_error_text : Text

-- `HttpHandlerOptions`, but for the callback, which `Platform` has
pub record HandlerOptions : Type 0 where
  pub root_domain : Text
  pub using_public_ca : Bool

abbrev is_empty : Text → Bool
is_empty [] = true
is_empty (c ∷ s) = false

-- A value of an options object as a condition.
abbrev pub is_truthy_value : Option Value → Bool
is_truthy_value none = false
is_truthy_value (some (bool b)) = b
is_truthy_value (some (num n)) = not (n == 0)
is_truthy_value (some (str s)) = not (is_empty s)
is_truthy_value (some (strs ss)) = true

-- `authority.replace(/:\d+$/, '')`
unfoldable pub strip_port : Text → Text
strip_port [] = []
strip_port (c ∷ s) =
    let rest = strip_port s in
    if c == b':' && (not (is_empty s) && all is_digit s) then [] else c ∷ rest
