-- ===== src/Endpoints/Inspect.antt =====
-- The endpoints that answer with what they see of the request, of src/endpoints/http: anything.ts,
-- ip.ts, headers.ts, user-agent.ts, methods.ts, trailers.ts, tls-fingerprint.ts, tls-client-hello.ts
-- and base64.ts.
use testserver.Prelude.{
  ℕ, Bool, true, false, ◌&&◌, ◌||◌, not, Option, none, some, List, [], ◌∷◌, ◌++◌, ok, drop, length,
  ltb, map, keep, if◌then◌else◌, ◌==◌,
}
use testserver.Text.{Text, codes, starts_with, text_eq, mem_text, split}
use testserver.Text.Number.{pos}
use testserver.Chain.{Endpoint}
use testserver.Endpoints.{
  Json, null, bool, str, arr, obj, texts, no_members, member, Call, write_head, finish,
  add_trailers, text, bytes, Exchange, Runtime, Handled, sent, Handling, or_default, content_json,
  content_type, serialize_json,
}
use testserver.Endpoints.Httpbin.{anything_endpoint}
use testserver.Endpoints.Caching.{trim}

abbrev pub replace_unit : ℕ → ℕ → Text → Text
replace_unit a b s = map (λ c. if c == a then b else c) s

-- `encoded.replace(/-/g, '+').replace(/_/g, '/')`
unfoldable pub normalized : Text → Text
normalized encoded = replace_unit b'_' b'/' (replace_unit b'-' b'+' encoded)

-- `s.replace(/=+$/, '')`
unfoldable pub strip_padding : Text → Text
strip_padding [] = []
strip_padding (c ∷ s) = elim (strip_padding s) [
  | [] ↦ if c == b'=' then [] else c ∷ []
  | d ∷ t ↦ c ∷ (d ∷ t)
]

-- `willSendTrailers`
unfoldable pub will_send_trailers : Option Text → Bool
will_send_trailers te = mem_text (codes "trailers") (map trim (split b',' (or_default te [])))

module _ {F : Type 0} (R : Runtime F) where
  unfoldable pub anything : Endpoint (Handling F)
  anything = record {
    name = codes "anything";
    match_path = λ path prefix.
        ok (text_eq path (codes "/anything") || starts_with path (codes "/anything/"));
    get_remaining_path = none;
    rest = record { handle = λ x path. anything_endpoint R none x; needs_raw_data = false };
  }

  unfoldable pub ip : Endpoint (Handling F)
  ip = record {
    name = codes "ip";
    match_path = λ path prefix. ok (text_eq path (codes "/ip"));
    get_remaining_path = none;
    rest = record {
      handle = λ x path. anything_endpoint R (some (codes "origin" ∷ [])) x;
      needs_raw_data = false;
    };
  }

  unfoldable pub headers : Endpoint (Handling F)
  headers = record {
    name = codes "headers";
    match_path = λ path prefix. ok (text_eq path (codes "/headers"));
    get_remaining_path = none;
    rest = record {
      handle = λ x path. anything_endpoint R (some (codes "headers" ∷ [])) x;
      needs_raw_data = false;
    };
  }

  abbrev pub reply_json : Json → Handled F
  reply_json json =
      sent (
        write_head (some (pos 200)) content_json
        ∷ finish (some (text (serialize_json R json)))
        ∷ [])

  abbrev or_null : Option Text → Json
  or_null none = null
  or_null (some s) = str s

  unfoldable pub user_agent : Endpoint (Handling F)
  user_agent = record {
    name = codes "userAgent";
    match_path = λ path prefix. ok (text_eq path (codes "/user-agent"));
    get_remaining_path = none;
    rest = record {
      handle = λ x path. reply_json (
          obj (
            member (codes "user-agent") (or_null (x.request.header (codes "user-agent")))
              no_members));
      needs_raw_data = false;
    };
  }

  -- `path.slice(1).toUpperCase()`
  abbrev pub required_method : Text → Text
  required_method path = R.to_upper (drop 1 path)

  abbrev method_fields : Bool → List Text
  method_fields true = codes "url" ∷ codes "args" ∷ codes "headers" ∷ codes "origin" ∷ []
  method_fields false =
      codes "url"
      ∷ codes "args"
      ∷ codes "form"
      ∷ codes "data"
      ∷ codes "origin"
      ∷ codes "headers"
      ∷ codes "files"
      ∷ codes "json"
      ∷ []

  -- `methodHandler`
  unfoldable pub handle_method : Exchange → Text → Handled F
  handle_method x path =
      if text_eq (required_method path) x.request.method
      then anything_endpoint R (some (method_fields (text_eq (required_method path) (codes "GET"))))
          x
      else sent
          (write_head (some (pos 405)) [] ∷ finish (some (text (codes "Method Not Allowed"))) ∷ [])

  unfoldable pub get_method_endpoint : Endpoint (Handling F)
  get_method_endpoint = record {
    name = codes "getMethodEndpoint";
    match_path = λ path prefix. ok (text_eq (required_method path) (codes "GET"));
    get_remaining_path = none;
    rest = record { handle = handle_method; needs_raw_data = false };
  }

  abbrev non_get_methods : List Text
  non_get_methods = keep (λ m. not (text_eq m (codes "GET"))) R.methods

  unfoldable pub non_get_method_endpoint : Endpoint (Handling F)
  non_get_method_endpoint = record {
    name = codes "nonGetMethodEndpoint";
    match_path = λ path prefix. ok (mem_text (required_method path) non_get_methods);
    get_remaining_path = none;
    rest = record { handle = handle_method; needs_raw_data = false };
  }

  abbrev trailer_calls : Bool → List (Call F)
  trailer_calls true = add_trailers ((codes "example-trailer", codes "example value") ∷ []) ∷ []
  trailer_calls false = []

  unfoldable pub handle_trailers : Exchange → Handled F
  handle_trailers x =
      let will = will_send_trailers (x.request.header (codes "te")) in
      sent (
        write_head (some (pos 200)) ((codes "trailer", codes "example-trailer") ∷ content_json)
        ∷ (trailer_calls will
            ++ finish (
                some (
                  text (
                    serialize_json R (
                      obj (
                        member (codes "received-trailers") (arr (texts x.raw_trailers))
                          (member (codes "will-send-trailers") (bool will) no_members))))))
              ∷ []))

  unfoldable pub trailers : Endpoint (Handling F)
  trailers = record {
    name = codes "trailers";
    match_path = λ path prefix. ok (text_eq path (codes "/trailers"));
    get_remaining_path = none;
    rest = record { handle = λ x path. handle_trailers x; needs_raw_data = false };
  }

  -- `res.writeHead(status, …); res.end(JSON.stringify(json))`
  abbrev pub reply_compact : ℕ → Json → Handled F
  reply_compact code json =
      sent
        (write_head (some (pos code)) content_json ∷ finish (some (text (R.stringify json))) ∷ [])

  abbrev pub reply_error : ℕ → Text → Handled F
  reply_error code message =
      reply_compact code (obj (member (codes "error") (str message) no_members))

  abbrev reply_prints : Text → Text → Handled F
  reply_prints [] ja4 = reply_error 500 (codes "TLS fingerprint not available")
  reply_prints (c ∷ ja3) [] = reply_error 500 (codes "TLS fingerprint not available")
  reply_prints (c ∷ ja3) (d ∷ ja4) =
      reply_compact 200 (
        obj
          (member (codes "ja3") (str (c ∷ ja3)) (member (codes "ja4") (str (d ∷ ja4)) no_members)))

  unfoldable pub handle_fingerprint : Exchange → Handled F
  handle_fingerprint x = elim x.fingerprint [
    | none ↦ reply_error 400 (codes "Not a TLS connection")
    | some (ja3, ja4) ↦ reply_prints (or_default ja3 []) (or_default ja4 [])
  ]

  unfoldable pub tls_fingerprint : Endpoint (Handling F)
  tls_fingerprint = record {
    name = codes "tlsFingerprint";
    match_path = λ path prefix. ok (text_eq path (codes "/tls/fingerprint"));
    get_remaining_path = none;
    rest = record { handle = λ x path. handle_fingerprint x; needs_raw_data = false };
  }

  unfoldable pub handle_client_hello : Exchange → Handled F
  handle_client_hello x = elim x.hello_json [
    | none ↦ reply_error 400 (codes "Not a TLS connection")
    | some t ↦ sent (write_head (some (pos 200)) content_json ∷ finish (some (text t)) ∷ [])
  ]

  unfoldable pub tls_client_hello : Endpoint (Handling F)
  tls_client_hello = record {
    name = codes "tlsClientHello";
    match_path = λ path prefix. ok (text_eq path (codes "/tls/client-hello"));
    get_remaining_path = none;
    rest = record { handle = λ x path. handle_client_hello x; needs_raw_data = false };
  }

  abbrev html_utf8 : List (Text × Text)
  html_utf8 = content_type (codes "text/html; charset=utf-8")

  -- The text is decoded if encoding it again gives it back, up to the padding.
  unfoldable pub handle_base64 : Text → Handled F
  handle_base64 path =
      let encoded = normalized (drop 8 path) in
      let decoded = R.from_base64 encoded in
      if text_eq (strip_padding (R.to_base64 decoded)) (strip_padding encoded)
      then sent (write_head (some (pos 200)) html_utf8 ∷ finish (some (bytes decoded)) ∷ [])
      else sent (
          write_head (some (pos 200)) html_utf8
          ∷ finish (
              some (
                text (
                  codes
                    "Incorrect Base64 data try: SGVsbG8gd29ybGQ= which decodes to: Hello world")))
          ∷ [])

  unfoldable pub base64_decode : Endpoint (Handling F)
  base64_decode = record {
    name = codes "base64Decode";
    match_path = λ path prefix. ok (starts_with path (codes "/base64/") && ltb 8 (length path));
    get_remaining_path = none;
    rest = record { handle = λ x path. handle_base64 path; needs_raw_data = false };
  }
