-- ===== src/Endpoints/Documents.antt =====
-- The endpoints of src/endpoints/http whose answer does not depend on the request: json.ts, xml.ts,
-- html.ts, robots.txt.ts, deny.ts, example-page.ts, uuid.ts, version.ts, tls-certs.ts, encoding/*.ts
-- and error/*.ts. The texts of the pages are the runtime's; that a certificate is made once and kept
-- is left out.
use testserver.Prelude.{
  Bool, true, false, ◌&&◌, Option, none, some, List, [], ◌∷◌, ◌++◌, ok, drop, if◌then◌else◌,
}
use testserver.Text.{Text, codes, starts_with, text_eq, mem_text}
use testserver.Text.Number.{pos}
use testserver.Chain.{Endpoint}
use testserver.Endpoints.{
  Json, bool, str, arr, obj, texts, no_items, item, no_members, member, Body, text, bytes,
  ResetTarget, underlying, wrapped_underlying, socket, write_head, finish, end_socket, reset_socket,
  Exchange, Runtime, Handled, sent, Handling, content_json, content_type, serialize_json,
}
use testserver.Endpoints.Inspect.{reply_json, reply_compact}

-- `socket?.underlyingSocket ?? wrapped?.underlyingSocket ?? socket`
unfoldable pub reset_target : Exchange → ResetTarget
reset_target x =
    if x.has_underlying
    then underlying
    else if x.wraps_underlying
    then wrapped_underlying
    else socket

module _ {F : Type 0} where
  -- An endpoint of one path, whose handler reads at most the exchange.
  abbrev pub at_path : Text → Text → (Exchange → Handled F) → Endpoint (Handling F)
  at_path name path handler = record {
    name = name;
    match_path = λ p prefix. ok (text_eq p path);
    get_remaining_path = none;
    rest = record { handle = λ x p. handler x; needs_raw_data = false };
  }

  abbrev pub document : List (Text × Text) → Body → Handled F
  document hs body = sent (write_head (some (pos 200)) hs ∷ finish (some body) ∷ [])

  unfoldable pub robots_txt : Endpoint (Handling F)
  robots_txt = at_path (codes "robotsTxt") (codes "/robots.txt") λ x.
      document (content_type (codes "text/plain"))
        (text (codes "User-agent: *\nAllow: /$\nDisallow: /\n"))

  unfoldable pub close_endpoint : Endpoint (Handling F)
  close_endpoint =
      at_path (codes "closeEndpoint") (codes "/error/close") λ x. sent (end_socket ∷ [])

  -- A reset, or the destruction of the target if the reset throws.
  unfoldable pub reset_endpoint : Endpoint (Handling F)
  reset_endpoint =
      at_path (codes "resetEndpoint") (codes "/error/reset")
        λ x. sent (reset_socket (reset_target x) ∷ [])

abbrev cert_names : List Text
cert_names =
    codes "untrusted-root" ∷ codes "intermediate" ∷ codes "self-signed" ∷ codes "client-cert" ∷ []

abbrev slide : Text → Json
slide title =
    obj (member (codes "title") (str title) (member (codes "type") (str (codes "all")) no_members))

abbrev overview : Json
overview = obj (
    member (codes "items")
      (arr (
        texts (
          codes "Why <em>WonderWidgets</em> are great"
          ∷ codes "Who <em>buys</em> WonderWidgets"
          ∷ [])))
      (member (codes "title") (str (codes "Overview"))
        (member (codes "type") (str (codes "all")) no_members)))

abbrev slideshow : Json
slideshow = obj (
    member (codes "slideshow")
      (obj (
        member (codes "author") (str (codes "Yours Truly")) (
          member (codes "date") (str (codes "date of publication")) (
            member (codes "slides")
              (arr (item (slide (codes "Wake up to WonderWidgets!")) (item overview no_items)))
              (member (codes "title") (str (codes "Sample Slide Show")) no_members)))))
      no_members)

module _ {F : Type 0} (R : Runtime F) where
  unfoldable pub json : Endpoint (Handling F)
  json = at_path (codes "json") (codes "/json") λ x. reply_json R slideshow

  unfoldable pub xml : Endpoint (Handling F)
  xml =
      at_path (codes "xml") (codes "/xml")
        λ x. document (content_type (codes "application/xml")) (text (R.page (codes "xml")))

  unfoldable pub html : Endpoint (Handling F)
  html =
      at_path (codes "html") (codes "/html") λ x.
        document (content_type (codes "text/html; charset=utf-8")) (text (R.page (codes "html")))

  unfoldable pub deny : Endpoint (Handling F)
  deny =
      at_path (codes "deny") (codes "/deny")
        λ x. document (content_type (codes "text/plain")) (text (R.page (codes "deny")))

  unfoldable pub utf8_encoding : Endpoint (Handling F)
  utf8_encoding =
      at_path (codes "utf8Encoding") (codes "/encoding/utf8") λ x.
        document (content_type (codes "text/html; charset=utf-8")) (text (R.page (codes "utf8")))

  abbrev is_example : Option Text → Bool
  is_example none = false
  is_example (some prefix) = text_eq prefix (codes "example")

  unfoldable pub example_page : Endpoint (Handling F)
  example_page = record {
    name = codes "examplePage";
    match_path = λ path prefix. ok (text_eq path (codes "/") && is_example prefix);
    get_remaining_path = none;
    rest = record {
      handle =
          λ x path. document (content_type (codes "text/html")) (text (R.page (codes "example")));
      needs_raw_data = false;
    };
  }

  unfoldable pub uuid : Endpoint (Handling F)
  uuid =
      at_path (codes "uuid") (codes "/uuid")
        λ x. reply_json R (obj (member (codes "uuid") (str R.random_uuid) no_members))

  -- `process.env.VERSION_HASH || 'unknown'`
  abbrev version_hash : Option Text → Text
  version_hash none = codes "unknown"
  version_hash (some []) = codes "unknown"
  version_hash (some (c ∷ s)) = c ∷ s

  unfoldable pub version_json : Endpoint (Handling F)
  version_json = at_path (codes "versionJson") (codes "/version") λ x.
      reply_compact R 200
        (obj (member (codes "versionHash") (str (version_hash R.version_hash)) no_members))

  abbrev content_of_cert : Text → Text
  content_of_cert name =
      if text_eq name (codes "client-cert")
      then codes "application/x-pem-file"
      else codes "application/x-x509-ca-cert"

  unfoldable pub handle_tls_certificates : Text → Handled F
  handle_tls_certificates path =
      let name = drop 11 path in
      elim (R.certificate name) [
        | none ↦ sent (
            write_head (some (pos 503)) (content_type (codes "text/plain"))
            ∷ finish (some (text (codes "Certificate is not available")))
            ∷ [])
        | some pem ↦
            document
              (content_type (content_of_cert name)
                ++ (
                  codes "content-disposition",
                  codes "attachment; filename=\"testserver-" ++ (name ++ codes ".pem\""),
                )
                  ∷ [])
              (text pem)
      ]

  unfoldable pub tls_certificates : Endpoint (Handling F)
  tls_certificates = record {
    name = codes "tlsCertificates";
    match_path = λ path prefix.
        ok (starts_with path (codes "/tls/certs/") && mem_text (drop 11 path) cert_names);
    get_remaining_path = none;
    rest = record { handle = λ x path. handle_tls_certificates path; needs_raw_data = false };
  }

  abbrev encoded : Text → Body → Handled F
  encoded encoding body = document (content_json ++ (codes "content-encoding", encoding) ∷ []) body

  -- `serializeJson({ [field]: true })`, compressed by a function of zlib
  abbrev compressed : Text → Text → Body
  compressed function field =
      bytes (R.compress function (serialize_json R (obj (member field (bool true) no_members))))

  unfoldable pub gzip : Endpoint (Handling F)
  gzip =
      at_path (codes "gzip") (codes "/encoding/gzip")
        λ x. encoded (codes "gzip") (compressed (codes "gzipSync") (codes "gzipped"))

  unfoldable pub deflate : Endpoint (Handling F)
  deflate =
      at_path (codes "deflate") (codes "/encoding/deflate")
        λ x. encoded (codes "deflate") (compressed (codes "deflateSync") (codes "deflated"))

  unfoldable pub brotli : Endpoint (Handling F)
  brotli =
      at_path (codes "brotli") (codes "/encoding/brotli")
        λ x. encoded (codes "br") (compressed (codes "brotliCompressSync") (codes "brotli"))

  unfoldable pub zstd : Endpoint (Handling F)
  zstd =
      at_path (codes "zstd") (codes "/encoding/zstd")
        λ x. encoded (codes "zstd") (compressed (codes "zstdCompressSync") (codes "zstd"))

  unfoldable pub identity : Endpoint (Handling F)
  identity = at_path (codes "identity") (codes "/encoding/identity") λ x.
      encoded (codes "identity")
        (text (serialize_json R (obj (member (codes "identity") (bool true) no_members))))
