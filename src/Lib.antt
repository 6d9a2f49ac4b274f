-- ===== src/Lib.antt =====
-- testserver is an HTTP, WebSocket and TLS server for testing clients. What it does is named by the
-- address of a request: the parts of the hostname before the root domain choose TLS endpoints, which
-- configure the certificate and the TLS options, and the path chooses a chain of HTTP or WebSocket
-- endpoints. A new connection is recognised by its first bytes, after a PROXY protocol header where
-- these are trusted, and handed to the TLS, HTTP/2 or HTTP/1 handler.
--
-- Parts and files (paths from the root of the repository):
-- Chain: src/endpoint-chain.ts. `resolve_endpoint_chain` is `resolveEndpointChain`; `Chain.Spec`
--   says without the loop what a chain is.
-- Tls: src/endpoints/. `Tls.Fields` has the objects of options, as association lists in the order of
--   insertion; `Tls.Merge` is tls-merge.ts, `Tls.Endpoints` the endpoints of tls/*.ts and
--   their table, `Tls.Config` endpoint-config.ts (`getSNIPrefixParts`, `getEndpointConfig`,
--   `validateEndpointParts`).
-- Proxy: src/proxy-protocol.ts. `Proxy.V1` and `Proxy.V2` are `parseV1` and `parseV2`, `Proxy.Parse`
--   is `parseProxyProtocol`; `detectProxyProtocol` stands in `Proxy`.
-- Connection: src/process-connection.ts. `Connection.Processor` is `ConnectionProcessor`, one step
--   for a `readable` event; `Connection.Frames` and `Connection.Capture` are `DataCapturingStream`.
--   Its parser is called through `Proxy.Parse`.
-- ContextCache: src/tls-certificates/secure-context-cache.ts. `look_up` and `store` are the halves of
--   `getOrCreate` before and behind its `await`, and `ContextCache.Run` their interleavings.
-- Http: src/http-handler.ts. `Http.Requests` is the request handler of `createHttpRequestHandler`: it
--   calls `Tls.Config` to check the hostname, `Http.Hosts` (`getLocalOnlyRedirectHost`) for
--   redirects, and `Chain` for the endpoints. `Http.Cors` is `allowCORS`, and `Http.Recovery` the
--   `catch` of the two servers.
-- Dns: src/dns-server.ts. The records and the answers of `DnsServer`.
-- CertCache: src/tls-certificates/cert-cache.ts, and `calculateCertCacheKey` of cert-definitions.ts in
--   `CertCache.Keys`. `begin_fetch` and `end_fetch` are the halves of `fetchCert` around its
--   `await`, and `CertCache.Latest` is the interleavings.
-- TlsHandler: src/tls-handler.ts. `handle_connection` is `handleConnection` up to what the certificate,
--   the context and the socket are made from.
-- Endpoints: src/endpoints/http, http-index.ts and httpbin-compat.ts. A handler is the list of the calls
--   that it makes on the response and the socket, with what it throws behind them, as a function of
--   an `Exchange`. `Endpoints.Chained`, `Redirects`, `Bytes`, `Caching`, `Auth`, `Cookies`, `Inspect`,
--   `Echo` and `Documents` are the endpoints, `Endpoints.Httpbin` and `Entries` are httpbin-compat.ts, and
--   `Endpoints.Table` is `httpEndpoints`: `install` makes its entries endpoints of `Http.Requests`, by
--   performing the calls on a state. The frames that `Endpoints.Echo` prints are those of
--   `Connection.Frames`.
-- WebSocket: src/endpoints/ws and ws-index.ts, and the table `wsEndpoints`. `WebSocket.Upgrade` is
--   src/ws-handler.ts, which calls `Tls.Config` and `Chain` as the HTTP handler does.
-- Acme: src/tls-certificates/acme.ts. `Acme.resume` is `getCertificate` behind its `await` of
--   `CertCache`'s `fetchCert`, and `Acme.issue`, `Acme.revoke` and `Acme.fail` are what an attempt does
--   when the ACME client answers. `Acme.Steps` is their interleavings. `Acme.Request` is the branch of
--   `requestCertificate` that makes an order itself, with the TXT records of `Dns`.
-- Server: src/server.ts. Which certificate `generateCertificate` gives, with the keys of
--   `CertCache.Keys` and `Acme`'s `try_get_certificate_sync`.
-- Prelude, Text: lists, results that may be errors, and the string functions of JavaScript
--   that the code calls, on texts as lists of UTF-16 code units.
--
-- Conventions. A call that may throw gives a `Result`. Numbers are natural; `parseInt` gives an integer
-- or nothing for NaN. A Buffer is the list of its bytes.
--
-- Bounds and fuel. The loop of `resolveEndpointChain` recurs on the rounds that MAX_CHAIN_DEPTH leaves,
-- eleven at first, and what it does when they are used up is what the source does. The loop that
-- splits frames has as many rounds as there are bytes; a frame has nine bytes at least, so that the
-- rounds never run out (`Connection.Reassembly.enough_rounds`). The loop that evicts runs on rounds, and
-- `ContextCache.Evicts` gives a number that is enough. The search for CR LF recurs on the
-- positions left. The loops of the endpoints that send bytes take one byte at least in a round, so
-- that the number of bytes is enough (`Endpoints.Bytes.Sizes`).
--
-- Parameters: the URL class, `toLowerCase`, the ACME callback and the documentation page (the record
-- `Http.Platform`), the table of endpoints of the request handler, which `Endpoints.Table` fills, what
-- the endpoints call of node and of the libraries (the record `Endpoints.Runtime`: hashes, random
-- bytes, base64, UTF-8, zlib, cookies, `JSON`, `parseFloat`) and `decodeURIComponent`, the calls of
-- the ACME client (`Acme.Request.Client`), the challenge store of the DNS server and the certificate
-- store (records of functions on a state), the contexts and expiries that factories give, the values
-- of the OpenSSL flags, the methods of node:http, and `JSON.stringify` in error messages.
--
-- Not modelled: sockets and streams as node runs them, DNS packets, the ws library, the
-- texts of the fixed pages, the annotation of a client hello, the certificate authority, `auto` of the
-- ACME client, the implementations of the stores, the start of the server and its configuration,
-- metrics and the documentation page.
pub mod Prelude
pub mod Text
pub mod Chain
pub mod Tls
pub mod Proxy
pub mod Connection
pub mod ContextCache
pub mod Http
pub mod Dns
pub mod CertCache
pub mod TlsHandler
pub mod Endpoints
pub mod WebSocket
pub mod Acme
pub mod Server
