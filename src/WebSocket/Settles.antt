-- ===== src/WebSocket/Settles.antt =====
-- How `handleWebSocketUpgrade` of src/ws-handler.ts ends: what it throws, and what it hands to the
-- ws library.
use testserver.Prelude.{
  ℕ, ◌≡◌, refl, ap, subst, ◌∙◌, ◌⊎◌, inl, inr, Option, none, some, List, [], ◌∷◌, ◌++◌, ok, err,
  ◌>>=◌, bind-eq-ok, arith,
}
use testserver.Text.{Text, codes}
use testserver.Tls.{TlsEndpoint, ConfigError}
use testserver.Chain.{Thrown, Outcome, Endpoint, Entry, resolve_endpoint_chain}
use testserver.Tls.Config.{EndpointConfig, get_endpoint_config, get_sni_prefix_parts}
use testserver.Tls.Config.Validated.{validated}
use testserver.Http.Admits.{Prefixed, prefix_cases}
use testserver.Http.{Request, Platform}
use testserver.Http.Cors.{filled}
use testserver.Http.Requests.{or_undefined}
use testserver.WebSocket.{Protocol, WsHandling}
use testserver.WebSocket.Upgrade.{
  accepted, protocol_entries, forced_header, choose, choose_protocol, resolved, hostname_prefix,
  prefix_error, upgrade_to, handle_web_socket_upgrade,
}
use testserver.WebSocket.Protocols.{Forced, protocol_entries-Silent, protocol_entries-one}

-- Inversion of a chain of two steps that throws.
bind-eq-err :
    {A B : Type 0} (m : Outcome A) (f : A → Outcome B) {e : Thrown}
    → (m >>= f) ≡ err e
    → (m ≡ err e) ⊎ ((a : A) × (m ≡ ok a) × (f a ≡ err e))
bind-eq-err (ok a) f h = inr (a, refl, h)
bind-eq-err (err t) f h = inl (ground arith)

-- The header with which a protocol is forced is not empty.
forced_header-filled :
    (header : Option Text) → (c : ℕ) × (s : Text) × (forced_header header ≡ some (c ∷ s))
forced_header-filled none = (b'_', [], refl)
forced_header-filled (some []) = (b'_', [], refl)
forced_header-filled (some (c ∷ s)) = (c, s, refl)

module _ {F : Type 0} where
  choose-err :
      (header : Option Text) (entries : List (Entry (WsHandling F))) (ps : List (Outcome Protocol))
      (e : Thrown)
      → choose header entries ps ≡ err e
      → ps ≡ err e ∷ []
  choose-err header entries [] e h = absurd (ground arith)
  choose-err header entries (ok p ∷ []) e h = absurd (ground arith)
  choose-err header entries (err t ∷ []) e h = ground arith
  choose-err header entries (p ∷ (q ∷ ps)) e h = absurd (ground arith)

  choose-ok :
      (header forced_to : Option Text) (entries es : List (Entry (WsHandling F)))
      (ps : List (Outcome Protocol)) (forced : Option Protocol)
      → protocol_entries entries ≡ ps
      → choose header entries ps ≡ ok (accepted forced forced_to es)
      → (entries ≡ es) × Forced forced forced_to entries
  choose-ok header forced_to entries es [] forced k h =
      let same : (entries ≡ es) × (forced ≡ none) = ground arith in
      (same.0, inl (same.1, protocol_entries-Silent entries k))
  choose-ok header forced_to entries es (ok p ∷ []) forced k h =
      let same : (entries ≡ es) × (forced ≡ some p) × (forced_to ≡ forced_header header) =
        ground arith in
      let (c, s, filled_in) = forced_header-filled header in
      (
        same.0,
        inr (protocol_entries-one forced forced_to p c s same.1 (same.2 ∙ filled_in) entries k),
      )
  choose-ok header forced_to entries es (err t ∷ []) forced k h = absurd (ground arith)
  choose-ok header forced_to entries es (p ∷ (q ∷ ps)) forced k h = absurd (ground arith)

  resolved-err :
      (header : Option Text) (o : Outcome (List (Entry (WsHandling F)))) (e : Thrown)
      → resolved header o ≡ err e
      → (entries : List (Entry (WsHandling F))) × (o ≡ ok entries)
        × (protocol_entries entries ≡ err e ∷ [])
  unfolding choose_protocol
  resolved-err header (ok entries) e h =
      (entries, refl, choose-err header entries (protocol_entries entries) e h)
  resolved-err header (err t) e h = absurd (ground arith)

  resolved-ok :
      (header forced_to : Option Text) (o : Outcome (List (Entry (WsHandling F))))
      (es : List (Entry (WsHandling F))) (forced : Option Protocol)
      → resolved header o ≡ ok (accepted forced forced_to es)
      → (o ≡ ok es) × Forced forced forced_to es
  unfolding choose_protocol
  resolved-ok header forced_to (ok entries) es forced h =
      let (same, given) =
        choose-ok header forced_to entries es (protocol_entries entries) forced refl h in
      (ap ok same, subst (Forced forced forced_to) same given)
  resolved-ok header forced_to (err t) es forced h = absurd (ground arith)

module _ {F U : Type 0} (P : Platform U) (root_domain : Text) (tls_endpoints : List TlsEndpoint)
    (disable_flag : Text → ℕ) (endpoints : List (Endpoint (WsHandling F))) where
  -- `new URL(req.url!, …)`
  abbrev pub url_of : Request → Outcome U
  url_of req = P.parse_url_on req.url (codes "http://" ++ or_undefined (req.header (codes "host")))

  -- The chain that is resolved for a URL.
  abbrev pub chain_of : U → Outcome (List (Entry (WsHandling F)))
  chain_of url =
      resolve_endpoint_chain endpoints (P.pathname url)
        (hostname_prefix root_domain (P.hostname url))

  upgrade_to-err :
      (req : Request) (host path : Text) (invalid : Option ConfigError) (e : Thrown)
      → upgrade_to P root_domain tls_endpoints disable_flag endpoints req host path invalid ≡ err e
      → (entries : List (Entry (WsHandling F))) × (resolve_endpoint_chain endpoints path
            (hostname_prefix root_domain host)
          ≡ ok entries)
        × (protocol_entries entries ≡ err e ∷ [])
  upgrade_to-err req host path (some t) e h = absurd (ground arith)
  upgrade_to-err req host path none e h = resolved-err _ _ e h

  upgrade_to-ok :
      (req : Request) (host path : Text) (invalid : Option ConfigError) (header : Option Text)
      (entries : List (Entry (WsHandling F))) (forced : Option Protocol)
      → upgrade_to P root_domain tls_endpoints disable_flag endpoints req host path invalid
        ≡ ok (accepted forced header entries)
      → (invalid ≡ none)
        × (resolve_endpoint_chain endpoints path (hostname_prefix root_domain host) ≡ ok entries)
        × Forced forced header entries
  upgrade_to-ok req host path (some t) header entries forced h = absurd (ground arith)
  upgrade_to-ok req host path none header entries forced h =
      let (chain, given) = resolved-ok _ header _ entries forced h in (refl, chain, given)

  -- `handleWebSocketUpgrade` throws, which its caller does not catch, only what `new URL` throws for
  -- the request, or what `getProtocol` throws in a chain in which one endpoint has it: what the
  -- chain throws is answered with a status line.
  pub handle_web_socket_upgrade-throws :
      (req : Request) (e : Thrown)
      → handle_web_socket_upgrade P root_domain tls_endpoints disable_flag endpoints req ≡ err e
      → (url_of req ≡ err e)
        ⊎ ((url : U) × (url_of req ≡ ok url)
            × ((entries : List (Entry (WsHandling F))) × (chain_of url ≡ ok entries)
                × (protocol_entries entries ≡ err e ∷ [])))
  unfolding handle_web_socket_upgrade
  handle_web_socket_upgrade-throws req e h = elim (bind-eq-err (url_of req) _ h) [
    | inl thrown ↦ inl thrown
    | inr (url, parsed, k) ↦ inr (url, parsed, upgrade_to-err req _ _ _ e k)
  ]

  -- A host that is accepted.
  abbrev pub HasParts : Text → Type 0
  HasParts host = Prefixed root_domain host (
      (config : EndpointConfig) × (get_endpoint_config disable_flag tls_endpoints
          (get_sni_prefix_parts host root_domain)
        ≡ ok config))

  prefix_error-HasParts :
      (host : Text)
      → prefix_error P root_domain tls_endpoints disable_flag endpoints host
          (filled (hostname_prefix root_domain host))
        ≡ none
      → HasParts host
  prefix_error-HasParts host h = elim (prefix_cases host root_domain) [
    | inl other ↦ inl other
    | inr (inl short) ↦ inr (inl short)
    | inr (inr (ends, (c, s, rest))) ↦
        inr (inr (validated disable_flag tls_endpoints _ (rw (ends, rest) at h)))
  ]

  -- An upgrade that is handed to the ws library has a host whose parts are accepted, where it
  -- has a prefix, and the endpoints of its path. A protocol is forced exactly if one of these
  -- gives one; then it is the only one that does, and the protocol is what it gives for its
  -- path; and the header is there without which the library would not ask for it.
  pub handle_web_socket_upgrade-Forced :
      (req : Request) (header : Option Text) (entries : List (Entry (WsHandling F)))
      (forced : Option Protocol)
      → handle_web_socket_upgrade P root_domain tls_endpoints disable_flag endpoints req
        ≡ ok (accepted forced header entries)
      → (url : U) × (url_of req ≡ ok url)
        × HasParts (P.hostname url)
        × (chain_of url ≡ ok entries)
        × Forced forced header entries
  unfolding handle_web_socket_upgrade
  handle_web_socket_upgrade-Forced req header entries forced h =
      let (url, parsed, k) = bind-eq-ok (url_of req) _ h in
      let (valid, chain, given) = upgrade_to-ok req _ _ _ header entries forced k in
      (url, parsed, prefix_error-HasParts (P.hostname url) valid, chain, given)
