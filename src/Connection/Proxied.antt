-- ===== src/Connection/Proxied.antt =====
-- What the processor has learnt from the PROXY protocol, and how much it buffers.
use testserver.Prelude.{
  ◌≤◌, ◌≡◌, refl, subst, inl, inr, ◌⊎◌, true, false, Option, none, some, List, [], ◌∷◌, ◌++◌, ltb,
  length, arith, Bool-cases,
}
use mathlib.Core.List.{append_assoc, append-nil}
use testserver.Text.{Text}
use testserver.Proxy.{
  Bytes, ProxyData, ProxyResult, ProxyType, v1, v2, no_proxy, incomplete, detect_proxy_protocol,
  bare,
}
use testserver.Proxy.Detects.{incomplete-length}
use testserver.Proxy.Chunks.{parse_proxy_protocol-append, followed_by}
use testserver.Proxy.Parse.{parse_proxy_protocol}
use testserver.Connection.Processor.{
  Phase, proxy_wait, protocol_wait, protocol_rearm, to_tls, to_http2, to_http1, destroyed,
  Connection, process_protocol_data, use_header, header_by_type, parse_proxy_protocol_header, chunk,
  is_tls, is_http2, could_be_http, process_initial_connection, on_readable, run_events,
}

-- What holds of a connection that has read the data `s` in all: while it waits for a header it
-- buffers just this data, 512 bytes at most, and the header is not there yet. When it goes on, the
-- addresses that it has are those which `parseProxyProtocol` finds at the start of the data.
abbrev pub Knows : Bytes → Phase → Option ProxyData → Type 0
Knows s (proxy_wait buffered) proxy =
    (buffered ≡ s) × (length buffered ≤ 512) × (parse_proxy_protocol s ≡ none) × (proxy ≡ none)
Knows s destroyed proxy =
    (proxy ≡ none) ⊎ ((r : ProxyResult) × (parse_proxy_protocol s ≡ some r) × (proxy ≡ r.addresses))
Knows s _ proxy = (r : ProxyResult) × (parse_proxy_protocol s ≡ some r) × (proxy ≡ r.addresses)

abbrev Found : Bytes → Option ProxyData → Type 0
Found s proxy = (r : ProxyResult) × (parse_proxy_protocol s ≡ some r) × (proxy ≡ r.addresses)

Found-append : (s more : Bytes) (proxy : Option ProxyData) → Found s proxy → Found (s ++ more) proxy
Found-append s more proxy (r, e, p) =
    (followed_by r more, parse_proxy_protocol-append s more r e, p)

-- all the data of the events
abbrev pub received : List (Option Bytes) → Bytes
received [] = []
received (e ∷ es) = chunk e ++ received es

no_proxy-Found :
    (s : Bytes) → detect_proxy_protocol s ≡ no_proxy → parse_proxy_protocol s ≡ some (bare s)
unfolding parse_proxy_protocol
no_proxy-Found s d = rw (d, parse_proxy_protocol) refl

incomplete-none : (s : Bytes) → detect_proxy_protocol s ≡ incomplete → parse_proxy_protocol s ≡ none
unfolding parse_proxy_protocol
incomplete-none s d = rw (d, parse_proxy_protocol) refl

module _ (methods : List Text) where
  after_protocol :
      (s rest : Bytes) (proxy : Option ProxyData)
      → Found s proxy
      → Knows s (process_protocol_data methods rest) proxy
  unfolding process_protocol_data
  after_protocol s [] proxy f = f
  after_protocol s (b ∷ t) proxy f = elim (Bool-cases (is_tls (b ∷ t))) [
    | inl e ↦ rw e f
    | inr e ↦ rw e (elim (Bool-cases (is_http2 (b ∷ t))) [
      | inl e₁ ↦ rw e₁ f
      | inr e₁ ↦ rw e₁ (elim (Bool-cases (could_be_http methods (b ∷ t))) [
        | inl e₂ ↦ rw e₂ f
        | inr e₂ ↦ rw e₂ (inr f)
      ])
    ])
  ]

  use_header-Knows :
      (s : Bytes) (o : Option ProxyResult) (c : Connection)
      → parse_proxy_protocol s ≡ o
      → c.proxy ≡ none
      → Knows s (use_header methods s o c).phase (use_header methods s o c).proxy
  unfolding use_header
  use_header-Knows s none c e p = elim (Bool-cases (ltb 512 (length s))) [
    | inl big ↦ rw big (inl p)
    | inr small ↦ rw small (refl, ground arith, e, p)
  ]
  use_header-Knows s (some r) c e p = after_protocol s r.remaining_data _ (r, e, ground arith)

  header-Knows :
      (s : Bytes) (t : ProxyType) (c : Connection)
      → detect_proxy_protocol s ≡ t
      → c.proxy ≡ none
      → Knows s (header_by_type methods t s c).phase (header_by_type methods t s c).proxy
  header-Knows s v1 c d p = use_header-Knows s _ c refl p
  header-Knows s v2 c d p = use_header-Knows s _ c refl p
  header-Knows s no_proxy c d p = after_protocol s s c.proxy (bare s, no_proxy-Found s d, p)
  header-Knows s incomplete c d p =
      let few : ltb 256 (length s) ≡ false = ground (arith, incomplete-length s d) in
      rw few (refl, omega (arith, incomplete-length s d), incomplete-none s d, p)

  parse_header-Knows :
      (s : Bytes) (c : Connection)
      → c.proxy ≡ none
      → Knows s
          (parse_proxy_protocol_header methods s c).phase
          (parse_proxy_protocol_header methods s c).proxy
  unfolding parse_proxy_protocol_header
  parse_header-Knows [] c p =
      (refl, omega arith, incomplete-none [] (unfold detect_proxy_protocol in refl), p)
  parse_header-Knows (b ∷ s) c p = header-Knows (b ∷ s) _ c refl p

  on_readable-Knows :
      (s : Bytes) (read : Option Bytes) (phase : Phase) (c : Connection)
      → c.phase ≡ phase
      → Knows s phase c.proxy
      → Knows
          (s ++ chunk read)
          (on_readable methods read phase c).phase
          (on_readable methods read phase c).proxy
  unfolding on_readable
  on_readable-Knows s read (proxy_wait buffered) c e (same, _, _, p) =
      rw same (parse_header-Knows (s ++ chunk read) c p)
  on_readable-Knows s none protocol_wait c e k = Found-append s [] c.proxy k
  on_readable-Knows s (some t) protocol_wait c e k =
      after_protocol (s ++ t) t c.proxy (Found-append s t c.proxy k)
  on_readable-Knows s read protocol_rearm c e k = Found-append s (chunk read) c.proxy k
  on_readable-Knows s read (to_tls t) c e k = rw e (Found-append s (chunk read) c.proxy k)
  on_readable-Knows s read (to_http2 t) c e k = rw e (Found-append s (chunk read) c.proxy k)
  on_readable-Knows s read (to_http1 t) c e k = rw e (Found-append s (chunk read) c.proxy k)
  on_readable-Knows s read destroyed c e (inl p) = rw e (inl p)
  on_readable-Knows s read destroyed c e (inr k) =
      rw e (inr (Found-append s (chunk read) c.proxy k))

  run_events-Knows :
      (es : List (Option Bytes)) (s : Bytes) (c : Connection)
      → Knows s c.phase c.proxy
      → Knows (s ++ received es) (run_events methods es c).phase (run_events methods es c).proxy
  unfolding run_events
  run_events-Knows [] s c k = rw append-nil k
  run_events-Knows (e ∷ es) s c k =
      subst
        (λ t.
          Knows t (run_events methods es (on_readable methods e c.phase c)).phase
            (run_events methods es (on_readable methods e c.phase c)).proxy)
        (append_assoc s (chunk e) (received es))
        (run_events-Knows es (s ++ chunk e) (on_readable methods e c.phase c)
          (on_readable-Knows s e c.phase c refl k))

  -- Where the PROXY protocol is trusted, whatever the chunks are in which the data comes: a
  -- connection that still waits for a header buffers all its data, at most 512 bytes, and no header
  -- is complete in it; a connection that has gone on carries exactly the addresses that
  -- `parseProxyProtocol` finds at the start of the whole data; a destroyed connection carries no
  -- other addresses than these.
  pub process_initial_connection-Knows :
      (first : Option Bytes) (es : List (Option Bytes))
      → Knows
          (chunk first ++ received es)
          (run_events methods es (process_initial_connection methods true first)).phase
          (run_events methods es (process_initial_connection methods true first)).proxy
  process_initial_connection-Knows first es =
      run_events-Knows es (chunk first) (process_initial_connection methods true first)
        (parse_header-Knows (chunk first) (record { phase = proxy_wait []; proxy = none }) refl)
