-- ===== src/Connection/Processor.antt =====
-- `ConnectionProcessor`: what it does at each `readable` event of a connection. The methods that
-- node knows (`http.METHODS`) are a parameter. `toString('utf8')` of the first bytes is not written
-- out: a byte that is not ASCII becomes a character that is in no method, so that comparing bytes
-- decides alike.
use testserver.Prelude.{
  Bool, false, Option, none, some, List, [], ◌∷◌, ◌++◌, ◌==◌, ltb, min, if◌then◌else◌, length, take,
  any,
}
use testserver.Text.{Text, codes, text_eq}
use testserver.Proxy.{
  Bytes, ProxyData, ProxyResult, ProxyType, v1, v2, no_proxy, incomplete, detect_proxy_protocol,
}
use testserver.Proxy.Parse.{parse_proxy_protocol}
use testserver.Connection.Capture.{http2_preface}

-- What a connection waits for, or who has it. The data that a handler finds is the data that was
-- put back (`unshift`), or given to the capturing stream.
pub data Phase : Type 0 where
  proxy_wait : Bytes → Phase
  protocol_wait : Phase
  protocol_rearm : Phase
  to_tls : Bytes → Phase
  to_http2 : Bytes → Phase
  to_http1 : Bytes → Phase
  destroyed : Phase

pub record Connection : Type 0 where
  pub phase : Phase
  pub proxy : Option ProxyData

abbrev pub is_tls : Bytes → Bool
is_tls [] = false
is_tls (b ∷ s) = b == 0x16

-- `Buffer.equals` of the first bytes that both have
abbrev pub agrees : Bytes → Bytes → Bool
agrees s p = text_eq (take (min (length p) (length s)) s) (take (min (length p) (length s)) p)

abbrev pub is_http2 : Bytes → Bool
is_http2 s = agrees s http2_preface

abbrev pub chunk : Option Bytes → Bytes
chunk none = []
chunk (some s) = s

module _ (methods : List Text) where
  abbrev pub could_be_http : Bytes → Bool
  could_be_http s = any (λ m. agrees s (m ++ codes " ")) methods

  -- `processProtocolData`
  unfoldable pub process_protocol_data : Bytes → Phase
  process_protocol_data [] = protocol_wait
  process_protocol_data (b ∷ s) =
      if is_tls (b ∷ s)
      then to_tls (b ∷ s)
      else if is_http2 (b ∷ s)
      then to_http2 (b ∷ s)
      else if could_be_http (b ∷ s)
      then to_http1 (b ∷ s)
      else destroyed

  -- What follows once a header of version 1 or 2 is seen.
  unfoldable pub use_header : Bytes → Option ProxyResult → Connection → Connection
  use_header s none c =
      if ltb 512 (length s)
      then record c { phase = destroyed }
      else record c { phase = proxy_wait s }
  use_header s (some r) c = record {
    phase = process_protocol_data r.remaining_data;
    proxy = elim r.addresses [ none ↦ c.proxy | some a ↦ some a ];
  }

  abbrev pub header_by_type : ProxyType → Bytes → Connection → Connection
  header_by_type incomplete s c =
      if ltb 256 (length s)
      then record c { phase = process_protocol_data s }
      else record c { phase = proxy_wait s }
  header_by_type no_proxy s c = record c { phase = process_protocol_data s }
  header_by_type v1 s c = use_header s (parse_proxy_protocol s) c
  header_by_type v2 s c = use_header s (parse_proxy_protocol s) c

  -- `parseProxyProtocolHeader`, on all the data read so far
  unfoldable pub parse_proxy_protocol_header : Bytes → Connection → Connection
  parse_proxy_protocol_header [] c = record c { phase = proxy_wait [] }
  parse_proxy_protocol_header (b ∷ s) c = header_by_type (detect_proxy_protocol (b ∷ s)) (b ∷ s) c

  -- One `readable` event; `read` is what `connection.read()` gives there, if it is called. After a
  -- read of `null` in `processProtocolData` the next event only sets the listener anew.
  unfoldable pub on_readable : Option Bytes → Phase → Connection → Connection
  on_readable read (proxy_wait buffered) c = parse_proxy_protocol_header (buffered ++ chunk read) c
  on_readable none protocol_wait c = record c { phase = protocol_rearm }
  on_readable (some s) protocol_wait c = record c { phase = process_protocol_data s }
  on_readable read protocol_rearm c = record c { phase = protocol_wait }
  on_readable read (to_tls s) c = c
  on_readable read (to_http2 s) c = c
  on_readable read (to_http1 s) c = c
  on_readable read destroyed c = c

  -- `processInitialConnection` reads at once if the PROXY protocol is trusted.
  abbrev pub process_initial_connection : Bool → Option Bytes → Connection
  process_initial_connection trust read =
      if trust
      then parse_proxy_protocol_header (chunk read) (record { phase = proxy_wait []; proxy = none })
      else record { phase = process_protocol_data []; proxy = none }

  unfoldable pub run_events : List (Option Bytes) → Connection → Connection
  run_events [] c = c
  run_events (e ∷ es) c = run_events es (on_readable e c.phase c)
