-- ===== src/Proxy/Parse.antt =====
-- `parseProxyProtocol` of src/proxy-protocol.ts.
use testserver.Prelude.{Option, none, some}
use testserver.Proxy.{
  Bytes, ProxyType, v1, v2, no_proxy, incomplete, ProxyResult, bare, detect_proxy_protocol,
}
use testserver.Proxy.V1.{parse_v1}
use testserver.Proxy.V2.{parse_v2}

abbrev parse_as : ProxyType → Bytes → Option ProxyResult
parse_as v1 s = parse_v1 s
parse_as v2 s = parse_v2 s
parse_as no_proxy s = some (bare s)
parse_as incomplete s = none

unfoldable pub parse_proxy_protocol : Bytes → Option ProxyResult
parse_proxy_protocol s = parse_as (detect_proxy_protocol s) s
