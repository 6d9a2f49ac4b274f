-- ===== src/Proxy.antt =====
-- src/proxy-protocol.ts: the PROXY protocol, versions 1 and 2. A `Buffer` is the list of its bytes,
-- numbers below 256. An index past the end of a buffer, which would read `undefined`, is never
-- taken: the code checks the length first.
pub mod V1
pub mod V2
pub mod Parse
pub mod Detects
pub mod Chunks
pub mod Ipv4
pub mod RoundTrip
pub mod Tests
use testserver.Prelude.{
  ℕ, Bool, ◌&&◌, Option, none, some, List, [], ◌∷◌, if◌then◌else◌, leb, length, take, ◌==◌,
}
use testserver.Text.{Text, codes, starts_with}

abbrev pub Bytes : Type 0
Bytes = List ℕ

-- `ProxyProtocolData`: the four fields are given all together or not at all.
pub record ProxyData : Type 0 where
  pub source_address : Text
  pub source_port : ℕ
  pub destination_address : Text
  pub destination_port : ℕ

-- `ProxyProtocolResult`
pub record ProxyResult : Type 0 where
  pub addresses : Option ProxyData
  pub remaining_data : Bytes

abbrev pub bare : Bytes → ProxyResult
bare rest = record { addresses = none; remaining_data = rest }

pub data ProxyType : Type 0 where
  v1 v2 no_proxy incomplete : ProxyType

abbrev pub v1_signature : Bytes
v1_signature = codes "PROXY "

abbrev pub v2_signature : Bytes
v2_signature =
    0x0D ∷ 0x0A ∷ 0x0D ∷ 0x0A ∷ 0x00 ∷ 0x0D ∷ 0x0A ∷ 0x51 ∷ 0x55 ∷ 0x49 ∷ 0x54 ∷ 0x0A ∷ []

unfoldable pub starts_with_signature : Bytes → Bytes → Bool
starts_with_signature s signature = leb (length signature) (length s) && starts_with s signature

unfoldable pub detect_v1 : Bytes → ProxyType
detect_v1 s =
    if leb (length v1_signature) (length s)
    then if starts_with_signature s v1_signature then v1 else no_proxy
    else if starts_with_signature s (take (length s) v1_signature)
    then incomplete
    else no_proxy

-- `detectProxyProtocol`
unfoldable pub detect_proxy_protocol : Bytes → ProxyType
detect_proxy_protocol s =
    if length s == 0
    then incomplete
    else if leb (length v2_signature) (length s)
    then if starts_with_signature s v2_signature then v2 else detect_v1 s
    else if starts_with_signature s (take (length s) v2_signature)
    then incomplete
    else detect_v1 s
