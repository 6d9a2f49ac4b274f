-- ===== src/Proxy/V2.antt =====
-- `parseV2` and `formatIPv6` of src/proxy-protocol.ts. On bytes `(b & 0xF0) >> 4` is `b / 16`,
-- `b & 0x0F` is `b % 16`, and `(a << 8) | b` is `a * 256 + b`.
use testserver.Prelude.{
  ℕ, ◌+◌, ◌*◌, ◌/◌, ◌%◌, not, Option, none, some, List, [], ◌∷◌, ◌==◌, ltb, if◌then◌else◌, length,
  drop, get_or,
}
use testserver.Text.{Text, codes, join, slice}
use testserver.Text.Number.{to_decimal, to_hex}
use testserver.Proxy.{Bytes, ProxyData, ProxyResult}

abbrev pub v2_min_header : ℕ
v2_min_header = 16

abbrev pub v2_max_addr_length : ℕ
v2_max_addr_length = 216

-- `buffer[i]`
abbrev pub byte : Bytes → ℕ → ℕ
byte s i = get_or s i 0

abbrev pub word16 : Bytes → ℕ → ℕ
word16 s i = byte s i * 256 + byte s (i + 1)

unfoldable pub format_ipv4 : Bytes → ℕ → Text
format_ipv4 s i = join (codes ".") (
    to_decimal (byte s i)
    ∷ to_decimal (byte s (i + 1))
    ∷ to_decimal (byte s (i + 2))
    ∷ to_decimal (byte s (i + 3))
    ∷ [])

-- the loop of `formatIPv6`, two bytes a round; its buffer has 16 bytes
unfoldable pub hex_groups : Bytes → List Text
hex_groups (a ∷ (b ∷ s)) = to_hex (a * 256 + b) ∷ hex_groups s
hex_groups _ = []

unfoldable pub format_ipv6 : Bytes → Text
format_ipv6 s = join (codes ":") (hex_groups s)

-- The address block, by the family.
unfoldable pub v2_addresses : ℕ → Bytes → Option ProxyData
v2_addresses family addr =
    if family == 1
    then if ltb (length addr) 12
      then none
      else some (record {
        source_address = format_ipv4 addr 0;
        source_port = word16 addr 8;
        destination_address = format_ipv4 addr 4;
        destination_port = word16 addr 10;
      })
    else if family == 2
    then if ltb (length addr) 36
      then none
      else some (record {
        source_address = format_ipv6 (slice addr 0 16);
        source_port = word16 addr 32;
        destination_address = format_ipv6 (slice addr 16 32);
        destination_port = word16 addr 34;
      })
    else none

-- What the header says, once it is there as a whole.
unfoldable pub v2_header : ℕ → ℕ → Bytes → Bytes → ProxyResult
v2_header command fam_proto addr rest = record {
  addresses =
      if command == 0
      then none
      else if not (command == 1)
      then none
      else if not (fam_proto % 16 == 1)
      then none
      else v2_addresses (fam_proto / 16) addr;
  remaining_data = rest;
}

-- `parseV2`; `none` stands for `null`
unfoldable pub parse_v2 : Bytes → Option ProxyResult
parse_v2 s =
    if ltb (length s) v2_min_header
    then none
    else if not (byte s 12 / 16 == 2)
    then none
    else if ltb v2_max_addr_length (word16 s 14)
    then none
    else if ltb (length s) (v2_min_header + word16 s 14)
    then none
    else some (
        v2_header (byte s 12 % 16) (byte s 13) (slice s v2_min_header (v2_min_header + word16 s 14))
          (drop (v2_min_header + word16 s 14) s))
