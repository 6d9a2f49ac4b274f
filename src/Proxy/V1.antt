-- ===== src/Proxy/V1.antt =====
-- `parseV1` and `isValidAddress` of src/proxy-protocol.ts.
use testserver.Prelude.{
  ℕ, zero, suc, ◌+◌, ◌-◌, ◌%◌, min, Bool, false, ◌&&◌, ◌||◌, Option, none, some, List, [], ◌∷◌, map,
  ◌==◌, leb, if◌then◌else◌, length, take, drop, all,
}
use testserver.Text.{Text, codes, text_eq, split}
use testserver.Text.Number.{ℤ, pos, negsuc, parse_int, to_decimal, is_digit}
use testserver.Proxy.{Bytes, ProxyData, ProxyResult, bare}

abbrev pub v1_max_length : ℕ
v1_max_length = 109

-- The loop that looks for CR LF, by the positions left.
unfoldable pub find_crlf : ℕ → Bytes → Option ℕ
find_crlf zero s = none
find_crlf (suc left) [] = none
find_crlf (suc left) (a ∷ []) = none
find_crlf (suc left) (a ∷ (b ∷ s)) =
    if a == 0x0D && b == 0x0A
    then some 0
    else elim (find_crlf left (b ∷ s)) [ none ↦ none | some i ↦ some (suc i) ]

-- `isNaN(n) || n < low || n > high`, negated: the number in its bounds
abbrev pub in_bounds : ℕ → Option ℤ → Option ℕ
in_bounds high none = none
in_bounds high (some (negsuc n)) = none
in_bounds high (some (pos n)) = if leb n high then some n else none

abbrev pub is_octet : Text → Bool
is_octet part = elim (in_bounds 255 (parse_int part)) [
  | none ↦ false
  | some n ↦ text_eq part (to_decimal n)
]

unfoldable pub is_ipv4 : Text → Bool
is_ipv4 addr = let parts = split b'.' addr in length parts == 4 && all is_octet parts

-- `/^[0-9a-fA-F:]+$/`
abbrev is_hex_or_colon : ℕ → Bool
is_hex_or_colon c =
    is_digit c || (leb b'a' c && leb c b'f') || (leb b'A' c && leb c b'F') || c == b':'

abbrev has_colon : Text → Bool
has_colon [] = false
has_colon (c ∷ s) = c == b':' || has_colon s

unfoldable pub is_ipv6 : Text → Bool
is_ipv6 addr = has_colon addr && (leb (length addr) 45 && all is_hex_or_colon addr)

-- `isValidAddress`
unfoldable pub is_valid_address : Text → Text → Bool
is_valid_address addr protocol =
    if text_eq protocol (codes "TCP4")
    then is_ipv4 addr
    else if text_eq protocol (codes "TCP6")
    then is_ipv6 addr
    else false

-- The checks on the ports and the addresses.
unfoldable pub address_fields : Text → Text → Text → Option ℕ → Option ℕ → Option ProxyData
address_fields protocol src dst (some sp) (some dp) =
    if is_valid_address src protocol && is_valid_address dst protocol
    then some (record {
      source_address = src;
      source_port = sp;
      destination_address = dst;
      destination_port = dp;
    })
    else none
address_fields protocol src dst _ _ = none

-- The six parts of the line; any other number of parts has no addresses.
unfoldable pub line_fields : List Text → Option ProxyData
line_fields (proxy ∷ (protocol ∷ (src ∷ (dst ∷ (src_port ∷ (dst_port ∷ [])))))) =
    if text_eq proxy (codes "PROXY")
      && (text_eq protocol (codes "TCP4") || text_eq protocol (codes "TCP6"))
    then address_fields protocol src dst (in_bounds 65535 (parse_int src_port))
        (in_bounds 65535 (parse_int dst_port))
    else none
line_fields _ = none

-- `toString('ascii')`, which drops the high bit of a byte
abbrev pub ascii : Bytes → Text
ascii = map (λ b. b % 128)

-- `parseV1`; `none` stands for `null`
unfoldable pub parse_v1 : Bytes → Option ProxyResult
parse_v1 s = elim (find_crlf (min (length s) v1_max_length - 1) s) [
  | none ↦ if leb v1_max_length (length s) then some (bare s) else none
  | some i ↦ some (record {
    addresses = line_fields (split b' ' (ascii (take i s)));
    remaining_data = drop (i + 2) s;
  })
]
