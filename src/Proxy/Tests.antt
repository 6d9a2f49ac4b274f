-- ===== src/Proxy/Tests.antt =====
-- Concrete PROXY protocol headers.
use testserver.Prelude.{ℕ, ◌≡◌, ◌↔◌, refl, some, List, [], ◌∷◌, ◌++◌, true, arith}
use testserver.Text.{codes, split}
use testserver.Text.Number.{
  to_decimal, to_hex, print_from, parse_int, parse_signed, parse_digits, digits_from, skip_white,
}
use testserver.Proxy.{bare, detect_v1, detect_proxy_protocol, starts_with_signature}
use testserver.Proxy.Chunks.{followed_by, parse_proxy_protocol-append}
use testserver.Proxy.Detects.{Means, detect_proxy_protocol-Means}
use testserver.Proxy.Ipv4.{IsDotted, is_ipv4_iff}
use testserver.Proxy.Parse.{parse_proxy_protocol}
use testserver.Proxy.RoundTrip.Binary.{
  four_bytes, ipv4_part, ipv6_part, binary_header, parse-ipv4_header, parse-ipv6_header,
}
use testserver.Proxy.RoundTrip.Line.{header_line, line_end, parse-header_line}
use testserver.Proxy.V1.{
  find_crlf, is_ipv4, is_ipv6, is_valid_address, address_fields, line_fields, parse_v1,
}
use testserver.Proxy.V2.{format_ipv4, format_ipv6, hex_groups, v2_addresses, v2_header, parse_v2}

proxy_run : Unit {0}
unfolding split to_decimal to_hex print_from parse_int parse_signed parse_digits digits_from
    skip_white detect_v1 detect_proxy_protocol starts_with_signature parse_proxy_protocol find_crlf
    is_ipv4 is_ipv6 is_valid_address address_fields line_fields parse_v1 format_ipv4 format_ipv6
    hex_groups v2_addresses v2_header parse_v2 binary_header header_line
proxy_run = tt

local_address : IsDotted (codes "127.0.0.1")
unfolding proxy_run
local_address = record {
  a = 127;
  b = 0;
  c = 0;
  d = 1;
  a_octet = omega arith;
  b_octet = omega arith;
  c_octet = omega arith;
  d_octet = omega arith;
  reads = refl;
}

far_address : IsDotted (codes "10.20.255.4")
unfolding proxy_run
far_address = record {
  a = 10;
  b = 20;
  c = 255;
  d = 4;
  a_octet = omega arith;
  b_octet = omega arith;
  c_octet = omega arith;
  d_octet = omega arith;
  reads = refl;
}

line_read :
    parse_proxy_protocol
      (codes "PROXY TCP4 10.20.255.4 127.0.0.1 50000 443" ++ (line_end ++ codes "GET /"))
    ≡ some (record {
      addresses = some (record {
        source_address = codes "10.20.255.4";
        source_port = 50000;
        destination_address = codes "127.0.0.1";
        destination_port = 443;
      });
      remaining_data = codes "GET /";
    })
unfolding proxy_run
line_read = refl

leading_zero :
    parse_proxy_protocol (codes "PROXY TCP4 010.20.255.4 127.0.0.1 50000 443" ++ line_end)
    ≡ some (bare [])
unfolding proxy_run
leading_zero = refl

parse-header_line_example :
    parse_proxy_protocol (
      header_line (codes "10.20.255.4") (codes "127.0.0.1") 50000 443
      ++ (line_end ++ codes "GET /"))
    ≡ some (record {
      addresses = some (record {
        source_address = codes "10.20.255.4";
        source_port = 50000;
        destination_address = codes "127.0.0.1";
        destination_port = 443;
      });
      remaining_data = codes "GET /";
    })
parse-header_line_example =
    parse-header_line (codes "10.20.255.4") (codes "127.0.0.1") 50000 443 far_address local_address
      (omega arith) (omega arith) (codes "GET /")

is_ipv4_iff_example : (is_ipv4 (codes "127.0.0.1") ≡ true) ↔ IsDotted (codes "127.0.0.1")
is_ipv4_iff_example = is_ipv4_iff (codes "127.0.0.1")

parse-ipv4_header_example :
    parse_proxy_protocol (
      binary_header 1 (ipv4_part 10 20 30 40 127 0 0 1 50000 443 (4 ∷ 0 ∷ 0 ∷ [])) ++ codes "GET /")
    ≡ some (record {
      addresses = some (record {
        source_address = four_bytes 10 20 30 40;
        source_port = 50000;
        destination_address = four_bytes 127 0 0 1;
        destination_port = 443;
      });
      remaining_data = codes "GET /";
    })
parse-ipv4_header_example =
    parse-ipv4_header 10 20 30 40 127 0 0 1 50000 443 (4 ∷ 0 ∷ 0 ∷ []) (codes "GET /") (omega arith)

abbrev loopback : List ℕ
loopback = 0 ∷ 0 ∷ 0 ∷ 0 ∷ 0 ∷ 0 ∷ 0 ∷ 0 ∷ 0 ∷ 0 ∷ 0 ∷ 0 ∷ 0 ∷ 0 ∷ 0 ∷ 1 ∷ []

loopback_text : format_ipv6 loopback ≡ codes "0:0:0:0:0:0:0:1"
unfolding proxy_run
loopback_text = refl

parse-ipv6_header_example :
    parse_proxy_protocol
      (binary_header 2 (ipv6_part loopback loopback 50000 443 []) ++ codes "GET /")
    ≡ some (record {
      addresses = some (record {
        source_address = format_ipv6 loopback;
        source_port = 50000;
        destination_address = format_ipv6 loopback;
        destination_port = 443;
      });
      remaining_data = codes "GET /";
    })
parse-ipv6_header_example =
    parse-ipv6_header loopback loopback 50000 443 [] refl refl (codes "GET /") (omega arith)

abbrev unknown_line : List ℕ
unknown_line = codes "PROXY UNKNOWN" ++ line_end

unknown_read : parse_proxy_protocol unknown_line ≡ some (bare [])
unfolding proxy_run
unknown_read = refl

parse_proxy_protocol-append_example :
    parse_proxy_protocol (unknown_line ++ codes "GET") ≡ some (followed_by (bare []) (codes "GET"))
parse_proxy_protocol-append_example =
    parse_proxy_protocol-append unknown_line (codes "GET") (bare []) unknown_read

detect_proxy_protocol-Means_example : Means (detect_proxy_protocol (codes "PRO")) (codes "PRO")
detect_proxy_protocol-Means_example = detect_proxy_protocol-Means (codes "PRO")
