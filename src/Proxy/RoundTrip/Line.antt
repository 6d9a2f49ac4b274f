-- ===== src/Proxy/RoundTrip/Line.antt =====
-- A header of version 1: `PROXY TCP4 <source> <destination> <port> <port>` and CR LF.
use testserver.Prelude.{
  ℕ, zero, suc, ◌-◌, ◌%◌, ◌≤◌, ◌<◌, ◌≡◌, refl, min, some, List, [], ◌∷◌, ◌++◌, length,
  length-append, take-append, drop-append_add, All, All-append, arith, le→leb,
}
use testserver.Text.{Text, codes, split, join}
use testserver.Text.Number.{to_decimal}
use testserver.Text.Decimal.{IsDigit, to_decimal-All, to_decimal-length, parse_int-to_decimal}
use testserver.Text.Splits.{Lacks, AllLack, split-join}
use testserver.Proxy.{Bytes, v1, detect_proxy_protocol}
use testserver.Proxy.Detects.{detect_v1_data}
use testserver.Proxy.Ipv4.{IsDotted, is_ipv4_iff}
use testserver.Proxy.V1.{
  find_crlf, v1_max_length, ascii, is_valid_address, address_fields, line_fields, parse_v1,
}
use testserver.Proxy.Parse.{parse_proxy_protocol}

abbrev pub line_parts : Text → Text → ℕ → ℕ → List Text
line_parts src dst src_port dst_port =
    codes "PROXY" ∷ codes "TCP4" ∷ src ∷ dst ∷ to_decimal src_port ∷ to_decimal dst_port ∷ []

unfoldable pub header_line : Text → Text → ℕ → ℕ → Bytes
header_line src dst src_port dst_port = join (codes " ") (line_parts src dst src_port dst_port)

abbrev pub line_end : Bytes
line_end = 0x0D ∷ 0x0A ∷ []

-- A printable character other than the space.
abbrev IsWord : Text → Type 0
IsWord s = All (λ a. (33 ≤ a) × (a < 128)) s

abbrev IsLine : Text → Type 0
IsLine s = All (λ a. (32 ≤ a) × (a < 128)) s

IsDigit-IsWord : (s : Text) → All IsDigit s → IsWord s
IsDigit-IsWord [] h = tt
IsDigit-IsWord (c ∷ s) h = (ground arith, IsDigit-IsWord s h.1)

IsWord-IsLine : (s : Text) → IsWord s → IsLine s
IsWord-IsLine [] h = tt
IsWord-IsLine (c ∷ s) h = (ground arith, IsWord-IsLine s h.1)

IsWord-Lacks : (s : Text) → IsWord s → Lacks b' ' s
IsWord-Lacks [] h = tt
IsWord-Lacks (c ∷ s) h = (ground arith, IsWord-Lacks s h.1)

words-AllLack : (ps : List Text) → All IsWord ps → AllLack b' ' ps
words-AllLack [] h = tt
words-AllLack (p ∷ ps) h = (IsWord-Lacks p h.0, words-AllLack ps h.1)

join-IsLine : (ps : List Text) → All IsWord ps → IsLine (join (codes " ") ps)
join-IsLine [] h = tt
join-IsLine (p ∷ []) h = IsWord-IsLine p h.0
join-IsLine (p ∷ (q ∷ ps)) h =
    All-append _ p _ (IsWord-IsLine p h.0) (omega arith, join-IsLine (q ∷ ps) h.1)

ascii-IsLine : (s : Text) → IsLine s → ascii s ≡ s
ascii-IsLine [] h = refl
ascii-IsLine (c ∷ s) h = let e : c % 128 ≡ c = ground arith in rw (e, ascii-IsLine s h.1) refl

find_crlf-line :
    (k : ℕ) (s rest : Bytes)
    → IsLine s
    → length s < k
    → find_crlf k (s ++ (line_end ++ rest)) ≡ some (length s)
unfolding find_crlf
find_crlf-line zero s rest h l = absurd (omega arith)
find_crlf-line (suc k) [] rest h l = refl
find_crlf-line (suc k) (c ∷ []) rest h l =
    ground (arith, find_crlf-line k [] rest tt (ground arith))
find_crlf-line (suc k) (c ∷ (d ∷ s)) rest h l =
    ground (arith, find_crlf-line k (d ∷ s) rest h.1 (ground arith))

decimal-IsWord : (n : ℕ) → IsWord (to_decimal n)
decimal-IsWord n = IsDigit-IsWord (to_decimal n) (to_decimal-All n)

dotted-IsWord : (addr : Text) → IsDotted addr → IsWord addr
dotted-IsWord addr x = rw x.reads (
    All-append _ (to_decimal x.a) _ (decimal-IsWord x.a) (
      ground arith,
      All-append _ (to_decimal x.b) _ (decimal-IsWord x.b) (
        ground arith,
        All-append _ (to_decimal x.c) _ (decimal-IsWord x.c) (ground arith, decimal-IsWord x.d),
      ),
    ))

dotted-length : (addr : Text) → IsDotted addr → length addr ≤ 15
dotted-length addr x = rw x.reads (
    omega (
      arith,
      length-append (to_decimal x.a),
      length-append (to_decimal x.b),
      length-append (to_decimal x.c),
      to_decimal-length x.a 3,
      to_decimal-length x.b 3,
      to_decimal-length x.c 3,
      to_decimal-length x.d 3,
      x.a_octet,
      x.b_octet,
      x.c_octet,
      x.d_octet,
    ))

module _ (src dst : Text) (src_port dst_port : ℕ) (s : IsDotted src) (d : IsDotted dst)
    (sp : src_port ≤ 65535) (dp : dst_port ≤ 65535) where
  parts-IsWord : All IsWord (line_parts src dst src_port dst_port)
  parts-IsWord = (
    omega arith,
    (
      omega arith,
      (
        dotted-IsWord src s,
        (dotted-IsWord dst d, (decimal-IsWord src_port, (decimal-IsWord dst_port, tt))),
      ),
    ),
  )

  header_line-length : length (header_line src dst src_port dst_port) ≤ 60
  unfolding header_line
  header_line-length = omega (
    arith,
    length-append src,
    length-append dst,
    length-append (to_decimal src_port),
    dotted-length src s,
    dotted-length dst d,
    to_decimal-length src_port 5,
    to_decimal-length dst_port 5,
  )

  fields_read :
      line_fields (line_parts src dst src_port dst_port)
      ≡ some (record {
        source_address = src;
        source_port = src_port;
        destination_address = dst;
        destination_port = dst_port;
      })
  unfolding line_fields address_fields is_valid_address
  fields_read =
      rw
        (
          parse_int-to_decimal src_port,
          parse_int-to_decimal dst_port,
          address_fields,
          is_valid_address,
        )
        (rw
          (
            le→leb src_port 65535 sp,
            le→leb dst_port 65535 dp,
            (is_ipv4_iff src).1 s,
            (is_ipv4_iff dst).1 d,
          )
          refl)

  line_split :
      split b' ' (header_line src dst src_port dst_port) ≡ line_parts src dst src_port dst_port
  unfolding header_line
  line_split =
      split-join b' ' (line_parts src dst src_port dst_port) (λ e. cc)
        (words-AllLack (line_parts src dst src_port dst_port) parts-IsWord)

  header_line-IsLine : IsLine (header_line src dst src_port dst_port)
  unfolding header_line
  header_line-IsLine = join-IsLine (line_parts src dst src_port dst_port) parts-IsWord

  line_found :
      (rest : Bytes)
      → find_crlf
          (min (length (header_line src dst src_port dst_port ++ (line_end ++ rest))) v1_max_length
            - 1)
          (header_line src dst src_port dst_port ++ (line_end ++ rest))
        ≡ some (length (header_line src dst src_port dst_port))
  line_found rest =
      find_crlf-line _ (header_line src dst src_port dst_port) rest header_line-IsLine (
        omega (
          arith,
          header_line-length,
          length-append (header_line src dst src_port dst_port) (line_end ++ rest),
        ))

  line_detected :
      (rest : Bytes) → detect_proxy_protocol (header_line src dst src_port dst_port ++ rest) ≡ v1
  unfolding header_line
  line_detected rest = detect_v1_data _

  -- A version 1 header with two IPv4 addresses and two ports is read back as those addresses and
  -- ports, and exactly the bytes behind its CR LF are left.
  pub parse-header_line :
      (rest : Bytes)
      → parse_proxy_protocol (header_line src dst src_port dst_port ++ (line_end ++ rest))
        ≡ some (record {
          addresses = some (record {
            source_address = src;
            source_port = src_port;
            destination_address = dst;
            destination_port = dst_port;
          });
          remaining_data = rest;
        })
  unfolding parse_proxy_protocol parse_v1
  parse-header_line rest =
      let line = header_line src dst src_port dst_port in
      rw (line_detected (line_end ++ rest), parse_proxy_protocol)
        (rw (line_found rest, parse_v1)
          (rw
            (
              take-append line (line_end ++ rest),
              drop-append_add line (line_end ++ rest) 2,
              ascii-IsLine line header_line-IsLine,
              line_split,
              fields_read,
            )
            refl))
