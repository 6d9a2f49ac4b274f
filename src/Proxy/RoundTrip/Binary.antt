-- ===== src/Proxy/RoundTrip/Binary.antt =====
-- A header of version 2, command PROXY over TCP: the signature, the bytes 0x21 and the family, the
-- length of the address part, two addresses, two ports and any extensions (TLV).
use testserver.Prelude.{
  ℕ, zero, suc, ◌+◌, ◌-◌, ◌*◌, ◌/◌, ◌%◌, ◌≤◌, ◌<◌, ◌≡◌, refl, sym, ap, ◌∙◌, false, some, [], ◌∷◌,
  ◌++◌, length, length-append, take, drop, take-append, drop-append, take_all, drop_all, get_or,
  arith, ltb,
}
use testserver.Text.{Text, slice}
use testserver.Text.Number.{to_decimal}
use testserver.Proxy.{Bytes, v2, v2_signature, detect_proxy_protocol}
use testserver.Proxy.Detects.{detect_v2_data}
use testserver.Proxy.V2.{
  byte, word16, format_ipv4, format_ipv6, v2_addresses, v2_header, v2_max_addr_length,
}
use testserver.Proxy.Parse.{parse_proxy_protocol}
use testserver.Proxy.Chunks.{
  V2Complete, v2_result, parse_v2_of_V2Complete, parse_proxy_protocol-append,
}

-- two bytes, the high one first
abbrev pub big_endian : ℕ → Bytes
big_endian n = n / 256 ∷ n % 256 ∷ []

unfoldable pub binary_header : ℕ → Bytes → Bytes
binary_header family addr =
    v2_signature ++ (0x21 ∷ (family * 16 + 1) ∷ (big_endian (length addr) ++ addr))

module _ (family : ℕ) (addr : Bytes) (family_small : family < 16)
    (fits : length addr ≤ v2_max_addr_length) where
  header_word : word16 (binary_header family addr) 14 ≡ length addr
  unfolding binary_header
  header_word = omega arith

  header-V2Complete : V2Complete (binary_header family addr)
  header-V2Complete = record {
    fixed_part = unfold binary_header in omega arith;
    version = unfold binary_header in omega arith;
    capped = omega (arith, header_word);
    address_part = rw header_word (unfold binary_header in omega arith);
  }

  header_result :
      v2_result (binary_header family addr)
      ≡ record { addresses = v2_addresses family addr; remaining_data = [] }
  unfolding v2_header
  header_result =
      let n : 16 + length addr - 16 ≡ length addr = omega arith in
      let f : (family * 16 + 1) / 16 ≡ family = omega arith in
      let p : (family * 16 + 1) % 16 ≡ 1 = omega arith in
      let d =
        drop_all (16 + length addr) (binary_header family addr)
          (unfold binary_header in omega arith) in
      rw (header_word, d)
        (unfold binary_header in rw (n, f, p, take_all (length addr) addr (omega arith)) refl)

  header_read :
      parse_proxy_protocol (binary_header family addr)
      ≡ some (record { addresses = v2_addresses family addr; remaining_data = [] })
  unfolding parse_proxy_protocol
  header_read =
      let d : detect_proxy_protocol (binary_header family addr) ≡ v2 =
        unfold binary_header in detect_v2_data _ in
      rw (d, parse_proxy_protocol)
        (parse_v2_of_V2Complete (binary_header family addr) header-V2Complete
          ∙ ap some header_result)

  pub parse-binary_header :
      (rest : Bytes)
      → parse_proxy_protocol (binary_header family addr ++ rest)
        ≡ some (record { addresses = v2_addresses family addr; remaining_data = rest })
  parse-binary_header rest =
      parse_proxy_protocol-append (binary_header family addr) rest _ header_read

abbrev pub ipv4_part : (a b c d e f g h : ℕ) → (src_port dst_port : ℕ) → Bytes → Bytes
ipv4_part a b c d e f g h src_port dst_port extensions =
    a ∷ b ∷ c ∷ d ∷ e ∷ f ∷ g ∷ h ∷ (big_endian src_port ++ (big_endian dst_port ++ extensions))

abbrev pub ipv6_part : Bytes → Bytes → ℕ → ℕ → Bytes → Bytes
ipv6_part src dst src_port dst_port extensions =
    src ++ (dst ++ (big_endian src_port ++ (big_endian dst_port ++ extensions)))

-- Four bytes in dotted decimal notation.
abbrev pub four_bytes : ℕ → ℕ → ℕ → ℕ → Text
four_bytes a b c d =
    to_decimal a ++ (b'.' ∷ (to_decimal b ++ (b'.' ∷ (to_decimal c ++ (b'.' ∷ to_decimal d)))))

-- A version 2 header of two IPv4 addresses is read back as the dotted addresses and the ports, and
-- exactly the bytes behind it are left, for any extensions within the length limit.
pub parse-ipv4_header :
    (a b c d e f g h src_port dst_port : ℕ) (extensions rest : Bytes)
    → 12 + length extensions ≤ v2_max_addr_length
    → parse_proxy_protocol
        (binary_header 1 (ipv4_part a b c d e f g h src_port dst_port extensions) ++ rest)
      ≡ some (record {
        addresses = some (record {
          source_address = four_bytes a b c d;
          source_port = src_port;
          destination_address = four_bytes e f g h;
          destination_port = dst_port;
        });
        remaining_data = rest;
      })
unfolding v2_addresses format_ipv4
parse-ipv4_header a b c d e f g h sp dp extensions rest l =
    parse-binary_header 1 (ipv4_part a b c d e f g h sp dp extensions) (omega arith) (omega arith)
      rest
    ∙ ground arith

get_or-skip :
    (xs ys : Bytes) (i n : ℕ) → length xs ≡ n → get_or (xs ++ ys) (n + i) 0 ≡ get_or ys i 0
get_or-skip [] ys i n e = let p : n + i ≡ i = omega arith in rw p refl
get_or-skip (x ∷ xs) ys i zero e = absurd (omega arith)
get_or-skip (x ∷ xs) ys i (suc n) e =
    let p : suc n + i ≡ suc (n + i) = omega arith in rw p (get_or-skip xs ys i n (omega arith))

module _ (src dst : Bytes) (src_port dst_port : ℕ) (extensions : Bytes) (s : length src ≡ 16)
    (d : length dst ≡ 16) where
  abbrev part : Bytes
  part = ipv6_part src dst src_port dst_port extensions

  source_slice : slice part 0 16 ≡ src
  source_slice = ap (λ n. take n part) (sym s) ∙ take-append src _

  destination_slice : slice part 16 32 ≡ dst
  destination_slice =
      ap (λ n. take 16 (drop n part)) (sym s)
      ∙ ap (take 16) (drop-append src _)
      ∙ ap (λ n. take n (dst ++ (big_endian src_port ++ (big_endian dst_port ++ extensions))))
          (sym d)
      ∙ take-append dst _

  part_byte :
      (i : ℕ)
      → byte part (32 + i) ≡ byte (big_endian src_port ++ (big_endian dst_port ++ extensions)) i
  part_byte i =
      let p : 32 + i ≡ 16 + (16 + i) = omega arith in
      rw p (get_or-skip src _ (16 + i) 16 s ∙ get_or-skip dst _ i 16 d)

  part_length : length part ≡ 36 + length extensions
  part_length = omega (
    arith,
    length-append src (dst ++ (big_endian src_port ++ (big_endian dst_port ++ extensions))),
    length-append dst (big_endian src_port ++ (big_endian dst_port ++ extensions)),
  )

  ipv6_fields :
      v2_addresses 2 part
      ≡ some (record {
        source_address = format_ipv6 src;
        source_port = src_port;
        destination_address = format_ipv6 dst;
        destination_port = dst_port;
      })
  unfolding v2_addresses
  ipv6_fields =
      let w : word16 part 32 ≡ src_port = omega (arith, part_byte 0, part_byte 1) in
      let x : word16 part 34 ≡ dst_port = omega (arith, part_byte 2, part_byte 3) in
      let l : ltb (length part) 36 ≡ false = ground (arith, part_length) in
      rw l (rw (source_slice, destination_slice, w, x) refl)

  -- A version 2 header of two IPv6 addresses is read back as the two printed addresses and the
  -- ports, and exactly the bytes behind it are left, for any extensions within the length limit.
  pub parse-ipv6_header :
      (rest : Bytes)
      → 36 + length extensions ≤ v2_max_addr_length
      → parse_proxy_protocol
          (binary_header 2 (ipv6_part src dst src_port dst_port extensions) ++ rest)
        ≡ some (record {
          addresses = some (record {
            source_address = format_ipv6 src;
            source_port = src_port;
            destination_address = format_ipv6 dst;
            destination_port = dst_port;
          });
          remaining_data = rest;
        })
  parse-ipv6_header rest l =
      parse-binary_header 2 part (omega arith) (omega (arith, part_length)) rest
      ∙ ap (λ f. some (record { addresses = f; remaining_data = rest })) ipv6_fields
