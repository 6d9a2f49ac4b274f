-- ===== src/Proxy/Chunks.antt =====
-- A header that is complete is read alike whatever data follows it, and what follows is left.
use testserver.Prelude.{
  ℕ, zero, suc, ◌+◌, ◌-◌, ◌≤◌, ◌<◌, ◌≡◌, refl, ap, sym, ◌∙◌, inl, inr, min, none, some, [], ◌∷◌,
  ◌++◌, leb, le→leb, leb→le, length-drop, ◌/◌, ◌%◌, length, drop, arith, Bool-cases, Option-cases,
  take-append-le, drop-append-le, get_or-append, length-append,
}
use testserver.Text.{slice}
use testserver.Proxy.{
  Bytes, ProxyType, v1, v2, no_proxy, incomplete, ProxyResult, detect_proxy_protocol,
}
use testserver.Proxy.Detects.{detect-append}
use testserver.Proxy.V1.{find_crlf, v1_max_length, parse_v1}
use testserver.Proxy.V2.{byte, word16, v2_header, v2_min_header, v2_max_addr_length, parse_v2}
use testserver.Proxy.Parse.{parse_proxy_protocol}

-- The result with more data behind the rest.
abbrev pub followed_by : ProxyResult → Bytes → ProxyResult
followed_by r more = record r { remaining_data = r.remaining_data ++ more }

find_crlf-append :
    (k k' : ℕ) (s more : Bytes) (i : ℕ)
    → find_crlf k s ≡ some i
    → k ≤ k'
    → find_crlf k' (s ++ more) ≡ some i
unfolding find_crlf
find_crlf-append zero k' s more i h l = cc
find_crlf-append (suc k) zero s more i h l = absurd (omega arith)
find_crlf-append (suc k) (suc k') [] more i h l = cc
find_crlf-append (suc k) (suc k') (a ∷ []) more i h l = cc
find_crlf-append (suc k) (suc k') (a ∷ (b ∷ s)) more i h l =
    elim (Option-cases (find_crlf k (b ∷ s))) [
      | inl e ↦ ground (arith, e)
      | inr (j, e) ↦ ground (arith, e, find_crlf-append k k' (b ∷ s) more j e)
    ]

find_crlf-none :
    (k : ℕ) (s more : Bytes) → k < length s → find_crlf k s ≡ none → find_crlf k (s ++ more) ≡ none
unfolding find_crlf
find_crlf-none zero s more l h = refl
find_crlf-none (suc k) [] more l h = absurd (omega arith)
find_crlf-none (suc k) (a ∷ []) more l h = absurd (omega arith)
find_crlf-none (suc k) (a ∷ (b ∷ s)) more l h = ground (arith, find_crlf-none k (b ∷ s) more)

pub find_crlf-bound :
    (k : ℕ) (s : Bytes) (i : ℕ) → find_crlf k s ≡ some i → (i + 2 ≤ length s) × (i < k)
unfolding find_crlf
find_crlf-bound zero s i h = cc
find_crlf-bound (suc k) [] i h = cc
find_crlf-bound (suc k) (a ∷ []) i h = cc
find_crlf-bound (suc k) (a ∷ (b ∷ s)) i h = elim (Option-cases (find_crlf k (b ∷ s))) [
  | inl e ↦ ground (arith, e)
  | inr (j, e) ↦ ground (arith, e, find_crlf-bound k (b ∷ s) j e)
]

-- The rounds of the loop grow with the data, up to the limit.
v1_found-append :
    (s more : Bytes) (i : ℕ)
    → find_crlf (min (length s) v1_max_length - 1) s ≡ some i
    → find_crlf (min (length (s ++ more)) v1_max_length - 1) (s ++ more) ≡ some i
v1_found-append s more i h = find_crlf-append _ _ s more i h (omega (arith, length-append s more))

v1_full-append :
    (s more : Bytes)
    → v1_max_length ≤ length s
    → find_crlf (min (length s) v1_max_length - 1) s ≡ none
    → find_crlf (min (length (s ++ more)) v1_max_length - 1) (s ++ more) ≡ none
v1_full-append s more l h =
    let p : min (length s) v1_max_length - 1 ≡ 108 = omega arith in
    let q : min (length (s ++ more)) v1_max_length - 1 ≡ 108 =
      omega (arith, length-append s more) in
    rw q (find_crlf-none 108 s more (omega arith) (rw p at h))

parse_v1-append :
    (s more : Bytes) (r : ProxyResult)
    → parse_v1 s ≡ some r
    → parse_v1 (s ++ more) ≡ some (followed_by r more)
unfolding parse_v1
parse_v1-append s more r h = elim (Option-cases (find_crlf (min (length s) v1_max_length - 1) s)) [
  | inr (i, e) ↦
      let b = find_crlf-bound _ s i e in
      rw (v1_found-append s more i e, parse_v1)
        (rw (take-append-le i s more (omega arith), drop-append-le (i + 2) s more (omega arith))
          (ground arith))
  | inl e ↦ elim (Bool-cases (leb v1_max_length (length s))) [
    | inl full ↦
        rw
          (
            v1_full-append s more (leb→le _ _ full) e,
            parse_v1,
            le→leb v1_max_length (length (s ++ more))
                (omega (arith, length-append s more, leb→le _ _ full)),
          )
          (ground arith)
    | inr short ↦ absurd (ground arith)
  ]
]

-- A header of version 2 that is there as a whole.
pub record V2Complete (s : Bytes) : Type 0 where
  pub fixed_part : v2_min_header ≤ length s
  pub version : byte s 12 / 16 ≡ 2
  pub capped : word16 s 14 ≤ v2_max_addr_length
  pub address_part : v2_min_header + word16 s 14 ≤ length s

abbrev pub v2_result : Bytes → ProxyResult
v2_result s =
    v2_header (byte s 12 % 16) (byte s 13) (slice s v2_min_header (v2_min_header + word16 s 14))
      (drop (v2_min_header + word16 s 14) s)

pub parse_v2-V2Complete : (s : Bytes) (r : ProxyResult) → parse_v2 s ≡ some r → V2Complete s
unfolding parse_v2
parse_v2-V2Complete s r h = ground arith

pub parse_v2-result : (s : Bytes) (r : ProxyResult) → parse_v2 s ≡ some r → r ≡ v2_result s
unfolding parse_v2
parse_v2-result s r h = ground arith

pub parse_v2_of_V2Complete : (s : Bytes) → V2Complete s → parse_v2 s ≡ some (v2_result s)
unfolding parse_v2
parse_v2_of_V2Complete s c = ground arith

V2Complete-append : (s more : Bytes) → V2Complete s → V2Complete (s ++ more)
V2Complete-append s more c =
    let b12 = get_or-append s more 12 0 (omega (arith, c.fixed_part)) in
    let b14 = get_or-append s more 14 0 (omega (arith, c.fixed_part)) in
    let b15 = get_or-append s more 15 0 (omega (arith, c.fixed_part)) in
    record {
      fixed_part = omega (arith, c.fixed_part, length-append s more);
      version = rw b12 c.version;
      capped = rw (b14, b15) c.capped;
      address_part = rw (b14, b15) (omega (arith, c.address_part, length-append s more));
    }

v2_result-append :
    (s more : Bytes) → V2Complete s → v2_result (s ++ more) ≡ followed_by (v2_result s) more
unfolding v2_header
v2_result-append s more c =
    let b12 = get_or-append s more 12 0 (omega (arith, c.fixed_part)) in
    let b13 = get_or-append s more 13 0 (omega (arith, c.fixed_part)) in
    let b14 = get_or-append s more 14 0 (omega (arith, c.fixed_part)) in
    let b15 = get_or-append s more 15 0 (omega (arith, c.fixed_part)) in
    let d16 = drop-append-le 16 s more (omega (arith, c.fixed_part)) in
    let t =
      take-append-le (16 + word16 s 14 - 16) (drop 16 s) more
        (omega (arith, c.address_part, length-drop 16 s)) in
    let d = drop-append-le (16 + word16 s 14) s more (omega (arith, c.address_part)) in
    rw (b12, b13, b14, b15, d, d16, t) refl

parse_v2-append :
    (s more : Bytes) (r : ProxyResult)
    → parse_v2 s ≡ some r
    → parse_v2 (s ++ more) ≡ some (followed_by r more)
parse_v2-append s more r h =
    let c = parse_v2-V2Complete s r h in
    parse_v2_of_V2Complete (s ++ more) (V2Complete-append s more c)
    ∙ ap some
        (v2_result-append s more c ∙ ap (λ q. followed_by q more) (sym (parse_v2-result s r h)))

parse_as-append :
    (t : ProxyType) (s more : Bytes) (r : ProxyResult)
    → detect_proxy_protocol s ≡ t
    → parse_proxy_protocol s ≡ some r
    → parse_proxy_protocol (s ++ more) ≡ some (followed_by r more)
unfolding parse_proxy_protocol
parse_as-append v1 s more r e h =
    let d = detect-append s more (λ p. cc) ∙ e in
    rw (d, parse_proxy_protocol) (parse_v1-append s more r (rw (e, parse_proxy_protocol) at h))
parse_as-append v2 s more r e h =
    let d = detect-append s more (λ p. cc) ∙ e in
    rw (d, parse_proxy_protocol) (parse_v2-append s more r (rw (e, parse_proxy_protocol) at h))
parse_as-append no_proxy s more r e h =
    let d = detect-append s more (λ p. cc) ∙ e in
    rw (d, parse_proxy_protocol) (let p = rw (e, parse_proxy_protocol) at h in ground arith)
parse_as-append incomplete s more r e h = absurd (let p = rw (e, parse_proxy_protocol) at h in cc)

-- Once `parseProxyProtocol` has a result, more data changes nothing but the data that remains, to
-- which it is appended: where the stream is cut does not matter.
pub parse_proxy_protocol-append :
    (s more : Bytes) (r : ProxyResult)
    → parse_proxy_protocol s ≡ some r
    → parse_proxy_protocol (s ++ more) ≡ some (followed_by r more)
parse_proxy_protocol-append s more r h = parse_as-append _ s more r refl h
