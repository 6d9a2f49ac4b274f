-- ===== src/Endpoints/Echo/Frames.antt =====
-- The frames that src/endpoints/http/echo.ts prints, against those that src/process-connection.ts
-- cuts out of the data.
use testserver.Prelude.{
  ℕ, zero, suc, ◌+◌, ◌%◌, ◌*◌, ◌≤◌, ◌≡◌, refl, sym, ◌∙◌, some, [], ◌∷◌, length, take, drop, arith,
  Bool-cases, inl, inr, ltb, length-take, length-drop, get_or,
}
use testserver.Proxy.{Bytes}
use testserver.Proxy.V2.{byte}
use testserver.Connection.Frames.{parse_frame_header, whole_frame, frame_header_size}
use testserver.Endpoints.Echo.{hex, frame_to_output}

hex-length : (s : Bytes) → length (hex s) ≡ 2 * length s
unfolding hex
hex-length [] = omega arith
hex-length (b ∷ s) = omega (arith, hex-length s)

get_or-take : (s : Bytes) (n i : ℕ) → suc i ≤ n → get_or (take n s) i 0 ≡ get_or s i 0
get_or-take s zero i h = absurd (omega arith)
get_or-take [] (suc n) i h = refl
get_or-take (a ∷ s) (suc n) zero h = refl
get_or-take (a ∷ s) (suc n) (suc i) h = get_or-take s n i (omega arith)

abbrev length_at : Bytes → ℕ
length_at s = byte s 0 * 65536 + byte s 1 * 256 + byte s 2

abbrev stream_at : Bytes → ℕ
stream_at s = (byte s 5 % 128) * 16777216 + byte s 6 * 65536 + byte s 7 * 256 + byte s 8

whole_frame-size :
    (s : Bytes) (stream size : ℕ)
    → whole_frame s ≡ some (stream, size)
    → (stream_at s ≡ stream) × (9 + length_at s ≡ size) × (size ≤ length s)
unfolding whole_frame parse_frame_header
whole_frame-size s stream size h = elim (Bool-cases (ltb (length s) 9)) [
  | inl short ↦ absurd (let g = rw (whole_frame, parse_frame_header, short) at h in ground arith)
  | inr long ↦ elim (Bool-cases (ltb (length s) (9 + length_at s))) [
    | inl more ↦
        absurd (let g = rw (whole_frame, parse_frame_header, long, more) at h in ground arith)
    | inr enough ↦
        let g : some (stream_at s, 9 + length_at s) ≡ some (stream, size) =
          rw (whole_frame, parse_frame_header, long, enough) at h in
        let same : (stream_at s ≡ stream) × (9 + length_at s ≡ size) = ground arith in
        let fits : 9 + length_at s ≤ length s = ground arith in
        (same.0, same.1, rw (sym same.1) fits)
  ]
]

-- A frame that is cut out of the data, `size` bytes for the stream `stream`, is printed with that
-- stream, and with its whole payload: two digits for each byte behind the header.
pub frame_to_output-whole :
    (s : Bytes) (stream size : ℕ)
    → whole_frame s ≡ some (stream, size)
    → ((frame_to_output (take size s)).stream_id ≡ stream)
      × ((frame_to_output (take size s)).length_field + frame_header_size ≡ size)
      × (length (frame_to_output (take size s)).payload_hex
          ≡ 2 * (frame_to_output (take size s)).length_field)
unfolding frame_to_output
frame_to_output-whole s stream size h =
    let (on_stream, sized, fits) = whole_frame-size s stream size h in
    let kept : (i : ℕ) → i ≤ 8 → byte (take size s) i ≡ byte s i =
      λ i k. get_or-take s size i (omega (arith, k, sized)) in
    rw
      (
        kept 0 (omega arith),
        kept 1 (omega arith),
        kept 2 (omega arith),
        kept 5 (omega arith),
        kept 6 (omega arith),
        kept 7 (omega arith),
        kept 8 (omega arith),
      )
      (
        on_stream,
        omega (arith, sized),
        hex-length (take (length_at s) (drop 9 (take size s)))
            ∙ omega (
              arith,
              sized,
              fits,
              length-take (length_at s) (drop 9 (take size s)),
              length-drop 9 (take size s),
              length-take size s,
            ),
      )
