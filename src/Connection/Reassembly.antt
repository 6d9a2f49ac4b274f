-- ===== src/Connection/Reassembly.antt =====
-- Frames are captured alike however the data of a connection is cut into chunks.
use mathlib.Core.List.{append_assoc}
use testserver.Prelude.{
  ℕ, zero, suc, ◌≤◌, ◌≡◌, ◌≢◌, refl, sym, ap, ◌∙◌, inl, inr, false, some, List, [], ◌∷◌, ◌++◌, ltb,
  length, length-append, length-drop, take, drop, take-append-le, drop-append-le, get_or-append,
  arith, Bool-cases, Option-cases, ◌==◌,
}
use testserver.Proxy.{Bytes}
use testserver.Connection.Frames.{FrameHeader, parse_frame_header, whole_frame, split_frames}
use testserver.Connection.Capture.{
  Capture, StreamState, route_frame, route_frames, route_to, skip_preface, process_incoming_data,
}

whole_frame-bounds :
    (s : Bytes) (id n : ℕ) → whole_frame s ≡ some (id, n) → (9 ≤ n) × (n ≤ length s)
unfolding whole_frame parse_frame_header
whole_frame-bounds s id n h = ground arith

header-append :
    (s more : Bytes) (h : FrameHeader)
    → parse_frame_header s ≡ some h
    → parse_frame_header (s ++ more) ≡ some h
unfolding parse_frame_header
header-append s more h e = elim (Bool-cases (ltb (length s) 9)) [
  | inl short ↦ absurd (ground arith)
  | inr long ↦
      let l : ltb (length (s ++ more)) 9 ≡ false = ground (arith, length-append s more) in
      let b = λ (i : ℕ) (p : suc i ≤ length s). get_or-append s more i 0 p in
      rw l (
        rw
          (
            b 0 (ground arith),
            b 1 (ground arith),
            b 2 (ground arith),
            b 3 (ground arith),
            b 4 (ground arith),
            b 5 (ground arith),
            b 6 (ground arith),
            b 7 (ground arith),
            b 8 (ground arith),
          )
          (ground arith))
]

whole_frame-append :
    (s more : Bytes) (id n : ℕ)
    → whole_frame s ≡ some (id, n)
    → whole_frame (s ++ more) ≡ some (id, n)
unfolding whole_frame
whole_frame-append s more id n e = elim (Option-cases (parse_frame_header s)) [
  | inl p ↦ absurd (ground arith)
  | inr (h, p) ↦ rw (header-append s more h p, whole_frame) (ground (arith, length-append s more))
]

-- Rounds that suffice give the same.
enough_rounds :
    (k j : ℕ) (s : Bytes) → length s ≤ k → length s ≤ j → split_frames k s ≡ split_frames j s
unfolding split_frames
enough_rounds zero zero s p q = refl
enough_rounds zero (suc j) [] p q = unfold whole_frame parse_frame_header in refl
enough_rounds zero (suc j) (b ∷ s) p q = absurd (omega arith)
enough_rounds (suc k) zero [] p q = unfold whole_frame parse_frame_header in refl
enough_rounds (suc k) zero (b ∷ s) p q = absurd (omega arith)
enough_rounds (suc k) (suc j) s p q = elim (Option-cases (whole_frame s)) [
  | inl e ↦ rw (e, split_frames) refl
  | inr ((id, n), e) ↦
      let b = whole_frame-bounds s id n e in
      rw (e, split_frames)
        (rw
          (enough_rounds k j (drop n s) (omega (arith, length-drop n s))
            (omega (arith, length-drop n s)))
          refl)
]

abbrev join_frames : List (ℕ × Bytes) × Bytes → Bytes → List (ℕ × Bytes) × Bytes
join_frames (frames, rest) more =
    let (frames', rest') = split_frames (length (rest ++ more)) (rest ++ more) in
    (frames ++ frames', rest')

-- One frame is split off.
split_step :
    (k : ℕ) (s : Bytes) (id n : ℕ)
    → whole_frame s ≡ some (id, n)
    → split_frames (suc k) s
      ≡ ((id, take n s) ∷ (split_frames k (drop n s)).0, (split_frames k (drop n s)).1)
unfolding split_frames
split_step k s id n e = rw (e, split_frames) refl

-- Frames that were split off stay, and splitting goes on with what was left and the new data.
split_frames-append :
    (k : ℕ) (s more : Bytes)
    → length s ≤ k
    → split_frames (length (s ++ more)) (s ++ more) ≡ join_frames (split_frames k s) more
split_frames-append zero s more p = unfold split_frames in refl
split_frames-append (suc k) s more p = elim (Option-cases (whole_frame s)) [
  | inl e ↦ unfold split_frames in rw (e, split_frames) refl
  | inr ((id, n), e) ↦
      let b = whole_frame-bounds s id n e in
      let m = length (s ++ more) in
      let ih = split_frames-append k (drop n s) more (omega (arith, length-drop n s)) in
      enough_rounds m (suc m) (s ++ more) (omega arith) (omega arith)
      ∙ split_step m (s ++ more) id n (whole_frame-append s more id n e)
      ∙ rw (take-append-le n s more b.1, drop-append-le n s more b.1)
          (rw
            (enough_rounds m (length (drop n s ++ more)) (drop n s ++ more)
              (omega (arith, length-append s more, length-append (drop n s) more, length-drop n s))
              (omega arith))
            (rw (ih, split_step k s id n e) refl))
]

route_frames-append :
    (fs gs : List (ℕ × Bytes)) (c : Capture)
    → route_frames (fs ++ gs) c ≡ route_frames gs (route_frames fs c)
unfolding route_frames
route_frames-append [] gs c = refl
route_frames-append (f ∷ fs) gs c = route_frames-append fs gs (route_frame f c)

abbrev with_partial : Bytes → Capture → Capture
with_partial s c = record c { partial_data = s }

route_to-partial :
    (id : ℕ) (frame p : Bytes) (st : StreamState) (c : Capture)
    → route_to id frame st (with_partial p c) ≡ with_partial p (route_to id frame st c)
unfolding route_to
route_to-partial id frame p st c = ground arith

route_frame-partial :
    (f : ℕ × Bytes) (p : Bytes) (c : Capture)
    → route_frame f (with_partial p c) ≡ with_partial p (route_frame f c)
unfolding route_frame
route_frame-partial (id, frame) p c = elim (Bool-cases (id == 0)) [
  | inl e ↦ rw e refl
  | inr e ↦ rw e (route_to-partial id frame p _ c)
]

route_frames-partial :
    (fs : List (ℕ × Bytes)) (p : Bytes) (c : Capture)
    → route_frames fs (with_partial p c) ≡ with_partial p (route_frames fs c)
unfolding route_frames
route_frames-partial [] p c = refl
route_frames-partial (f ∷ fs) p c =
    rw (route_frame-partial f p c) (route_frames-partial fs p (route_frame f c))

-- A global frame was captured, so that the preface is behind.
abbrev pub IsStarted : Capture → Type 0
IsStarted c = c.global_frames ≢ []

append-ne-nil : (xs ys : List Bytes) → xs ≢ [] → xs ++ ys ≢ []
append-ne-nil [] ys h e = h refl
append-ne-nil (x ∷ xs) ys h e = cc

route_frame-IsStarted : (f : ℕ × Bytes) (c : Capture) → IsStarted c → IsStarted (route_frame f c)
unfolding route_frame route_to
route_frame-IsStarted (id, frame) c h = ground (arith, append-ne-nil c.global_frames (frame ∷ []) h)

route_frames-IsStarted :
    (fs : List (ℕ × Bytes)) (c : Capture) → IsStarted c → IsStarted (route_frames fs c)
unfolding route_frames
route_frames-IsStarted [] c h = h
route_frames-IsStarted (f ∷ fs) c h =
    route_frames-IsStarted fs (route_frame f c) (route_frame-IsStarted f c h)

skip-started : (gs : List Bytes) (s : Bytes) → gs ≢ [] → skip_preface gs s ≡ s
unfolding skip_preface
skip-started [] s h = absurd (h refl)
skip-started (g ∷ gs) s h = refl

process_started :
    (s : Bytes) (c : Capture)
    → IsStarted c
    → process_incoming_data s c
      ≡ with_partial
          (split_frames (length (c.partial_data ++ s)) (c.partial_data ++ s)).1
          (route_frames (split_frames (length (c.partial_data ++ s)) (c.partial_data ++ s)).0 c)
unfolding process_incoming_data
process_started s c h = rw (skip-started c.global_frames (c.partial_data ++ s) h) refl

-- Once a global frame was captured, two chunks have the effect of one: the frames captured, the
-- calls of callbacks and the partial data are the same, wherever the data was cut.
pub process_incoming_data-append :
    (s t : Bytes) (c : Capture)
    → IsStarted c
    → process_incoming_data t (process_incoming_data s c) ≡ process_incoming_data (s ++ t) c
process_incoming_data-append s t c h =
    let full = c.partial_data ++ s in
    let first = split_frames (length full) full in
    let mid = route_frames first.0 c in
    let second = split_frames (length (first.1 ++ t)) (first.1 ++ t) in
    let joined = split_frames-append (length full) full t (omega arith) in
    rw (process_started s c h) (
      process_started t (with_partial first.1 mid) (route_frames-IsStarted first.0 c h)
      ∙ ap (with_partial second.1) (route_frames-partial second.0 first.1 mid)
      ∙ sym (
          process_started (s ++ t) c h
          ∙ rw (← append_assoc c.partial_data s t, joined)
              (ap (with_partial second.1) (route_frames-append first.0 second.0 c))))
