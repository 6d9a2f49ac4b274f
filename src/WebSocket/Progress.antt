-- ===== src/WebSocket/Progress.antt =====
-- What the WebSocket endpoints of src/endpoints/ws leave of a path for the next endpoint.
use testserver.Prelude.{
  ℕ, suc, ◌+◌, ◌≤◌, ◌≡◌, refl, sym, Option, some, ◌++◌, All, length, drop, err, arith, Option-cases,
  Bool-cases, inl, inr, length-drop, ltb, ltb→lt,
}
use testserver.Text.{Text, codes, index_of}
use testserver.Text.Laws.{index_of-lt}
use testserver.Chain.{Thrown, Outcome, Endpoint, remaining_path, resolve_endpoint_chain}
use testserver.Chain.Failures.{Stuck, resolve-Stuck}
use testserver.Chain.Shortens.{Shortens, Shortens-le, leaves_rest, keep-Shortens, TooDeep-length}
use testserver.Endpoints.{Runtime, rest_from}
use testserver.Endpoints.Table.Progress.{rest_from-length}
use testserver.WebSocket.{
  under_ws, behind_slash, rest_of_repeat, rest_without_protocol, ws_close_endpoint,
  ws_delay_endpoint, ws_echo_endpoint, ws_message_endpoint, ws_repeat_endpoint, ws_reset_endpoint,
  ws_subprotocol_endpoint, ws_no_subprotocol_endpoint, ws_endpoints,
}

-- `/ws` stands before the rest: three units.
under_ws-length :
    (from : ℕ) (path r : Text)
    → under_ws (rest_from path from) ≡ some r
    → length r + from ≤ 3 + length path
under_ws-length from path r h = elim (Option-cases (rest_from path from)) [
  | inl n ↦ absurd (let g = rw n at h in ground arith)
  | inr (s, e) ↦
      let g : some (codes "/ws" ++ s) ≡ some r = rw e at h in
      let same : codes "/ws" ++ s ≡ r = ground arith in
      let shorter = rest_from-length path from s e in rw (sym same) (omega (arith, shorter.1))
]

leaves_under_ws :
    {T : Type 0} (least : ℕ) (ep : Endpoint T)
    → ep.get_remaining_path ≡ some (λ path. under_ws (rest_from path (3 + least)))
    → Shortens least ep
unfolding remaining_path
leaves_under_ws least ep e path prefix r m h =
    let g : under_ws (rest_from path (3 + least)) ≡ some r = rw e at h in
    omega (arith, under_ws-length (3 + least) path r g)

behind_slash-length : (s t : Text) → behind_slash s ≡ some t → suc (length t) ≤ length s
behind_slash-length s t h = elim (Option-cases (index_of b'/' s)) [
  | inl n ↦ absurd (let g = rw (behind_slash, n) at h in ground arith)
  | inr (i, e) ↦
      let g : some (drop (1 + i) s) ≡ some t = rw (behind_slash, e) at h in
      let same : drop (1 + i) s ≡ t = ground arith in
      rw (sym same) (omega (arith, index_of-lt b'/' s i e, length-drop (1 + i) s))
]

repeat-Shortens :
    {T : Type 0} (ep : Endpoint T) → ep.get_remaining_path ≡ some rest_of_repeat → Shortens 9 ep
unfolding remaining_path rest_of_repeat
repeat-Shortens ep e path prefix r m h = elim (Option-cases (behind_slash (drop 11 path))) [
  | inl n ↦ absurd (let g = rw (remaining_path, e, rest_of_repeat, n) at h in ground arith)
  | inr (after, k) ↦
      let g : under_ws (rest_from after 0) ≡ some r =
        rw (remaining_path, e, rest_of_repeat, k) at h in
      omega (
        arith,
        under_ws-length 0 after r g,
        behind_slash-length (drop 11 path) after k,
        length-drop 11 path,
      )
]

no_subprotocol-Shortens :
    {T : Type 0} (ep : Endpoint T)
    → ep.get_remaining_path ≡ some rest_without_protocol
    → Shortens 15 ep
unfolding remaining_path
no_subprotocol-Shortens ep e path prefix r m h = elim (Bool-cases (ltb 18 (length path))) [
  | inl longer ↦
      let g : some (codes "/ws" ++ drop 18 path) ≡ some r = rw (remaining_path, e, longer) at h in
      let same : codes "/ws" ++ drop 18 path ≡ r = ground arith in
      let enough = ltb→lt 18 (length path) longer in
      rw (sym same) (omega (arith, enough, length-drop 18 path))
  | inr short ↦ absurd (let g = rw (remaining_path, e, short) at h in ground arith)
]

pub ws_endpoints-Shortens :
    {F : Type 0} (R : Runtime F) (decode : Text → Outcome Text)
    → All (Shortens 7) (ws_endpoints R decode)
unfolding leaves_rest ws_close_endpoint ws_delay_endpoint ws_echo_endpoint ws_message_endpoint
    ws_repeat_endpoint ws_reset_endpoint ws_subprotocol_endpoint ws_no_subprotocol_endpoint
    ws_endpoints
ws_endpoints-Shortens R decode = keep-Shortens 7 (ws_endpoints R decode) (
  leaves_under_ws 7 (ws_delay_endpoint R decode) refl,
  (
    Shortens-le 7 9 _ (omega arith) (leaves_under_ws 9 (ws_message_endpoint R decode) refl),
    (
      Shortens-le 7 15 _ (omega arith)
          (no_subprotocol-Shortens (ws_no_subprotocol_endpoint R decode) refl),
      (
        Shortens-le 7 9 _ (omega arith) (repeat-Shortens (ws_repeat_endpoint R decode) refl),
        (
          Shortens-le 7 13 _ (omega arith)
              (leaves_under_ws 13 (ws_subprotocol_endpoint R decode) refl),
          tt,
        ),
      ),
    ),
  ),
)

-- For a path of at most 77 units the chain of the WebSocket endpoints is never refused for its
-- depth: an error is that no endpoint takes a path that is left, or the one that the test of a path
-- throws.
pub ws_endpoints_depth :
    {F : Type 0} (R : Runtime F) (decode : Text → Outcome Text) (path : Text) (prefix : Option Text)
    (e : Thrown)
    → length path ≤ 77
    → resolve_endpoint_chain (ws_endpoints R decode) path prefix ≡ err e
    → Stuck (ws_endpoints R decode) path prefix 11 e (some path)
ws_endpoints_depth R decode path prefix e h k =
    elim (resolve-Stuck (ws_endpoints R decode) path prefix e k) [
      | inl stuck ↦ stuck
      | inr deep ↦ absurd (
          omega (
            arith,
            h,
            TooDeep-length (ws_endpoints R decode) prefix 7 (ws_endpoints-Shortens R decode) path e
                deep,
          ))
    ]
