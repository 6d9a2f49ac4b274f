-- ===== src/Endpoints/Redirects/Follows.antt =====
-- A client that follows the redirects of src/endpoints/http/redirect.ts.
use testserver.Prelude.{
  ℕ, zero, suc, ◌-◌, ◌≤◌, ◌≡◌, refl, ap, ◌∙◌, true, false, ◌&&◌, Option, none, some, List, [], ◌∷◌,
  ◌++◌, All, all, length, drop, ◌==◌, ok, err, arith, leb, lt→ltb, if◌then◌else◌,
}
use testserver.Text.{Text, codes, text_eq, starts_with}
use testserver.Text.Number.{pos, to_decimal, is_digit}
use testserver.Text.Decimal.{IsDigit, to_decimal-All, to_decimal-nonempty, parse_int-to_decimal}
use testserver.Chain.{Endpoint, Outcome, find_endpoint}
use testserver.Endpoints.{Call, write_head, Exchange, Handling, has_count, parse_n}
use testserver.Endpoints.Redirects.{
  parse_redirects, match_redirect, handle_redirect, redirect_to, redirect_n, relative_redirect_n,
  absolute_redirect_n, next_path,
}

all-digits : (s : Text) → All IsDigit s → all is_digit s ≡ true
all-digits [] a = refl
all-digits (c ∷ s) a = let rest = all-digits s a.1 in ground arith

-- A count in its range is read back from a path.
parse_redirects-to_decimal :
    (path prefix : Text) (n : ℕ)
    → drop (length prefix) path ≡ to_decimal n
    → 1 ≤ n
    → n ≤ 100
    → parse_redirects path prefix ≡ ok n
unfolding parse_redirects parse_n
parse_redirects-to_decimal path prefix n e low high = rw (e, parse_int-to_decimal n) (ground arith)

has_count-to_decimal :
    (path prefix : Text) (n : ℕ)
    → drop (length prefix) path ≡ to_decimal n
    → starts_with path prefix ≡ true
    → has_count path prefix ≡ true
unfolding has_count
has_count-to_decimal path prefix n e s =
    let some_digit = lt→ltb 0 (length (to_decimal n)) (to_decimal-nonempty n) in
    let digits = all-digits (to_decimal n) (to_decimal-All n) in rw (e, s, some_digit, digits) refl

has_count-other :
    (path prefix : Text) → starts_with path prefix ≡ false → has_count path prefix ≡ false
unfolding has_count
has_count-other path prefix h = rw h refl

module _ {F : Type 0} where
  -- The target of a response that is a redirect.
  abbrev location : List (Call F) → Option Text
  location (write_head (some (pos status)) ((name, value) ∷ headers) ∷ calls) =
      if status == 302 && text_eq name (codes "location") then some value else none
  location calls = none

  -- The endpoints of redirect.ts, in the order of the table.
  abbrev redirects : List (Endpoint (Handling F))
  redirects = absolute_redirect_n ∷ redirect_n ∷ redirect_to ∷ relative_redirect_n ∷ []

  abbrev answered : Exchange → Text → Outcome (Option (Endpoint (Handling F))) → Option Text
  answered x path (ok (some ep)) = location (ep.rest.handle x path).0
  answered x path (ok none) = none
  answered x path (err e) = none

location-handle_redirect :
    (F : Type 0) (prefix next path : Text) (n : ℕ)
    → parse_redirects path prefix ≡ ok n
    → location (handle_redirect {F = F} prefix next path).0 ≡ some (next_path next n)
unfolding handle_redirect
location-handle_redirect F prefix next path n parses = rw parses refl

next_path-suc : (p : Text) (n : ℕ) → next_path p (suc (suc n)) ≡ p ++ to_decimal (suc n)
next_path-suc p n =
    let more : leb (suc (suc n)) 1 ≡ false = ground arith in
    let less : suc (suc n) - 1 ≡ suc n = omega arith in rw (more, less) refl

module _ (F : Type 0) (x : Exchange) where
  -- Where the answer to a request for `path` leads.
  unfoldable pub visit : Text → Option Text
  visit path = answered x path (find_endpoint (redirects {F = F}) path none)

  unfoldable pub follow : ℕ → Text → Option Text
  follow zero path = some path
  follow (suc n) path = elim (visit path) [ none ↦ none | some next ↦ follow n next ]

  visit-relative :
      (n : ℕ)
      → 1 ≤ n
      → n ≤ 100
      → visit (codes "/relative-redirect/" ++ to_decimal n)
        ≡ some (next_path (codes "/relative-redirect/") n)
  unfolding visit find_endpoint absolute_redirect_n redirect_n redirect_to relative_redirect_n
      match_redirect handle_redirect
  visit-relative n low high =
      let path : Text = codes "/relative-redirect/" ++ to_decimal n in
      let counts = has_count-to_decimal path (codes "/relative-redirect/") n refl refl in
      let parses = parse_redirects-to_decimal path (codes "/relative-redirect/") n refl low high in
      let not_absolute = has_count-other path (codes "/absolute-redirect/") refl in
      let not_redirect = has_count-other path (codes "/redirect/") refl in
      rw (not_absolute, not_redirect, counts, parses)
        (location-handle_redirect F (codes "/relative-redirect/") (codes "/relative-redirect/") path
          n parses)

  visit-redirect :
      (n : ℕ)
      → 1 ≤ n
      → n ≤ 100
      → visit (codes "/redirect/" ++ to_decimal n)
        ≡ some (next_path (codes "/relative-redirect/") n)
  unfolding visit find_endpoint absolute_redirect_n redirect_n redirect_to relative_redirect_n
      match_redirect
  visit-redirect n low high =
      let path : Text = codes "/redirect/" ++ to_decimal n in
      let counts = has_count-to_decimal path (codes "/redirect/") n refl refl in
      let parses = parse_redirects-to_decimal path (codes "/redirect/") n refl low high in
      let not_absolute = has_count-other path (codes "/absolute-redirect/") refl in
      rw (not_absolute, counts, parses)
        (location-handle_redirect F (codes "/redirect/") (codes "/relative-redirect/") path n
          parses)

  follow-step :
      (n : ℕ) (path next : Text) → visit path ≡ some next → follow (suc n) path ≡ follow n next
  unfolding follow
  follow-step n path next h = rw (follow, h) refl

  follow-relative :
      (n : ℕ)
      → 1 ≤ n
      → n ≤ 100
      → follow n (codes "/relative-redirect/" ++ to_decimal n) ≡ some (codes "/get")
  unfolding follow
  follow-relative zero low high = absurd (omega arith)
  follow-relative (suc zero) low high = follow-step 0 _ _ (visit-relative 1 low high)
  follow-relative (suc (suc n)) low high =
      follow-step (suc n) _ _ (visit-relative (suc (suc n)) low high)
      ∙ ap (follow (suc n)) (next_path-suc (codes "/relative-redirect/") n)
      ∙ follow-relative (suc n) (omega arith) (omega arith)

  -- A client that asks for `/redirect/n`, with `n` from 1 to 100, and follows each redirect that it
  -- gets has `/get` after exactly `n` of them: each of the paths on the way is matched, and answered
  -- with a redirect.
  pub redirect_n-follows :
      (n : ℕ)
      → 1 ≤ n
      → n ≤ 100
      → follow n (codes "/redirect/" ++ to_decimal n) ≡ some (codes "/get")
  unfolding follow
  redirect_n-follows zero low high = absurd (omega arith)
  redirect_n-follows (suc zero) low high = follow-step 0 _ _ (visit-redirect 1 low high)
  redirect_n-follows (suc (suc n)) low high =
      follow-step (suc n) _ _ (visit-redirect (suc (suc n)) low high)
      ∙ ap (follow (suc n)) (next_path-suc (codes "/relative-redirect/") n)
      ∙ follow-relative (suc n) (omega arith) (omega arith)
