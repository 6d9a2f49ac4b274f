-- ===== src/Endpoints/Caching/Conditions.antt =====
-- The conditions of src/endpoints/http/etag.ts: which tags a header lists.
use testserver.Prelude.{
  ℕ, ◌≡◌, ◌≢◌, refl, ap, ◌∙◌, false, ◌||◌, some, List, [], ◌∷◌, ◌++◌, All, All-append, drop, map,
  arith, if◌then◌else◌, ◌==◌,
}
use testserver.Text.{Text, codes, mem_text, split, join, add_head}
use testserver.Text.Number.{is_white, skip_white}
use testserver.Text.Splits.{Lacks, split-cons, split-Lacks, split-ne-nil}
use testserver.Endpoints.{Exchange, Runtime, Handled, url_path}
use testserver.Endpoints.Caching.{
  trim_end, trim, is_line_end, before_quote, unquote, parse_etag_list, covers, reply_etag,
  check_match, check_none_match, handle_etag,
}

-- A tag as a client writes it: no white space, quote or comma.
abbrev pub IsTag : Text → Type 0
IsTag s = All (λ c. (is_white c ≡ false) × ((c == b'"') ≡ false) × ((c == b',') ≡ false)) s

abbrev pub quoted : Text → Text
quoted s = b'"' ∷ (s ++ b'"' ∷ [])

trim_end-cons : (c d : ℕ) (t u : Text) → trim_end t ≡ d ∷ u → trim_end (c ∷ t) ≡ c ∷ (d ∷ u)
trim_end-cons c d t u h = rw h refl

trim_end-quote : (s : Text) → trim_end (s ++ b'"' ∷ []) ≡ s ++ b'"' ∷ []
trim_end-quote [] = refl
trim_end-quote (c ∷ []) = refl
trim_end-quote (c ∷ (d ∷ s)) =
    trim_end-cons c d ((d ∷ s) ++ b'"' ∷ []) (s ++ b'"' ∷ []) (trim_end-quote (d ∷ s))

white_line : (c : ℕ) → is_white c ≡ false → is_line_end c ≡ false
white_line c h = ground arith

before_quote-cons :
    (c d : ℕ) (t u : Text)
    → is_line_end c ≡ false
    → before_quote (d ∷ t) ≡ some u
    → before_quote (c ∷ (d ∷ t)) ≡ some (c ∷ u)
before_quote-cons c d t u e h = rw (e, h) refl

before_quote-tag : (s : Text) → IsTag s → before_quote (s ++ b'"' ∷ []) ≡ some s
before_quote-tag [] h = refl
before_quote-tag (c ∷ []) h = rw (white_line c h.0.0) refl
before_quote-tag (c ∷ (d ∷ s)) h =
    before_quote-cons c d (s ++ b'"' ∷ []) (d ∷ s) (white_line c h.0.0)
      (before_quote-tag (d ∷ s) h.1)

unquote-quoted : (s : Text) → IsTag s → unquote (trim (quoted s)) ≡ s
unfolding unquote trim skip_white
unquote-quoted s h = rw (trim_end-quote (b'"' ∷ s), before_quote-tag s h) refl

abbrev unquote_all : List Text → List Text
unquote_all ps = map (λ s. unquote (trim s)) ps

unquote_all-space : (ps : List Text) → ps ≢ [] → unquote_all (add_head b' ' ps) ≡ unquote_all ps
unfolding trim skip_white
unquote_all-space [] n = absurd (n refl)
unquote_all-space (p ∷ ps) n = refl

-- A space in front of the list does not matter.
parse_etag_list-space : (s : Text) → parse_etag_list (b' ' ∷ s) ≡ parse_etag_list s
unfolding parse_etag_list split
parse_etag_list-space s = unquote_all-space (split b',' s) (split-ne-nil b',' s)

tag-Lacks : (s : Text) → IsTag s → Lacks b',' s
tag-Lacks [] h = tt
tag-Lacks (c ∷ s) h = (h.0.2, tag-Lacks s h.1)

quoted-Lacks : (s : Text) → IsTag s → Lacks b',' (quoted s)
quoted-Lacks s h =
    (refl, All-append (λ a. (a == b',') ≡ false) s (b'"' ∷ []) (tag-Lacks s h) (refl, tt))

-- The tags of a header `"a", "b"` are `a` and `b`, for tags without white space, quotes and commas.
pub parse_etag_list-join :
    (tags : List Text)
    → tags ≢ []
    → All IsTag tags
    → parse_etag_list (join (codes ", ") (map quoted tags)) ≡ tags
unfolding parse_etag_list
parse_etag_list-join [] n h = absurd (n refl)
parse_etag_list-join (t ∷ []) n h =
    ap unquote_all (split-Lacks b',' (quoted t) (quoted-Lacks t h.0))
    ∙ ap (λ u. u ∷ []) (unquote-quoted t h.0)
parse_etag_list-join (t ∷ (u ∷ ts)) n h =
    let rest : Text = join (codes ", ") (map quoted (u ∷ ts)) in
    ap unquote_all (split-cons b',' (quoted t) (b' ' ∷ rest) (quoted-Lacks t h.0))
    ∙ ap (λ v. v ∷ unquote_all (split b',' (b' ' ∷ rest))) (unquote-quoted t h.0)
    ∙ ap (◌∷◌ t) (parse_etag_list-space rest ∙ parse_etag_list-join (u ∷ ts) (λ e. cc) h.1)

-- The list of tags as a client writes it.
abbrev pub tag_list : List Text → Text
tag_list tags = join (codes ", ") (map quoted tags)

covers-tag_list :
    (tags : List Text) (value : Text)
    → tags ≢ []
    → All IsTag tags
    → covers (tag_list tags) value ≡ (mem_text value tags || mem_text (codes "*") tags)
unfolding covers
covers-tag_list tags value n h = rw (parse_etag_list-join tags n h) refl

tag_list-cons : (tags : List Text) → tags ≢ [] → (c : ℕ) × (s : Text) × (tag_list tags ≡ c ∷ s)
tag_list-cons [] n = absurd (n refl)
tag_list-cons (t ∷ []) n = (b'"', _, refl)
tag_list-cons (t ∷ (u ∷ ts)) n = (b'"', _, refl)

module _ {F : Type 0} (R : Runtime F) where
  check_none_match-filled :
      (x : Exchange) (value list : Text) (c : ℕ) (s : Text) (next : Handled F)
      → list ≡ c ∷ s
      → check_none_match R x value (some list) next
        ≡ (if covers list value then reply_etag R 304 value else next)
  check_none_match-filled x value list c s next e = rw e refl

  -- With an `If-None-Match` header that lists quoted tags, none of which holds white space, a quote
  -- or a comma, `/etag/value` is answered with status 304 if the value or `*` is among them, and
  -- otherwise as the `If-Match` header says.
  pub handle_etag-tags :
      (x : Exchange) (tags : List Text)
      → tags ≢ []
      → All IsTag tags
      → x.request.header (codes "if-none-match") ≡ some (tag_list tags)
      → handle_etag R x ≡ (
          if mem_text (drop 6 (url_path x)) tags || mem_text (codes "*") tags
          then reply_etag R 304 (drop 6 (url_path x))
          else check_match R x (drop 6 (url_path x)) (x.request.header (codes "if-match")))
  unfolding handle_etag
  handle_etag-tags x tags n h e =
      let value = drop 6 (url_path x) in
      let (c, s, filled) = tag_list-cons tags n in
      rw e (
        check_none_match-filled x value (tag_list tags) c s
          (check_match R x value (x.request.header (codes "if-match"))) filled
        ∙ rw (covers-tag_list tags value n h) refl)
