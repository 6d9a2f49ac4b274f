-- ===== src/Endpoints/Auth/Grants.antt =====
-- To whom src/endpoints/http/basic-auth.ts grants access.
use testserver.Prelude.{
  ◌≡◌, ◌≤◌, refl, sym, ap, subst, ◌∙◌, ◌↔◌, Bool, true, false, Option, none, some, List, [], ◌∷◌,
  ◌++◌, length, ok, arith, lt→ltb, if◌then◌else◌,
}
use testserver.Text.{Text, codes, text_eq, split, join}
use testserver.Text.Laws.{text_eq_iff}
use testserver.Text.Splits.{
  Lacks, AllLack, split-Lacks, split-cons, split-AllLack, join-split, split-join,
}
use testserver.Endpoints.{Exchange, Runtime}
use testserver.Endpoints.Auth.{
  match_credentials, is_basic, check_header, check_basic_auth, is_present, authenticated, challenge,
  reply_status, handle_basic_auth, basic_auth,
}

-- The path of the credentials of a user.
abbrev pub credentials_path : Text → Text → Text
credentials_path name secret = codes "/basic-auth/" ++ (name ++ b'/' ∷ secret)

credentials-split :
    (name secret : Text)
    → Lacks b'/' name
    → Lacks b'/' secret
    → split b'/' (name ++ b'/' ∷ secret) ≡ name ∷ secret ∷ []
credentials-split name secret n s =
    split-cons b'/' name secret n ∙ ap (◌∷◌ name) (split-Lacks b'/' secret s)

path-split :
    (name secret : Text)
    → Lacks b'/' name
    → Lacks b'/' secret
    → split b'/' (credentials_path name secret) ≡ [] ∷ codes "basic-auth" ∷ name ∷ secret ∷ []
unfolding split
path-split name secret n s = rw (credentials-split name secret n s) refl

credentials-match :
    (name secret : Text)
    → Lacks b'/' name
    → Lacks b'/' secret
    → 1 ≤ length name
    → 1 ≤ length secret
    → match_credentials (codes "/basic-auth/") (credentials_path name secret) ≡ true
unfolding match_credentials
credentials-match name secret n s some_name some_secret =
    let filled = lt→ltb 0 (length name) some_name in
    let filled_too = lt→ltb 0 (length secret) some_secret in
    rw (credentials-split name secret n s, filled, filled_too) refl

words-Basic :
    (parts : List Text) (expected : Text)
    → is_basic parts expected ≡ true
    → (rest : List Text) × (parts ≡ codes "Basic" ∷ expected ∷ rest)
words-Basic [] expected h = absurd (ground arith)
words-Basic (type ∷ []) expected h = absurd (ground arith)
words-Basic (type ∷ (value ∷ rest)) expected h =
    let both : (text_eq type (codes "Basic") ≡ true) × (text_eq value expected ≡ true) =
      ground arith in
    let same = (text_eq_iff type (codes "Basic")).0 both.0 in
    let same_value = (text_eq_iff value expected).0 both.1 in (rest, rw (same, same_value) refl)

module _ {F : Type 0} (R : Runtime F) where
  -- The Base64 text of the credentials.
  abbrev pub credentials : Text → Text → Text
  credentials name secret = R.to_base64 (R.utf8 (name ++ (codes ":" ++ secret)))

  -- The `Authorization` header has the words `Basic` and the credentials, and possibly others.
  abbrev pub Presents : Exchange → Text → Text → Type 0
  Presents x name secret =
      (rest : List Text) × AllLack b' ' rest
      × (x.request.header (codes "authorization")
          ≡ some (join (codes " ") (codes "Basic" ∷ credentials name secret ∷ rest)))

  check_header-join :
      (header : Option Text) (name secret : Text)
      → check_header R header name secret ≡ true
      → (rest : List Text) × AllLack b' ' rest
        × (header ≡ some (join (codes " ") (codes "Basic" ∷ credentials name secret ∷ rest)))
  check_header-join none name secret h = absurd (ground arith)
  check_header-join (some []) name secret h = absurd (ground arith)
  check_header-join (some (c ∷ s)) name secret h =
      let (rest, words) = words-Basic (split b' ' (c ∷ s)) (credentials name secret) h in
      let lack : AllLack b' ' (codes "Basic" ∷ credentials name secret ∷ rest) =
        subst (AllLack b' ') words (split-AllLack b' ' (c ∷ s)) in
      (rest, lack.1.1, ap some (sym (join-split b' ' (c ∷ s)) ∙ ap (join (codes " ")) words))

  join-check_header :
      (name secret : Text) (rest : List Text)
      → Lacks b' ' (credentials name secret)
      → AllLack b' ' rest
      → check_header R
          (some (join (codes " ") (codes "Basic" ∷ credentials name secret ∷ rest)))
          name
          secret
        ≡ true
  join-check_header name secret rest t r =
      let words =
        split-join b' ' (codes "Basic" ∷ credentials name secret ∷ rest) (λ e. cc)
          ((refl, (refl, (refl, (refl, (refl, tt))))), (t, r)) in
      rw (words, (text_eq_iff (credentials name secret) (credentials name secret)).1 refl) refl

  check_basic_auth_iff :
      (x : Exchange) (name secret : Text)
      → Lacks b' ' (credentials name secret)
      → (check_basic_auth R x name secret ≡ true) ↔ Presents x name secret
  unfolding check_basic_auth
  check_basic_auth_iff x name secret t = (
    λ h. check_header-join (x.request.header (codes "authorization")) name secret h,
    λ p. rw (p.2) (join-check_header name secret p.0 t p.1),
  )

  present :
      (x : Exchange) (name secret : Text)
      → Presents x name secret
      → is_present R (x.request.header (codes "authorization")) ≡ true
  present x name secret p = rw (p.2) (
      lt→ltb 0 (length (join (codes " ") (codes "Basic" ∷ credentials name secret ∷ p.0)))
        (omega arith))

  granted :
      (present_header checks : Bool) (name : Text)
      → (if present_header
          then if checks then authenticated R (codes "user") name else reply_status R [] 403
          else challenge R)
        ≡ authenticated R (codes "user") name
      → checks ≡ true
  granted true true name h = refl
  granted true false name h = absurd (ground arith)
  granted false checks name h = absurd (ground arith)

  -- For a name and a password that are not empty and hold no slash, `/basic-auth/name/password` is
  -- matched, and is answered with the name of the user exactly if the words of the `Authorization`
  -- header are `Basic` and the Base64 text of `name:password`, and possibly others, if that text has
  -- no spaces.
  pub basic_auth_iff :
      (x : Exchange) (name secret : Text)
      → Lacks b'/' name
      → Lacks b'/' secret
      → 1 ≤ length name
      → 1 ≤ length secret
      → Lacks b' ' (credentials name secret)
      → ((basic_auth R).match_path (credentials_path name secret) none ≡ ok true)
        × ((handle_basic_auth R x (credentials_path name secret)
              ≡ authenticated R (codes "user") name)
            ↔ Presents x name secret)
  unfolding basic_auth handle_basic_auth
  basic_auth_iff x name secret n s some_name some_secret t =
      let parts = path-split name secret n s in
      (
        rw (credentials-match name secret n s some_name some_secret) refl,
        (
          λ h. (check_basic_auth_iff x name secret t).0 (
              granted (is_present R (x.request.header (codes "authorization")))
                (check_basic_auth R x name secret) name (rw parts at h)),
          λ p. rw (parts, present x name secret p, (check_basic_auth_iff x name secret t).1 p) refl,
        ),
      )
