-- ===== src/Tls/Config/Clean.antt =====
-- What the steps behind the loop leave in the options.
use testserver.Prelude.{
  ℕ, ◌≡◌, refl, ◌⊎◌, inl, inr, Bool, true, false, ◌||◌, Option, none, some, List, [], ◌∷◌, ok,
  bind-eq-ok, arith, Bool-cases, length, all, All, ◌≤◌,
}
use testserver.Text.{Text, codes, text_eq}
use testserver.Text.Laws.{text_eq_iff}
use testserver.Tls.{Value, bool, num, str, strs, Fields, TlsEndpoint}
use testserver.Tls.Fields.{get, set, delete, get-set, get-delete}
use testserver.Tls.Merge.{
  enabled_versions, security_level, number_of, set_minimum, translate_versions,
  resolve_enabled_versions, resolve_security_level,
}
use testserver.Tls.Merge.Typed.{FieldsFit, fits, option_fits, merge_contribution-fits}
use testserver.Tls.Config.{
  Merged, nothing_merged, find_endpoint, merge_endpoint, merge_parts, EndpointConfig, finish_config,
  get_endpoint_config,
}
use testserver.Tls.Config.Declares.{configured, endpoint_merged}

-- `set` of one of the keys that the resolving steps write leaves another key alone.
set-none :
    (key k : Text) (v : Value) (fs : Fields)
    → text_eq key k ≡ false
    → get k fs ≡ none
    → get k (set key v fs) ≡ none
set-none key k v fs e g = rw (get-set key k v fs, e) g

delete-none : (key k : Text) (fs : Fields) → get k fs ≡ none → get k (delete key fs) ≡ none
delete-none key k fs g = ground (arith, get-delete key k fs)

delete_self : (key : Text) (fs : Fields) → get key (delete key fs) ≡ none
delete_self key fs = ground (arith, get-delete key key fs, text_eq_iff key key)

set_minimum-enabled_versions :
    (o : Option Text) (fs : Fields)
    → get enabled_versions fs ≡ none
    → get enabled_versions (set_minimum o fs) ≡ none
unfolding set_minimum
set_minimum-enabled_versions none fs g = g
set_minimum-enabled_versions (some lowest) fs g =
    elim (Bool-cases (text_eq lowest (codes "TLSv1") || text_eq lowest (codes "TLSv1.1"))) [
      | inl e ↦ rw e (set-none _ _ _ _ refl (set-none _ _ _ _ refl g))
      | inr e ↦ rw e (set-none _ _ _ _ refl g)
    ]

module _ (disable_flag : Text → ℕ) where
  resolved-enabled_versions :
      (o : Option Value) (fs : Fields)
      → get enabled_versions fs ≡ o
      → FieldsFit fs
      → get enabled_versions (resolve_enabled_versions disable_flag fs) ≡ none
  unfolding resolve_enabled_versions translate_versions
  resolved-enabled_versions none fs e t = rw (e, resolve_enabled_versions) e
  resolved-enabled_versions (some (strs l)) fs e t =
      rw (e, resolve_enabled_versions)
        (set_minimum-enabled_versions _ _ (set-none _ _ _ _ refl (delete_self enabled_versions fs)))
  resolved-enabled_versions (some (bool v)) fs e t =
      absurd (unfold fits in ground (arith, t enabled_versions (bool v) e))
  resolved-enabled_versions (some (num v)) fs e t =
      absurd (unfold fits in ground (arith, t enabled_versions (num v) e))
  resolved-enabled_versions (some (str v)) fs e t =
      absurd (unfold fits in ground (arith, t enabled_versions (str v) e))

level-enabled_versions :
    (o : Option ℕ) (fs : Fields)
    → number_of (get security_level fs) ≡ o
    → get enabled_versions fs ≡ none
    → get enabled_versions (resolve_security_level fs) ≡ none
unfolding resolve_security_level
level-enabled_versions none fs e g = rw (e, resolve_security_level) g
level-enabled_versions (some l) fs e g =
    rw (e, resolve_security_level) (set-none _ _ _ _ refl (delete-none _ _ fs g))

level-security_level :
    (o : Option ℕ) (fs : Fields)
    → number_of (get security_level fs) ≡ o
    → (get security_level fs ≡ none) ⊎ ((l : ℕ) × (o ≡ some l))
    → get security_level (resolve_security_level fs) ≡ none
unfolding resolve_security_level
level-security_level none fs e (inl g) = rw (e, resolve_security_level) g
level-security_level none fs e (inr (l, p)) = absurd (ground arith)
level-security_level (some l) fs e h =
    rw (e, resolve_security_level) (set-none _ _ _ _ refl (delete_self security_level fs))

-- The security level is a number or absent.
HasLevel : Fields → Type 0
HasLevel fs =
    (get security_level fs ≡ none) ⊎ ((l : ℕ) × (number_of (get security_level fs) ≡ some l))

HasLevel-fits :
    (o : Option Value) (fs : Fields) → get security_level fs ≡ o → FieldsFit fs → HasLevel fs
unfolding number_of fits HasLevel
HasLevel-fits none fs e t = inl e
HasLevel-fits (some (num l)) fs e t = inr (l, rw (e, number_of) refl)
HasLevel-fits (some (bool v)) fs e t = absurd (ground (arith, t security_level (bool v) e))
HasLevel-fits (some (str v)) fs e t = absurd (ground (arith, t security_level (str v) e))
HasLevel-fits (some (strs v)) fs e t = absurd (ground (arith, t security_level (strs v) e))

-- A key that is none of those that the steps write.
HasLevel-set :
    (key : Text) (v : Value) (fs : Fields)
    → text_eq key security_level ≡ false
    → HasLevel fs
    → HasLevel (set key v fs)
unfolding HasLevel
HasLevel-set key v fs e h = rw (get-set key security_level v fs, e) h

HasLevel-delete :
    (key : Text) (fs : Fields)
    → text_eq key security_level ≡ false
    → HasLevel fs
    → HasLevel (delete key fs)
unfolding HasLevel
HasLevel-delete key fs e h = rw (get-delete key security_level fs, e) h

HasLevel-set_minimum : (o : Option Text) (fs : Fields) → HasLevel fs → HasLevel (set_minimum o fs)
unfolding set_minimum
HasLevel-set_minimum none fs h = h
HasLevel-set_minimum (some lowest) fs h =
    elim (Bool-cases (text_eq lowest (codes "TLSv1") || text_eq lowest (codes "TLSv1.1"))) [
      | inl e ↦ rw e (
          unfold HasLevel number_of in
          inr (0, rw (get-set security_level security_level (num 0) _) refl))
      | inr e ↦ rw e (HasLevel-set _ _ _ refl h)
    ]

HasLevel-resolved :
    (disable_flag : Text → ℕ) (o : Option Value) (fs : Fields)
    → get enabled_versions fs ≡ o
    → HasLevel fs
    → HasLevel (resolve_enabled_versions disable_flag fs)
unfolding resolve_enabled_versions translate_versions
HasLevel-resolved flag (some (strs l)) fs e h =
    rw (e, resolve_enabled_versions)
      (HasLevel-set_minimum _ _ (HasLevel-set _ _ _ refl (HasLevel-delete _ fs refl h)))
HasLevel-resolved flag _ fs e h = rw (e, resolve_enabled_versions) h

-- The four markers, which OpenSSL does not know.
abbrev pub markers : List Text
markers = enabled_versions ∷ security_level ∷ codes "rejectTls" ∷ codes "requireClientCert" ∷ []

abbrev pub LacksMarkers : Fields → Type 0
LacksMarkers fs = All (λ key. get key fs ≡ none) markers

finish-LacksMarkers :
    (disable_flag : Text → ℕ) (parts : List Text) (m : Merged) {c : EndpointConfig}
    → FieldsFit m.tls_options
    → finish_config disable_flag parts m ≡ ok c
    → LacksMarkers c.tls_options
unfolding finish_config
finish-LacksMarkers flag parts m {c} t h =
    let r = resolve_enabled_versions flag m.tls_options in
    let same : delete (codes "requireClientCert")
          (delete (codes "rejectTls") (resolve_security_level r))
        ≡ c.tls_options =
      ground arith in
    let ev =
      level-enabled_versions _ r refl (resolved-enabled_versions flag _ m.tls_options refl t) in
    let lv = HasLevel-resolved flag _ m.tls_options refl (HasLevel-fits _ m.tls_options refl t) in
    rw (← same) (
      delete-none _ _ _ (delete-none _ _ _ ev),
      (
        delete-none _ _ _
            (delete-none _ _ _ (level-security_level _ r refl (unfold HasLevel in lv))),
        (delete-none _ _ _ (delete_self _ (resolve_security_level r)), (delete_self _ _, tt)),
      ),
    )

-- Every contribution of the endpoints has the types of the fields that are combined.
unfoldable pub endpoints_fit : List TlsEndpoint → Bool
endpoints_fit endpoints = all (λ (e : TlsEndpoint). option_fits e.configure_tls_options) endpoints

found_fits :
    (endpoints : List TlsEndpoint) (part : Text) (e : TlsEndpoint)
    → endpoints_fit endpoints ≡ true
    → find_endpoint endpoints part ≡ some e
    → option_fits e.configure_tls_options ≡ true
unfolding endpoints_fit
found_fits [] part e t h = absurd (ground arith)
found_fits (x ∷ endpoints) part e t h = ground (arith, found_fits endpoints part e)

parts-fit :
    (endpoints : List TlsEndpoint) (parts : List Text) (m : Merged) {m' : Merged}
    → endpoints_fit endpoints ≡ true
    → FieldsFit m.tls_options
    → merge_parts endpoints parts m ≡ ok m'
    → FieldsFit m'.tls_options
unfolding merge_parts
parts-fit endpoints [] m {m'} t a h = let same : m ≡ m' = ground arith in rw (← same) a
parts-fit endpoints (part ∷ parts) m t a h =
    let (mid, first, rest) =
      bind-eq-ok (merge_endpoint part (find_endpoint endpoints part) m) _ h in
    let (e, found, both) = endpoint_merged part _ m first in
    parts-fit endpoints parts mid t
      (merge_contribution-fits _ _ (found_fits endpoints part e t found) a (both false)) rest

module _ (disable_flag : Text → ℕ) (endpoints : List TlsEndpoint) (parts : List Text)
    {c : EndpointConfig} where
  -- The options that reach OpenSSL hold none of the four marker fields, whatever the combination of
  -- parts, where the endpoints declare the combined fields at their types.
  pub get_endpoint_config-LacksMarkers :
      endpoints_fit endpoints ≡ true
      → get_endpoint_config disable_flag endpoints parts ≡ ok c
      → LacksMarkers c.tls_options
  get_endpoint_config-LacksMarkers t h =
      let s = configured disable_flag endpoints parts h in
      finish-LacksMarkers disable_flag parts s.merged
        (parts-fit endpoints parts nothing_merged t (λ k v g. unfold get in absurd (ground arith))
          s.merging)
        s.finishing

  pub reject_tls-length :
      (m : Merged)
      → finish_config disable_flag parts m ≡ ok c
      → c.reject_tls ≡ true
      → length parts ≤ 1
  unfolding finish_config
  reject_tls-length m h r = ground arith
