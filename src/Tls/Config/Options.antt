-- ===== src/Tls/Config/Options.antt =====
-- The TLS options that the resolving steps leave alone, and the two marker flags.
use testserver.Prelude.{
  ℕ, ◌≡◌, refl, sym, ◌∙◌, ap, ◌↔◌, inl, inr, Bool, true, false, ◌||◌, Option, none, some, List, [],
  ◌∷◌, ok, arith, Bool-cases,
}
use testserver.Text.{Text, codes, text_eq}
use testserver.Tls.{Value, bool, num, str, strs, Fields, TlsEndpoint}
use testserver.Tls.Fields.{get, set, delete, get-set, get-delete}
use testserver.Tls.Merge.{
  enabled_versions, security_level, field_combiner, number_of, set_minimum, translate_versions,
  resolve_enabled_versions, resolve_security_level,
}
use testserver.Tls.Merge.Declared.{IsExclusive}
use testserver.Tls.Config.{
  Merged, nothing_merged, EndpointConfig, finish_config, is_true, get_endpoint_config,
}
use testserver.Tls.Config.Declares.{Configured, configured, Declared, parts-origin, parts-declared}

-- The keys that the steps behind the loop write or delete, the two flags aside.
abbrev pub resolved_keys : List Text
resolved_keys =
    enabled_versions
    ∷ security_level
    ∷ codes "secureOptions"
    ∷ codes "minVersion"
    ∷ codes "ciphers"
    ∷ []

abbrev pub flag_keys : List Text
flag_keys = codes "rejectTls" ∷ codes "requireClientCert" ∷ []

module _ (k : Text) where
  set-other :
      (key : Text) (v : Value) (fs : Fields)
      → text_eq key k ≡ false
      → get k (set key v fs) ≡ get k fs
  set-other key v fs e = rw (get-set key k v fs, e)

  delete-other :
      (key : Text) (fs : Fields) → text_eq key k ≡ false → get k (delete key fs) ≡ get k fs
  delete-other key fs e = rw (get-delete key k fs, e)

  set_minimum-other :
      (o : Option Text) (fs : Fields)
      → text_eq (codes "minVersion") k ≡ false
      → text_eq security_level k ≡ false
      → get k (set_minimum o fs) ≡ get k fs
  unfolding set_minimum
  set_minimum-other none fs p q = refl
  set_minimum-other (some lowest) fs p q =
      elim (Bool-cases (text_eq lowest (codes "TLSv1") || text_eq lowest (codes "TLSv1.1"))) [
        | inl e ↦ rw e (set-other _ _ _ q ∙ set-other _ _ _ p)
        | inr e ↦ rw e (set-other _ _ _ p)
      ]

  pub record Unresolved : Type 0 where
    pub not_enabled : text_eq enabled_versions k ≡ false
    pub not_level : text_eq security_level k ≡ false
    pub not_options : text_eq (codes "secureOptions") k ≡ false
    pub not_minimum : text_eq (codes "minVersion") k ≡ false
    pub not_ciphers : text_eq (codes "ciphers") k ≡ false

  versions-other :
      (disable_flag : Text → ℕ) (o : Option Value) (fs : Fields)
      → get enabled_versions fs ≡ o
      → Unresolved
      → get k (resolve_enabled_versions disable_flag fs) ≡ get k fs
  unfolding resolve_enabled_versions translate_versions
  versions-other flag (some (strs l)) fs e u =
      rw (e, resolve_enabled_versions)
        (set_minimum-other _ _ u.not_minimum u.not_level
          ∙ set-other _ _ _ u.not_options
          ∙ delete-other _ fs u.not_enabled)
  versions-other flag _ fs e u = rw (e, resolve_enabled_versions) refl

  level-other :
      (o : Option ℕ) (fs : Fields)
      → number_of (get security_level fs) ≡ o
      → Unresolved
      → get k (resolve_security_level fs) ≡ get k fs
  unfolding resolve_security_level
  level-other none fs e u = rw (e, resolve_security_level) refl
  level-other (some l) fs e u =
      rw (e, resolve_security_level) (set-other _ _ _ u.not_ciphers ∙ delete-other _ fs u.not_level)

  pub resolved-other :
      (disable_flag : Text → ℕ) (fs : Fields)
      → Unresolved
      → get k (resolve_security_level (resolve_enabled_versions disable_flag fs)) ≡ get k fs
  resolved-other flag fs u =
      level-other _ (resolve_enabled_versions flag fs) refl u ∙ versions-other flag _ fs refl u

is_true-some : (o : Option Value) → is_true o ≡ true → o ≡ some (bool true)
is_true-some none h = cc
is_true-some (some (bool true)) h = refl
is_true-some (some (bool false)) h = cc
is_true-some (some (num n)) h = cc
is_true-some (some (str s)) h = cc
is_true-some (some (strs l)) h = cc

abbrev pub requires : Text
requires = codes "requireClientCert"

abbrev pub rejects : Text
rejects = codes "rejectTls"

requires-Unresolved : Unresolved requires
requires-Unresolved = record {
  not_enabled = refl;
  not_level = refl;
  not_options = refl;
  not_minimum = refl;
  not_ciphers = refl;
}

rejects-Unresolved : Unresolved rejects
rejects-Unresolved = record {
  not_enabled = refl;
  not_level = refl;
  not_options = refl;
  not_minimum = refl;
  not_ciphers = refl;
}

module _ (disable_flag : Text → ℕ) (endpoints : List TlsEndpoint) (parts : List Text)
    {c : EndpointConfig} where
  finish-require_client_cert :
      (m : Merged)
      → finish_config disable_flag parts m ≡ ok c
      → c.require_client_cert
        ≡ is_true (
            get requires (
              delete rejects
                (resolve_security_level (resolve_enabled_versions disable_flag m.tls_options))))
  unfolding finish_config
  finish-require_client_cert m h = ground arith

  finish-reject_tls :
      (m : Merged)
      → finish_config disable_flag parts m ≡ ok c
      → c.reject_tls
        ≡ is_true (
            get rejects
              (resolve_security_level (resolve_enabled_versions disable_flag m.tls_options)))
  unfolding finish_config
  finish-reject_tls m h = ground arith

  flag_iff :
      (key : Text) (flag : Bool)
      → IsExclusive key
      → get_endpoint_config disable_flag endpoints parts ≡ ok c
      → ((s : Configured disable_flag endpoints parts c)
          → flag ≡ is_true (get key s.merged.tls_options))
      → (flag ≡ true) ↔ Declared endpoints false key (bool true) parts
  flag_iff key flag x h same =
      let s = configured disable_flag endpoints parts h in
      (
        λ on.
            elim (parts-origin endpoints false key (bool true) x parts nothing_merged s.merging
              (is_true-some _ (sym (same s) ∙ on))) [
                | inl e ↦ absurd (unfold get in cc e)
                | inr d ↦ d
              ],
        λ d.
            same s
            ∙ ap is_true (
                parts-declared endpoints false key (bool true) x parts nothing_merged d.part
                  d.endpoint s.merging d.found d.declares d.listed),
      )

  -- A client certificate is required exactly when some part's endpoint asks for it.
  pub require_client_cert-Declared :
      get_endpoint_config disable_flag endpoints parts ≡ ok c
      → (c.require_client_cert ≡ true) ↔ Declared endpoints false requires (bool true) parts
  require_client_cert-Declared h =
      flag_iff requires c.require_client_cert (unfold field_combiner in refl) h (λ s.
        finish-require_client_cert s.merged s.finishing
        ∙ ap is_true (
            delete-other requires rejects _ refl
            ∙ resolved-other requires disable_flag s.merged.tls_options requires-Unresolved))

  -- The handshake is rejected exactly when some part's endpoint asks for it.
  pub reject_tls-Declared :
      get_endpoint_config disable_flag endpoints parts ≡ ok c
      → (c.reject_tls ≡ true) ↔ Declared endpoints false rejects (bool true) parts
  reject_tls-Declared h = flag_iff rejects c.reject_tls (unfold field_combiner in refl) h (λ s.
      finish-reject_tls s.merged s.finishing
      ∙ ap is_true (resolved-other rejects disable_flag s.merged.tls_options rejects-Unresolved))
