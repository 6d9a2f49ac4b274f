-- ===== src/Tls/Config/Declares.antt =====
-- The options that a configuration ends with, against what the endpoints of its parts declare.
use mathlib.Core.List.{Memᴰ}
use testserver.Prelude.{
  ℕ, ◌≤◌, length, ltb, ◌≡◌, refl, sym, ◌∙◌, ap, ◌⊎◌, inl, inr, ◌↔◌, Bool, true, false, Option, none,
  some, List, [], ◌∷◌, ok, bind-eq-ok, arith,
}
use testserver.Text.{Text}
use testserver.Tls.{Value, Fields, Contribution, TlsEndpoint}
use testserver.Tls.Fields.{get}
use testserver.Tls.Merge.{merge_contribution}
use testserver.Tls.Merge.Declared.{
  IsExclusive, merge_fields-kept, merge_fields-declared, merge_fields-origin,
}
use testserver.Tls.Config.{
  Merged, nothing_merged, max_sni_parts, has_duplicates, find_endpoint, merge_endpoint, merge_parts,
  EndpointConfig, finish_config, get_endpoint_config,
}

abbrev pub Declares : Text → Value → Option Contribution → Type 0
Declares key v none = ⊥
Declares key v (some fs) = Memᴰ (key, some v) fs

-- `true` for the certificate options, `false` for the TLS options
abbrev pub options_of : Bool → Merged → Fields
options_of true m = m.cert_options
options_of false m = m.tls_options

abbrev pub contribution_of : Bool → TlsEndpoint → Option Contribution
contribution_of true e = e.configure_cert_options
contribution_of false e = e.configure_tls_options

-- Some part of the hostname names an endpoint that declares the field.
pub record Declared (endpoints : List TlsEndpoint) (cert : Bool) (key : Text) (v : Value)
    (parts : List Text) : Type 0 where
  pub part : Text
  pub endpoint : TlsEndpoint
  pub listed : Memᴰ part parts
  pub found : find_endpoint endpoints part ≡ some endpoint
  pub declares : Declares key v (contribution_of cert endpoint)

module _ (key : Text) (v : Value) (x : IsExclusive key) where
  contribution-kept :
      (o : Option Contribution) (acc : Fields) {acc' : Fields}
      → merge_contribution acc o ≡ ok acc'
      → get key acc ≡ some v
      → get key acc' ≡ some v
  unfolding merge_contribution
  contribution-kept none acc h g = ground arith
  contribution-kept (some fs) acc h g = merge_fields-kept key v x fs acc h g

  contribution-declared :
      (o : Option Contribution) (acc : Fields) {acc' : Fields}
      → merge_contribution acc o ≡ ok acc'
      → Declares key v o
      → get key acc' ≡ some v
  unfolding merge_contribution
  contribution-declared none acc h d = absurd d
  contribution-declared (some fs) acc h d = merge_fields-declared key v x fs acc h d

  contribution-origin :
      (o : Option Contribution) (acc : Fields) {acc' : Fields}
      → merge_contribution acc o ≡ ok acc'
      → get key acc' ≡ some v
      → (get key acc ≡ some v) ⊎ Declares key v o
  unfolding merge_contribution
  contribution-origin none acc h g = inl (ground arith)
  contribution-origin (some fs) acc h g = merge_fields-origin key v x fs acc h g

-- One part: its endpoint is known, and both sides are merged.
pub endpoint_merged :
    (part : Text) (o : Option TlsEndpoint) (m : Merged) {m' : Merged}
    → merge_endpoint part o m ≡ ok m'
    → (e : TlsEndpoint) × (o ≡ some e)
      × ((b : Bool)
          → merge_contribution (options_of b m) (contribution_of b e) ≡ ok (options_of b m'))
unfolding merge_endpoint
endpoint_merged part none m h = absurd (ground arith)
endpoint_merged part (some e) m h =
    let (certs, c, h₁) =
      bind-eq-ok (merge_contribution m.cert_options e.configure_cert_options) _ h in
    let (tls, t, h₂) = bind-eq-ok (merge_contribution m.tls_options e.configure_tls_options) _ h₁ in
    (e, refl, elim [ true ↦ c ∙ ground arith | false ↦ t ∙ ground arith ])

module _ (endpoints : List TlsEndpoint) (cert : Bool) (key : Text) (v : Value)
    (x : IsExclusive key) where
  parts-kept :
      (parts : List Text) (m : Merged) {m' : Merged}
      → merge_parts endpoints parts m ≡ ok m'
      → get key (options_of cert m) ≡ some v
      → get key (options_of cert m') ≡ some v
  unfolding merge_parts
  parts-kept [] m h g = ground arith
  parts-kept (part ∷ parts) m h g =
      let (mid, first, rest) =
        bind-eq-ok (merge_endpoint part (find_endpoint endpoints part) m) _ h in
      let (e, found, both) = endpoint_merged part _ m first in
      parts-kept parts mid rest (contribution-kept key v x _ _ (both cert) g)

  Declared-cons :
      (part : Text) (parts : List Text)
      → Declared endpoints cert key v parts
      → Declared endpoints cert key v (part ∷ parts)
  Declared-cons part parts d = record {
    part = d.part;
    endpoint = d.endpoint;
    listed = Memᴰ.tail d.listed;
    found = d.found;
    declares = d.declares;
  }

  pub parts-origin :
      (parts : List Text) (m : Merged) {m' : Merged}
      → merge_parts endpoints parts m ≡ ok m'
      → get key (options_of cert m') ≡ some v
      → (get key (options_of cert m) ≡ some v) ⊎ Declared endpoints cert key v parts
  unfolding merge_parts
  parts-origin [] m h g = inl (ground arith)
  parts-origin (part ∷ parts) m h g =
      let (mid, first, rest) =
        bind-eq-ok (merge_endpoint part (find_endpoint endpoints part) m) _ h in
      let (e, found, both) = endpoint_merged part _ m first in
      elim (parts-origin parts mid rest g) [
        | inr d ↦ inr (Declared-cons part parts d)
        | inl old ↦ elim (contribution-origin key v x _ _ (both cert) old) [
          | inl older ↦ inl older
          | inr d ↦ inr (record {
            part = part;
            endpoint = e;
            listed = Memᴰ.head refl;
            found = found;
            declares = d;
          })
        ]
      ]

  pub parts-declared :
      (parts : List Text) (m : Merged) {m' : Merged} (part : Text) (e : TlsEndpoint)
      → merge_parts endpoints parts m ≡ ok m'
      → find_endpoint endpoints part ≡ some e
      → Declares key v (contribution_of cert e)
      → Memᴰ part parts
      → get key (options_of cert m') ≡ some v
  unfolding merge_parts
  parts-declared [] m part e h f d l = elim l [ ]
  parts-declared (p ∷ parts) m part e h f d (Memᴰ.tail l) =
      let (mid, first, rest) = bind-eq-ok (merge_endpoint p (find_endpoint endpoints p) m) _ h in
      parts-declared parts mid part e rest f d l
  parts-declared (p ∷ parts) m part e h f d (Memᴰ.head same) =
      let (mid, first, rest) = bind-eq-ok (merge_endpoint p (find_endpoint endpoints p) m) _ h in
      let (e', found, both) = endpoint_merged p _ m first in
      let q : some e ≡ some e' = sym f ∙ ap (find_endpoint endpoints) same ∙ found in
      let r : e ≡ e' = ground arith in
      parts-kept parts mid rest (contribution-declared key v x _ _ (both cert) (rw r at d))

-- A configuration passed the checks before the loop, and is what the merged parts are finished to.
pub record Configured (disable_flag : Text → ℕ) (endpoints : List TlsEndpoint) (parts : List Text)
    (c : EndpointConfig) : Type 0 where
  pub few : length parts ≤ max_sni_parts
  pub distinct : has_duplicates parts ≡ false
  pub merged : Merged
  pub merging : merge_parts endpoints parts nothing_merged ≡ ok merged
  pub finishing : finish_config disable_flag parts merged ≡ ok c

module _ (disable_flag : Text → ℕ) (endpoints : List TlsEndpoint) (parts : List Text)
    {c : EndpointConfig} where
  Configured-of :
      (many dup : Bool)
      → ltb max_sni_parts (length parts) ≡ many
      → has_duplicates parts ≡ dup
      → get_endpoint_config disable_flag endpoints parts ≡ ok c
      → Configured disable_flag endpoints parts c
  unfolding get_endpoint_config
  Configured-of true dup p q h = absurd (ground arith)
  Configured-of false true p q h = absurd (ground arith)
  Configured-of false false p q h =
      let (m, merging, finishing) =
        bind-eq-ok (merge_parts endpoints parts nothing_merged) _ (rw (p, q) at h) in
      record {
        few = ground arith;
        distinct = q;
        merged = m;
        merging = merging;
        finishing = finishing;
      }

  pub configured :
      get_endpoint_config disable_flag endpoints parts ≡ ok c
      → Configured disable_flag endpoints parts c
  configured h = Configured-of _ _ refl refl h

  pub finish-cert_options :
      (m : Merged) → finish_config disable_flag parts m ≡ ok c → c.cert_options ≡ m.cert_options
  unfolding finish_config
  finish-cert_options m h = ground arith

  -- Of a hostname that is accepted, an exclusive certificate option has a value exactly when one of
  -- its parts names an endpoint that declares that value.
  pub get_endpoint_config-Declared :
      (key : Text) (v : Value)
      → IsExclusive key
      → get_endpoint_config disable_flag endpoints parts ≡ ok c
      → (get key c.cert_options ≡ some v) ↔ Declared endpoints true key v parts
  get_endpoint_config-Declared key v x h =
      let s = configured h in
      let same = finish-cert_options s.merged s.finishing in
      (
        λ g.
            elim (parts-origin endpoints true key v x parts nothing_merged s.merging
              (rw same at g)) [ inl e ↦ absurd (unfold get in cc e) | inr d ↦ d ],
        λ d. rw same (
            parts-declared endpoints true key v x parts nothing_merged d.part d.endpoint s.merging
              d.found d.declares d.listed),
      )
