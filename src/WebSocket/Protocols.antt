-- ===== src/WebSocket/Protocols.antt =====
-- The endpoints of a chain that give a protocol, in src/ws-handler.ts.
use testserver.Prelude.{
  ℕ, ◌≡◌, refl, ap, ◌⊎◌, inl, inr, Option, none, some, List, [], ◌∷◌, ◌++◌, ok, arith, All,
  Option-cases,
}
use testserver.Text.{Text}
use testserver.Chain.{Outcome, Entry}
use testserver.WebSocket.{Protocol, WsHandling}
use testserver.WebSocket.Upgrade.{protocol_entries}

module _ {F : Type 0} where
  abbrev pub Silent : Entry (WsHandling F) → Type 0
  Silent e = e.endpoint.rest.get_protocol ≡ none

  -- One endpoint of the chain gives a protocol, for its path, and that is forced; the header that the
  -- library reads is there.
  pub record ForcedBy (forced : Option Protocol) (header : Option Text)
      (entries : List (Entry (WsHandling F))) : Type 0 where
    pub before : List (Entry (WsHandling F))
    pub entry : Entry (WsHandling F)
    pub later : List (Entry (WsHandling F))
    pub is_chain : entries ≡ before ++ entry ∷ later
    pub silent_before : All Silent before
    pub silent_later : All Silent later
    pub protocol : Protocol
    pub gives : Text → Outcome Protocol
    pub given : entry.endpoint.rest.get_protocol ≡ some gives
    pub is_given : gives entry.path ≡ ok protocol
    pub is_forced : forced ≡ some protocol
    pub first : ℕ
    pub rest : Text
    pub has_header : header ≡ some (first ∷ rest)

  -- No endpoint of the chain gives a protocol, and none is forced; or exactly one does.
  abbrev pub Forced : Option Protocol → Option Text → List (Entry (WsHandling F)) → Type 0
  Forced forced header entries =
      ((forced ≡ none) × All Silent entries) ⊎ ForcedBy forced header entries

  pub protocol_entries-Silent :
      (es : List (Entry (WsHandling F))) → protocol_entries es ≡ [] → All Silent es
  unfolding protocol_entries
  protocol_entries-Silent [] h = tt
  protocol_entries-Silent (e ∷ es) h = elim (Option-cases e.endpoint.rest.get_protocol) [
    | inl k ↦ (k, protocol_entries-Silent es (rw k at h))
    | inr (f, k) ↦ absurd (let g = rw k at h in cc)
  ]

  -- Where one entry gives a protocol.
  pub protocol_entries-one :
      (forced : Option Protocol) (header : Option Text) (p : Protocol) (c : ℕ) (s : Text)
      → forced ≡ some p
      → header ≡ some (c ∷ s)
      → (es : List (Entry (WsHandling F))) → protocol_entries es ≡ ok p ∷ []
      → ForcedBy forced header es
  unfolding protocol_entries
  protocol_entries-one forced header p c s f g [] h = absurd (ground arith)
  protocol_entries-one forced header p c s f g (e ∷ es) h =
      elim (Option-cases e.endpoint.rest.get_protocol) [
        | inl k ↦
            let r = protocol_entries-one forced header p c s f g es (rw k at h) in
            record {
              before = e ∷ r.before;
              entry = r.entry;
              later = r.later;
              is_chain = ap (◌∷◌ e) r.is_chain;
              silent_before = (k, r.silent_before);
              silent_later = r.silent_later;
              protocol = r.protocol;
              gives = r.gives;
              given = r.given;
              is_given = r.is_given;
              is_forced = r.is_forced;
              first = r.first;
              rest = r.rest;
              has_header = r.has_header;
            }
        | inr (gives, k) ↦
            let both : (gives e.path ≡ ok p) × (protocol_entries es ≡ []) =
              (let z = rw k at h in ground arith) in
            record {
              before = [];
              entry = e;
              later = es;
              is_chain = refl;
              silent_before = tt;
              silent_later = protocol_entries-Silent es both.1;
              protocol = p;
              gives = gives;
              given = k;
              is_given = both.0;
              is_forced = f;
              first = c;
              rest = s;
              has_header = g;
            }
      ]
