-- ===== src/Tls/Config/Table.antt =====
-- The source's table of endpoints: which of its entries set a flag.
use mathlib.Core.List.{Memᴰ}
use testserver.Prelude.{
  ℕ, ◌≤◌, ◌≡◌, refl, sym, ap, subst, ◌↔◌, Bool, true, false, not, ◌&&◌, ◌||◌, Option, none, some,
  List, [], ◌∷◌, ok, arith, length, any, all,
}
use testserver.Text.{Text, codes, text_eq}
use testserver.Text.Laws.{text_eq_iff}
use testserver.Tls.{Value, bool, TlsEndpoint, Contribution}
use testserver.Tls.Endpoints.{tls_endpoints, client_cert, no_tls}
use testserver.Tls.Config.{EndpointConfig, find_endpoint, get_endpoint_config}
use testserver.Tls.Config.Declares.{configured, Declares, Declared}
use testserver.Tls.Config.Options.{
  requires, rejects, require_client_cert-Declared, reject_tls-Declared,
}
use testserver.Tls.Config.Clean.{reject_tls-length}

abbrev is_on : Option Value → Bool
is_on (some (bool true)) = true
is_on _ = false

sets_flag : Text → Option Contribution → Bool
sets_flag key none = false
sets_flag key (some fs) = any (λ (f : Text × Option Value). text_eq f.0 key && is_on f.1) fs

any_of_mem :
    (key : Text) (fs : Contribution)
    → Memᴰ (key, some (bool true)) fs
    → sets_flag key (some fs) ≡ true
unfolding sets_flag
any_of_mem key [] m = elim m [ ]
any_of_mem key (f ∷ fs) (Memᴰ.head e) =
    let k : f.0 ≡ key = λ i. (sym e i).0 in
    let v : f.1 ≡ some (bool true) = λ i. (sym e i).1 in
    rw (k, v, (text_eq_iff key key).1 refl) refl
any_of_mem key (f ∷ fs) (Memᴰ.tail m) = ground (arith, any_of_mem key fs m)

Declares-sets_flag :
    (key : Text) (o : Option Contribution) → Declares key (bool true) o → sets_flag key o ≡ true
Declares-sets_flag key none d = absurd d
Declares-sets_flag key (some fs) d = any_of_mem key fs d

-- No endpoint but the one named `name` sets the flag.
sets_only : Text → Text → List TlsEndpoint → Bool
unfolding sets_flag
sets_only key name endpoints =
    all
      (λ (e : TlsEndpoint). not (sets_flag key e.configure_tls_options) || text_eq e.sni_part name)
      endpoints

found-name :
    (key name part : Text) (endpoints : List TlsEndpoint) (e : TlsEndpoint)
    → sets_only key name endpoints ≡ true
    → find_endpoint endpoints part ≡ some e
    → sets_flag key e.configure_tls_options ≡ true
    → part ≡ name
unfolding sets_only
found-name key name part [] e a f s = absurd (ground arith)
found-name key name part (x ∷ endpoints) e a f s = ground (
  arith,
  found-name key name part endpoints e,
  text_eq_iff x.sni_part part,
  text_eq_iff x.sni_part name,
)

Declared-name :
    (key name : Text) (parts : List Text)
    → sets_only key name tls_endpoints ≡ true
    → Declared tls_endpoints false key (bool true) parts
    → Memᴰ name parts
Declared-name key name parts a d =
    let p =
      found-name key name d.part tls_endpoints d.endpoint a d.found
        (Declares-sets_flag key _ d.declares) in
    subst (λ n. Memᴰ n parts) p d.listed

abbrev pub client_cert_part : Text
client_cert_part = codes "client-cert"

abbrev pub no_tls_part : Text
no_tls_part = codes "no-tls"

found_client_cert : find_endpoint tls_endpoints client_cert_part ≡ some client_cert
unfolding tls_endpoints
found_client_cert = refl

found_no_tls : find_endpoint tls_endpoints no_tls_part ≡ some no_tls
unfolding tls_endpoints
found_no_tls = refl

only_client_cert : sets_only requires client_cert_part tls_endpoints ≡ true
unfolding sets_only tls_endpoints
only_client_cert = refl

only_no_tls : sets_only rejects no_tls_part tls_endpoints ≡ true
unfolding sets_only tls_endpoints
only_no_tls = refl

one_part :
    (name : Text) (parts : List Text) → Memᴰ name parts → length parts ≤ 1 → parts ≡ name ∷ []
one_part name [] m h = elim m [ ]
one_part name (p ∷ []) (Memᴰ.head e) h = ap (λ n. n ∷ []) (sym e)
one_part name (p ∷ []) (Memᴰ.tail m) h = elim m [ ]
one_part name (p ∷ (q ∷ ps)) m h = absurd (omega arith)

module _ (disable_flag : Text → ℕ) (parts : List Text) {c : EndpointConfig} where
  -- Of a hostname that is accepted, a client certificate is required exactly when `client-cert` is
  -- among the parts.
  pub require_client_cert_iff :
      get_endpoint_config disable_flag tls_endpoints parts ≡ ok c
      → (c.require_client_cert ≡ true) ↔ Memᴰ client_cert_part parts
  require_client_cert_iff h =
      let e = require_client_cert-Declared disable_flag tls_endpoints parts h in
      (
        λ on. Declared-name requires client_cert_part parts only_client_cert (e.0 on),
        λ m. e.1 (record {
          part = client_cert_part;
          endpoint = client_cert;
          listed = m;
          found = found_client_cert;
          declares = unfold client_cert in Memᴰ.head refl;
        }),
      )

  -- Of a hostname that is accepted, the TLS handshake is refused exactly when `no-tls` is its only
  -- part.
  pub reject_tls_iff :
      get_endpoint_config disable_flag tls_endpoints parts ≡ ok c
      → (c.reject_tls ≡ true) ↔ (parts ≡ no_tls_part ∷ [])
  reject_tls_iff h =
      let e = reject_tls-Declared disable_flag tls_endpoints parts h in
      let s = configured disable_flag tls_endpoints parts h in
      (
        λ on.
            one_part no_tls_part parts
              (Declared-name rejects no_tls_part parts only_no_tls (e.0 on))
              (reject_tls-length disable_flag tls_endpoints parts s.merged s.finishing on),
        λ p. e.1 (record {
          part = no_tls_part;
          endpoint = no_tls;
          listed = subst (Memᴰ no_tls_part) (sym p) (Memᴰ.head refl);
          found = found_no_tls;
          declares = unfold no_tls in Memᴰ.head refl;
        }),
      )
