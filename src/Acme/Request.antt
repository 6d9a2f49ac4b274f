-- ===== src/Acme/Request.antt =====
-- `requestCertificate` of src/tls-certificates/acme.ts, for a certificate of a short validity, with
-- the calls of the ACME client as parameters. Other certificates are left to `auto` of acme-client.
-- Logging and the key that belongs to the request are left out, and so is the id of the attempt in a
-- message; the clock is read once. The DNS server is that of `Dns`, whose shared store does not fail.
pub mod Leaves
use testserver.Prelude.{
  ℕ, ◌+◌, Bool, true, false, ◌&&◌, Option, none, some, List, [], ◌∷◌, ◌++◌, Result, ok, err,
  if◌then◌else◌, drop, find_first,
}
use testserver.Text.{Text, codes, text_eq, starts_with}
use testserver.Dns.{Records, ChallengeStore, set_txt_record, remove_txt_record}
use testserver.Acme

pub record Challenge : Type 0 where
  pub kind : Text
  pub token : Text

pub record Authorization : Type 0 where
  pub value : Text
  pub valid : Bool
  pub challenges : List Challenge

-- The calls of `ACME.Client`, on a state of its own. An order, a finalized order and a signing
-- request are texts.
pub record Client (C : Type 0) : Type 0 where
  pub create_account : Text → C → Result Text (Unit {0}) × C
  pub create_order : List Text → ℕ → ℕ → C → Result Text Text × C
  pub get_authorizations : Text → C → Result Text (List Authorization) × C
  pub get_challenge_key_authorization : Challenge → C → Result Text Text × C
  pub complete_challenge : Challenge → C → Result Text (Unit {0}) × C
  pub wait_for_valid_status : Challenge → C → Result Text (Unit {0}) × C
  pub finalize_order : Text → Text → C → Result Text Text × C
  pub get_certificate : Text → C → Result Text Text × C

-- A wildcard is asked for only with a DNS server.
unfoldable pub is_wildcard : Text → Bool → Bool
is_wildcard domain has_dns = starts_with domain (codes "*.") && has_dns

unfoldable pub root_domain_of : Text → Bool → Text
root_domain_of domain wildcard = if wildcard then drop 2 domain else domain

unfoldable pub identifiers : Text → Bool → List Text
identifiers domain wildcard =
    if wildcard then domain ∷ root_domain_of domain wildcard ∷ [] else domain ∷ []

abbrev pub challenge_name : Text → Text
challenge_name value = codes "_acme-challenge." ++ value

abbrev pub find_challenge : Text → List Challenge → Option Challenge
find_challenge kind challenges = find_first (λ c. text_eq c.kind kind) challenges

-- The awaits of one call behind the other: the first error is thrown.
unfoldable pub and_then :
    {A B X : Type 0} → Result Text A × X → (A → X → Result Text B × X) → Result Text B × X
and_then (ok a, x) f = f a x
and_then (err e, x) f = (err e, x)

abbrev pub beside : {A D C : Type 0} → D → Result Text A × C → Result Text A × (D × C)
beside d (r, c) = (r, (d, c))

-- A call of the client does not change the records.
unfoldable pub call : {A D C : Type 0} → (C → Result Text A × C) → D × C → Result Text A × (D × C)
call g (d, c) = beside d (g c)

unfoldable pub done : {X : Type 0} → X → Result Text (Unit {0}) × X
done x = (ok tt, x)

module _ {S C : Type 0} (to_lower_case : Text → Text) (store : Option (ChallengeStore S))
    (client : Client C) where
  -- The challenge is put into the DNS, and taken out once it is valid.
  unfoldable pub answer_challenge :
      Text → Challenge → Text → (Records × S) × C → Result Text (Unit {0}) × ((Records × S) × C)
  answer_challenge fqdn challenge key (d, c) =
      and_then
        (call (client.complete_challenge challenge)
          (set_txt_record to_lower_case store fqdn key d, c))
        (λ u x.
          and_then (call (client.wait_for_valid_status challenge) x)
            (λ v y. (ok tt, (remove_txt_record to_lower_case store fqdn key y.0, y.1))))

  unfoldable pub pass_dns :
      Text → Option Challenge → (Records × S) × C → Result Text (Unit {0}) × ((Records × S) × C)
  pass_dns value none x = (err (codes "No dns-01 challenge found for " ++ value), x)
  pass_dns value (some challenge) x =
      and_then (call (client.get_challenge_key_authorization challenge) x)
        (λ key y. answer_challenge (challenge_name value) challenge key y)

  unfoldable pub pass_http :
      Text → Option Challenge → (Records × S) × C → Result Text (Unit {0}) × ((Records × S) × C)
  pass_http value none x = (err (codes "No http-01 challenge found for " ++ value), x)
  pass_http value (some challenge) x =
      and_then (call (client.complete_challenge challenge) x)
        (λ u y. call (client.wait_for_valid_status challenge) y)

  -- The body of the loop.
  unfoldable pub pass :
      Bool → Authorization → (Records × S) × C → Result Text (Unit {0}) × ((Records × S) × C)
  pass wildcard a x =
      if a.valid
      then done x
      else if wildcard
      then pass_dns a.value (find_challenge (codes "dns-01") a.challenges) x
      else pass_http a.value (find_challenge (codes "http-01") a.challenges) x

  unfoldable pub pass_all :
      Bool → List Authorization → (Records × S) × C → Result Text (Unit {0}) × ((Records × S) × C)
  pass_all wildcard [] x = done x
  pass_all wildcard (a ∷ authorizations) x =
      and_then (pass wildcard a x) (λ u y. pass_all wildcard authorizations y)

  -- The certificate of an order whose request is `csr`.
  unfoldable pub request_short_lived :
      Text → Bool → Text → ℕ → (Records × S) × C → Result Text Text × ((Records × S) × C)
  request_short_lived domain has_dns csr now x =
      let wildcard = is_wildcard domain has_dns in
      let mail = codes "mailto:contact@" ++ root_domain_of domain wildcard in
      and_then (call (client.create_account mail) x) (λ u x₁.
        and_then
          (call (client.create_order (identifiers domain wildcard) now (now + Acme.one_day)) x₁)
          (λ order x₂. and_then (call (client.get_authorizations order) x₂) (λ authorizations x₃.
            and_then (pass_all wildcard authorizations x₃) (λ v x₄.
              and_then (call (client.finalize_order order csr) x₄)
                (λ finalized x₅. call (client.get_certificate finalized) x₅)))))
