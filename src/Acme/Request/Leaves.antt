-- ===== src/Acme/Request/Leaves.antt =====
-- What `requestCertificate` of src/tls-certificates/acme.ts leaves in the DNS.
use testserver.Prelude.{
  ℕ, ◌≡◌, refl, sym, ap, ◌∙◌, ◌⊎◌, inl, inr, Bool, true, false, Option, none, some, List, [], ◌∷◌,
  Result, ok, err, if◌then◌else◌, arith,
}
use testserver.Text.{Text}
use testserver.Dns.{Records, ChallengeStore, get, add, remove, set_txt_record, remove_txt_record}
use testserver.Dns.Records.{remove_txt_record-set_txt_record}
use testserver.Acme.Request.{
  Challenge, Authorization, Client, challenge_name, and_then, beside, call, done, answer_challenge,
  pass_dns, pass_http, pass, pass_all, request_short_lived, is_wildcard,
}

-- A call ends with a result and `P` of the records, or is thrown out of and `Q` is true of them.
unfoldable Ends :
    {A S C : Type 0}
    → (Records → Type 0)
    → (Records → Type 0)
    → Result Text A × ((Records × S) × C)
    → Type 0
Ends P Q (ok a, x) = P x.0.0
Ends P Q (err e, x) = Q x.0.0

module _ {S C : Type 0} (Q : Records → Type 0) where
  and_then-Ends :
      {A B : Type 0} (P R : Records → Type 0) (r : Result Text A × ((Records × S) × C))
      (f : A → (Records × S) × C → Result Text B × ((Records × S) × C))
      → Ends P Q r
      → ((a : A) (x : (Records × S) × C) → P x.0.0 → Ends R Q (f a x))
      → Ends R Q (and_then r f)
  unfolding and_then Ends
  and_then-Ends P R (ok a, x) f h k = k a x h
  and_then-Ends P R (err e, x) f h k = h

  Ends-beside :
      {A : Type 0} (P : Records → Type 0) (d : Records × S) (r : Result Text A × C)
      → P d.0
      → Q d.0
      → Ends P Q (beside d r)
  unfolding Ends
  Ends-beside P d (ok a, c) p q = p
  Ends-beside P d (err e, c) p q = q

  call-Ends :
      {A : Type 0} (P : Records → Type 0) (g : C → Result Text A × C) (x : (Records × S) × C)
      → P x.0.0
      → Q x.0.0
      → Ends P Q (call g x)
  unfolding call Ends
  call-Ends P g (d, c) p q = Ends-beside P d (g c) p q

-- The records are as before, but for one of the ACME challenge of some domain at most.
abbrev pub AddsOne : (Text → Text) → Records → Records → Type 0
AddsOne to_lower_case r t =
    (t ≡ r)
    ⊎ ((value : Text) × (key : Text) × (t ≡ add (to_lower_case (challenge_name value)) key r))

-- What is left: with a certificate or any other result, the records as before.
abbrev pub Leaves :
    {A S C : Type 0} → (Text → Text) → Records → Result Text A × ((Records × S) × C) → Type 0
Leaves to_lower_case r (ok a, x) = x.0.0 ≡ r
Leaves to_lower_case r (err e, x) = AddsOne to_lower_case r x.0.0

module _ {S C : Type 0} (to_lower_case : Text → Text) (store : Option (ChallengeStore S))
    (client : Client C) (r : Records)
    (unused : (value : Text) → get (to_lower_case (challenge_name value)) r ≡ none) where
  abbrev Stays : {A : Type 0} → Result Text A × ((Records × S) × C) → Type 0
  Stays = Ends (λ t. t ≡ r) (AddsOne to_lower_case r)

  call-Stays :
      {A : Type 0} (g : C → Result Text A × C) (x : (Records × S) × C)
      → x.0.0 ≡ r
      → Stays (call g x)
  call-Stays g x same = call-Ends (AddsOne to_lower_case r) (λ t. t ≡ r) g x same (inl same)

  and_then-Stays :
      {A B : Type 0} (q : Result Text A × ((Records × S) × C))
      (f : A → (Records × S) × C → Result Text B × ((Records × S) × C))
      → Stays q
      → ((a : A) (x : (Records × S) × C) → x.0.0 ≡ r → Stays (f a x))
      → Stays (and_then q f)
  and_then-Stays q f h k = and_then-Ends (AddsOne to_lower_case r) (λ t. t ≡ r) (λ t. t ≡ r) q f h k

  removed_again :
      (value key : Text) (d : Records × S)
      → d.0 ≡ add (to_lower_case (challenge_name value)) key r
      → (remove_txt_record to_lower_case store (challenge_name value) key d).0 ≡ r
  unfolding set_txt_record remove_txt_record
  removed_again value key d added =
      let never : ◌≡◌ {A = Option (List Text)} none (some []) → ⊥ = (λ h. ground arith) in
      let undone =
        remove_txt_record-set_txt_record to_lower_case store (challenge_name value) key r d.1
          (rw (unused value) refl) (λ h. never (sym (unused value) ∙ h)) in
      ap (remove (to_lower_case (challenge_name value)) key) added ∙ undone

  answer_challenge-Stays :
      (value key : Text) (challenge : Challenge) (x : (Records × S) × C)
      → x.0.0 ≡ r
      → Stays (answer_challenge to_lower_case store client (challenge_name value) challenge key x)
  unfolding answer_challenge set_txt_record Ends
  answer_challenge-Stays value key challenge (d, c) same =
      let Added : Records → Type 0 = λ t. t ≡ add (to_lower_case (challenge_name value)) key r in
      let during : Added (add (to_lower_case (challenge_name value)) key d.0) =
        ap (add (to_lower_case (challenge_name value)) key) same in
      and_then-Ends (AddsOne to_lower_case r) Added (λ t. t ≡ r) _ _
        (call-Ends (AddsOne to_lower_case r) Added (client.complete_challenge challenge) _ during
          (inr (value, key, during)))
        (λ u y added.
          and_then-Ends (AddsOne to_lower_case r) Added (λ t. t ≡ r) _ _
            (call-Ends (AddsOne to_lower_case r) Added (client.wait_for_valid_status challenge) y
              added (inr (value, key, added)))
            (λ v z still. removed_again value key z.0 still))

  pass_dns-Stays :
      (value : Text) (o : Option Challenge) (x : (Records × S) × C)
      → x.0.0 ≡ r
      → Stays (pass_dns to_lower_case store client value o x)
  unfolding pass_dns Ends
  pass_dns-Stays value none x same = inl same
  pass_dns-Stays value (some challenge) x same =
      and_then-Stays _ _ (call-Stays (client.get_challenge_key_authorization challenge) x same)
        (λ key y still. answer_challenge-Stays value key challenge y still)

  pass_http-Stays :
      (value : Text) (o : Option Challenge) (x : (Records × S) × C)
      → x.0.0 ≡ r
      → Stays (pass_http to_lower_case store client value o x)
  unfolding pass_http Ends
  pass_http-Stays value none x same = inl same
  pass_http-Stays value (some challenge) x same =
      and_then-Stays _ _ (call-Stays (client.complete_challenge challenge) x same)
        (λ u y still. call-Stays (client.wait_for_valid_status challenge) y still)

  Stays-if :
      {A : Type 0} (b : Bool) (p q : Result Text A × ((Records × S) × C))
      → Stays p
      → Stays q
      → Stays (if b then p else q)
  Stays-if true p q h k = h
  Stays-if false p q h k = k

  pass-Stays :
      (wildcard : Bool) (a : Authorization) (x : (Records × S) × C)
      → x.0.0 ≡ r
      → Stays (pass to_lower_case store client wildcard a x)
  unfolding pass Ends done
  pass-Stays wildcard a x same =
      Stays-if a.valid _ _ same
        (Stays-if wildcard _ _ (pass_dns-Stays a.value _ x same) (pass_http-Stays a.value _ x same))

  pass_all-Stays :
      (wildcard : Bool) (authorizations : List Authorization) (x : (Records × S) × C)
      → x.0.0 ≡ r
      → Stays (pass_all to_lower_case store client wildcard authorizations x)
  unfolding pass_all Ends done
  pass_all-Stays wildcard [] x same = same
  pass_all-Stays wildcard (a ∷ authorizations) x same =
      and_then-Stays _ _ (pass-Stays wildcard a x same)
        (λ u y still. pass_all-Stays wildcard authorizations y still)

  Stays-Leaves :
      {A : Type 0} (q : Result Text A × ((Records × S) × C)) → Stays q → Leaves to_lower_case r q
  unfolding Ends
  Stays-Leaves (ok a, x) h = h
  Stays-Leaves (err e, x) h = h

  -- A request for a certificate of a short validity, where no challenge has a record, has all its
  -- TXT records removed when it gives a certificate, whatever the ACME client answers; when it is
  -- thrown out of, one TXT record of one challenge is left at most.
  pub request_short_lived-Leaves :
      (domain : Text) (has_dns : Bool) (csr : Text) (now : ℕ) (s : S) (c : C)
      → Leaves to_lower_case r
          (request_short_lived to_lower_case store client domain has_dns csr now ((r, s), c))
  unfolding request_short_lived
  request_short_lived-Leaves domain has_dns csr now s c = Stays-Leaves _ (
      and_then-Stays _ _ (call-Stays _ _ refl) (λ u x₁ h₁.
        and_then-Stays _ _ (call-Stays _ x₁ h₁) (λ order x₂ h₂.
          and_then-Stays _ _ (call-Stays _ x₂ h₂) (λ authorizations x₃ h₃.
            and_then-Stays _ _ (pass_all-Stays (is_wildcard domain has_dns) authorizations x₃ h₃)
              (λ v x₄ h₄.
                and_then-Stays _ _ (call-Stays _ x₄ h₄) (λ finalized x₅ h₅. call-Stays _ x₅ h₅))))))
