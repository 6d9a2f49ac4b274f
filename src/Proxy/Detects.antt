-- ===== src/Proxy/Detects.antt =====
-- What each answer of `detectProxyProtocol` means, and that a definite answer stands when more
-- data comes.
use mathlib.Core.Bool.{false≢true}
use mathlib.Core.List.{append_assoc}
use testserver.Prelude.{
  length-append, ℕ, zero, suc, ◌≤◌, ◌<◌, ◌≡◌, refl, ap, sym, ◌∙◌, ◌⊎◌, inl, inr, ◌≢◌, true, false,
  [], ◌∷◌, ◌++◌, ◌==◌, leb, le→leb, length-take, length, take, drop, arith, Bool-cases,
}
use testserver.Text.{starts_with}
use testserver.Proxy.{
  Bytes, ProxyType, v1, v2, no_proxy, incomplete, v1_signature, v2_signature, starts_with_signature,
  detect_v1, detect_proxy_protocol,
}

pub starts_with-split : (s p : Bytes) → starts_with s p ≡ true → s ≡ p ++ drop (length p) s
starts_with-split s [] h = refl
starts_with-split [] (b ∷ p) h = cc
starts_with-split (a ∷ s) (b ∷ p) h = ground (arith, starts_with-split s p)

pub starts_with-append : (p rest : Bytes) → starts_with (p ++ rest) p ≡ true
starts_with-append [] rest = refl
starts_with-append (b ∷ p) rest = ground (arith, starts_with-append p rest)

-- A shorter text that agrees so far is completed by the rest of the signature.
completes :
    (s p : Bytes)
    → starts_with s (take (length s) p) ≡ true
    → length s ≤ length p
    → s ++ drop (length s) p ≡ p
completes [] p h l = refl
completes (a ∷ s) [] h l = absurd (omega arith)
completes (a ∷ s) (b ∷ p) h l = ground (arith, completes s p)

-- A mismatch is final.
mismatch_long :
    (s p more : Bytes)
    → starts_with s p ≡ false
    → length p ≤ length s
    → starts_with (s ++ more) p ≡ false
mismatch_long s [] more h l = cc
mismatch_long [] (b ∷ p) more h l = absurd (omega arith)
mismatch_long (a ∷ s) (b ∷ p) more h l = ground (arith, mismatch_long s p more)

mismatch_short :
    (s p more : Bytes)
    → starts_with s (take (length s) p) ≡ false
    → length s < length p
    → starts_with (s ++ more) p ≡ false
mismatch_short [] p more h l = cc
mismatch_short (a ∷ s) [] more h l = absurd (omega arith)
mismatch_short (a ∷ s) (b ∷ p) more h l = ground (arith, mismatch_short s p more)

nonempty : (s : Bytes) → s ≢ [] → 0 < length s
nonempty [] h = absurd (h refl)
nonempty (a ∷ s) h = omega arith

-- What the data is known to be.
abbrev pub Means : ProxyType → Bytes → Type 0
Means v2 s = (rest : Bytes) × (s ≡ v2_signature ++ rest)
Means v1 s = (rest : Bytes) × (s ≡ v1_signature ++ rest)
Means incomplete s =
    (missing : Bytes) × (missing ≢ [])
    × ((s ++ missing ≡ v2_signature) ⊎ (s ++ missing ≡ v1_signature))
Means no_proxy s =
    (more : Bytes)
    → (starts_with (s ++ more) v2_signature ≡ false)
      × (starts_with (s ++ more) v1_signature ≡ false)

drop-ne-nil : (n : ℕ) (p : Bytes) → n < length p → drop n p ≢ []
drop-ne-nil n [] h = absurd (omega arith)
drop-ne-nil zero (b ∷ p) h = cc
drop-ne-nil (suc n) (b ∷ p) h = drop-ne-nil n p (omega arith)

sig_short :
    (s p : Bytes) → starts_with_signature s (take (length s) p) ≡ starts_with s (take (length s) p)
unfolding starts_with_signature
sig_short s p =
    rw (le→leb (length (take (length s) p)) (length s) (omega (arith, length-take (length s) p)))

sig_long : (s p : Bytes) → length p ≤ length s → starts_with_signature s p ≡ starts_with s p
unfolding starts_with_signature
sig_long s p h = rw (le→leb (length p) (length s) h)

missing_of :
    (s p : Bytes)
    → length s < length p
    → starts_with s (take (length s) p) ≡ true
    → (missing : Bytes) × (missing ≢ []) × (s ++ missing ≡ p)
missing_of s p h y = (drop (length s) p, drop-ne-nil (length s) p h, completes s p y (omega arith))

-- With version 2 ruled out, the check for version 1 decides.
detect_v1-Means :
    (s : Bytes)
    → ((more : Bytes) → starts_with (s ++ more) v2_signature ≡ false)
    → Means (detect_v1 s) s
unfolding detect_v1
detect_v1-Means s not_v2 = elim (Bool-cases (leb 6 (length s))) [
  | inl long ↦
      rw (long, sig_long s v1_signature (ground arith))
        (elim (Bool-cases (starts_with s v1_signature)) [
          | inl y ↦ rw y (drop 6 s, starts_with-split s v1_signature y)
          | inr n ↦ rw n (λ more. (not_v2 more, mismatch_long s v1_signature more n (ground arith)))
        ])
  | inr short ↦
      rw (short, sig_short s v1_signature)
        (elim (Bool-cases (starts_with s (take (length s) v1_signature))) [
          | inl y ↦
              rw y (let (m, n, e) = missing_of s v1_signature (ground arith) y in (m, n, inr e))
          | inr n ↦
              rw n (λ more. (not_v2 more, mismatch_short s v1_signature more n (ground arith)))
        ])
]

suc-eq-zero : (n : ℕ) → (suc n == 0) ≡ false
suc-eq-zero n = ground arith

-- `detectProxyProtocol` answers v1 or v2 exactly for data that begins with that signature,
-- `incomplete` for a proper start of one, and `none` only when no further data can make the data
-- begin with either.
pub detect_proxy_protocol-Means : (s : Bytes) → Means (detect_proxy_protocol s) s
unfolding detect_proxy_protocol
detect_proxy_protocol-Means [] = (v2_signature, (λ e. cc), inl refl)
detect_proxy_protocol-Means (a ∷ t) =
    let s = a ∷ t in
    elim (Bool-cases (leb 12 (length s))) [
      | inl long ↦
          rw (suc-eq-zero (length t), long, sig_long s v2_signature (ground arith))
            (elim (Bool-cases (starts_with s v2_signature)) [
              | inl y ↦ rw y (drop 12 s, starts_with-split s v2_signature y)
              | inr n ↦
                  rw n
                    (detect_v1-Means s (λ more. mismatch_long s v2_signature more n (ground arith)))
            ])
      | inr short ↦
          rw (suc-eq-zero (length t), short, sig_short s v2_signature)
            (elim (Bool-cases (starts_with s (take (length s) v2_signature))) [
              | inl y ↦
                  rw y (let (m, n, e) = missing_of s v2_signature (ground arith) y in (m, n, inl e))
              | inr n ↦
                  rw n (
                    detect_v1-Means s (λ more. mismatch_short s v2_signature more n (ground arith)))
            ])
    ]

pub detect_v2_data : (rest : Bytes) → detect_proxy_protocol (v2_signature ++ rest) ≡ v2
unfolding detect_proxy_protocol starts_with_signature
detect_v2_data rest = ground arith

pub detect_v1_data : (rest : Bytes) → detect_proxy_protocol (v1_signature ++ rest) ≡ v1
unfolding detect_proxy_protocol starts_with_signature detect_v1
detect_v1_data rest = ground arith

no_proxy_stays :
    (s more : Bytes) (u : ProxyType) → Means no_proxy s → Means u (s ++ more) → u ≡ no_proxy
no_proxy_stays s more no_proxy m k = refl
no_proxy_stays s more v2 m (rest, e) =
    absurd (false≢true (sym (m more).0 ∙ rw e (starts_with-append v2_signature rest)))
no_proxy_stays s more v1 m (rest, e) =
    absurd (false≢true (sym (m more).1 ∙ rw e (starts_with-append v1_signature rest)))
no_proxy_stays s more incomplete m (missing, ne, inl e) = absurd (
    false≢true (
      sym (m (more ++ missing)).0
      ∙ ap (λ t. starts_with t v2_signature) (sym (append_assoc s more missing) ∙ e)))
no_proxy_stays s more incomplete m (missing, ne, inr e) = absurd (
    false≢true (
      sym (m (more ++ missing)).1
      ∙ ap (λ t. starts_with t v1_signature) (sym (append_assoc s more missing) ∙ e)))

definite_stays :
    (s more : Bytes) (t : ProxyType)
    → Means t s
    → t ≢ incomplete
    → detect_proxy_protocol (s ++ more) ≡ t
definite_stays s more v2 (rest, e) d =
    rw (e, append_assoc v2_signature rest more) (detect_v2_data (rest ++ more))
definite_stays s more v1 (rest, e) d =
    rw (e, append_assoc v1_signature rest more) (detect_v1_data (rest ++ more))
definite_stays s more incomplete m d = absurd (d refl)
definite_stays s more no_proxy m d =
    no_proxy_stays s more (detect_proxy_protocol (s ++ more)) m
      (detect_proxy_protocol-Means (s ++ more))

-- A definite answer stands, whatever data follows.
pub detect-append :
    (s more : Bytes)
    → detect_proxy_protocol s ≢ incomplete
    → detect_proxy_protocol (s ++ more) ≡ detect_proxy_protocol s
detect-append s more d = definite_stays s more _ (detect_proxy_protocol-Means s) d

-- An answer of `incomplete` means fewer than twelve bytes.
pub incomplete-length : (s : Bytes) → detect_proxy_protocol s ≡ incomplete → length s < 12
incomplete-length s h =
    let (missing, ne, e) = rw h at (detect_proxy_protocol-Means s) in
    elim e [
      | inl p ↦ omega (arith, ap length p, length-append s missing, nonempty missing ne)
      | inr p ↦ omega (arith, ap length p, length-append s missing, nonempty missing ne)
    ]
