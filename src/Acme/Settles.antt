-- ===== src/Acme/Settles.antt =====
-- What the attempts of src/tls-certificates/acme.ts come to after any steps in any order.
use testserver.Prelude.{
  ℕ, zero, suc, ◌+◌, ◌≤◌, ◌≡◌, refl, sym, ap, ◌∙◌, subst, ◌⊎◌, inl, inr, Bool, true, false, Option,
  none, some, arith,
}
use testserver.Text.{Text}
use testserver.CertCache.{Certs, Backend}
use testserver.Acme
use testserver.Acme.Sound.{key_of, IsSound}
use testserver.Acme.Steps.{Run, Run-IsSound}

abbrev pub is_waiting : Acme.Phase → Bool
is_waiting Acme.requesting = false
is_waiting (Acme.revoking i) = false
is_waiting (Acme.waiting q) = true
is_waiting (Acme.settled i) = false

-- The attempt that decides the promise of the attempt `n`: the promises are followed.
abbrev pub next_of : ℕ → Option Acme.Attempt → ℕ
next_of n none = n
next_of n (some a) = elim a.phase [
  | Acme.requesting ↦ n
  | Acme.revoking i ↦ n
  | Acme.waiting q ↦ q
  | Acme.settled i ↦ n
]

unfoldable pub decider : {S : Type 0} → ℕ → Acme.Acme S → ℕ → ℕ
decider zero s n = n
decider (suc rounds) s n = decider rounds s (next_of n (s.attempts n))

-- It does not wait, and has the same key.
abbrev pub Decides : {S : Type 0} → Acme.Acme S → ℕ → Text → Type 0
Decides s m key =
    (b : Acme.Attempt) × (s.attempts m ≡ some b) × (key_of b ≡ key) × (is_waiting b.phase ≡ false)

module _ {S : Type 0} (s : Acme.Acme S) (sound : IsSound s) where
  next_of-not_waiting :
      (n : ℕ) (a : Acme.Attempt) (phase : Acme.Phase)
      → a.phase ≡ phase
      → is_waiting phase ≡ false
      → next_of n (some a) ≡ n
  next_of-not_waiting n a Acme.requesting e h = rw e refl
  next_of-not_waiting n a (Acme.revoking i) e h = rw e refl
  next_of-not_waiting n a (Acme.waiting q) e h = absurd (ground arith)
  next_of-not_waiting n a (Acme.settled i) e h = rw e refl

  decider-stays :
      (rounds n : ℕ) (a : Acme.Attempt)
      → s.attempts n ≡ some a
      → is_waiting a.phase ≡ false
      → decider rounds s n ≡ n
  unfolding decider
  decider-stays zero n a at_n h = refl
  decider-stays (suc rounds) n a at_n h =
      ap (decider rounds s) (ap (next_of n) at_n ∙ next_of-not_waiting n a a.phase refl h)
      ∙ decider-stays rounds n a at_n h

  phase_cases :
      (phase : Acme.Phase) → (is_waiting phase ≡ false) ⊎ ((q : ℕ) × (phase ≡ Acme.waiting q))
  phase_cases Acme.requesting = inl refl
  phase_cases (Acme.revoking i) = inl refl
  phase_cases (Acme.waiting q) = inr (q, refl)
  phase_cases (Acme.settled i) = inl refl

  decider-Decides :
      (rounds n : ℕ) (a : Acme.Attempt)
      → s.attempts n ≡ some a
      → s.next ≤ n + rounds
      → Decides s (decider rounds s n) (key_of a)
  unfolding decider
  decider-Decides zero n a at_n enough = absurd (omega (arith, enough, sound.below n a at_n))
  decider-Decides (suc rounds) n a at_n enough = elim (phase_cases a.phase) [
    | inl still ↦
        let here = decider-stays (suc rounds) n a at_n still in
        subst (λ m. Decides s m (key_of a)) (sym here ∙ unfold decider in refl)
          (a, at_n, refl, still)
    | inr (q, waits) ↦
        let (lt, (b, at_q, on_key)) = sound.later n q a at_n waits in
        let step : next_of n (s.attempts n) ≡ q = rw (at_n, waits) refl in
        let (c, at_m, same_key, still) =
          decider-Decides rounds q b at_q (omega (arith, lt, enough)) in
        subst (λ m. Decides s (decider rounds s m) (key_of a)) (sym step)
          (c, at_m, same_key ∙ on_key, still)
  ]

-- After any steps in any order, the promise of every attempt is decided: it leads, over attempts
-- for the same key that wait for later ones, to an attempt that has its certificate or whose request
-- or revocation is under way. No attempts wait for each other.
pub Run-Decides :
    {S : Type 0} (backend : Backend S) (cache : Certs × S) (s : Acme.Acme S) (n : ℕ)
    (a : Acme.Attempt)
    → Run backend cache s
    → s.attempts n ≡ some a
    → Decides s (decider s.next s n) (key_of a)
Run-Decides backend cache s n a run at_n =
    decider-Decides s (Run-IsSound backend run) s.next n a at_n (omega arith)
