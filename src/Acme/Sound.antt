-- ===== src/Acme/Sound.antt =====
-- The invariant of the attempts of src/tls-certificates/acme.ts, and that a new attempt keeps it:
-- whatever is pending is the latest attempt for its key and is under way, and whatever waits for
-- another attempt waits for a later one.
use testserver.Prelude.{
  ℕ, ◌≤◌, ◌<◌, ◌≡◌, refl, sym, ap, ◌∙◌, subst, ◌⊎◌, inl, inr, Bool, true, false, Option, some, ◌==◌,
  ==_iff, Bool-cases, arith,
}
use testserver.Text.{Text, text_eq}
use testserver.Text.Laws.{text_eq_iff}
use testserver.Acme

abbrev pub is_live : Acme.Phase → Bool
is_live Acme.requesting = true
is_live (Acme.revoking i) = true
is_live (Acme.waiting q) = false
is_live (Acme.settled i) = false

abbrev pub key_of : Acme.Attempt → Text
key_of a = a.wanted.cache_key

module _ {S : Type 0} where
  -- An attempt with a key.
  abbrev pub Has : Acme.Acme S → ℕ → Text → Type 0
  Has s q key = (b : Acme.Attempt) × (s.attempts q ≡ some b) × (key_of b ≡ key)

  pub record IsSound (s : Acme.Acme S) : Type 0 where
    pub below : (n : ℕ) (a : Acme.Attempt) → s.attempts n ≡ some a → n < s.next
    pub pending_live :
        (key : Text) (p : ℕ)
        → s.pending key ≡ some p
        → (a : Acme.Attempt) × (s.attempts p ≡ some a) × (key_of a ≡ key) × (is_live a.phase ≡ true)
    pub latest :
        (key : Text) (p n : ℕ) (a : Acme.Attempt)
        → s.pending key ≡ some p
        → s.attempts n ≡ some a
        → key_of a ≡ key
        → n ≤ p
    pub later :
        (n q : ℕ) (a : Acme.Attempt)
        → s.attempts n ≡ some a
        → a.phase ≡ Acme.waiting q
        → (n < q) × Has s q (key_of a)

-- What an attempt is after one was set.
pub set_attempt-cases :
    (p : ℕ) (a : Acme.Attempt) (f : ℕ → Option Acme.Attempt) (n : ℕ) (b : Acme.Attempt)
    → Acme.set_attempt p a f n ≡ some b
    → ((n ≡ p) × (a ≡ b)) ⊎ (((n == p) ≡ false) × (f n ≡ some b))
set_attempt-cases p a f n b h = elim (Bool-cases (n == p)) [
  | inl e ↦ let g = rw e at h in inl ((==_iff n p).0 e, ground arith)
  | inr e ↦ inr (e, rw e at h)
]

pub set_attempt-same :
    (p : ℕ) (a : Acme.Attempt) (f : ℕ → Option Acme.Attempt) → Acme.set_attempt p a f p ≡ some a
set_attempt-same p a f = rw ((==_iff p p).1 refl) refl

pub set_attempt-other :
    (p : ℕ) (a : Acme.Attempt) (f : ℕ → Option Acme.Attempt) (n : ℕ)
    → (n == p) ≡ false
    → Acme.set_attempt p a f n ≡ f n
set_attempt-other p a f n e = rw e refl

not_equal : (n p : ℕ) → n < p → (n == p) ≡ false
not_equal n p h = ground arith

pub set_pending-cases :
    (key : Text) (o : Option ℕ) (f : Text → Option ℕ) (k : Text) (p : ℕ)
    → Acme.set_pending key o f k ≡ some p
    → ((key ≡ k) × (o ≡ some p)) ⊎ ((text_eq k key ≡ false) × (f k ≡ some p))
set_pending-cases key o f k p h = elim (Bool-cases (text_eq k key)) [
  | inl e ↦ inl (sym ((text_eq_iff k key).0 e), rw e at h)
  | inr e ↦ inr (e, rw e at h)
]

module _ {S : Type 0} (w : Acme.Wanted) (s : Acme.Acme S) (sound : IsSound s) where
  abbrev fresh : Acme.Attempt
  fresh = record { wanted = w; phase = Acme.requesting }

  pub begin-kept :
      (n : ℕ) (a : Acme.Attempt) → s.attempts n ≡ some a → (Acme.begin w s).attempts n ≡ some a
  unfolding Acme.begin
  begin-kept n a h =
      set_attempt-other s.next fresh s.attempts n (not_equal n s.next (sound.below n a h)) ∙ h

  -- A new attempt keeps the invariant.
  pub begin-IsSound : IsSound (Acme.begin w s)
  unfolding Acme.begin
  begin-IsSound = record {
    below = λ n a h. elim (set_attempt-cases s.next fresh s.attempts n a h) [
      | inl (e, same) ↦ omega (arith, e)
      | inr (e, old) ↦ omega (arith, sound.below n a old)
    ];
    pending_live = λ key p h. elim (set_pending-cases w.cache_key (some s.next) s.pending key p h) [
      | inl (e, new) ↦
          let same : s.next ≡ p = ground arith in
          (
            fresh,
            subst (λ q. Acme.set_attempt s.next fresh s.attempts q ≡ some fresh) same
                (set_attempt-same s.next fresh s.attempts),
            e,
            refl,
          )
      | inr (e, old) ↦
          let (a, at_p, on_key, live) = sound.pending_live key p old in
          (a, begin-kept p a at_p, on_key, live)
    ];
    latest = λ key p n a h k e.
        elim (set_pending-cases w.cache_key (some s.next) s.pending key p h) [
          | inl (same, new) ↦ elim (set_attempt-cases s.next fresh s.attempts n a k) [
            | inl (at_next, mine) ↦ ground arith
            | inr (before, earlier) ↦
                let bound = sound.below n a earlier in
                let here : s.next ≡ p = ground arith in omega (arith, bound, here)
          ]
          | inr (other, old) ↦ elim (set_attempt-cases s.next fresh s.attempts n a k) [
            | inl (at_next, mine) ↦
                let mine_too = (text_eq_iff key w.cache_key).1 (sym e ∙ sym (ap key_of mine)) in
                absurd (ground arith)
            | inr (before, earlier) ↦ sound.latest key p n a old earlier e
          ]
        ];
    later = λ n q a h k. elim (set_attempt-cases s.next fresh s.attempts n a h) [
      | inl (at_next, mine) ↦
          let never : Acme.requesting ≡ Acme.waiting q =
            ap (λ (b : Acme.Attempt). b.phase) mine ∙ k in
          absurd (ground arith)
      | inr (before, earlier) ↦
          let (lt, (b, at_q, on_key)) = sound.later n q a earlier k in
          (lt, (b, begin-kept q b at_q, on_key))
    ];
  }
