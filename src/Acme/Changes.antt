-- ===== src/Acme/Changes.antt =====
-- An attempt of src/tls-certificates/acme.ts that changes its phase keeps the invariant.
use testserver.Prelude.{
  ℕ, ◌<◌, ◌≡◌, refl, sym, ap, ◌∙◌, subst, inl, inr, true, false, Option, some, ◌==◌, ==_iff,
  Bool-cases, arith,
}
use testserver.Text.{Text}
use testserver.Text.Laws.{text_eq_iff}
use testserver.CertCache.{Certs}
use testserver.Acme
use testserver.Acme.Sound.{
  is_live, key_of, Has, IsSound, set_attempt-cases, set_attempt-same, set_attempt-other,
  set_pending-cases, begin-kept, begin-IsSound,
}

-- The phase of an attempt changes, and so may the pending attempts, but for new ones.
module _ {S : Type 0} (s : Acme.Acme S) (sound : IsSound s) (p : ℕ) (a : Acme.Attempt)
    (at_p : s.attempts p ≡ some a) (phase : Acme.Phase) where
  abbrev changed : Acme.Attempt
  changed = record { wanted = a.wanted; phase = phase }

  Has-changed :
      (q : ℕ) (key : Text)
      → Has s q key
      → (b : Acme.Attempt) × (Acme.set_attempt p changed s.attempts q ≡ some b) × (key_of b ≡ key)
  Has-changed q key (b, at_q, on_key) = elim (Bool-cases (q == p)) [
    | inl e ↦
        let same : q ≡ p = (==_iff q p).0 e in
        let one : some b ≡ some a = sym at_q ∙ ap s.attempts same ∙ at_p in
        let equal : b ≡ a = ground arith in (changed, rw e refl, ap key_of (sym equal) ∙ on_key)
    | inr e ↦ (b, set_attempt-other p changed s.attempts q e ∙ at_q, on_key)
  ]

  -- It is sound if the attempt waits for a later one or not at all, and is not pending any more or
  -- goes on.
  pub changed-IsSound :
      (cache : Certs × S) (pending : Text → Option ℕ)
      → ((key : Text) (q : ℕ) → pending key ≡ some q → s.pending key ≡ some q)
      → ((key : Text) → pending key ≡ some p → is_live phase ≡ true)
      → ((q : ℕ) → phase ≡ Acme.waiting q → (p < q) × Has s q (key_of a))
      → IsSound (record {
        cache = cache;
        next = s.next;
        attempts = Acme.set_attempt p changed s.attempts;
        pending = pending;
      })
  changed-IsSound cache pending sub goes_on waits = record {
    below = λ n b h. elim (set_attempt-cases p changed s.attempts n b h) [
      | inl (e, same) ↦ rw e (sound.below p a at_p)
      | inr (e, old) ↦ sound.below n b old
    ];
    pending_live = λ key q h.
        let (b, at_q, on_key, live) = sound.pending_live key q (sub key q h) in
        elim (Bool-cases (q == p)) [
          | inl e ↦
              let same : q ≡ p = (==_iff q p).0 e in
              let one : some b ≡ some a = sym at_q ∙ ap s.attempts same ∙ at_p in
              let equal : b ≡ a = ground arith in
              (changed, rw e refl, ap key_of (sym equal) ∙ on_key, goes_on key (h ∙ ap some same))
          | inr e ↦ (b, set_attempt-other p changed s.attempts q e ∙ at_q, on_key, live)
        ];
    latest = λ key q n b h k e. elim (set_attempt-cases p changed s.attempts n b k) [
      | inl (same, mine) ↦
          sound.latest key q n a (sub key q h) (ap s.attempts same ∙ at_p) (ap key_of mine ∙ e)
      | inr (other, old) ↦ sound.latest key q n b (sub key q h) old e
    ];
    later = λ n q b h k. elim (set_attempt-cases p changed s.attempts n b h) [
      | inl (same, mine) ↦
          let (lt, has) = waits q (ap (λ (c : Acme.Attempt). c.phase) mine ∙ k) in
          (rw same lt, Has-changed q (key_of b) (subst (Has s q) (ap key_of mine) has))
      | inr (other, old) ↦
          let (lt, has) = sound.later n q b old k in (lt, Has-changed q (key_of b) has)
    ];
  }

module _ {S : Type 0} (s : Acme.Acme S) (sound : IsSound s) where
  pub pending-key :
      (key : Text) (p : ℕ) (a : Acme.Attempt)
      → s.pending key ≡ some p
      → s.attempts p ≡ some a
      → key_of a ≡ key
  pending-key key p a h at_p =
      let (b, at_p_too, on_key, live) = sound.pending_live key p h in
      let one : some a ≡ some b = sym at_p ∙ at_p_too in
      let equal : a ≡ b = ground arith in ap key_of equal ∙ on_key

  -- The cache has no part in the invariant.
  pub cache-IsSound : (cache : Certs × S) → IsSound (record s { cache = cache })
  cache-IsSound cache = record {
    below = sound.below;
    pending_live = sound.pending_live;
    latest = sound.latest;
    later = sound.later;
  }

  pub revoking-IsSound :
      (p : ℕ) (a : Acme.Attempt) (i : Acme.Issued)
      → s.attempts p ≡ some a
      → IsSound (Acme.set_phase p a.wanted (Acme.revoking i) s)
  revoking-IsSound p a i at_p =
      changed-IsSound s sound p a at_p (Acme.revoking i) s.cache s.pending (λ key q h. h)
        (λ key h. refl) (λ q h. absurd (ground arith))

  -- An attempt that is not the pending one of its key waits for that.
  pub waiting-IsSound :
      (p q : ℕ) (a : Acme.Attempt)
      → s.attempts p ≡ some a
      → s.pending (key_of a) ≡ some q
      → (q == p) ≡ false
      → IsSound (Acme.set_phase p a.wanted (Acme.waiting q) s)
  waiting-IsSound p q a at_p h other =
      let (b, at_q, on_key, live) = sound.pending_live (key_of a) q h in
      let bound = sound.latest (key_of a) q p a h at_p refl in
      changed-IsSound s sound p a at_p (Acme.waiting q) s.cache s.pending (λ key r k. k)
        (λ key k.
          let mine = pending-key key p a k at_p in
          let one : some q ≡ some p = sym h ∙ ap s.pending mine ∙ k in absurd (ground arith))
        (λ r k. let same : q ≡ r = ground arith in rw (sym same) (ground arith, (b, at_q, on_key)))

  pub retry-IsSound :
      (p : ℕ) (a : Acme.Attempt) → s.attempts p ≡ some a → IsSound (Acme.retry p a.wanted s)
  unfolding Acme.retry Acme.begin
  retry-IsSound p a at_p =
      changed-IsSound (Acme.begin a.wanted s) (begin-IsSound a.wanted s sound) p a
        (begin-kept a.wanted s sound p a at_p) (Acme.waiting s.next) s.cache
        (Acme.set_pending (key_of a) (some s.next) s.pending) (λ key r k. k)
        (λ key k. elim (set_pending-cases (key_of a) (some s.next) s.pending key p k) [
          | inl (same, new) ↦
              let bound = sound.below p a at_p in
              let one : s.next ≡ p = ground arith in absurd (omega (arith, bound, one))
          | inr (other, old) ↦
              let mine = (text_eq_iff key (key_of a)).1 (sym (pending-key key p a old at_p)) in
              absurd (ground arith)
        ])
        (λ r k.
          let same : s.next ≡ r = ground arith in
          rw (sym same) (
            sound.below p a at_p,
            (
              record { wanted = a.wanted; phase = Acme.requesting },
              set_attempt-same s.next _ s.attempts,
              refl,
            ),
          ))
