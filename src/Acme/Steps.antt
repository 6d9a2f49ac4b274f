-- ===== src/Acme/Steps.antt =====
-- The steps of src/tls-certificates/acme.ts keep the invariant of the attempts, in any order.
use testserver.Prelude.{
  ℕ, ◌≡◌, refl, sym, inl, inr, Bool, true, false, Option, none, some, Result, ok, err,
  if◌then◌else◌, ◌==◌, leb, not, ◌&&◌, Bool-cases, arith,
}
use testserver.Text.{Text}
use testserver.Text.Laws.{text_eq_iff}
use testserver.CertCache.{CachedCertificate, Certs, Backend}
use testserver.Acme
use testserver.Acme.Sound.{key_of, IsSound, set_pending-cases, begin-IsSound}
use testserver.Acme.Changes.{
  changed-IsSound, pending-key, cache-IsSound, revoking-IsSound, waiting-IsSound, retry-IsSound,
}

IsSound-if :
    {S : Type 0} {s t : Acme.Acme S} (b : Bool)
    → IsSound s
    → IsSound t
    → IsSound (if b then s else t)
IsSound-if true h k = h
IsSound-if false h k = k

answer_if :
    {S : Type 0} (x y : Acme.Acme S × Acme.Answer) (b : Bool)
    → IsSound x.0
    → IsSound y.0
    → IsSound (if b then x else y).0
answer_if x y true h k = h
answer_if x y false h k = k

refresh-IsSound :
    {S : Type 0} (w : Acme.Wanted) (o : Option ℕ) (s : Acme.Acme S)
    → IsSound s
    → IsSound (Acme.refresh w o s)
unfolding Acme.refresh
refresh-IsSound w (some p) s sound = sound
refresh-IsSound w none s sound = begin-IsSound w s sound

share_or_begin-IsSound :
    {S : Type 0} (w : Acme.Wanted) (o : Option ℕ) (s : Acme.Acme S)
    → IsSound s
    → IsSound (Acme.share_or_begin w o s).0
unfolding Acme.share_or_begin
share_or_begin-IsSound w (some p) s sound = sound
share_or_begin-IsSound w none s sound = begin-IsSound w s sound

module _ {S : Type 0} (backend : Backend S) where
  -- The steps, in any order, from the start of the server.
  pub data Run (cache : Certs × S) : Acme.Acme S → Type 0 where
    start :
        Run cache (record { cache = cache; next = 0; attempts = λ n. none; pending = λ key. none })
    looked_up :
        {s : Acme.Acme S} (key : Text) (stored : Result Text (Option CachedCertificate))
        → Run cache s
        → Run cache (Acme.fetch key stored s)
    resumed :
        {s : Acme.Acme S} (now : ℕ) (w : Acme.Wanted)
        (fetched : Result Text (Option CachedCertificate))
        → Run cache s
        → Run cache (Acme.resume backend now w fetched s).0
    issued :
        {s : Acme.Acme S} (p : ℕ) (i : Acme.Issued)
        → Run cache s
        → Run cache (Acme.issue backend p i s)
    was_revoked : {s : Acme.Acme S} (p : ℕ) → Run cache s → Run cache (Acme.revoke backend p s)
    failed : {s : Acme.Acme S} (p : ℕ) → Run cache s → Run cache (Acme.fail p s)

  complete-IsSound :
      (s : Acme.Acme S) (p : ℕ) (a : Acme.Attempt) (i : Acme.Issued)
      → IsSound s
      → s.attempts p ≡ some a
      → IsSound (Acme.complete backend p a.wanted i s)
  unfolding Acme.complete
  complete-IsSound s p a i sound at_p =
      changed-IsSound s sound p a at_p (Acme.settled i) _ _
        (λ key q h. elim (set_pending-cases (key_of a) none s.pending key q h) [
          | inl (same, never) ↦ absurd (ground arith)
          | inr (other, old) ↦ old
        ])
        (λ key h. elim (set_pending-cases (key_of a) none s.pending key p h) [
          | inl (same, never) ↦ absurd (ground arith)
          | inr (other, old) ↦
              let mine =
                (text_eq_iff key (key_of a)).1 (sym (pending-key s sound key p a old at_p)) in
              absurd (ground arith)
        ])
        (λ q h. absurd (ground arith))

  accept-IsSound :
      (s : Acme.Acme S) (p : ℕ) (a : Acme.Attempt) (i : Acme.Issued)
      → IsSound s
      → s.attempts p ≡ some a
      → IsSound (Acme.accept backend p a.wanted i s)
  unfolding Acme.accept
  accept-IsSound s p a i sound at_p =
      IsSound-if a.wanted.revoked (revoking-IsSound s sound p a i at_p)
        (complete-IsSound s p a i sound at_p)

  supersede-IsSound :
      (s : Acme.Acme S) (p : ℕ) (a : Acme.Attempt) (i : Acme.Issued)
      → IsSound s
      → s.attempts p ≡ some a
      → (o : Option ℕ) → s.pending (key_of a) ≡ o
      → IsSound (Acme.supersede backend p a.wanted i o s)
  unfolding Acme.supersede
  supersede-IsSound s p a i sound at_p none h = accept-IsSound s p a i sound at_p
  supersede-IsSound s p a i sound at_p (some q) h = elim (Bool-cases (q == p)) [
    | inl e ↦ rw e (accept-IsSound s p a i sound at_p)
    | inr e ↦ rw e (waiting-IsSound s sound p q a at_p h e)
  ]

  issue_in-IsSound :
      (s : Acme.Acme S) (p : ℕ) (a : Acme.Attempt) (i : Acme.Issued) (phase : Acme.Phase)
      → IsSound s
      → s.attempts p ≡ some a
      → IsSound (Acme.issue_in backend p i a.wanted phase s)
  unfolding Acme.issue_in
  issue_in-IsSound s p a i Acme.requesting sound at_p =
      supersede-IsSound s p a i sound at_p (s.pending (key_of a)) refl
  issue_in-IsSound s p a i (Acme.revoking j) sound at_p = sound
  issue_in-IsSound s p a i (Acme.waiting q) sound at_p = sound
  issue_in-IsSound s p a i (Acme.settled j) sound at_p = sound

  revoke_in-IsSound :
      (s : Acme.Acme S) (p : ℕ) (a : Acme.Attempt) (phase : Acme.Phase)
      → IsSound s
      → s.attempts p ≡ some a
      → IsSound (Acme.revoke_in backend p a.wanted phase s)
  unfolding Acme.revoke_in
  revoke_in-IsSound s p a Acme.requesting sound at_p = sound
  revoke_in-IsSound s p a (Acme.revoking j) sound at_p = complete-IsSound s p a j sound at_p
  revoke_in-IsSound s p a (Acme.waiting q) sound at_p = sound
  revoke_in-IsSound s p a (Acme.settled j) sound at_p = sound

  fail_in-IsSound :
      (s : Acme.Acme S) (p : ℕ) (a : Acme.Attempt) (phase : Acme.Phase)
      → IsSound s
      → s.attempts p ≡ some a
      → IsSound (Acme.fail_in p a.wanted phase s)
  unfolding Acme.fail_in
  fail_in-IsSound s p a Acme.requesting sound at_p = retry-IsSound s sound p a at_p
  fail_in-IsSound s p a (Acme.revoking j) sound at_p = retry-IsSound s sound p a at_p
  fail_in-IsSound s p a (Acme.waiting q) sound at_p = sound
  fail_in-IsSound s p a (Acme.settled j) sound at_p = sound

  use_cached-IsSound :
      (now : ℕ) (w : Acme.Wanted) (c : CachedCertificate) (s : Acme.Acme S)
      → IsSound s
      → IsSound (Acme.use_cached backend now w c s).0
  unfolding Acme.use_cached
  use_cached-IsSound now w c s sound =
      answer_if _ _ (leb c.expiry now)
        (answer_if _ _ w.expired sound (
          begin-IsSound w _ (cache-IsSound s sound (Acme.clear_cache backend w.cache_key s.cache))))
        (answer_if _ _ (not w.expired && Acme.is_near_expiry c now)
          (refresh-IsSound w (s.pending w.cache_key) s sound) sound)

  resume-IsSound :
      (now : ℕ) (w : Acme.Wanted) (fetched : Result Text (Option CachedCertificate))
      (s : Acme.Acme S)
      → IsSound s
      → IsSound (Acme.resume backend now w fetched s).0
  unfolding Acme.resume
  resume-IsSound now w (err e) s sound = sound
  resume-IsSound now w (ok none) s sound = share_or_begin-IsSound w (s.pending w.cache_key) s sound
  resume-IsSound now w (ok (some c)) s sound = use_cached-IsSound now w c s sound

  issue-IsSound :
      (s : Acme.Acme S) (p : ℕ) (i : Acme.Issued) (o : Option Acme.Attempt)
      → IsSound s
      → s.attempts p ≡ o
      → IsSound (Acme.issue_to backend p i o s)
  issue-IsSound s p i none sound h = sound
  issue-IsSound s p i (some a) sound h = issue_in-IsSound s p a i a.phase sound h

  revoke-IsSound :
      (s : Acme.Acme S) (p : ℕ) (o : Option Acme.Attempt)
      → IsSound s
      → s.attempts p ≡ o
      → IsSound (Acme.revoke_of backend p o s)
  revoke-IsSound s p none sound h = sound
  revoke-IsSound s p (some a) sound h = revoke_in-IsSound s p a a.phase sound h

  fail-IsSound :
      (s : Acme.Acme S) (p : ℕ) (o : Option Acme.Attempt)
      → IsSound s
      → s.attempts p ≡ o
      → IsSound (Acme.fail_of p o s)
  fail-IsSound s p none sound h = sound
  fail-IsSound s p (some a) sound h = fail_in-IsSound s p a a.phase sound h

  -- The invariant holds after any steps.
  pub Run-IsSound : {cache : Certs × S} {s : Acme.Acme S} → Run cache s → IsSound s
  Run-IsSound start = record {
    below = λ n a h. absurd (ground arith);
    pending_live = λ key p h. absurd (ground arith);
    latest = λ key p n a h k e. absurd (ground arith);
    later = λ n q a h k. absurd (ground arith);
  }
  Run-IsSound (looked_up {s = s} key stored run) =
      cache-IsSound s (Run-IsSound run) (Acme.fetch key stored s).cache
  Run-IsSound (resumed {s = s} now w fetched r) = resume-IsSound now w fetched s (Run-IsSound r)
  Run-IsSound (issued {s = s} p i r) = issue-IsSound s p i (s.attempts p) (Run-IsSound r) refl
  Run-IsSound (was_revoked {s = s} p r) = revoke-IsSound s p (s.attempts p) (Run-IsSound r) refl
  Run-IsSound (failed {s = s} p r) = fail-IsSound s p (s.attempts p) (Run-IsSound r) refl
