-- ===== src/Acme.antt =====
-- src/tls-certificates/acme.ts: when a certificate is served from the cache, renewed or awaited. A
-- promise is the number of the attempt that it stands for, in the order of their creation;
-- `pending` is `pendingCertRenewals`, with the ids of the attempts left out. Between two steps here
-- the code awaits: the store, the issuing of a certificate, or its revocation. What these give is an
-- argument of the step, and the clock is read once. Logging is left out.
pub mod Sound
pub mod Changes
pub mod Steps
pub mod Settles
pub mod Served
pub mod Request
pub mod Tests
use testserver.Prelude.{
  ℕ, suc, ◌+◌, ◌-◌, ◌*◌, Bool, true, false, ◌&&◌, not, Option, none, some, Result, ok, err,
  if◌then◌else◌, leb, ltb, ◌==◌,
}
use testserver.Text.{Text, text_eq}
use testserver.CertCache.{
  CachedCertificate, Certs, Backend, get_cert, cache_cert, clear_cache, end_fetch,
}

-- Times are milliseconds.
abbrev pub one_day : ℕ
one_day = 1000 * 60 * 60 * 24

abbrev pub proactive_refresh_time : ℕ
proactive_refresh_time = one_day * 14

-- `AcmeGeneratedCertificate`
pub record Issued : Type 0 where
  pub key : Text
  pub cert : Text
  pub expiry : ℕ

-- What is asked for: the domain, the key of the cache, and the options that are read.
pub record Wanted : Type 0 where
  pub domain : Text
  pub cache_key : Text
  pub expired : Bool
  pub revoked : Bool

-- Where an attempt is: its certificate is being requested, or revoked once issued; or its promise
-- has been resolved, with the promise of another attempt or with a certificate.
pub data Phase : Type 0 where
  requesting : Phase
  revoking : Issued → Phase
  waiting : ℕ → Phase
  settled : Issued → Phase

pub record Attempt : Type 0 where
  pub wanted : Wanted
  pub phase : Phase

-- The attempts so far are those below `next`.
pub record Acme (S : Type 0) : Type 0 where
  pub cache : Certs × S
  pub next : ℕ
  pub attempts : ℕ → Option Attempt
  pub pending : Text → Option ℕ

-- How `getCertificate` goes on: with a certificate of the cache, with a promise, or not at all.
pub data Answer : Type 0 where
  from_cache : CachedCertificate → Answer
  promised : ℕ → Answer
  thrown : Text → Answer

abbrev pub is_near_expiry : CachedCertificate → ℕ → Bool
is_near_expiry c now = ltb c.expiry (now + proactive_refresh_time)

-- `tryGetCertificateSync` for what the cache has: its result, and whether it calls
-- `getCertificate`.
unfoldable pub try_get_certificate_sync :
    ℕ → Wanted → Option CachedCertificate → Option CachedCertificate × Bool
try_get_certificate_sync now w none = (none, true)
try_get_certificate_sync now w (some c) =
    if w.expired && not (leb c.expiry now)
    then (none, false)
    else (some c, not w.expired && is_near_expiry c now)

abbrev pub set_attempt : ℕ → Attempt → (ℕ → Option Attempt) → ℕ → Option Attempt
set_attempt p a attempts n = if n == p then some a else attempts n

abbrev pub set_pending : Text → Option ℕ → (Text → Option ℕ) → Text → Option ℕ
set_pending key o pending k = if text_eq k key then o else pending k

module _ {S : Type 0} where
  -- The last part of `getCertificate`: a request begins, and is the pending one of its key.
  unfoldable pub begin : Wanted → Acme S → Acme S
  begin w s = record {
    cache = s.cache;
    next = suc s.next;
    attempts = set_attempt s.next (record { wanted = w; phase = requesting }) s.attempts;
    pending = set_pending w.cache_key (some s.next) s.pending;
  }

  abbrev pub begun : Wanted → Acme S → Acme S × Answer
  begun w s = (begin w s, promised s.next)

  -- A certificate that is not in the cache: the pending promise, or a request.
  unfoldable pub share_or_begin : Wanted → Option ℕ → Acme S → Acme S × Answer
  share_or_begin w (some p) s = (s, promised p)
  share_or_begin w none s = begun w s

  -- A certificate that soon expires is renewed in the background, unless that is pending.
  unfoldable pub refresh : Wanted → Option ℕ → Acme S → Acme S
  refresh w (some p) s = s
  refresh w none s = begin w s

  abbrev pub set_phase : ℕ → Wanted → Phase → Acme S → Acme S
  set_phase p w phase s = record s {
    attempts = set_attempt p (record { wanted = w; phase = phase }) s.attempts;
  }

  -- The request or the revocation fails: `getCertificate` is forced again, and the promise is
  -- resolved with the new one.
  unfoldable pub retry : ℕ → Wanted → Acme S → Acme S
  retry p w s = set_phase p w (waiting s.next) (begin w s)

  unfoldable pub fail_in : ℕ → Wanted → Phase → Acme S → Acme S
  fail_in p w requesting s = retry p w s
  fail_in p w (revoking i) s = retry p w s
  fail_in p w (waiting q) s = s
  fail_in p w (settled j) s = s

  abbrev pub fail_of : ℕ → Option Attempt → Acme S → Acme S
  fail_of p none s = s
  fail_of p (some a) s = fail_in p a.wanted a.phase s

  abbrev pub fail : ℕ → Acme S → Acme S
  fail p s = fail_of p (s.attempts p) s

  -- The end of `fetchCert`, which puts a certificate of the store into the cache.
  abbrev pub fetch : Text → Result Text (Option CachedCertificate) → Acme S → Acme S
  fetch key stored s = record s { cache = ((end_fetch key stored s.cache.0).1, s.cache.1) }

module _ {S : Type 0} (backend : Backend S) where
  unfoldable pub use_cached : ℕ → Wanted → CachedCertificate → Acme S → Acme S × Answer
  use_cached now w c s =
      if leb c.expiry now
      then (if w.expired
          then (s, from_cache c)
          else begun w (record s { cache = clear_cache backend w.cache_key s.cache }))
      else if not w.expired && is_near_expiry c now
      then (refresh w (s.pending w.cache_key) s, from_cache c)
      else (s, from_cache c)

  -- `getCertificate` without `forceRegenerate`, behind its `await` of `fetchCert`. With it, it is
  -- `begun`.
  unfoldable pub resume :
      ℕ → Wanted → Result Text (Option CachedCertificate) → Acme S → Acme S × Answer
  resume now w (err e) s = (s, thrown e)
  resume now w (ok none) s = share_or_begin w (s.pending w.cache_key) s
  resume now w (ok (some c)) s = use_cached now w c s

  abbrev pub cached_certificate : Wanted → Issued → CachedCertificate
  cached_certificate w i = record {
    cache_key = w.cache_key;
    domain = w.domain;
    key = i.key;
    cert = i.cert;
    expiry = i.expiry;
  }

  -- The end of an attempt: no attempt is pending any more, and the certificate is cached.
  unfoldable pub complete : ℕ → Wanted → Issued → Acme S → Acme S
  complete p w i s = record {
    cache = cache_cert backend (cached_certificate w i) s.cache;
    next = s.next;
    attempts = set_attempt p (record { wanted = w; phase = settled i }) s.attempts;
    pending = set_pending w.cache_key none s.pending;
  }

  -- The certificate of an attempt that is not superseded.
  unfoldable pub accept : ℕ → Wanted → Issued → Acme S → Acme S
  accept p w i s = if w.revoked then set_phase p w (revoking i) s else complete p w i s

  unfoldable pub supersede : ℕ → Wanted → Issued → Option ℕ → Acme S → Acme S
  supersede p w i none s = accept p w i s
  supersede p w i (some q) s = if q == p then accept p w i s else set_phase p w (waiting q) s

  -- A certificate is issued to an attempt that is requested.
  unfoldable pub issue_in : ℕ → Issued → Wanted → Phase → Acme S → Acme S
  issue_in p i w requesting s = supersede p w i (s.pending w.cache_key) s
  issue_in p i w (revoking j) s = s
  issue_in p i w (waiting q) s = s
  issue_in p i w (settled j) s = s

  abbrev pub issue_to : ℕ → Issued → Option Attempt → Acme S → Acme S
  issue_to p i none s = s
  issue_to p i (some a) s = issue_in p i a.wanted a.phase s

  abbrev pub issue : ℕ → Issued → Acme S → Acme S
  issue p i s = issue_to p i (s.attempts p) s

  -- The revocation of an attempt's certificate is done.
  unfoldable pub revoke_in : ℕ → Wanted → Phase → Acme S → Acme S
  revoke_in p w requesting s = s
  revoke_in p w (revoking i) s = complete p w i s
  revoke_in p w (waiting q) s = s
  revoke_in p w (settled j) s = s

  abbrev pub revoke_of : ℕ → Option Attempt → Acme S → Acme S
  revoke_of p none s = s
  revoke_of p (some a) s = revoke_in p a.wanted a.phase s

  abbrev pub revoke : ℕ → Acme S → Acme S
  revoke p s = revoke_of p (s.attempts p) s
