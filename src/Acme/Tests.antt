-- ===== src/Acme/Tests.antt =====
-- Requests for certificates, of a server that has none.
use testserver.Prelude.{◌≡◌, refl, true, false, Option, none, some, [], ◌∷◌, Result, ok, err}
use testserver.Text.{Text, codes}
use testserver.CertCache.{
  CachedCertificate, Backend, put, forget, cache_cert, clear_cache, end_fetch, get_cert,
}
use testserver.Acme
use testserver.Acme.Steps.{Run, start, looked_up, resumed, failed}
use testserver.Acme.Settles.{decider, Decides, Run-Decides}
use testserver.Acme.Request.{
  Challenge, Client, is_wildcard, root_domain_of, identifiers, and_then, call, done,
  answer_challenge, pass_dns, pass_http, pass, pass_all, request_short_lived,
}
use testserver.Acme.Request.Leaves.{Leaves, request_short_lived-Leaves}
use testserver.Dns.{Records, ChallengeStore, get, add, remove, set_txt_record, remove_txt_record}
use testserver.Acme.Served.{ServedFrom, resume-ServedFrom}

acme_run : Unit {0}
unfolding Acme.begin Acme.share_or_begin Acme.refresh Acme.retry Acme.fail_in Acme.use_cached
    Acme.resume Acme.complete Acme.accept Acme.supersede Acme.issue_in Acme.revoke_in
    Acme.try_get_certificate_sync decider put forget cache_cert clear_cache end_fetch get_cert
acme_run = tt

abbrev nothing : Backend Unit
nothing = record {
  read_all = λ s. err (codes "down");
  read = λ key s. ok none;
  write = λ c s. s;
  delete_from = λ key s. s;
}

abbrev wanted : Acme.Wanted
wanted = record { domain = codes "d"; cache_key = codes "d+"; expired = false; revoked = false }

abbrev issued_one : Acme.Issued
issued_one = record { key = codes "k"; cert = codes "c"; expiry = 9 }

-- The first request, its failure and its second attempt.
abbrev none_yet : Acme.Acme Unit
none_yet = record { cache = ([], tt); next = 0; attempts = λ n. none; pending = λ key. none }

abbrev asked : Acme.Acme Unit
asked = (Acme.resume nothing 5 wanted (ok none) (Acme.fetch (codes "d+") (ok none) none_yet)).0

abbrev retried : Acme.Acme Unit
retried = Acme.fail 0 asked

abbrev finished : Acme.Acme Unit
finished = Acme.issue nothing 1 issued_one retried

retried-Run : Run nothing ([], tt) retried
retried-Run = failed 0 (resumed 5 wanted (ok none) (looked_up (codes "d+") (ok none) start))

decider-retried : decider 2 retried 0 ≡ 1
unfolding acme_run
decider-retried = refl

cached_after :
    finished.cache.0 ≡ (codes "d+", Acme.cached_certificate nothing wanted issued_one) ∷ []
unfolding acme_run
cached_after = refl

no_longer_pending : finished.pending (codes "d+") ≡ none
unfolding acme_run
no_longer_pending = refl

abbrev first_attempt : Acme.Attempt
first_attempt = record { wanted = wanted; phase = Acme.waiting 1 }

Run-Decides_example : Decides retried (decider retried.next retried 0) (codes "d+")
unfolding acme_run
Run-Decides_example = Run-Decides nothing ([], tt) retried 0 first_attempt retried-Run refl

-- A certificate that soon expires is served, and its renewal begins.
abbrev near : CachedCertificate
near = Acme.cached_certificate nothing wanted issued_one

resume-ServedFrom_example :
    (◌≡◌ {A = Result Text (Option CachedCertificate)} (ok (some near)) (ok (some near)))
    × ServedFrom 5 wanted near (Acme.begin wanted none_yet)
unfolding acme_run
resume-ServedFrom_example =
    resume-ServedFrom nothing 5 wanted (ok (some near)) near none_yet (Acme.begin wanted none_yet)
      refl

sync_serves : Acme.try_get_certificate_sync 5 wanted (some near) ≡ (some near, true)
unfolding acme_run
sync_serves = refl

request_run : Unit {0}
unfolding is_wildcard root_domain_of identifiers and_then call done answer_challenge pass_dns
    pass_http pass pass_all request_short_lived add remove set_txt_record remove_txt_record
request_run = tt

-- A client whose challenges end in the way that is given.
abbrev challenge : Challenge
challenge = record { kind = codes "dns-01"; token = codes "t" }

abbrev client : Result Text (Unit {0}) → Client (Unit {0})
client end = record {
  create_account = λ mail c. (ok tt, c);
  create_order = λ names from to c. (ok (codes "o"), c);
  get_authorizations = λ order c.
      (ok (record { value = codes "d"; valid = false; challenges = challenge ∷ [] } ∷ []), c);
  get_challenge_key_authorization = λ challenge c. (ok (codes "a"), c);
  complete_challenge = λ challenge c. (ok tt, c);
  wait_for_valid_status = λ challenge c. (end, c);
  finalize_order = λ order csr c. (ok (codes "f"), c);
  get_certificate = λ order c. (ok (codes "c"), c);
}

abbrev no_store : Option (ChallengeStore (Unit {0}))
no_store = none

abbrev request_of :
    Result Text (Unit {0}) → Result Text Text × ((Records × (Unit {0})) × (Unit {0}))
request_of end =
    request_short_lived (λ name. name) no_store (client end) (codes "*.d") true (codes "r") 5
      (([], tt), tt)

request_passes : request_of (ok tt) ≡ (ok (codes "c"), (([], tt), tt))
unfolding request_run
request_passes = refl

-- The record is left.
request_fails :
    request_of (err (codes "e"))
    ≡ (err (codes "e"), (((codes "_acme-challenge.d", codes "a" ∷ []) ∷ [], tt), tt))
unfolding request_run
request_fails = refl

request_short_lived-Leaves_example :
    Leaves
      (λ name. name)
      []
      (request_short_lived
        (λ name. name)
        no_store
        (client (ok tt))
        (codes "*.d")
        true
        (codes "r")
        5
        (([], tt), tt))
unfolding get
request_short_lived-Leaves_example =
    request_short_lived-Leaves (λ name. name) no_store (client (ok tt)) [] (λ value. refl)
      (codes "*.d") true (codes "r") 5 tt tt
