-- ===== src/ContextCache/Run.antt =====
-- The interleavings of calls of `getOrCreate`: each begins with a look-up, and a call that found
-- nothing goes on when its factory has answered, in any order with the others.
use testserver.Prelude.{ℕ, ◌≡◌, Option, none, some, List, [], ◌∷◌, ◌++◌}
use testserver.Text.{Text}
use testserver.ContextCache.{Cache, Created, look_up, store}

-- A call that waits for its factory: its key, and the time at which it began.
pub record Pending : Type 0 where
  pub key : Text
  pub time : ℕ

-- A call whose factory has answered.
pub record Creation {ℓ} (C : Type ℓ) : Type ℓ where
  pub key : Text
  pub time : ℕ
  pub made : Created C

pub record State {ℓ} (C : Type ℓ) : Type ℓ where
  pub cache : Cache C
  pub pending : List Pending

module _ {ℓ} {C : Type ℓ} where
  abbrev pub waiting : Text → ℕ → Option C → List Pending → List Pending
  waiting key now (some context) pending = pending
  waiting key now none pending = record { key = key; time = now } ∷ pending

  -- A call begins.
  abbrev pub begin : Text → ℕ → State C → State C
  begin key now s = record {
    cache = (look_up key now s.cache).0;
    pending = waiting key now (look_up key now s.cache).1 s.pending;
  }

-- `Run max_size history s`: the calls that were answered by their factories, the latest first, and
-- the state that they lead to.
pub data Run {ℓ} {C : Type ℓ} (max_size : ℕ) : List (Creation C) → State C → Type ℓ where
  start : Run max_size [] (record { cache = []; pending = [] })
  call :
      {history : List (Creation C)} (s : State C) (key : Text) (now : ℕ)
      → Run max_size history s
      → Run max_size history (begin key now s)
  answer :
      {history : List (Creation C)} {cache' : Cache C} (cache : Cache C)
      (before after : List Pending) (p : Pending) (made : Created C) (rounds : ℕ)
      → Run max_size history (record { cache = cache; pending = before ++ p ∷ after })
      → store max_size rounds p.key p.time made cache ≡ some cache'
      → Run max_size
          (record { key = p.key; time = p.time; made = made } ∷ history)
          (record { cache = cache'; pending = before ++ after })
