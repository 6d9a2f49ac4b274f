-- ===== src/ContextCache/Tests.antt =====
-- Calls on a small cache.
use testserver.Prelude.{ℕ, ◌≡◌, refl, none, some, [], ◌∷◌, ◌<◌, arith}
use testserver.Text.{codes}
use testserver.ContextCache.{
  Cache, Created, CacheEntry, max_expiry, get, delete, set, look_up, delete_oldest, evict, store,
}
use testserver.ContextCache.Run.{Creation, State, Run, start, call, answer}
use testserver.ContextCache.Invariant.{IsValid, Run-IsValid}
use testserver.ContextCache.Served.{ServedFrom, look_up-ServedFrom}
use testserver.ContextCache.Evicts.{store_ends}

cache_run : Unit {0}
unfolding get delete set look_up delete_oldest evict store
cache_run = tt

-- contexts as numbers
abbrev made_one : Created ℕ
made_one = record { context = 11; expiry = 5000 }

abbrev entry_one : CacheEntry ℕ
entry_one = record { context = 11; expiry = 5000 }

abbrev entry_two : CacheEntry ℕ
entry_two = record { context = 22; expiry = 9000 }

abbrev two_entries : Cache ℕ
two_entries = (codes "a", entry_one) ∷ (codes "b", entry_two) ∷ []

hit_moves_to_the_end :
    look_up (codes "a") 4999 two_entries
    ≡ ((codes "b", entry_two) ∷ (codes "a", entry_one) ∷ [], some 11)
unfolding cache_run
hit_moves_to_the_end = refl

expired_is_removed : look_up (codes "a") 5000 two_entries ≡ ((codes "b", entry_two) ∷ [], none)
unfolding cache_run
expired_is_removed = refl

oldest_is_evicted :
    store 2 3 (codes "c") 1000 made_one two_entries
    ≡ some ((codes "b", entry_two) ∷ (codes "c", entry_one) ∷ [])
unfolding cache_run
oldest_is_evicted = refl

-- With no room at all the loop goes on for ever: after ten rounds it still runs.
no_room : store 0 10 (codes "c") 1000 made_one two_entries ≡ none
unfolding cache_run
no_room = refl

-- A certificate that has expired is cached for a day.
expired_for_a_day : max_expiry 6000 5000 ≡ 86406000
expired_for_a_day = refl

abbrev asked : State ℕ
asked = record { cache = []; pending = record { key = codes "a"; time = 1000 } ∷ [] }

asked-Run : Run 2 [] asked
unfolding cache_run
asked-Run = call (record { cache = []; pending = [] }) (codes "a") 1000 start

abbrev creation_one : Creation ℕ
creation_one = record { key = codes "a"; time = 1000; made = made_one }

abbrev answered : State ℕ
answered = record { cache = (codes "a", entry_one) ∷ []; pending = [] }

answered-Run : Run 2 (creation_one ∷ []) answered
unfolding cache_run
answered-Run = answer [] [] [] (record { key = codes "a"; time = 1000 }) made_one 3 asked-Run refl

served_here : (look_up (codes "a") 2000 answered.cache).1 ≡ some 11
unfolding cache_run
served_here = refl

Run-IsValid_example : IsValid 2 (creation_one ∷ []) answered
Run-IsValid_example = Run-IsValid 2 (creation_one ∷ []) answered answered-Run

look_up-ServedFrom_example : ServedFrom (creation_one ∷ []) (codes "a") 2000 11
look_up-ServedFrom_example =
    look_up-ServedFrom (creation_one ∷ []) (codes "a") 2000 11 2 answered answered-Run served_here

store_ends_example :
    (m : Cache ℕ) × (store 2 3 (codes "c") 3000 made_one answered.cache ≡ some m)
    × ((time : ℕ) → time < max_expiry 3000 5000 → (look_up (codes "c") time m).1 ≡ some 11)
store_ends_example =
    store_ends (creation_one ∷ []) 2 answered (codes "c") 3000 made_one answered-Run (λ e. cc, tt)
      (omega arith)
