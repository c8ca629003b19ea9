-- ===== src/Tests/Caches.antt =====
-- The theorems on the caches of internal/cache.go at concrete inputs.
use sandwich_daemon.Base.{ℕ, ◌≡◌, ℕ_discrete, none, List, [], ◌∷◌, refl, suc}
use sandwich_daemon.CsMap.Assoc.{assoc}
use sandwich_daemon.Cache
use sandwich_daemon.Cache.{Cache}
use sandwich_daemon.DoubleCache
use sandwich_daemon.DoubleCache.{DoubleCache, new_double_cache, load_or_new}
use sandwich_daemon.DoubleCache.Views.{IsSound, new-IsSound}
use sandwich_daemon.DoubleCache.Laws
use sandwich_daemon.DoubleCache.Edits
use sandwich_daemon.DoubleCache.History.{
  Call, stores, deletes, updates, sets_if_absent, loads_or_news, run, apply_all, run-refines,
  run-IsSound,
}

abbrev calls : List (Call ℕ ℕ ℕ)
calls =
    stores 1 10 100 ∷ sets_if_absent 1 10 200 ∷ updates 1 10 suc ∷ stores 2 10 7 ∷ deletes 2 10 ∷ []

run-refines_example :
    DoubleCache.load ℕ_discrete ℕ_discrete
      (run ℕ_discrete ℕ_discrete calls (new_double_cache 0 50))
      1
      10
    ≡ apply_all ℕ_discrete ℕ_discrete calls (λ _ _. none) 1 10
run-refines_example =
    run-refines ℕ_discrete ℕ_discrete 0 50 calls 1 10 (tt, (tt, (tt, (tt, (tt, tt)))))

abbrev empty : DoubleCache ℕ ℕ ℕ
empty = new_double_cache 0 50

empty-IsSound : IsSound ℕ_discrete empty
empty-IsSound = new-IsSound ℕ_discrete 0 50

run-IsSound_example : IsSound ℕ_discrete (run ℕ_discrete ℕ_discrete (loads_or_news 1 ∷ calls) empty)
run-IsSound_example =
    run-IsSound ℕ_discrete ℕ_discrete (loads_or_news 1 ∷ calls) empty empty-IsSound

-- A cache with a nil struct at the key 1.
abbrev unset : DoubleCache ℕ ℕ ℕ
unset = (load_or_new ℕ_discrete empty 1).0

load-store_unset_example :
    DoubleCache.load ℕ_discrete ℕ_discrete
      (DoubleCache.store ℕ_discrete ℕ_discrete unset 1 10 100)
      1
      10
    ≡ DoubleCache.load ℕ_discrete ℕ_discrete unset 1 10
unfolding DoubleCache.inner Cache.load new_double_cache Cache.new_cache
load-store_unset_example =
    Laws.load-store_unset ℕ_discrete ℕ_discrete unset 1
      (Edits.load_or_new-IsSound ℕ_discrete empty 1 empty-IsSound) 10 100 1 10
      (Edits.load_or_new-IsUnset ℕ_discrete empty 1 refl)
