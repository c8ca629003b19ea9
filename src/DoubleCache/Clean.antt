-- ===== src/DoubleCache/Clean.antt =====
-- Caches of internal/cache.go that no call of LoadOrNew has touched: sound, and without nil structs.
use sandwich_daemon.Base.{ℕ, ◌≡◌, refl, some, arith, ite}
use sandwich_daemon.CsMap.{CsMap}
use sandwich_daemon.DoubleCache.{
  DoubleCache, new_double_cache, load, store, delete, update, clear_key,
}
use sandwich_daemon.DoubleCache.Views.{IsWritable, IsSound, new-IsSound}
use sandwich_daemon.DoubleCache.Laws
use sandwich_daemon.DoubleCache.History.{
  stores, deletes, updates, clears_key, step, step-IsSound, step-IsWritable, new-IsWritable,
}

module _ ⦃lib : CsMap⦄ {KA KB V : Type 0} (deca : Discrete KA) where
  abbrev pub IsClean : DoubleCache KA KB V → Type 0
  IsClean c = IsSound deca c × ((j : KA) → IsWritable deca c j)

  pub clear_key-IsClean :
      (decb : Discrete KB) (c : DoubleCache KA KB V) (key : KA)
      → IsClean c
      → IsClean (clear_key deca c key)
  unfolding step
  clear_key-IsClean decb c key (s, f) = (
    step-IsSound deca decb (clears_key key) c s,
    step-IsWritable deca decb (clears_key key) c tt f,
  )

  module _ (decb : Discrete KB) where
    pub new-IsClean : (a b : ℕ) → IsClean (new_double_cache a b)
    new-IsClean a b = (new-IsSound deca a b, λ j. new-IsWritable deca decb a b _ j refl)

    module _ (c : DoubleCache KA KB V) (key : KA) (sub : KB) (clean : IsClean c) where
      pub store-IsClean : (v : V) → IsClean (store deca decb c key sub v)
      unfolding step
      store-IsClean v = (
        step-IsSound deca decb (stores key sub v) c clean.0,
        step-IsWritable deca decb (stores key sub v) c tt clean.1,
      )

      pub delete-IsClean : IsClean (delete deca decb c key sub)
      unfolding step
      delete-IsClean = (
        step-IsSound deca decb (deletes key sub) c clean.0,
        step-IsWritable deca decb (deletes key sub) c tt clean.1,
      )

      pub update-IsClean : (fn : V → V) → IsClean (update deca decb c key sub fn).0
      unfolding step
      update-IsClean fn = (
        step-IsSound deca decb (updates key sub fn) c clean.0,
        step-IsWritable deca decb (updates key sub fn) c tt clean.1,
      )

      pub load-store_clean :
          (v : V) (j : KA) (s : KB)
          → load deca decb (store deca decb c key sub v) j s
            ≡ ite
                (deca key j)
                (ite (decb sub s) (some v) (load deca decb c key s))
                (load deca decb c j s)
      load-store_clean v j s = Laws.load-store deca decb c key clean.0 sub v j s (clean.1 key)

      -- The pair that was stored is found.
      pub load-store_same : (v : V) → load deca decb (store deca decb c key sub v) key sub ≡ some v
      load-store_same v = ground (arith, load-store_clean v key sub)
