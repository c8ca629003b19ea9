-- ===== src/DoubleCache/History.antt =====
-- Histories of calls on the two-key cache of internal/cache.go, against a table of values.
use sandwich_daemon.Base.{ℕ, ◌≡◌, refl, Option, none, some, List, [], ◌∷◌, arith, ite, ◌∙◌}
use sandwich_daemon.CsMap.{CsMap, mapped, replaced, or_value}
use sandwich_daemon.Cache
use sandwich_daemon.Cache.Laws
use sandwich_daemon.DoubleCache.{
  Inner, DoubleCache, new_double_cache, inner, load, store, set_if_absent, set_if_present, delete,
  update, clear_key, clear, load_or_new,
}
use sandwich_daemon.DoubleCache.Views.{IsWritable, IsSound, new-IsSound}
use sandwich_daemon.DoubleCache.Writes.{write-IsSound, write-IsWritable}
use sandwich_daemon.DoubleCache.Laws.{
  store-Puts, set_if_absent-Puts, load-store, load-set_if_absent, load-set_if_present,
}
use sandwich_daemon.DoubleCache.Edits.{
  load-delete, load-update, load-clear_key, load-clear, load-load_or_new, load_or_new-IsSound,
  clear_key-IsSound, clear_key-IsWritable, clear-IsSound, same_outer-IsSound, outer-delete,
  outer-update,
}

-- The calls that change a DoubleCache.
pub data Call (KA KB V : Type 0) : Type 0 where
  stores : KA → KB → V → Call KA KB V
  sets_if_absent : KA → KB → V → Call KA KB V
  sets_if_present : KA → KB → V → Call KA KB V
  deletes : KA → KB → Call KA KB V
  updates : KA → KB → (V → V) → Call KA KB V
  clears_key : KA → Call KA KB V
  clears : Call KA KB V
  loads_or_news : KA → Call KA KB V

-- Every call but LoadOrNew.
abbrev pub IsPlain : {KA KB V : Type 0} → Call KA KB V → Type 0
IsPlain (loads_or_news _) = ⊥
IsPlain (stores _ _ _) = Unit
IsPlain (sets_if_absent _ _ _) = Unit
IsPlain (sets_if_present _ _ _) = Unit
IsPlain (deletes _ _) = Unit
IsPlain (updates _ _ _) = Unit
IsPlain (clears_key _) = Unit
IsPlain clears = Unit

abbrev pub ArePlain : {KA KB V : Type 0} → List (Call KA KB V) → Type 0
ArePlain [] = Unit
ArePlain (x ∷ xs) = IsPlain x × ArePlain xs

-- What a two-key cache promises: a value, or none, for each pair of keys.
abbrev pub Table : Type 0 → Type 0 → Type 0 → Type 0
Table KA KB V = KA → KB → Option V

module _ {KA KB V : Type 0} (deca : Discrete KA) (decb : Discrete KB) where
  -- The table with a new value for one pair.
  abbrev pub put : Table KA KB V → KA → KB → Option V → Table KA KB V
  put t key sub o j s = ite (deca key j) (ite (decb sub s) o (t key s)) (t j s)

  unfoldable pub apply : Call KA KB V → Table KA KB V → Table KA KB V
  apply (stores key sub v) t = put t key sub (some v)
  apply (sets_if_absent key sub v) t = put t key sub (some (or_value (t key sub) v))
  apply (sets_if_present key sub v) t = put t key sub (replaced (t key sub) v)
  apply (deletes key sub) t = put t key sub none
  apply (updates key sub fn) t = put t key sub (mapped fn (t key sub))
  apply (clears_key key) t = λ j s. ite (deca key j) none (t j s)
  apply clears t = λ j s. none
  apply (loads_or_news key) t = t

  unfoldable pub apply_all : List (Call KA KB V) → Table KA KB V → Table KA KB V
  unfolding apply
  apply_all [] t = t
  apply_all (x ∷ xs) t = apply_all xs (apply x t)

module _ ⦃lib : CsMap⦄ {KA KB V : Type 0} (deca : Discrete KA) (decb : Discrete KB) where
  unfoldable pub step : Call KA KB V → DoubleCache KA KB V → DoubleCache KA KB V
  step (stores key sub v) c = store deca decb c key sub v
  step (sets_if_absent key sub v) c = set_if_absent deca decb c key sub v
  step (sets_if_present key sub v) c = set_if_present deca decb c key sub v
  step (deletes key sub) c = delete deca decb c key sub
  step (updates key sub fn) c = (update deca decb c key sub fn).0
  step (clears_key key) c = clear_key deca c key
  step clears c = clear c
  step (loads_or_news key) c = (load_or_new deca c key).0

  unfoldable pub run : List (Call KA KB V) → DoubleCache KA KB V → DoubleCache KA KB V
  unfolding step
  run [] c = c
  run (x ∷ xs) c = run xs (step x c)

  pub step-IsSound :
      (x : Call KA KB V) (c : DoubleCache KA KB V) → IsSound deca c → IsSound deca (step x c)
  unfolding step store set_if_absent set_if_present inner
  step-IsSound (stores key sub v) c sound =
      write-IsSound deca (Cache.set_if_absent deca) (λ m. lib.store decb m sub v) c key
        (λ h j. set_if_absent-Puts deca c.outer key h j) sound
  step-IsSound (sets_if_absent key sub v) c sound =
      write-IsSound deca (Cache.store deca) (λ m. lib.set_if_absent decb m sub v) c key
        (λ h j. store-Puts deca c.outer key h j) sound
  step-IsSound (sets_if_present key sub v) c sound =
      write-IsSound deca (Cache.store deca) (λ m. lib.set_if_present decb m sub v) c key
        (λ h j. store-Puts deca c.outer key h j) sound
  step-IsSound (deletes key sub) c sound =
      let kept = outer-delete deca c key decb sub in
      same_outer-IsSound deca c (delete deca decb c key sub) kept.0 kept.1 sound
  step-IsSound (updates key sub fn) c sound =
      let kept = outer-update deca c key decb sub fn in
      same_outer-IsSound deca c (update deca decb c key sub fn).0 kept.0 kept.1 sound
  step-IsSound (clears_key key) c sound = clear_key-IsSound deca c key sound
  step-IsSound clears c sound = clear-IsSound deca c
  step-IsSound (loads_or_news key) c sound = load_or_new-IsSound deca c key sound

  -- From a cache in which no two keys share a map and no struct names a map that is not there, no
  -- history of calls, LoadOrNew included, leads to one that does.
  pub run-IsSound :
      (xs : List (Call KA KB V)) (c : DoubleCache KA KB V)
      → IsSound deca c
      → IsSound deca (run xs c)
  unfolding run
  run-IsSound [] c sound = sound
  run-IsSound (x ∷ xs) c sound = run-IsSound xs (step x c) (step-IsSound x c sound)

  same_outer-IsWritable :
      (c d : DoubleCache KA KB V) (j : KA)
      → d.outer ≡ c.outer
      → IsWritable deca c j
      → IsWritable deca d j
  unfolding inner
  same_outer-IsWritable c d j e filled (h, f, nil) = filled (h, (rw e at f), nil)

  clear-IsWritable : (c : DoubleCache KA KB V) (j : KA) → IsWritable deca (clear c) j
  unfolding inner clear
  clear-IsWritable c j (h, e, nil) = absurd (ground (arith, Cache.Laws.load-clear deca c.outer j))

  pub step-IsWritable :
      (x : Call KA KB V) (c : DoubleCache KA KB V)
      → IsPlain x
      → ((j : KA) → IsWritable deca c j)
      → (j : KA) → IsWritable deca (step x c) j
  unfolding step store set_if_absent set_if_present inner clear
  step-IsWritable (stores key sub v) c plain filled j =
      write-IsWritable deca (Cache.set_if_absent deca) (λ m. lib.store decb m sub v) c key
        (λ h i. set_if_absent-Puts deca c.outer key h i) j (filled j)
  step-IsWritable (sets_if_absent key sub v) c plain filled j =
      write-IsWritable deca (Cache.store deca) (λ m. lib.set_if_absent decb m sub v) c key
        (λ h i. store-Puts deca c.outer key h i) j (filled j)
  step-IsWritable (sets_if_present key sub v) c plain filled j =
      write-IsWritable deca (Cache.store deca) (λ m. lib.set_if_present decb m sub v) c key
        (λ h i. store-Puts deca c.outer key h i) j (filled j)
  step-IsWritable (deletes key sub) c plain filled j =
      same_outer-IsWritable c (delete deca decb c key sub) j (outer-delete deca c key decb sub).0
        (filled j)
  step-IsWritable (updates key sub fn) c plain filled j =
      same_outer-IsWritable c (update deca decb c key sub fn).0 j
        (outer-update deca c key decb sub fn).0 (filled j)
  step-IsWritable (clears_key key) c plain filled j = clear_key-IsWritable deca c key j (filled j)
  step-IsWritable clears c plain filled j = clear-IsWritable c j
  step-IsWritable (loads_or_news key) c plain filled j = absurd plain

  -- One call does to the cache what it does to the table.
  step-apply :
      (x : Call KA KB V) (c : DoubleCache KA KB V) (t : Table KA KB V)
      → IsSound deca c
      → ((j : KA) → IsWritable deca c j)
      → ((j : KA) (s : KB) → load deca decb c j s ≡ t j s)
      → (j : KA) (s : KB) → load deca decb (step x c) j s ≡ apply deca decb x t j s
  unfolding step apply
  step-apply (stores key sub v) c t sound filled same j s =
      ground (arith, load-store deca decb c key sound sub v j s (filled key), same j s, same key s)
  step-apply (sets_if_absent key sub v) c t sound filled same j s = ground (
    arith,
    load-set_if_absent deca decb c key sound sub v j s (filled key),
    same j s,
    same key s,
    same key sub,
  )
  step-apply (sets_if_present key sub v) c t sound filled same j s = ground (
    arith,
    load-set_if_present deca decb c key sound sub v j s (filled key),
    same j s,
    same key s,
    same key sub,
  )
  step-apply (deletes key sub) c t sound filled same j s =
      ground (arith, load-delete deca decb c key sub j s sound, same j s, same key s)
  step-apply (updates key sub fn) c t sound filled same j s =
      ground (
        arith,
        (load-update deca decb c key sub fn j s sound).0,
        same j s,
        same key s,
        same key sub,
      )
  step-apply (clears_key key) c t sound filled same j s =
      ground (arith, load-clear_key deca decb c key j s, same j s)
  step-apply clears c t sound filled same j s = load-clear deca c decb j s
  step-apply (loads_or_news key) c t sound filled same j s =
      load-load_or_new deca decb c key j s ∙ same j s

  run-apply_all :
      (xs : List (Call KA KB V)) (c : DoubleCache KA KB V) (t : Table KA KB V)
      → ArePlain xs
      → IsSound deca c
      → ((j : KA) → IsWritable deca c j)
      → ((j : KA) (s : KB) → load deca decb c j s ≡ t j s)
      → (j : KA) (s : KB) → load deca decb (run xs c) j s ≡ apply_all deca decb xs t j s
  unfolding run apply_all
  run-apply_all [] c t plain sound filled same j s = same j s
  run-apply_all (x ∷ xs) c t (p, ps) sound filled same j s =
      run-apply_all xs (step x c) (apply deca decb x t) ps (step-IsSound x c sound)
        (step-IsWritable x c p filled) (step-apply x c t sound filled same) j s

  pub new-IsWritable :
      (a b : ℕ) (c : DoubleCache KA KB V) (j : KA) → c ≡ new_double_cache a b → IsWritable deca c j
  unfolding inner new_double_cache
  new-IsWritable a b c j e (h, f, nil) =
      absurd (ground (arith, Cache.Laws.load-new_cache {V = Inner} deca a j))

  load_new : (a b : ℕ) (j : KA) (s : KB) → load {V = V} deca decb (new_double_cache a b) j s ≡ none
  unfolding load new_double_cache
  load_new a b j s = ground (arith, Cache.Laws.load-new_cache {V = Inner} deca a j)

  -- From a new cache, after any history of Store, SetIfAbsent, SetIfPresent, Delete, Update, ClearKey
  -- and Clear, a Load finds what a table of values, changed by the same calls, holds at that pair of keys.
  pub run-refines :
      (a b : ℕ) (xs : List (Call KA KB V)) (j : KA) (s : KB)
      → ArePlain xs
      → load deca decb (run xs (new_double_cache a b)) j s
        ≡ apply_all deca decb xs (λ _ _. none) j s
  run-refines a b xs j s plain =
      run-apply_all xs (new_double_cache a b) (λ _ _. none) plain (new-IsSound deca a b)
        (λ i. new-IsWritable a b (new_double_cache a b) i refl) (load_new a b) j s
