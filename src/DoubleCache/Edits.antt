-- ===== src/DoubleCache/Edits.antt =====
-- Reads after the edits of the two-key cache of internal/cache.go that never make a map: Delete,
-- Update, ClearKey, Clear, and the struct that LoadOrNew leaves behind.
use sandwich_daemon.Base.{ℕ, ◌≡◌, refl, none, some, inl, inr, arith, ite, Option-cases, ◌≤◌, length}
use sandwich_daemon.CsMap.{CsMap, mapped}
use sandwich_daemon.Cache
use sandwich_daemon.Cache.{Cache}
use sandwich_daemon.Cache.Laws
use sandwich_daemon.DoubleCache.{
  new_inner, DoubleCache, inner_write, inner_delete, inner_update, inner_load, modify, inner, load,
  delete, update, clear_key, clear, load_or_new,
}
use sandwich_daemon.DoubleCache.Cells.{length-modify}
use sandwich_daemon.DoubleCache.Views.{
  ref_of, map_of, IsUnset, IsWritable, IsSound, load-map_of, ref_of-cases, map_of-modify,
  grow-IsSound, drop-IsSound,
}

module _ ⦃lib : CsMap⦄ {KA KB V : Type 0} (deca : Discrete KA) (decb : Discrete KB)
    (c : DoubleCache KA KB V) (key : KA) where
  load-modify :
      (r : ℕ) (f : lib.Map KB V → lib.Map KB V) (j : KA) (s : KB)
      → IsSound deca c
      → ref_of deca c key ≡ some r
      → load deca decb (record c { cells = modify c.cells r f }) j s
        ≡ ite
            (deca key j)
            (elim (map_of deca c key) [ none ↦ none | some m ↦ lib.load decb (f m) s ])
            (load deca decb c j s)
  load-modify r f j s sound e = ground (
    arith,
    load-map_of deca decb (record c { cells = modify c.cells r f }) j s,
    load-map_of deca decb c j s,
    map_of-modify deca c key r f j sound e,
  )

  -- A key with no index shows nothing.
  load_bare : (s : KB) → ref_of deca c key ≡ none → load deca decb c key s ≡ none
  unfolding map_of
  load_bare s e = ground (arith, load-map_of deca decb c key s)

  delete_bare : (sub : KB) → ref_of deca c key ≡ none → delete deca decb c key sub ≡ c
  unfolding delete inner_delete ref_of inner
  delete_bare sub e = elim (Option-cases (Cache.load deca c.outer key)) [
    | inl missing ↦ rw (missing, delete)
    | inr (h, found) ↦ rw (found, delete) (ground arith)
  ]

  delete_set :
      (r : ℕ) (sub : KB)
      → ref_of deca c key ≡ some r
      → delete deca decb c key sub
        ≡ record c { cells = modify c.cells r (λ m. lib.delete decb m sub) }
  unfolding delete inner_delete ref_of inner
  delete_set r sub e = elim (Option-cases (Cache.load deca c.outer key)) [
    | inl missing ↦ absurd (ground arith)
    | inr (h, found) ↦ rw (found, delete) (ground arith)
  ]

  -- Delete: the pair has no value, and every other pair keeps its own.
  pub load-delete :
      (sub : KB) (j : KA) (s : KB)
      → IsSound deca c
      → load deca decb (delete deca decb c key sub) j s
        ≡ ite (deca key j) (ite (decb sub s) none (load deca decb c key s)) (load deca decb c j s)
  load-delete sub j s sound = elim (ref_of-cases deca c key sound) [
    | inl (bare, _) ↦ rw (delete_bare sub bare) (ground (arith, load_bare s bare))
    | inr (r, m, e, shown) ↦ rw (delete_set r sub e) (
        ground (
          arith,
          load-modify r (λ m. lib.delete decb m sub) j s sound e,
          lib.load-delete decb m sub s,
          load-map_of deca decb c key s,
        ))
  ]

  update_missed :
      (sub : KB) (fn : V → V)
      → load deca decb c key sub ≡ none
      → update deca decb c key sub fn ≡ (c, none)
  unfolding update load inner_update
  update_missed sub fn e = elim (Option-cases (Cache.load deca c.outer key)) [
    | inl missing ↦ rw (missing, update)
    | inr (h, found) ↦
        let miss : inner_load decb c.cells h sub ≡ none = rw (found, load) at e in
        rw (found, update, miss, inner_update)
  ]

  update_hit :
      (r : ℕ) (sub : KB) (fn : V → V) (v : V)
      → ref_of deca c key ≡ some r
      → load deca decb c key sub ≡ some v
      → update deca decb c key sub fn
        ≡ (record c { cells = modify c.cells r (λ m. lib.store decb m sub (fn v)) }, some (fn v))
  unfolding update load inner_update inner_write ref_of inner
  update_hit r sub fn v e hit = elim (Option-cases (Cache.load deca c.outer key)) [
    | inl missing ↦ absurd (ground arith)
    | inr (h, found) ↦
        let found_v : inner_load decb c.cells h sub ≡ some v = rw (found, load) at hit in
        let index : h.ref ≡ some r = rw (found, ref_of) at e in
        rw (found, update, found_v, inner_update, index)
  ]

  -- Update, in a sound cache: the value of the pair goes through the function, a pair with none gets none, and every other
  -- pair keeps its own. The call returns what it wrote.
  pub load-update :
      (sub : KB) (fn : V → V) (j : KA) (s : KB)
      → IsSound deca c
      → (load deca decb (update deca decb c key sub fn).0 j s
          ≡ ite
              (deca key j)
              (ite (decb sub s) (mapped fn (load deca decb c key sub)) (load deca decb c key s))
              (load deca decb c j s))
        × ((update deca decb c key sub fn).1 ≡ mapped fn (load deca decb c key sub))
  load-update sub fn j s sound = elim (Option-cases (load deca decb c key sub)) [
    | inl miss ↦ rw (update_missed sub fn miss) (ground arith)
    | inr (v, hit) ↦ elim (ref_of-cases deca c key sound) [
      | inl (bare, _) ↦ absurd (ground (arith, load_bare sub bare))
      | inr (r, m, e, shown) ↦ rw (update_hit r sub fn v e hit) (
          ground (
            arith,
            load-modify r (λ m'. lib.store decb m' sub (fn v)) j s sound e,
            lib.load-store decb m sub (fn v) s,
            load-map_of deca decb c key s,
          ))
    ]
  ]

  -- ClearKey: no pair of the key has a value any more.
  pub load-clear_key :
      (j : KA) (s : KB)
      → load deca decb (clear_key deca c key) j s ≡ ite (deca key j) none (load deca decb c j s)
  unfolding load clear_key
  load-clear_key j s = ground (arith, Cache.Laws.load-delete deca c.outer key j)

  -- LoadOrNew changes no read; a key that was not there has a nil struct from then on.
  pub load-load_or_new :
      (j : KA) (s : KB) → load deca decb (load_or_new deca c key).0 j s ≡ load deca decb c j s
  unfolding load load_or_new inner_load
  load-load_or_new j s =
      ground (arith, Cache.Laws.load-store deca c.outer key (new_inner c.size_inner) j)

module _ ⦃lib : CsMap⦄ {KA KB V : Type 0} (deca : Discrete KA) (c : DoubleCache KA KB V) where
  pub load-clear : (decb : Discrete KB) (j : KA) (s : KB) → load deca decb (clear c) j s ≡ none
  unfolding load clear
  load-clear decb j s = ground (arith, Cache.Laws.load-clear deca c.outer j)

  pub clear-IsSound : IsSound deca (clear c)
  unfolding ref_of inner clear
  clear-IsSound = record {
    bounded = λ j r e. absurd (ground (arith, Cache.Laws.load-clear deca c.outer j));
    apart = λ i j r e f. absurd (ground (arith, Cache.Laws.load-clear deca c.outer j));
  }

  -- Edits that leave the outer cache alone and do not shrink the store keep the invariant.
  pub same_outer-IsSound :
      (d : DoubleCache KA KB V)
      → d.outer ≡ c.outer
      → length c.cells ≤ length d.cells
      → IsSound deca c
      → IsSound deca d
  unfolding ref_of inner
  same_outer-IsSound d e grows sound = grow-IsSound deca c d sound (λ j. rw e) grows

module _ ⦃lib : CsMap⦄ {KA KB V : Type 0} (deca : Discrete KA) (c : DoubleCache KA KB V)
    (key : KA) where
  pub load_or_new-IsUnset : inner deca c key ≡ none → IsUnset deca (load_or_new deca c key).0 key
  unfolding inner load_or_new
  load_or_new-IsUnset e = (
    new_inner c.size_inner,
    rw (e, load_or_new)
        (ground (arith, Cache.Laws.load-store deca c.outer key (new_inner c.size_inner) key)),
    refl,
  )

  pub load_or_new-IsSound : IsSound deca c → IsSound deca (load_or_new deca c key).0
  unfolding ref_of inner load_or_new
  load_or_new-IsSound sound =
      grow-IsSound deca c (load_or_new deca c key).0 sound
        (λ j. ground (arith, Cache.Laws.load-store deca c.outer key (new_inner c.size_inner) j))
        (ground arith)

  pub clear_key-IsSound : IsSound deca c → IsSound deca (clear_key deca c key)
  unfolding ref_of inner clear_key
  clear_key-IsSound sound =
      drop-IsSound deca c (clear_key deca c key) sound key
        (λ j. ground (arith, Cache.Laws.load-delete deca c.outer key j)) (omega arith)

  module _ (decb : Discrete KB) (sub : KB) where
    pub outer-delete :
        ((delete deca decb c key sub).outer ≡ c.outer)
        × (length c.cells ≤ length (delete deca decb c key sub).cells)
    unfolding delete inner_delete
    outer-delete = grind (arith, length-modify)

    pub outer-update :
        (fn : V → V)
        → ((update deca decb c key sub fn).0.outer ≡ c.outer)
          × (length c.cells ≤ length (update deca decb c key sub fn).0.cells)
    unfolding update inner_update inner_write inner_load
    outer-update fn = grind (arith, length-modify)

  pub clear_key-IsWritable :
      (j : KA) → IsWritable deca c j → IsWritable deca (clear_key deca c key) j
  unfolding inner clear_key
  clear_key-IsWritable j filled (h, e, nil) =
      filled (h, ground (arith, Cache.Laws.load-delete deca c.outer key j), nil)
