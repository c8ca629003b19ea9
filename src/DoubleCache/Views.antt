-- ===== src/DoubleCache/Views.antt =====
-- The two-key cache of internal/cache.go as a function from keys to maps, the invariant on its
-- structs, and the effect of every operation on both.
use sandwich_daemon.Base.{
  ℕ, ◌<◌, ◌≤◌, ◌≡◌, ap, Option, none, some, inl, inr, ◌⊎◌, length, get_elem?, arith, ite,
  Option-cases, if_pos, if_neg, subst, ◌∙◌, sym, ◌++◌, ◌∷◌, [],
}
use sandwich_daemon.CsMap.{CsMap, mapped}
use sandwich_daemon.Cache
use sandwich_daemon.Cache.{Cache}
use sandwich_daemon.Cache.Laws
use sandwich_daemon.DoubleCache.{Inner, DoubleCache, modify, load, new_double_cache, inner}
use sandwich_daemon.DoubleCache.Cells.{get_elem?-modify, get_elem?-append_last, get_elem?-some}

-- The index that a struct holds, if there is one.
abbrev pub ref_in : Option Inner → Option ℕ
ref_in none = none
ref_in (some h) = h.ref

module _ ⦃lib : CsMap⦄ {KA KB V : Type 0} (deca : Discrete KA) where
  unfoldable pub ref_of : DoubleCache KA KB V → KA → Option ℕ
  unfolding inner
  ref_of c key = ref_in (inner deca c key)

  -- The map that a key shows.
  unfoldable pub map_of : DoubleCache KA KB V → KA → Option (lib.Map KB V)
  unfolding ref_of
  map_of c key = elim (ref_of c key) [ none ↦ none | some r ↦ get_elem? c.cells r ]

  -- The key has a struct whose `inner` is nil.
  abbrev pub IsUnset : DoubleCache KA KB V → KA → Type 0
  IsUnset c key = (h : Inner) × (inner deca c key ≡ some h) × (h.ref ≡ none)

  -- The key has a map, or nothing.
  abbrev pub IsWritable : DoubleCache KA KB V → KA → Type 0
  IsWritable c key = ¬ IsUnset c key

  -- Every index is allocated, and no two keys share a map.
  pub record IsSound (c : DoubleCache KA KB V) : Type 0 where
    pub bounded : (key : KA) (r : ℕ) → ref_of c key ≡ some r → r < length c.cells
    pub apart :
        (key other : KA) (r : ℕ) → ref_of c key ≡ some r → ref_of c other ≡ some r → key ≡ other

  pub new-IsSound : (a b : ℕ) → IsSound (new_double_cache a b)
  unfolding ref_of inner new_double_cache
  new-IsSound a b = record {
    bounded = λ key r h. absurd (grind (arith, Cache.Laws.load-new_cache));
    apart = λ key other r h k. absurd (grind (arith, Cache.Laws.load-new_cache));
  }

  -- Load goes through the map of the first key.
  pub load-map_of :
      (decb : Discrete KB) (c : DoubleCache KA KB V) (key : KA) (sub : KB)
      → load deca decb c key sub
        ≡ elim (map_of c key) [ none ↦ none | some m ↦ lib.load decb m sub ]
  unfolding map_of load inner
  load-map_of decb c key sub = ground arith

  -- A write behind the index of a key changes what that key shows.
  pub map_of-modify :
      (c : DoubleCache KA KB V) (key : KA) (r : ℕ) (f : lib.Map KB V → lib.Map KB V) (j : KA)
      → IsSound c
      → ref_of c key ≡ some r
      → map_of (record c { cells = modify c.cells r f }) j
        ≡ ite (deca key j) (mapped f (map_of c key)) (map_of c j)
  unfolding map_of ref_of
  map_of-modify c key r f j sound e = elim (deca key j) [
    | yes p ↦ rw (if_pos _ p) (
        subst (λ i. map_of (record c { cells = modify c.cells r f }) i ≡ mapped f (map_of c key)) p
          (rw (e, map_of) (ground (arith, get_elem?-modify c.cells r f r))))
    | no h ↦ rw (if_neg _ h) (elim (Option-cases (ref_of c j)) [
      | inl none_j ↦ ground arith
      | inr (q, some_j) ↦ ground (
        arith,
        get_elem?-modify c.cells r f q,
        λ (w : r ≡ q). sound.apart key j r e (some_j ∙ ap some (sym w)),
      )
    ])
  ]

  -- An allocation changes nothing that a key shows.
  pub map_of-append_last :
      (c : DoubleCache KA KB V) (m : lib.Map KB V) (j : KA)
      → IsSound c
      → map_of (record c { cells = c.cells ++ m ∷ [] }) j ≡ map_of c j
  unfolding map_of ref_of
  map_of-append_last c m j sound = elim (Option-cases (ref_of c j)) [
    | inl none_j ↦ ground arith
    | inr (q, some_j) ↦ ground (arith, get_elem?-append_last c.cells m q, sound.bounded j q some_j)
  ]

  -- A key that shows a map has an index, and that index is allocated.
  pub ref_of-cases :
      (c : DoubleCache KA KB V) (j : KA)
      → IsSound c
      → ((ref_of c j ≡ none) × (map_of c j ≡ none))
        ⊎ ((r : ℕ) × (m : lib.Map KB V) × (ref_of c j ≡ some r) × (map_of c j ≡ some m))
  unfolding map_of
  ref_of-cases c j sound = elim (Option-cases (ref_of c j)) [
    | inl e ↦ inl (e, rw (e, map_of))
    | inr (q, e) ↦
        let (m, found) = get_elem?-some c.cells q (sound.bounded j q e) in
        inr (q, m, e, rw (e, map_of) found)
  ]

  -- The invariant survives growth of the store, a key that gets a new index, and keys that lose theirs.
  module _ (c d : DoubleCache KA KB V) (sound : IsSound c) where
    pub grow-IsSound :
        ((j : KA) → ref_of d j ≡ ref_of c j) → length c.cells ≤ length d.cells → IsSound d
    grow-IsSound same grows = record {
      bounded = λ j r e. omega (arith, sound.bounded j r (sym (same j) ∙ e));
      apart = λ i j r e f. sound.apart i j r (sym (same i) ∙ e) (sym (same j) ∙ f);
    }

    module _ (key : KA) where
      pub add-IsSound :
          ((j : KA) → ref_of d j ≡ ite (deca key j) (some (length c.cells)) (ref_of c j))
          → length c.cells < length d.cells
          → IsSound d
      add-IsSound at grows = record {
        bounded = λ j r e. ground (arith, at j, sound.bounded j r);
        apart = λ i j r e f.
            ground (arith, at i, at j, sound.bounded i r, sound.bounded j r, sound.apart i j r);
      }

      pub drop-IsSound :
          ((j : KA) → ref_of d j ≡ ite (deca key j) none (ref_of c j))
          → length c.cells ≤ length d.cells
          → IsSound d
      drop-IsSound at grows = record {
        bounded = λ j r e. ground (arith, at j, sound.bounded j r);
        apart = λ i j r e f. ground (arith, at i, at j, sound.apart i j r);
      }
