-- ===== src/DoubleCache/Writes.antt =====
-- The writes of the two-key cache of internal/cache.go (Store, SetIfAbsent, SetIfPresent): a key with
-- a map, a key that is not there, and a key with a nil struct.
use sandwich_daemon.Base.{
  ℕ, ◌≤◌, ◌≡◌, none, some, inl, inr, length, arith, ite, Option-cases, ◌∷◌, [], ◌++◌, length-append,
  List,
}
use sandwich_daemon.CsMap.{CsMap, mapped}
use sandwich_daemon.Cache
use sandwich_daemon.Cache.{Cache}
use sandwich_daemon.DoubleCache.{Inner, DoubleCache, inner_write, modify, write, inner}
use sandwich_daemon.DoubleCache.Cells.{length-modify, get_elem?-append_last}
use sandwich_daemon.DoubleCache.Views.{
  ref_of, map_of, IsUnset, IsWritable, IsSound, map_of-modify, map_of-append_last, grow-IsSound,
  add-IsSound,
}

module _ ⦃lib : CsMap⦄ {KB V : Type 0} (op : lib.Map KB V → lib.Map KB V)
    (cells : List (lib.Map KB V)) where
  -- A write on a struct never shrinks the store.
  pub length-inner_write : (h : Inner) → length cells ≤ length (inner_write op cells h).0
  unfolding inner_write
  length-inner_write h = elim (Option-cases h.ref) [
    | inl e ↦ rw e (omega (arith, length-append {0} cells (op (lib.create h.size) ∷ [])))
    | inr (r, e) ↦ rw e (omega (arith, length-modify cells r op))
  ]

module _ ⦃lib : CsMap⦄ {KA KB V : Type 0} (deca : Discrete KA)
    (put : Cache KA Inner → KA → Inner → Cache KA Inner) (op : lib.Map KB V → lib.Map KB V)
    (c : DoubleCache KA KB V) (key : KA) where
  write_found :
      (h : Inner)
      → inner deca c key ≡ some h
      → write deca put op c key ≡ record c { cells = (inner_write op c.cells h).0 }
  unfolding inner write
  write_found h e = rw (e, write)

  inner_write_ref :
      (h : Inner) (r : ℕ) → h.ref ≡ some r → (inner_write op c.cells h).0 ≡ modify c.cells r op
  unfolding inner_write
  inner_write_ref h r e = rw e

  -- On a key with a nil struct the write is lost: every key shows the map that it showed.
  pub map_of-write_unset :
      (j : KA)
      → IsSound deca c
      → IsUnset deca c key
      → map_of deca (write deca put op c key) j ≡ map_of deca c j
  unfolding inner_write
  map_of-write_unset j sound (h, e, nil) =
      rw (write_found h e, nil) (map_of-append_last deca c (op (lib.create h.size)) j sound)

  -- On a key with a map the write goes to that map, and no other key sees it.
  pub map_of-write_set :
      (r : ℕ) (j : KA)
      → IsSound deca c
      → ref_of deca c key ≡ some r
      → map_of deca (write deca put op c key) j
        ≡ ite (deca key j) (mapped op (map_of deca c key)) (map_of deca c j)
  unfolding ref_of
  map_of-write_set r j sound e = elim (Option-cases (inner deca c key)) [
    | inl missing ↦ absurd (ground arith)
    | inr (h, found) ↦
        rw (write_found h found, inner_write_ref h r (ground arith))
          (map_of-modify deca c key r op j sound e)
  ]

  -- The struct that a write on a missing key puts in: its index is the next free one.
  abbrev fresh : Inner
  fresh = record { ref = some (length c.cells); size = c.size_inner }

  write_missing :
      inner deca c key ≡ none
      → write deca put op c key ≡ record c {
        outer = put c.outer key fresh;
        cells = c.cells ++ op (lib.create c.size_inner) ∷ [];
      }
  unfolding inner write inner_write
  write_missing e = rw (e, write)

  module _
      (puts : (h : Inner) (j : KA)
        → Cache.load deca (put c.outer key h) j
          ≡ ite (deca key j) (some h) (Cache.load deca c.outer j))
      (missing : inner deca c key ≡ none) where
    -- On a key that is not there the write makes a map of its own.
    pub ref_of-write_missing :
        (j : KA)
        → ref_of deca (write deca put op c key) j
          ≡ ite (deca key j) (some (length c.cells)) (ref_of deca c j)
    unfolding ref_of inner
    ref_of-write_missing j = rw (write_missing missing) (ground (arith, puts fresh j))

    pub map_of-write_missing :
        (j : KA)
        → IsSound deca c
        → map_of deca (write deca put op c key) j
          ≡ ite (deca key j) (some (op (lib.create c.size_inner))) (map_of deca c j)
    unfolding map_of ref_of inner
    map_of-write_missing j sound =
        let new = op (lib.create c.size_inner) in
        rw (write_missing missing) (elim (deca key j) [
          | yes p ↦ ground (arith, puts fresh j, get_elem?-append_last c.cells new (length c.cells))
          | no h ↦ ground (arith, puts fresh j, map_of-append_last deca c new j sound)
        ])

    missing-IsSound : IsSound deca c → IsSound deca (write deca put op c key)
    missing-IsSound sound =
        add-IsSound deca c (write deca put op c key) sound key ref_of-write_missing (
          rw (write_missing missing)
            (omega (arith, length-append {0} c.cells (op (lib.create c.size_inner) ∷ []))))

  ref_of-write_found :
      (h : Inner)
      → inner deca c key ≡ some h
      → (j : KA) → ref_of deca (write deca put op c key) j ≡ ref_of deca c j
  unfolding ref_of inner
  ref_of-write_found h e j = rw (write_found h e)

  found-IsSound :
      (h : Inner)
      → inner deca c key ≡ some h
      → IsSound deca c
      → IsSound deca (write deca put op c key)
  found-IsSound h e sound =
      grow-IsSound deca c (write deca put op c key) sound (ref_of-write_found h e)
        (rw (write_found h e) (length-inner_write op c.cells h))

  -- A write keeps the invariant, whatever it finds.
  pub write-IsSound :
      ((h : Inner) (j : KA)
        → inner deca c key ≡ none
        → Cache.load deca (put c.outer key h) j
          ≡ ite (deca key j) (some h) (Cache.load deca c.outer j))
      → IsSound deca c
      → IsSound deca (write deca put op c key)
  write-IsSound puts sound = elim (Option-cases (inner deca c key)) [
    | inl e ↦ missing-IsSound (λ h j. puts h j e) e sound
    | inr (h, e) ↦ found-IsSound h e sound
  ]

  write_missing-IsWritable :
      ((h : Inner) (j : KA)
        → Cache.load deca (put c.outer key h) j
          ≡ ite (deca key j) (some h) (Cache.load deca c.outer j))
      → inner deca c key ≡ none
      → (j : KA) → IsWritable deca c j
      → IsWritable deca (write deca put op c key) j
  unfolding inner
  write_missing-IsWritable puts missing j filled (h, e, nil) =
      let e' = rw (write_missing missing) at e in filled (h, ground (arith, puts fresh j, e'), nil)

  write_found-IsWritable :
      (found : Inner)
      → inner deca c key ≡ some found
      → (j : KA) → IsWritable deca c j
      → IsWritable deca (write deca put op c key) j
  unfolding inner
  write_found-IsWritable found e j filled (h, f, nil) =
      filled (h, (rw (write_found found e) at f), nil)

  -- A write leaves no key with a nil struct that had none before.
  pub write-IsWritable :
      ((h : Inner) (j : KA)
        → inner deca c key ≡ none
        → Cache.load deca (put c.outer key h) j
          ≡ ite (deca key j) (some h) (Cache.load deca c.outer j))
      → (j : KA) → IsWritable deca c j
      → IsWritable deca (write deca put op c key) j
  write-IsWritable puts j filled = elim (Option-cases (inner deca c key)) [
    | inl e ↦ write_missing-IsWritable (λ h i. puts h i e) e j filled
    | inr (h, e) ↦ write_found-IsWritable h e j filled
  ]
