-- ===== src/DoubleCache/Laws.antt =====
-- What a read finds after each operation of the two-key cache of internal/cache.go.
use sandwich_daemon.Base.{ℕ, ◌≡◌, none, some, inl, inr, ◌⊎◌, arith, ite, Option-cases}
use sandwich_daemon.CsMap.{CsMap, replaced, or_value}
use sandwich_daemon.Cache
use sandwich_daemon.Cache.{Cache}
use sandwich_daemon.Cache.Laws
use sandwich_daemon.DoubleCache.{
  Inner, DoubleCache, write, inner, load, store, set_if_absent, set_if_present,
}
use sandwich_daemon.DoubleCache.Views.{
  ref_of, map_of, IsUnset, IsWritable, IsSound, load-map_of, ref_of-cases,
}
use sandwich_daemon.DoubleCache.Writes.{map_of-write_unset, map_of-write_set, map_of-write_missing}

module _ ⦃lib : CsMap⦄ {KA : Type 0} (deca : Discrete KA) where
  -- The law that all ways to put a struct in have on a key that is not there.
  abbrev pub Puts : (Cache KA Inner → KA → Inner → Cache KA Inner) → Type 0
  Puts put =
      (o : Cache KA Inner) (key : KA) (h : Inner) (j : KA)
      → Cache.load deca o key ≡ none
      → Cache.load deca (put o key h) j ≡ ite (deca key j) (some h) (Cache.load deca o j)

  pub store-Puts : Puts (Cache.store deca)
  store-Puts o key h j e = Cache.Laws.load-store deca o key h j

  pub set_if_absent-Puts : Puts (Cache.set_if_absent deca)
  set_if_absent-Puts o key h j e = ground (arith, Cache.Laws.load-set_if_absent deca o key h j)

module _ ⦃lib : CsMap⦄ {KA KB V : Type 0} (deca : Discrete KA) (c : DoubleCache KA KB V) (key : KA)
    (sound : IsSound deca c) where
  pub inner-cases :
      IsWritable deca c key → (inner deca c key ≡ none) ⊎ ((r : ℕ) × (ref_of deca c key ≡ some r))
  unfolding ref_of
  inner-cases filled = elim (Option-cases (inner deca c key)) [
    | inl e ↦ inl e
    | inr (h, e) ↦ elim (Option-cases h.ref) [
      | inl nil ↦ absurd (filled (h, e, nil))
      | inr (r, f) ↦ inr (r, rw (e, ref_of) f)
    ]
  ]

  map_of_missing : inner deca c key ≡ none → map_of deca c key ≡ none
  unfolding map_of ref_of
  map_of_missing e = rw (e, map_of)

  map_of-write :
      (put : Cache KA Inner → KA → Inner → Cache KA Inner) (op : lib.Map KB V → lib.Map KB V)
      (j : KA)
      → Puts deca put
      → IsWritable deca c key
      → map_of deca (write deca put op c key) j
        ≡ ite
            (deca key j)
            (some (op (or_value (map_of deca c key) (lib.create c.size_inner))))
            (map_of deca c j)
  unfolding inner
  map_of-write put op j puts filled = elim (inner-cases filled) [
    | inl e ↦
        rw (map_of_missing e)
          (map_of-write_missing deca put op c key (λ h i. puts c.outer key h i e) e j sound)
    | inr (r, e) ↦ elim (ref_of-cases deca c key sound) [
      | inl (nil, _) ↦ absurd (ground arith)
      | inr (q, m, f, shown) ↦ ground (arith, map_of-write_set deca put op c key q j sound f)
    ]
  ]

module _ ⦃lib : CsMap⦄ {KA KB V : Type 0} (deca : Discrete KA) (decb : Discrete KB)
    (c : DoubleCache KA KB V) (key : KA) (sound : IsSound deca c) where
  load-write :
      (put : Cache KA Inner → KA → Inner → Cache KA Inner) (op : lib.Map KB V → lib.Map KB V)
      (j : KA) (s : KB)
      → Puts deca put
      → IsWritable deca c key
      → load deca decb (write deca put op c key) j s
        ≡ ite
            (deca key j)
            (lib.load decb (op (or_value (map_of deca c key) (lib.create c.size_inner))) s)
            (load deca decb c j s)
  load-write put op j s puts filled = ground (
    arith,
    load-map_of deca decb (write deca put op c key) j s,
    load-map_of deca decb c j s,
    map_of-write deca c key sound put op j puts filled,
  )

  -- Store, in a sound cache, at a first key that has no nil struct: the pair of keys gets the value,
  -- and every other pair keeps its own.
  pub load-store :
      (sub : KB) (v : V) (j : KA) (s : KB)
      → IsWritable deca c key
      → load deca decb (store deca decb c key sub v) j s
        ≡ ite
            (deca key j)
            (ite (decb sub s) (some v) (load deca decb c key s))
            (load deca decb c j s)
  unfolding store
  load-store sub v j s filled = ground (
    arith,
    load-write (Cache.set_if_absent deca) (λ m. lib.store decb m sub v) j s
        (set_if_absent-Puts deca) filled,
    lib.load-store decb (or_value (map_of deca c key) (lib.create c.size_inner)) sub v s,
    lib.load-create {V = V} decb c.size_inner s,
    load-map_of deca decb c key s,
  )

  -- SetIfAbsent: a pair that has a value keeps it.
  pub load-set_if_absent :
      (sub : KB) (v : V) (j : KA) (s : KB)
      → IsWritable deca c key
      → load deca decb (set_if_absent deca decb c key sub v) j s
        ≡ ite
            (deca key j)
            (ite
              (decb sub s)
              (some (or_value (load deca decb c key sub) v))
              (load deca decb c key s))
            (load deca decb c j s)
  unfolding set_if_absent
  load-set_if_absent sub v j s filled = ground (
    arith,
    load-write (Cache.store deca) (λ m. lib.set_if_absent decb m sub v) j s (store-Puts deca)
        filled,
    lib.load-set_if_absent decb (or_value (map_of deca c key) (lib.create c.size_inner)) sub v s,
    lib.load-create {V = V} decb c.size_inner s,
    lib.load-create {V = V} decb c.size_inner sub,
    load-map_of deca decb c key s,
    load-map_of deca decb c key sub,
  )

  -- SetIfPresent: a pair that has no value gets none.
  pub load-set_if_present :
      (sub : KB) (v : V) (j : KA) (s : KB)
      → IsWritable deca c key
      → load deca decb (set_if_present deca decb c key sub v) j s
        ≡ ite
            (deca key j)
            (ite (decb sub s) (replaced (load deca decb c key sub) v) (load deca decb c key s))
            (load deca decb c j s)
  unfolding set_if_present
  load-set_if_present sub v j s filled = ground (
    arith,
    load-write (Cache.store deca) (λ m. lib.set_if_present decb m sub v) j s (store-Puts deca)
        filled,
    lib.load-set_if_present decb (or_value (map_of deca c key) (lib.create c.size_inner)) sub v s,
    lib.load-create {V = V} decb c.size_inner s,
    lib.load-create {V = V} decb c.size_inner sub,
    load-map_of deca decb c key s,
    load-map_of deca decb c key sub,
  )

  -- Store, in a sound cache, at a first key that LoadOrNew left a nil struct at: the value is lost, and
  -- every read finds what it found before.
  pub load-store_unset :
      (sub : KB) (v : V) (j : KA) (s : KB)
      → IsUnset deca c key
      → load deca decb (store deca decb c key sub v) j s ≡ load deca decb c j s
  unfolding store
  load-store_unset sub v j s unset = ground (
    arith,
    map_of-write_unset deca (Cache.set_if_absent deca) (λ m. lib.store decb m sub v) c key j sound
        unset,
    load-map_of deca decb c j s,
    load-map_of deca decb
        (write deca (Cache.set_if_absent deca) (λ m. lib.store decb m sub v) c key) j s,
  )
