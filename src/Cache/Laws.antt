-- ===== src/Cache/Laws.antt =====
-- The single-key cache seen through `load`: what each operation of internal/cache.go changes.
use sandwich_daemon.Base.{
  ℕ, ◌≡◌, refl, Option, none, some, lookup, length, arith, ite, Distinct, inl, inr, Option-cases,
}
use sandwich_daemon.CsMap.{CsMap, is_some, or_value, replaced, mapped}
use sandwich_daemon.Cache.{
  Cache, created, new_cache, range, count, clear, load, has, store, delete, update_found, update,
  set_if_absent, set_if_present,
}

module _ ⦃lib : CsMap⦄ {K V : Type 0} (dec : Discrete K) where
  pub load-new_cache : (size : ℕ) (k : K) → load {V = V} dec (new_cache size) k ≡ none
  unfolding load new_cache
  load-new_cache size k = refl

  pub has-load : (c : Cache K V) (k : K) → has dec c k ≡ is_some (load dec c k)
  unfolding has load
  has-load c k = grind (arith, lib.has-load)

  pub load-store :
      (c : Cache K V) (k : K) (v : V) (j : K)
      → load dec (store dec c k v) j ≡ ite (dec k j) (some v) (load dec c j)
  unfolding load store
  load-store c k v j = ground (
    arith,
    lib.load-store dec (created c.size c.inner) k v j,
    lib.load-create {V = V} dec c.size j,
  )

  pub load-delete :
      (c : Cache K V) (k j : K) → load dec (delete dec c k) j ≡ ite (dec k j) none (load dec c j)
  unfolding load delete
  load-delete c k j = grind (arith, lib.load-delete)

  -- `Update` writes the new value of a key that is there, and nothing at a key that is not.
  pub load-update :
      (c : Cache K V) (k : K) (fn : V → V) (j : K)
      → load dec (update dec c k fn).0 j ≡ ite (dec k j) (mapped fn (load dec c k)) (load dec c j)
  unfolding update
  load-update c k fn j = elim (Option-cases (load dec c k)) [
    | inl e ↦ rw (e, update_found) (ground arith)
    | inr (v, e) ↦ rw (e, update_found) (load-store c k (fn v) j)
  ]

  pub load-set_if_absent :
      (c : Cache K V) (k : K) (v : V) (j : K)
      → load dec (set_if_absent dec c k v) j
        ≡ ite (dec k j) (some (or_value (load dec c k) v)) (load dec c j)
  unfolding load set_if_absent
  load-set_if_absent c k v j = ground (
    arith,
    lib.load-set_if_absent dec (created c.size c.inner) k v j,
    lib.load-create {V = V} dec c.size j,
    lib.load-create {V = V} dec c.size k,
  )

  pub load-set_if_present :
      (c : Cache K V) (k : K) (v : V) (j : K)
      → load dec (set_if_present dec c k v) j
        ≡ ite (dec k j) (replaced (load dec c k) v) (load dec c j)
  unfolding load set_if_present
  load-set_if_present c k v j = ground (
    arith,
    lib.load-set_if_present dec (created c.size c.inner) k v j,
    lib.load-create {V = V} dec c.size j,
    lib.load-create {V = V} dec c.size k,
  )

  pub load-clear : (c : Cache K V) (k : K) → load dec (clear c) k ≡ none
  unfolding load clear
  load-clear c k = grind (arith, lib.load-clear)

  -- The entry of a key among those that Range visits has the value that Load finds, and there is none
  -- if Load finds none.
  pub lookup-range : (c : Cache K V) (k : K) → lookup dec k (range c) ≡ load dec c k
  unfolding load range lookup
  lookup-range c k = grind (arith, lib.lookup-entries)

module _ ⦃lib : CsMap⦄ {K V : Type 0} where
  pub range-Distinct : (c : Cache K V) → Distinct (range c)
  unfolding range
  range-Distinct c = at c.size c.inner
    where
      at :
          (size : ℕ) (o : Option (lib.Map K V))
          → Distinct (range (record { inner = o; size = size }))
      at size none = tt
      at size (some m) = lib.entries-Distinct m

  pub count-range : (c : Cache K V) → count c ≡ length (range c)
  unfolding count range
  count-range c = grind (arith, lib.count-entries)
