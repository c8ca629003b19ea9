-- ===== src/DoubleCache.antt =====
-- internal/cache.go, the two-key cache. The outer cache keeps `Cache` structs by value, and each of
-- them points at a csmap: copies of a struct share its map, and a map that is created through a copy
-- stays with that copy. The maps stand in `cells`, and a struct names its map by an index.
pub mod Cells
pub mod Views
pub mod Writes
pub mod Laws
pub mod Edits
pub mod History
pub mod Clean
use sandwich_daemon.Base.{
  ℕ, zero, suc, ◌+◌, Option, none, some, List, [], ◌∷◌, ◌++◌, length, get_elem?,
}
use sandwich_daemon.CsMap.{CsMap}
use sandwich_daemon.Cache
use sandwich_daemon.Cache.{Cache}

-- A `Cache` struct as a value: `inner` is nil, or the index of its map.
pub record Inner : Type 0 where
  pub ref : Option ℕ
  pub size : ℕ

-- NewCache
abbrev pub new_inner : ℕ → Inner
new_inner size = record { ref = none; size = size }

module _ ⦃lib : CsMap⦄ where
  open lib use {Map}

  pub record DoubleCache (KA KB V : Type 0) : Type 0 where
    pub outer : Cache KA Inner
    pub size_inner : ℕ
    pub cells : List (Map KB V)

  module _ {KB V : Type 0} where
    -- The entries that a struct shows.
    unfoldable pub inner_range : List (Map KB V) → Inner → List (KB × V)
    inner_range cells c = elim c.ref [
      | none ↦ []
      | some r ↦ elim (get_elem? cells r) [ none ↦ [] | some m ↦ lib.entries m ]
    ]

    unfoldable pub inner_count : List (Map KB V) → Inner → ℕ
    inner_count cells c = elim c.ref [
      | none ↦ 0
      | some r ↦ elim (get_elem? cells r) [ none ↦ 0 | some m ↦ lib.count m ]
    ]

    -- A method of the map behind an index.
    unfoldable pub modify : List (Map KB V) → ℕ → (Map KB V → Map KB V) → List (Map KB V)
    modify [] r f = []
    modify (m ∷ cells) zero f = f m ∷ cells
    modify (m ∷ cells) (suc r) f = m ∷ modify cells r f

    -- The writes on a struct: `op` is csmap's Store, SetIfAbsent or SetIfPresent. A nil `inner` is
    -- first set to a new map, in the struct that the method was called on.
    unfoldable pub inner_write :
        (Map KB V → Map KB V) → List (Map KB V) → Inner → List (Map KB V) × Inner
    unfolding modify
    inner_write op cells c = elim c.ref [
      | none ↦ (cells ++ op (lib.create c.size) ∷ [], record c { ref = some (length cells) })
      | some r ↦ (modify cells r op, c)
    ]

  module _ {KB V : Type 0} (dec : Discrete KB) where
    unfoldable pub cell_load : List (Map KB V) → ℕ → KB → Option V
    cell_load cells r key = elim (get_elem? cells r) [ none ↦ none | some m ↦ lib.load dec m key ]

    -- Load on a struct
    unfoldable pub inner_load : List (Map KB V) → Inner → KB → Option V
    unfolding cell_load
    inner_load cells c key = elim c.ref [ none ↦ none | some r ↦ cell_load cells r key ]

    -- Delete on a struct
    unfoldable pub inner_delete : List (Map KB V) → Inner → KB → List (Map KB V)
    unfolding modify
    inner_delete cells c key = elim c.ref [
      | none ↦ cells
      | some r ↦ modify cells r (λ m. lib.delete dec m key)
    ]

    -- Update on a struct, with what its Load found
    unfoldable pub inner_update :
        List (Map KB V) → Inner → KB → (V → V) → Option V → List (Map KB V) × Option V
    unfolding inner_write
    inner_update cells c key fn none = (cells, none)
    inner_update cells c key fn (some value) =
        ((inner_write (λ m. lib.store dec m key (fn value)) cells c).0, some (fn value))

module _ ⦃lib : CsMap⦄ {KA KB V : Type 0} where
  unfoldable pub new_double_cache : ℕ → ℕ → DoubleCache KA KB V
  new_double_cache size_outer size_inner = record {
    outer = Cache.new_cache size_outer;
    size_inner = size_inner;
    cells = [];
  }

  unfoldable pub clear : DoubleCache KA KB V → DoubleCache KA KB V
  clear c = record c { outer = Cache.clear c.outer }

  unfoldable pub range : DoubleCache KA KB V → List (KA × Inner)
  range c = Cache.range c.outer

  -- The loop of TotalCount.
  unfoldable pub total : List (lib.Map KB V) → List (KA × Inner) → ℕ
  unfolding inner_count
  total cells [] = 0
  total cells ((_, c) ∷ rest) = inner_count cells c + total cells rest

  unfoldable pub total_count : DoubleCache KA KB V → ℕ
  unfolding total range
  total_count c = total c.cells (range c)

module _ ⦃lib : CsMap⦄ {KA KB V : Type 0} (deca : Discrete KA) where
  unfoldable pub inner : DoubleCache KA KB V → KA → Option Inner
  inner c key = Cache.load deca c.outer key

  unfoldable pub load_or_new : DoubleCache KA KB V → KA → DoubleCache KA KB V × Inner
  load_or_new c key = elim (Cache.load deca c.outer key) [
    | some found ↦ (c, found)
    | none ↦ (
      record c { outer = Cache.store deca c.outer key (new_inner c.size_inner) },
      new_inner c.size_inner,
    )
  ]

  unfoldable pub count : DoubleCache KA KB V → KA → ℕ
  unfolding inner_count
  count c key = elim (Cache.load deca c.outer key) [
    | some found ↦ inner_count c.cells found
    | none ↦ 0
  ]

  unfoldable pub clear_key : DoubleCache KA KB V → KA → DoubleCache KA KB V
  clear_key c key = record c { outer = Cache.delete deca c.outer key }

  -- The common shape of Store, SetIfAbsent and SetIfPresent. On a key that is there the write goes
  -- to a copy of its struct, which is then dropped; else to a new struct, which `put` puts in.
  unfoldable pub write :
      (Cache KA Inner → KA → Inner → Cache KA Inner)
      → (lib.Map KB V → lib.Map KB V)
      → DoubleCache KA KB V
      → KA
      → DoubleCache KA KB V
  unfolding inner_write
  write put op c key = elim (Cache.load deca c.outer key) [
    | some found ↦ record c { cells = (inner_write op c.cells found).0 }
    | none ↦
        let r = inner_write op c.cells (new_inner c.size_inner) in
        record c { outer = put c.outer key r.1; cells = r.0 }
  ]

  module _ (decb : Discrete KB) where
    unfoldable pub load : DoubleCache KA KB V → KA → KB → Option V
    unfolding inner_load
    load c key sub_key = elim (Cache.load deca c.outer key) [
      | some found ↦ inner_load decb c.cells found sub_key
      | none ↦ none
    ]

    unfoldable pub delete : DoubleCache KA KB V → KA → KB → DoubleCache KA KB V
    unfolding inner_delete
    delete c key sub_key = elim (Cache.load deca c.outer key) [
      | some found ↦ record c { cells = inner_delete decb c.cells found sub_key }
      | none ↦ c
    ]

    unfoldable pub update : DoubleCache KA KB V → KA → KB → (V → V) → DoubleCache KA KB V × Option V
    unfolding inner_load inner_update
    update c key sub_key fn = elim (Cache.load deca c.outer key) [
      | some found ↦
          let r =
            inner_update decb c.cells found sub_key fn (inner_load decb c.cells found sub_key) in
          (record c { cells = r.0 }, r.1)
      | none ↦ (c, none)
    ]

    unfoldable pub store : DoubleCache KA KB V → KA → KB → V → DoubleCache KA KB V
    unfolding write
    store c key sub_key value =
        write (Cache.set_if_absent deca) (λ m. lib.store decb m sub_key value) c key

    unfoldable pub set_if_absent : DoubleCache KA KB V → KA → KB → V → DoubleCache KA KB V
    unfolding write
    set_if_absent c key sub_key value =
        write (Cache.store deca) (λ m. lib.set_if_absent decb m sub_key value) c key

    unfoldable pub set_if_present : DoubleCache KA KB V → KA → KB → V → DoubleCache KA KB V
    unfolding write
    set_if_present c key sub_key value =
        write (Cache.store deca) (λ m. lib.set_if_present decb m sub_key value) c key
