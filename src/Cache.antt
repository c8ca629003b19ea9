-- ===== src/Cache.antt =====
-- internal/cache.go, the single-key cache: a lazily created csmap.
pub mod Laws
use sandwich_daemon.Base.{ℕ, Bool, false, Option, none, some, List, []}
use sandwich_daemon.CsMap.{CsMap}

module _ ⦃lib : CsMap⦄ where
  open lib use {Map}

  -- `inner` is nil until the first write. Nothing else holds the pointer of a cache that is a field
  -- of a struct, so the map itself stands in its place.
  pub record Cache (K V : Type 0) : Type 0 where
    pub inner : Option (Map K V)
    pub size : ℕ

  -- The map that a write goes to: the lazy creation at the top of `Store`.
  unfoldable pub created : {K V : Type 0} → ℕ → Option (Map K V) → Map K V
  created size none = lib.create size
  created size (some m) = m

  module _ {K V : Type 0} where
    unfoldable pub new_cache : ℕ → Cache K V
    new_cache size = record { inner = none; size = size }

    unfoldable pub range : Cache K V → List (K × V)
    range c = elim c.inner [ none ↦ [] | some m ↦ lib.entries m ]

    unfoldable pub count : Cache K V → ℕ
    count c = elim c.inner [ none ↦ 0 | some m ↦ lib.count m ]

    unfoldable pub clear : Cache K V → Cache K V
    clear c = elim c.inner [ none ↦ c | some m ↦ record c { inner = some (lib.clear m) } ]

  module _ {K V : Type 0} (dec : Discrete K) where
    unfoldable pub load : Cache K V → K → Option V
    load c key = elim c.inner [ none ↦ none | some m ↦ lib.load dec m key ]

    unfoldable pub has : Cache K V → K → Bool
    has c key = elim c.inner [ none ↦ false | some m ↦ lib.has dec m key ]

    unfoldable pub store : Cache K V → K → V → Cache K V
    unfolding created
    store c key value = record c { inner = some (lib.store dec (created c.size c.inner) key value) }

    unfoldable pub delete : Cache K V → K → Cache K V
    delete c key = elim c.inner [
      | none ↦ c
      | some m ↦ record c { inner = some (lib.delete dec m key) }
    ]

    -- The second part of `Update`, with what `Load` found.
    unfoldable pub update_found : Cache K V → K → (V → V) → Option V → Cache K V × Option V
    unfolding store
    update_found c key fn none = (c, none)
    update_found c key fn (some value) = (store c key (fn value), some (fn value))

    unfoldable pub update : Cache K V → K → (V → V) → Cache K V × Option V
    unfolding load update_found
    update c key fn = update_found c key fn (load c key)

    unfoldable pub set_if_absent : Cache K V → K → V → Cache K V
    unfolding created
    set_if_absent c key value = record c {
      inner = some (lib.set_if_absent dec (created c.size c.inner) key value);
    }

    unfoldable pub set_if_present : Cache K V → K → V → Cache K V
    unfolding created
    set_if_present c key value = record c {
      inner = some (lib.set_if_present dec (created c.size c.inner) key value);
    }
