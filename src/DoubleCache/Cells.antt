-- ===== src/DoubleCache/Cells.antt =====
-- The store of inner maps of internal/cache.go's DoubleCache: writes behind an index, allocation.
use sandwich_daemon.Base.{
  ℕ, zero, suc, ◌<◌, ◌≡◌, refl, ap, some, List, [], ◌∷◌, ◌++◌, length, get_elem?, arith,
  if◌then◌else◌, ◌==◌,
}
use sandwich_daemon.CsMap.{CsMap, mapped}
use sandwich_daemon.DoubleCache.{modify}

module _ ⦃lib : CsMap⦄ {KB V : Type 0} where
  open lib use {Map}

  pub length-modify :
      (cells : List (Map KB V)) (r : ℕ) (f : Map KB V → Map KB V)
      → length (modify cells r f) ≡ length cells
  unfolding modify
  length-modify [] r f = refl
  length-modify (m ∷ cells) zero f = refl
  length-modify (m ∷ cells) (suc r) f = ap suc (length-modify cells r f)

  pub get_elem?-modify :
      (cells : List (Map KB V)) (r : ℕ) (f : Map KB V → Map KB V) (q : ℕ)
      → get_elem? (modify cells r f) q
        ≡ (if r == q then mapped f (get_elem? cells q) else get_elem? cells q)
  unfolding modify
  get_elem?-modify [] r f q = ground arith
  get_elem?-modify (m ∷ cells) zero f zero = refl
  get_elem?-modify (m ∷ cells) zero f (suc q) = ground arith
  get_elem?-modify (m ∷ cells) (suc r) f zero = ground arith
  get_elem?-modify (m ∷ cells) (suc r) f (suc q) = ground (arith, get_elem?-modify cells r f q)

  pub get_elem?-append_last :
      (cells : List (Map KB V)) (m : Map KB V) (q : ℕ)
      → get_elem? (cells ++ m ∷ []) q ≡ (if q == length cells then some m else get_elem? cells q)
  get_elem?-append_last [] m zero = ground arith
  get_elem?-append_last [] m (suc q) = ground arith
  get_elem?-append_last (x ∷ cells) m zero = ground arith
  get_elem?-append_last (x ∷ cells) m (suc q) = ground (arith, get_elem?-append_last cells m q)

  pub get_elem?-some :
      (cells : List (Map KB V)) (q : ℕ)
      → q < length cells
      → (m : Map KB V) × (get_elem? cells q ≡ some m)
  get_elem?-some [] q h = elim h [ ]
  get_elem?-some (x ∷ cells) zero h = (x, refl)
  get_elem?-some (x ∷ cells) (suc q) h = get_elem?-some cells q (omega arith)
