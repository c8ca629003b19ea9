-- ===== src/CsMap.antt =====
-- The concurrent map github.com/mhmtszr/concurrent-swiss-map, which the repository imports: a
-- parameter, with the documented behaviour of its methods as laws. A method call that Go makes on
-- the pointer is a function that returns the map after the call.
pub mod Assoc
use sandwich_daemon.Base.{
  ℕ, ◌≡◌, ite, Bool, true, false, Option, none, some, List, lookup, length, Distinct,
}

abbrev pub is_some : {V : Type 0} → Option V → Bool
is_some none = false
is_some (some _) = true

abbrev pub or_value : {V : Type 0} → Option V → V → V
or_value none v = v
or_value (some w) v = w

abbrev pub replaced : {V : Type 0} → Option V → V → Option V
replaced none v = none
replaced (some w) v = some v

abbrev pub mapped : {V W : Type 0} → (V → W) → Option V → Option W
mapped f none = none
mapped f (some v) = some (f v)

-- `Range` calls its function on the entries in the order of `entries`, each entry once; `Count` is
-- `count`. The key type's equality is the argument `Discrete K`, Go's `comparable`.
pub record CsMap : Type 1 where
  pub Map : Type 0 → Type 0 → Type 0
  pub create : {K V : Type 0} → ℕ → Map K V
  pub load : {K V : Type 0} → Discrete K → Map K V → K → Option V
  pub has : {K V : Type 0} → Discrete K → Map K V → K → Bool
  pub store : {K V : Type 0} → Discrete K → Map K V → K → V → Map K V
  pub delete : {K V : Type 0} → Discrete K → Map K V → K → Map K V
  pub set_if_absent : {K V : Type 0} → Discrete K → Map K V → K → V → Map K V
  pub set_if_present : {K V : Type 0} → Discrete K → Map K V → K → V → Map K V
  pub clear : {K V : Type 0} → Map K V → Map K V
  pub count : {K V : Type 0} → Map K V → ℕ
  pub entries : {K V : Type 0} → Map K V → List (K × V)
  pub load-create :
      {K V : Type 0} (dec : Discrete K) (size : ℕ) (k : K) → load {V = V} dec (create size) k ≡ none
  pub has-load :
      {K V : Type 0} (dec : Discrete K) (m : Map K V) (k : K) → has dec m k ≡ is_some (load dec m k)
  pub load-store :
      {K V : Type 0} (dec : Discrete K) (m : Map K V) (k : K) (v : V) (j : K)
      → load dec (store dec m k v) j ≡ ite (dec k j) (some v) (load dec m j)
  pub load-delete :
      {K V : Type 0} (dec : Discrete K) (m : Map K V) (k j : K)
      → load dec (delete dec m k) j ≡ ite (dec k j) none (load dec m j)
  pub load-set_if_absent :
      {K V : Type 0} (dec : Discrete K) (m : Map K V) (k : K) (v : V) (j : K)
      → load dec (set_if_absent dec m k v) j
        ≡ ite (dec k j) (some (or_value (load dec m k) v)) (load dec m j)
  pub load-set_if_present :
      {K V : Type 0} (dec : Discrete K) (m : Map K V) (k : K) (v : V) (j : K)
      → load dec (set_if_present dec m k v) j
        ≡ ite (dec k j) (replaced (load dec m k) v) (load dec m j)
  pub load-clear :
      {K V : Type 0} (dec : Discrete K) (m : Map K V) (k : K) → load dec (clear m) k ≡ none
  pub lookup-entries :
      {K V : Type 0} (dec : Discrete K) (m : Map K V) (k : K)
      → lookup dec k (entries m) ≡ load dec m k
  pub entries-Distinct : {K V : Type 0} (m : Map K V) → Distinct (entries m)
  pub count-entries : {K V : Type 0} (m : Map K V) → count m ≡ length (entries m)
