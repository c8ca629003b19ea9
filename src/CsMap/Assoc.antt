-- ===== src/CsMap/Assoc.antt =====
-- An association list meets the laws of the imported map, so that the theorems can be run.
use sandwich_daemon.Base.{
  ◌≡◌, refl, ite, none, some, List, [], lookup, length, arith, Distinct, insert, remove,
  insert-Distinct, remove-Distinct, lookup-insert, lookup-remove,
}
use sandwich_daemon.CsMap.{CsMap, is_some, or_value, replaced}

abbrev Entries : Type 0 → Type 0 → Type 0
Entries K V = (l : List (K × V)) × Distinct l

module _ {K V : Type 0} (dec : Discrete K) where
  pub lookup-empty : (k : K) → lookup {B = V} dec k [] ≡ none
  unfolding lookup
  lookup-empty k = refl

  abbrev put : Entries K V → K → V → Entries K V
  put m k v = (insert dec k v m.0, insert-Distinct dec k v m.0 m.1)

  abbrev drop : Entries K V → K → Entries K V
  drop m k = (remove dec k m.0, remove-Distinct dec k m.0 m.1)

  abbrev put_absent : Entries K V → K → V → Entries K V
  put_absent m k v = put m k (or_value (lookup dec k m.0) v)

  abbrev put_present : Entries K V → K → V → Entries K V
  put_present m k v = elim (lookup dec k m.0) [ none ↦ m | some _ ↦ put m k v ]

  pub lookup-put_present :
      (m : Entries K V) (k : K) (v : V) (j : K)
      → lookup dec j (put_present m k v).0
        ≡ ite (dec k j) (replaced (lookup dec k m.0) v) (lookup dec j m.0)
  lookup-put_present m k v j = ground (arith, lookup-insert dec k j v m.0)

instance abbrev pub assoc : CsMap
assoc = record {
  Map = Entries;
  create = λ _. ([], tt);
  load = λ dec m k. lookup dec k m.0;
  has = λ dec m k. is_some (lookup dec k m.0);
  store = put;
  delete = drop;
  set_if_absent = put_absent;
  set_if_present = put_present;
  clear = λ _. ([], tt);
  count = λ m. length m.0;
  entries = λ m. m.0;
  load-create = λ dec size k. lookup-empty dec k;
  has-load = λ dec m k. refl;
  load-store = λ dec m k v j. lookup-insert dec k j v m.0;
  load-delete = λ dec m k j. lookup-remove dec k j m.0 m.1;
  load-set_if_absent = λ dec m k v j. lookup-insert dec k j _ m.0;
  load-set_if_present = λ dec m k v j. lookup-put_present dec m k v j;
  load-clear = λ dec m k. lookup-empty dec k;
  lookup-entries = λ dec m k. refl;
  entries-Distinct = λ m. m.1;
  count-entries = λ m. refl;
}
