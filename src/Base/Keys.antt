-- ===== src/Base/Keys.antt =====
-- Lists of entries: the keys that stand once in them, and the two edits of an association list.
use mathlib.Core.Path.{◌≡◌, refl}
use mathlib.Core.Logic.{◌≢◌, ite}
use mathlib.Core.List.{List, [], ◌∷◌, lookup}
use mathlib.Core.Option.{none, some}
use native.Mathlib.Omega.{arith}

module _ {K V : Type 0} where
  -- No entry has the key.
  abbrev pub Absent : K → List (K × V) → Type 0
  Absent k [] = Unit
  Absent k ((j, _) ∷ l) = (j ≢ k) × Absent k l

  -- No two entries have the same key.
  abbrev pub Distinct : List (K × V) → Type 0
  Distinct [] = Unit
  Distinct ((k, _) ∷ l) = Absent k l × Distinct l

module _ {K V : Type 0} (dec : Discrete K) where
  unfoldable pub insert : K → V → List (K × V) → List (K × V)
  insert k v [] = (k, v) ∷ []
  insert k v ((j, w) ∷ l) = ite (dec k j) ((k, v) ∷ l) ((j, w) ∷ insert k v l)

  unfoldable pub remove : K → List (K × V) → List (K × V)
  remove k [] = []
  remove k ((j, w) ∷ l) = ite (dec k j) l ((j, w) ∷ remove k l)

  pub insert-Absent :
      (i k : K) (v : V) (l : List (K × V)) → k ≢ i → Absent i l → Absent i (insert k v l)
  unfolding insert
  insert-Absent i k v [] h a = (h, tt)
  insert-Absent i k v ((j, w) ∷ l) h a = ground (arith, insert-Absent i k v l h a.1)

  pub insert-Distinct : (k : K) (v : V) (l : List (K × V)) → Distinct l → Distinct (insert k v l)
  unfolding insert
  insert-Distinct k v [] d = (tt, tt)
  insert-Distinct k v ((j, w) ∷ l) d =
      ground (arith, insert-Distinct k v l d.1, insert-Absent j k v l)

  pub remove-Absent : (i k : K) (l : List (K × V)) → Absent i l → Absent i (remove k l)
  unfolding remove
  remove-Absent i k [] a = tt
  remove-Absent i k ((j, w) ∷ l) a = ground (arith, remove-Absent i k l a.1)

  pub remove-Distinct : (k : K) (l : List (K × V)) → Distinct l → Distinct (remove k l)
  unfolding remove
  remove-Distinct k [] d = tt
  remove-Distinct k ((j, w) ∷ l) d =
      ground (arith, remove-Distinct k l d.1, remove-Absent j k l d.0)

  pub lookup-insert :
      (k j : K) (v : V) (l : List (K × V))
      → lookup dec j (insert k v l) ≡ ite (dec k j) (some v) (lookup dec j l)
  unfolding insert lookup
  lookup-insert k j v [] = ground arith
  lookup-insert k j v ((i, w) ∷ l) = ground (arith, lookup-insert k j v l)

  pub lookup-Absent : (k : K) (l : List (K × V)) → Absent k l → lookup dec k l ≡ none
  unfolding lookup
  lookup-Absent k [] a = refl
  lookup-Absent k ((j, w) ∷ l) a = ground (arith, lookup-Absent k l a.1)

  pub lookup-remove :
      (k j : K) (l : List (K × V))
      → Distinct l
      → lookup dec j (remove k l) ≡ ite (dec k j) none (lookup dec j l)
  unfolding remove lookup
  lookup-remove k j [] d = ground arith
  lookup-remove k j ((i, w) ∷ l) d = ground (arith, lookup-remove k j l d.1, lookup-Absent j l)
