-- ===== src/Ejector/Dedupes.antt =====
-- internal/sandwich.go, cacheEjector, on the dedupe table of internal/dedupe.go.
use sandwich_daemon.Base.{
  ◌≡◌, ◌↔◌, refl, subst, sym, Option, none, some, List, [], ◌∷◌, ℤ, ltb_ℤ, ◌≤ℤ◌, lookup, Distinct,
  lookup-Absent, arith, if◌then◌else◌,
}
use sandwich_daemon.CsMap.{CsMap}
use sandwich_daemon.Strconv.{Bytes, same_bytes}
use sandwich_daemon.Dedupe.{DedupeMap, counts, check_dedupe}
use sandwich_daemon.Ejector.{ejected_dedupes, delete_dedupes, eject_dedupes}

-- An entry without those that are over.
abbrev current : ℤ → Option ℤ → Option ℤ → Option ℤ
current now none o = o
current now (some t) o = if ltb_ℤ t now then none else o

module _ ⦃lib : CsMap⦄ where
  load-delete_dedupes :
      (now : ℤ) (l : List (Bytes × ℤ)) (m : DedupeMap) (key : Bytes)
      → Distinct l
      → lib.load same_bytes (delete_dedupes (ejected_dedupes now l) m) key
        ≡ current now (lookup same_bytes key l) (lib.load same_bytes m key)
  unfolding delete_dedupes ejected_dedupes lookup
  load-delete_dedupes now [] m key d = refl
  load-delete_dedupes now ((k, t) ∷ l) m key d = ground (
    arith,
    load-delete_dedupes now l m key d.1,
    load-delete_dedupes now l (lib.delete same_bytes m k) key d.1,
    lib.load-delete same_bytes m k key,
    lookup-Absent same_bytes k l d.0,
  )

  load-eject_dedupes :
      (now : ℤ) (m : DedupeMap) (key : Bytes)
      → lib.load same_bytes (eject_dedupes now m) key
        ≡ current now (lib.load same_bytes m key) (lib.load same_bytes m key)
  unfolding eject_dedupes
  load-eject_dedupes now m key = ground (
    arith,
    load-delete_dedupes now (lib.entries m) m key (lib.entries-Distinct m),
    lib.lookup-entries same_bytes m key,
  )

  ejected_iff :
      (now t : ℤ) (o : Option ℤ) → (current now o o ≡ some t) ↔ ((o ≡ some t) × (now ≤ℤ t))
  ejected_iff now t none = ((λ e. absurd (ground (arith, e))), λ (e, _). e)
  ejected_iff now t (some u) =
      ((λ e. (ground (arith, e), ground (arith, e))), λ (e, h). ground (arith, e, h))

  -- From its tick on, the ejector does not change what CheckDedupe answers for any key; and the entries
  -- that it leaves are exactly those whose time is not before the tick.
  pub check_dedupe-eject_dedupes :
      (now later : ℤ) (m : DedupeMap) (key : Bytes)
      → now ≤ℤ later
      → (check_dedupe later key (eject_dedupes now m) ≡ check_dedupe later key m)
        × ((t : ℤ)
            → (lib.load same_bytes (eject_dedupes now m) key ≡ some t)
              ↔ ((lib.load same_bytes m key ≡ some t) × (now ≤ℤ t)))
  unfolding check_dedupe counts
  check_dedupe-eject_dedupes now later m key h = (
    ground (arith, h, load-eject_dedupes now m key),
    λ t.
        subst (λ (o : Option ℤ). (o ≡ some t) ↔ ((lib.load same_bytes m key ≡ some t) × (now ≤ℤ t)))
          (sym (load-eject_dedupes now m key)) (ejected_iff now t (lib.load same_bytes m key)),
  )
