-- ===== src/Dedupe/Windows.antt =====
-- The dedupe table of internal/dedupe.go over time: a key counts for a minute after it was added.
use sandwich_daemon.Base.{
  ◌≡◌, true, false, ite, arith, ℤ, pos, ◌+ℤ◌, ltb_ℤ, ◌≤ℤ◌, ◌<ℤ◌, negsuc, ℤ_discrete, inl, inr,
  Option-cases,
}
use sandwich_daemon.CsMap.{CsMap}
use sandwich_daemon.Strconv.{Bytes, same_bytes}
use sandwich_daemon.Dedupe.{
  DedupeMap, member_dedupe_expiration, counts, add_dedupe, check_dedupe, check_and_add_dedupe,
  remove_dedupe,
}

pub counts_after :
    (now later : ℤ)
    → pos 0 ≤ℤ now
    → counts later (now +ℤ member_dedupe_expiration) ≡ ltb_ℤ later (now +ℤ member_dedupe_expiration)
unfolding counts ◌+ℤ◌ ℤ_discrete
counts_after (pos n) later h = ground arith
counts_after (negsuc n) later h = absurd (omega arith)

module _ ⦃lib : CsMap⦄ (m : DedupeMap) (key : Bytes) where
  -- AddDedupe at a time from the epoch on, then CheckDedupe later: the key counts while less than a
  -- minute has passed, and other keys count as before.
  pub check_dedupe-add_dedupe :
      (now later : ℤ) (other : Bytes)
      → pos 0 ≤ℤ now
      → check_dedupe later other (add_dedupe now key m)
        ≡ ite
            (same_bytes key other)
            (ltb_ℤ later (now +ℤ member_dedupe_expiration))
            (check_dedupe later other m)
  unfolding check_dedupe add_dedupe
  check_dedupe-add_dedupe now later other h = ground (
    arith,
    lib.load-store same_bytes m key (now +ℤ member_dedupe_expiration) other,
    counts_after now later h,
  )

  -- CheckAndAddDedupe answers as CheckDedupe does.
  check_and_add_dedupe-check_dedupe :
      (now : ℤ) → (check_and_add_dedupe now key m).1 ≡ check_dedupe now key m
  unfolding check_and_add_dedupe check_dedupe
  check_and_add_dedupe-check_dedupe now = ground arith

  -- CheckAndAddDedupe twice: the first answers as CheckDedupe does; and if it answered that the key
  -- did not count, the second, less than a minute later, answers that it does, so that of two events in a
  -- minute one is let through at most.
  pub check_and_add_dedupe-twice :
      (now later : ℤ)
      → pos 0 ≤ℤ now
      → later <ℤ (now +ℤ member_dedupe_expiration)
      → ((check_and_add_dedupe now key m).1 ≡ check_dedupe now key m)
        × ((check_and_add_dedupe now key m).1 ≡ false
            → (check_and_add_dedupe later key (check_and_add_dedupe now key m).0).1 ≡ true)
  unfolding check_and_add_dedupe check_dedupe add_dedupe
  check_and_add_dedupe-twice now later h k =
      let added = lib.load-store same_bytes m key (now +ℤ member_dedupe_expiration) key in
      let after = counts_after now later h in
      elim (Option-cases (lib.load same_bytes m key)) [
        | inl e ↦ (ground arith, λ f. ground (arith, added, after))
        | inr (v, e) ↦ (ground arith, λ f. ground (arith, added, after))
      ]

  -- RemoveDedupe, then CheckAndAddDedupe: the key does not count, whenever it was added.
  pub check_and_add_dedupe-remove_dedupe :
      (now : ℤ) → (check_and_add_dedupe now key (remove_dedupe key m)).1 ≡ false
  unfolding check_and_add_dedupe remove_dedupe
  check_and_add_dedupe-remove_dedupe now = ground (arith, lib.load-delete same_bytes m key key)
