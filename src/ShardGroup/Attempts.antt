-- ===== src/ShardGroup/Attempts.antt =====
-- internal/shardgroup.go, Open: the loop for the first shard ends.
use sandwich_daemon.Base.{
  ℕ, zero, suc, ◌<◌, true, false, Option, List, [], ◌∷◌, length, pos, dec_int32, ◌≡◌, ◌∙◌, ap,
  arith, Bool-cases, inl, inr, lt→ltb,
}
use sandwich_daemon.Connection.{Connection}
use sandwich_daemon.Connection.Connect.{ConnectError, Attempt, Result, connect}
use sandwich_daemon.Connection.Sessions.{connect-memory}
use sandwich_daemon.ShardGroup.Opening.{
  has_failed, is_positive, First, connected_first, gave_up, use_retry, settle_first, connect_first,
}

-- The loop ended: without a failure, or with one and no retries.
pub data Ended : First → Type 0 where
  ended_well :
      (e : Option ConnectError) (s : Connection)
      → has_failed e ≡ false
      → Ended (connected_first e s)
  ended_badly :
      (e : Option ConnectError) (s : Connection)
      → has_failed e ≡ true
      → s.retries_remaining ≡ pos 0
      → Ended (gave_up e s)

settle_first-last :
    (r : Result) (again : First) → r.1.retries_remaining ≡ pos 0 → Ended (settle_first r again)
unfolding settle_first is_positive
settle_first-last (e, s) again h = elim (Bool-cases (has_failed e)) [
  | inl f ↦ rw (f, ap is_positive h) (ended_badly e s f h)
  | inr f ↦ rw f (ended_well e s f)
]

settle_first-more :
    (n : ℕ) (r : Result) (again : First)
    → r.1.retries_remaining ≡ pos (suc n)
    → Ended again
    → Ended (settle_first r again)
unfolding settle_first is_positive
settle_first-more n (e, s) again h k = elim (Bool-cases (has_failed e)) [
  | inl f ↦ rw (f, ap is_positive h) k
  | inr f ↦ rw f (ended_well e s f)
]

dec_int32-suc : (n : ℕ) → dec_int32 (pos (suc n)) ≡ pos n
unfolding dec_int32
dec_int32-suc n = rw (lt→ltb 0 (suc n) (omega arith)) (ap pos (omega arith))

-- The loop in which Open connects the first shard ends after at most one call of Connect more than there are retries: with a call that succeeded or was canceled, or with a failure and no retries left.
pub connect_first-ends :
    (n : ℕ) (attempts : List Attempt) (s : Connection)
    → s.retries_remaining ≡ pos n
    → n < length attempts
    → Ended (connect_first attempts s)
unfolding connect_first use_retry
connect_first-ends n [] s h k = absurd (omega (arith, k))
connect_first-ends zero (a ∷ rest) s h k =
    settle_first-last (connect a s) _ (ap (λ m. m.0) (connect-memory a s) ∙ h)
connect_first-ends (suc n) (a ∷ rest) s h k =
    let e : (connect a s).1.retries_remaining ≡ pos (suc n) =
      ap (λ m. m.0) (connect-memory a s) ∙ h in
    settle_first-more n (connect a s) _ e (
      connect_first-ends n rest (use_retry (connect a s).1) (ap dec_int32 e ∙ dec_int32-suc n)
        (omega (arith, k)))
