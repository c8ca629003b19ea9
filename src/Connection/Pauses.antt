-- ===== src/Connection/Pauses.antt =====
-- internal/shard.go, Reconnect: how long it waits between two calls of Connect.
use sandwich_daemon.Base.{
  ℕ, zero, suc, ◌+◌, ◌*◌, ◌^◌, ltb, none, some, List, [], ◌∷◌, length, ◌≡◌, refl, arith, Bool-cases,
  inl, inr, if◌then◌else◌, lt→ltb, ltb→lt,
}
use sandwich_daemon.Connection.Retries.{
  HasRetries, HasRetries-positive, count_retry-HasRetries, begin-HasRetries,
}
use sandwich_daemon.Connection.{Connection, StatusCode}
use sandwich_daemon.Connection.Connect.{Attempt, Result, connect}
use sandwich_daemon.Connection.Reconnect.{
  Reconnected, returned, waiting, paused, max_reconnect_wait, next_wait, count_retry, reset_retries,
  settle, retry, reconnect,
}

-- The wait after call `i` of Connect: it doubles up to a minute.
abbrev pub backoff : ℕ → ℕ
backoff i = if ltb max_reconnect_wait (2 ^ i) then max_reconnect_wait else 2 ^ i

pow_suc : (i : ℕ) → 2 ^ suc i ≡ 2 ^ i * 2
pow_suc i = omega arith

next_wait-backoff : (i : ℕ) → next_wait (backoff i) ≡ backoff (suc i)
unfolding next_wait
next_wait-backoff i = elim (Bool-cases (ltb max_reconnect_wait (2 ^ i))) [
  | inl e ↦ rw (e, lt→ltb 60 (2 ^ suc i) (omega (arith, pow_suc i, ltb→lt 60 (2 ^ i) e))) refl
  | inr e ↦ rw (e, pow_suc i) refl
]

-- The waits after `n` calls, from call `from` on.
abbrev pub backoffs : ℕ → ℕ → List ℕ
backoffs from zero = []
backoffs from (suc n) = backoff from ∷ backoffs (suc from) n

-- A Reconnect that used all answers but `rest`, or all of them, and waited once after each call but its
-- last, or after each.
pub data IsPaced (from : ℕ) (attempts : List Attempt) : Reconnected → Type 0 where
  ends :
      (calls : ℕ) (rest : List Attempt) (r : Result)
      → suc calls + length rest ≡ length attempts
      → IsPaced from attempts (returned (backoffs from calls) rest r)
  goes_on : (s : Connection) → IsPaced from attempts (waiting (backoffs from (length attempts)) s)

paused-IsPaced :
    (from : ℕ) (a : Attempt) (attempts : List Attempt) (r : Reconnected)
    → IsPaced (suc from) attempts r
    → IsPaced from (a ∷ attempts) (paused (backoff from) r)
paused-IsPaced from a attempts _ (ends calls rest r e) = ends (suc calls) rest r (omega (arith, e))
paused-IsPaced from a attempts _ (goes_on s) = goes_on s

settle-IsPaced :
    (from n : ℕ) (code : StatusCode) (a : Attempt) (rest : List Attempt) (r : Result)
    (again : Reconnected)
    → HasRetries n (count_retry r.1)
    → IsPaced (suc from) rest again
    → IsPaced from (a ∷ rest) (settle code (backoff from) rest r again)
unfolding settle
settle-IsPaced from n code a rest (none, s) again h p =
    ends 0 rest (none, reset_retries s) (omega arith)
settle-IsPaced from n code a rest (some e, s) again h p =
    rw (HasRetries-positive n (count_retry s) h) (paused-IsPaced from a rest again p)

retry-IsPaced :
    (from : ℕ) (code : StatusCode) (attempts : List Attempt) (s : Connection)
    → HasRetries (length attempts) s
    → IsPaced from attempts (retry code (backoff from) attempts s)
unfolding retry
retry-IsPaced from code [] s h = goes_on s
retry-IsPaced from code (a ∷ rest) s h =
    let t : Connection = count_retry (connect a s).1 in
    let k : HasRetries (length rest) t = count_retry-HasRetries (length rest) a s h in
    settle-IsPaced from (length rest) code a rest (connect a s) _ k
      (rw (next_wait-backoff from) (retry-IsPaced (suc from) code rest t k))

-- When its counter of retries is positive and has room for its calls of Connect, Reconnect waits exactly
-- once between each two calls of Connect, and once more while it has no answer to the next: after
-- call i, counted from 0, for 2 ^ i seconds, and for a minute where that is more.
pub reconnect-pauses :
    (code : StatusCode) (attempts : List Attempt) (s : Connection)
    → HasRetries (length attempts) s
    → IsPaced 0 attempts (reconnect code attempts s)
unfolding reconnect
reconnect-pauses code attempts s h =
    retry-IsPaced 0 code attempts _ (begin-HasRetries (length attempts) code s h)
