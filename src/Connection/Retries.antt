-- ===== src/Connection/Retries.antt =====
-- internal/shard.go, Reconnect: it ends with a connection, and its counter of retries never runs out.
use sandwich_daemon.Base.{
  ℕ, suc, ◌+◌, ◌<◌, true, false, Option, none, some, List, [], ◌∷◌, ◌++◌, length, pos, ◌≡◌, ◌∙◌,
  ◌⊎◌, refl, ap, arith, Bool-cases, inl, inr, inc_int32, lt→ltb,
}
use sandwich_daemon.Connection.{
  Connection, StatusCode, shard_connected, shard_reconnecting, set_status, close,
  shard_connect_retries,
}
use sandwich_daemon.Connection.Connect.{
  dialled, hello, Attempt, Result, start_connecting, renew, dial, dial_unless, write_payload,
  send_identify, send_resume, needs_identify, conclude, authenticate, start_heartbeat, stamp, greet,
  greet_unless, connect,
}
use sandwich_daemon.Connection.Statuses.{connect-status, left_status, tried}
use sandwich_daemon.Connection.Sessions.{connect-memory, close-memory}
use sandwich_daemon.Connection.Reconnect.{
  Reconnected, returned, waiting, paused, next_wait, count_retry, is_out_of_retries, reset_retries,
  settle, retry, reconnect,
}

-- The outside answers everything that Connect asks.
pub record IsGood (a : Attempt) : Type 0 where
  pub conn : ℕ
  pub interval : ℕ
  pub dials : a.dialling ≡ dialled conn
  pub greets : a.greeting ≡ hello (pos (suc interval))
  pub waits : a.waited ≡ none
  pub writes : a.written ≡ none

dial_unless-dialled :
    (c : Option ℕ) (n : ℕ) (s : Connection) → (dial_unless c (dialled n) s).0 ≡ none
unfolding dial_unless dial
dial_unless-dialled none n s = refl
dial_unless-dialled (some _) n s = refl

authenticate-IsGood : (a : Attempt) (s : Connection) → IsGood a → (authenticate a s).0 ≡ none
unfolding authenticate send_identify send_resume write_payload
authenticate-IsGood a s g = elim (Bool-cases (needs_identify s)) [
  | inl e ↦ rw (e, g.waits, g.writes) refl
  | inr e ↦ rw (e, g.writes) refl
]

conclude-error : (r : Result) → (conclude r).0 ≡ r.0
unfolding conclude
conclude-error (none, s) = refl
conclude-error (some e, s) = refl

greet-IsGood : (a : Attempt) (s : Connection) → IsGood a → (greet a.greeting a s).0 ≡ none
unfolding greet
greet-IsGood a s g =
    ap (λ h. (greet h a s).0) g.greets
    ∙ conclude-error (authenticate a (start_heartbeat g.interval (stamp a.now s)))
    ∙ authenticate-IsGood a (start_heartbeat g.interval (stamp a.now s)) g

greet_unless-IsGood :
    (a : Attempt) (r : Result) → IsGood a → r.0 ≡ none → (greet_unless a r).0 ≡ none
unfolding greet_unless
greet_unless-IsGood a (none, s) g e = greet-IsGood a s g
greet_unless-IsGood a (some x, s) g e = e

pub connect-IsGood : (a : Attempt) (s : Connection) → IsGood a → (connect a s).0 ≡ none
unfolding connect
connect-IsGood a s g =
    let t : Connection = renew (start_connecting s) in
    greet_unless-IsGood a (dial_unless t.ws_conn a.dialling t) g
      (ap (λ d. (dial_unless t.ws_conn d t).0) g.dials ∙ dial_unless-dialled t.ws_conn g.conn t)

-- Reconnect returned without an error: the shard is connected, and has all its retries again.
pub data Succeeded : Reconnected → Type 0 where
  succeeded :
      (pauses : List ℕ) (rest : List Attempt) (s : Connection)
      → s.status ≡ shard_connected
      → s.retries_remaining ≡ pos shard_connect_retries
      → Succeeded (returned pauses rest (none, s))

-- Reconnect still waits.
pub data Waits : Reconnected → Type 0 where
  waits : (pauses : List ℕ) (s : Connection) → Waits (waiting pauses s)

paused-Succeeded : (wait : ℕ) (r : Reconnected) → Succeeded r → Succeeded (paused wait r)
paused-Succeeded wait _ (succeeded pauses rest s h k) = succeeded (wait ∷ pauses) rest s h k

paused-Waits : (wait : ℕ) (r : Reconnected) → Waits r → Waits (paused wait r)
paused-Waits wait _ (waits pauses s) = waits (wait ∷ pauses) s

-- Enough room for the counter of retries, which counts up.
abbrev pub HasRetries : ℕ → Connection → Type 0
HasRetries n s = (k : ℕ) × (s.retries_remaining ≡ pos (suc k)) × (k + n < 2147483647)

inc_int32-pos : (n : ℕ) → n < 2147483647 → inc_int32 (pos n) ≡ pos (suc n)
unfolding inc_int32
inc_int32-pos n h = rw (lt→ltb n 2147483647 h) refl

pub count_retry-HasRetries :
    (n : ℕ) (a : Attempt) (s : Connection)
    → HasRetries (suc n) s
    → HasRetries n (count_retry (connect a s).1)
unfolding count_retry
count_retry-HasRetries n a s (k, e, h) = (
  suc k,
  ap inc_int32 (ap (λ m. m.0) (connect-memory a s) ∙ e) ∙ inc_int32-pos (suc k) (omega (arith, h)),
  omega (arith, h),
)

pub HasRetries-positive :
    (n : ℕ) (s : Connection) → HasRetries n s → is_out_of_retries s.retries_remaining ≡ false
unfolding is_out_of_retries
HasRetries-positive n s (k, e, h) = ap is_out_of_retries e

-- A predicate that holds of a success, and that a pause keeps, holds after one round of the loop if it
-- holds after the rest.
module _ (P : Reconnected → Type 0) (succeeds : (x : Reconnected) → Succeeded x → P x)
    (pauses : (wait : ℕ) (x : Reconnected) → P x → P (paused wait x)) where
  settle-keeps :
      (n : ℕ) (code : StatusCode) (wait : ℕ) (rest : List Attempt) (r : Result)
      (again : Reconnected)
      → (r.0 ≡ none → r.1.status ≡ shard_connected)
      → HasRetries n (count_retry r.1)
      → P again
      → P (settle code wait rest r again)
  unfolding settle reset_retries
  settle-keeps n code wait rest (none, s) again c h p =
      succeeds _ (succeeded [] rest (reset_retries s) (c refl) refl)
  settle-keeps n code wait rest (some e, s) again c h p =
      rw (HasRetries-positive n (count_retry s) h) (pauses wait again p)

connected :
    (a : Attempt) (s : Connection)
    → (connect a s).0 ≡ none
    → (connect a s).1.status ≡ shard_connected
connected a s e = connect-status a s ∙ ap (λ x. left_status x (tried s.status)) e

settle-Succeeded :
    (code : StatusCode) (wait : ℕ) (rest : List Attempt) (r : Result) (again : Reconnected)
    → (r.0 ≡ none → r.1.status ≡ shard_connected)
    → r.0 ≡ none
    → Succeeded (settle code wait rest r again)
unfolding settle reset_retries
settle-Succeeded code wait rest (none, s) again c e =
    succeeded [] rest (reset_retries s) (c refl) refl
settle-Succeeded code wait rest (some x, s) again c e = absurd (ground arith)

retry-Succeeded :
    (code : StatusCode) (wait : ℕ) (tries : List Attempt) (a : Attempt) (rest : List Attempt)
    (s : Connection)
    → IsGood a
    → HasRetries (length tries) s
    → Succeeded (retry code wait (tries ++ a ∷ rest) s)
unfolding retry
retry-Succeeded code wait [] a rest s g h =
    settle-Succeeded code wait rest (connect a s) _ (connected a s) (connect-IsGood a s g)
retry-Succeeded code wait (b ∷ tries) a rest s g h =
    let t : Connection = count_retry (connect b s).1 in
    let k : HasRetries (length tries) t = count_retry-HasRetries (length tries) b s h in
    settle-keeps Succeeded (λ x y. y) paused-Succeeded (length tries) code wait (tries ++ a ∷ rest)
      (connect b s) _ (connected b s) k (retry-Succeeded code (next_wait wait) tries a rest t g k)

-- Success, or still waiting: no error.
abbrev pub IsUndefeated : Reconnected → Type 0
IsUndefeated r = Succeeded r ⊎ Waits r

paused-IsUndefeated : (wait : ℕ) (r : Reconnected) → IsUndefeated r → IsUndefeated (paused wait r)
paused-IsUndefeated wait r (inl h) = inl (paused-Succeeded wait r h)
paused-IsUndefeated wait r (inr h) = inr (paused-Waits wait r h)

retry-IsUndefeated :
    (code : StatusCode) (wait : ℕ) (tries : List Attempt) (s : Connection)
    → HasRetries (length tries) s
    → IsUndefeated (retry code wait tries s)
unfolding retry
retry-IsUndefeated code wait [] s h = inr (waits [] s)
retry-IsUndefeated code wait (a ∷ tries) s h =
    let t : Connection = count_retry (connect a s).1 in
    let k : HasRetries (length tries) t = count_retry-HasRetries (length tries) a s h in
    settle-keeps IsUndefeated (λ x y. inl y) paused-IsUndefeated (length tries) code wait tries
      (connect a s) _ (connected a s) k (retry-IsUndefeated code (next_wait wait) tries t k)

pub begin-HasRetries :
    (n : ℕ) (code : StatusCode) (s : Connection)
    → HasRetries n s
    → HasRetries n (close code true (set_status shard_reconnecting s))
unfolding set_status
begin-HasRetries n code s (k, e, h) =
    (k, ap (λ m. m.0) (close-memory code true (set_status shard_reconnecting s)) ∙ e, h)

-- If the outside answers everything in one of the calls of Connect that Reconnect makes, then Reconnect returns without an error, with the status Connected and all retries. The counter of retries is positive before, and it has room for the calls before that one.
pub reconnect-Succeeded :
    (code : StatusCode) (tries : List Attempt) (a : Attempt) (rest : List Attempt) (s : Connection)
    → IsGood a
    → HasRetries (length tries) s
    → Succeeded (reconnect code (tries ++ a ∷ rest) s)
unfolding reconnect
reconnect-Succeeded code tries a rest s g h =
    retry-Succeeded code 1 tries a rest _ g (begin-HasRetries (length tries) code s h)

-- Reconnect never returns an error when its counter of retries is positive and has room for its calls of Connect: it returns without an error, with the status Connected and all retries, or it still waits for an answer.
pub reconnect-IsUndefeated :
    (code : StatusCode) (tries : List Attempt) (s : Connection)
    → HasRetries (length tries) s
    → IsUndefeated (reconnect code tries s)
unfolding reconnect
reconnect-IsUndefeated code tries s h =
    retry-IsUndefeated code 1 tries _ (begin-HasRetries (length tries) code s h)
