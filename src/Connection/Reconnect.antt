-- ===== src/Connection/Reconnect.antt =====
-- internal/shard.go, Reconnect, and SendEvent with WriteJSON, which reconnects without a websocket.
-- Reconnect has a list of what the outside answers to each call of Connect; it waits for more when the
-- list is used up.
use sandwich_daemon.Base.{
  ℕ, zero, suc, ◌*◌, ltb, Bool, true, false, Option, none, some, List, [], ◌∷◌, ℤ, pos, negsuc,
  if◌then◌else◌, inc_int32,
}
use sandwich_daemon.Connection.{
  Connection, StatusCode, websocket_reconnect_close_code, shard_reconnecting, SentPayload,
  set_status, waits_for_producer, close, shard_connect_retries,
}
use sandwich_daemon.Connection.Connect.{
  ConnectError, Cause, Attempt, Result, write_payload, connect,
}

-- The seconds that Reconnect waited between its calls of Connect, and then either its result with the
-- answers that are left, or the state in which it waits for an answer, or for the producer.
pub data Reconnected : Type 0 where
  returned : List ℕ → List Attempt → Result → Reconnected
  waiting : List ℕ → Connection → Reconnected

abbrev pub paused : ℕ → Reconnected → Reconnected
paused wait (returned pauses rest r) = returned (wait ∷ pauses) rest r
paused wait (waiting pauses s) = waiting (wait ∷ pauses) s

-- MaxReconnectWait, in seconds
abbrev pub max_reconnect_wait : ℕ
max_reconnect_wait = 60

unfoldable pub next_wait : ℕ → ℕ
next_wait wait = if ltb max_reconnect_wait (wait * 2) then max_reconnect_wait else wait * 2

-- `sh.RetriesRemaining.Sub(-1)`, which adds 1
unfoldable pub count_retry : Connection → Connection
unfolding inc_int32
count_retry s = record s { retries_remaining = inc_int32 s.retries_remaining }

-- `retries <= 0`
unfoldable pub is_out_of_retries : ℤ → Bool
is_out_of_retries (pos zero) = true
is_out_of_retries (pos (suc n)) = false
is_out_of_retries (negsuc n) = true

-- Reconnect when it ran out of retries: one more call of Connect.
-- Close may not return before it.
unfoldable pub give_up : StatusCode → List Attempt → Connection → Reconnected
unfolding waits_for_producer
give_up code [] s = waiting [] (close code false s)
give_up code (a ∷ rest) s =
    if waits_for_producer false s
    then waiting [] (close code false s)
    else returned [] rest (connect a (close code false s))

unfoldable pub reset_retries : Connection → Connection
reset_retries s = record s { retries_remaining = pos shard_connect_retries }

-- The loop of Reconnect after a call of Connect; `again` is the rest of the loop.
unfoldable pub settle : StatusCode → ℕ → List Attempt → Result → Reconnected → Reconnected
unfolding count_retry is_out_of_retries give_up reset_retries
settle code wait rest (none, s) again = returned [] rest (none, reset_retries s)
settle code wait rest (some e, s) again =
    if is_out_of_retries (count_retry s).retries_remaining
    then give_up code rest (count_retry s)
    else paused wait again

-- The loop of Reconnect.
unfoldable pub retry : StatusCode → ℕ → List Attempt → Connection → Reconnected
unfolding next_wait count_retry settle
retry code wait [] s = waiting [] s
retry code wait (a ∷ rest) s =
    let r : Result = connect a s in
    let again : Reconnected = retry code (next_wait wait) rest (count_retry r.1) in
    settle code wait rest r again

unfoldable pub reconnect : StatusCode → List Attempt → Connection → Reconnected
unfolding retry
reconnect code attempts s =
    retry code 1 attempts (close code true (set_status shard_reconnecting s))

-- The errors of SendEvent: without a websocket there is one whether or not Reconnect succeeds.
pub data SendError : Type 0 where
  no_ws_connection : Option ConnectError → SendError
  not_written : ConnectError → SendError

pub data Sending : Type 0 where
  ended : List Attempt → Option SendError → Connection → Sending
  blocked : Connection → Sending

unfoldable pub without_connection : Reconnected → Sending
without_connection (returned pauses rest (e, s)) = ended rest (some (no_ws_connection e)) s
without_connection (waiting pauses s) = blocked s

unfoldable pub with_connection : List Attempt → Result → Sending
with_connection rest (none, s) = ended rest none s
with_connection rest (some e, s) = ended rest (some (not_written e)) s

-- WriteJSON, with the test for a websocket as an argument
unfoldable pub write_json :
    Option ℕ → Option Cause → List Attempt → SentPayload → Connection → Sending
unfolding reconnect without_connection with_connection
write_json none written attempts payload s =
    without_connection (reconnect websocket_reconnect_close_code attempts s)
write_json (some _) written attempts payload s =
    with_connection attempts (write_payload written payload s)

-- SendEvent
unfoldable pub send_event : Option Cause → List Attempt → SentPayload → Connection → Sending
unfolding write_json
send_event written attempts payload s = write_json s.ws_conn written attempts payload s
