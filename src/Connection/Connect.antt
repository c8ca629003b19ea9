-- ===== src/Connection/Connect.antt =====
-- internal/shard.go, Connect and what it calls: dial, Identify, Resume. An error of an outside call
-- is an argument; `none` is success.
use sandwich_daemon.Base.{
  ℕ, zero, suc, ◌*◌, Bool, true, false, ◌||◌, Option, none, some, [], ◌∷◌, ℤ, pos, negsuc,
  if◌then◌else◌,
}
use sandwich_daemon.Strconv.{Bytes}
use sandwich_daemon.Connection.{
  Connection, shard_connecting, shard_connected, shard_reconnecting, shard_erroring, normal_closure,
  SentPayload, identify, resume, sent, heartbeat_started, session_start_used, emit, set_status,
  close_ws, shard_max_heartbeat_failures,
}

-- What `errors.Is(err, context.Canceled)` tells of an error of an outside call.
pub data Cause : Type 0 where
  context_canceled : Cause
  other_cause : Cause

pub data ConnectError : Type 0 where
  bad_url : ConnectError
  dial_failed : Cause → ConnectError
  read_failed : Cause → ConnectError
  undecodable : ConnectError
  invalid_heartbeat_interval : ConnectError
  wait_failed : Cause → ConnectError
  write_failed : Cause → ConnectError

-- Parsing the URL and dialling: the last case has the number of the new websocket.
pub data Dialling : Type 0 where
  unparsed : Dialling
  refused : Cause → Dialling
  dialled : ℕ → Dialling

-- The first message: reading it, decoding it, and its heartbeat interval.
pub data Greeting : Type 0 where
  unread : Cause → Greeting
  undecoded : Greeting
  hello : ℤ → Greeting

-- What the outside answers to one call of Connect.
pub record Attempt : Type 0 where
  pub dialling : Dialling
  pub greeting : Greeting
  -- the error of WaitForIdentify
  pub waited : Option Cause
  -- the error of marshalling and writing a payload
  pub written : Option Cause
  pub now : ℕ

abbrev pub Result : Type 0
Result = Option ConnectError × Connection

-- Do not override status if it is currently Reconnecting.
unfoldable pub start_connecting : Connection → Connection
unfolding set_status
start_connecting s = elim s.status [ shard_reconnecting ↦ s | _ ↦ set_status shard_connecting s ]

-- The ready channel is emptied; the context is cancelled and made anew from the manager's.
unfoldable pub renew : Connection → Connection
renew s = record s {
  is_ready = s.ready || s.is_ready;
  ready = false;
  context = suc s.context;
  cancelled = s.manager_done;
}

unfoldable pub dial : Dialling → Connection → Result
dial unparsed s = (some bad_url, s)
dial (refused cause) s = (some (dial_failed cause), record s { resume_gateway_url = [] })
dial (dialled n) s = (none, record s { ws_conn = some n })

-- A websocket that is there is used again.
unfoldable pub dial_unless : Option ℕ → Dialling → Connection → Result
unfolding dial
dial_unless none d s = dial d s
dial_unless (some _) d s = (none, s)

-- WriteJSON after its test for a websocket.
unfoldable pub write_payload : Option Cause → SentPayload → Connection → Result
write_payload none p s = (none, emit (sent p) s)
write_payload (some cause) p s = (some (write_failed cause), s)

-- Identify
unfoldable pub send_identify : Attempt → Connection → Result
unfolding write_payload
send_identify a s =
    let t : Connection = emit session_start_used s in
    elim a.waited [
      | none ↦ write_payload a.written (identify t.shard_id t.shard_count) t
      | some cause ↦ (some (wait_failed cause), t)
    ]

-- Resume
unfoldable pub send_resume : Attempt → Connection → Result
unfolding write_payload
send_resume a s = write_payload a.written (resume s.session_id s.sequence) s

-- `sequence == 0` and `sessionID == ""`
unfoldable pub is_zero : ℤ → Bool
is_zero (pos zero) = true
is_zero (pos (suc n)) = false
is_zero (negsuc n) = false

unfoldable pub is_empty : Bytes → Bool
is_empty [] = true
is_empty (b ∷ bs) = false

-- `sessionID == "" || sequence == 0`
unfoldable pub needs_identify : Connection → Bool
unfolding is_zero is_empty
needs_identify s = is_empty s.session_id || is_zero s.sequence

-- The deferred functions when the outer `err` is set: the first to run closes the websocket and puts
-- CloseWS's nil into `err`, so that the other one, which sets the status, still sees an error only
-- without a websocket.
unfoldable pub abandon_with : Option ℕ → Connection → Connection
unfolding close_ws set_status
abandon_with none s = set_status shard_erroring s
abandon_with (some _) s = close_ws normal_closure s

unfoldable pub abandon : Connection → Connection
unfolding abandon_with
abandon s = abandon_with s.ws_conn s

unfoldable pub conclude : Result → Result
unfolding abandon set_status
conclude (none, s) = (none, set_status shard_connected s)
conclude (some e, s) = (some e, abandon s)

unfoldable pub authenticate : Attempt → Connection → Result
unfolding send_identify send_resume needs_identify
authenticate a s = if needs_identify s then send_identify a s else send_resume a s

-- What Connect does with HELLO's interval, of `n + 1` milliseconds.
unfoldable pub start_heartbeat : ℕ → Connection → Connection
start_heartbeat n s = emit heartbeat_started (record s {
  heartbeat_interval = suc n;
  heartbeat_failure_interval = suc n * shard_max_heartbeat_failures;
})

unfoldable pub stamp : ℕ → Connection → Connection
stamp now s = record s { start = now; last_heartbeat_ack = now; last_heartbeat_sent = now }

-- Connect after it has a websocket. An interval of 0 or less returns while the outer `err` is nil.
unfoldable pub greet : Greeting → Attempt → Connection → Result
unfolding abandon stamp start_heartbeat conclude authenticate
greet (unread cause) a s = (some (read_failed cause), abandon s)
greet undecoded a s = (some undecodable, abandon s)
greet (hello (pos (suc n))) a s = conclude (authenticate a (start_heartbeat n (stamp a.now s)))
greet (hello (pos zero)) a s = (some invalid_heartbeat_interval, stamp a.now s)
greet (hello (negsuc n)) a s = (some invalid_heartbeat_interval, stamp a.now s)

-- dial's error is in a variable of its own, which the deferred functions do not see.
unfoldable pub greet_unless : Attempt → Result → Result
unfolding greet
greet_unless a (none, s) = greet a.greeting a s
greet_unless a (some e, s) = (some e, s)

unfoldable pub connect : Attempt → Connection → Result
unfolding start_connecting renew dial_unless greet_unless
connect a s =
    let t : Connection = renew (start_connecting s) in
    greet_unless a (dial_unless t.ws_conn a.dialling t)
