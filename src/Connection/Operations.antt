-- ===== src/Connection/Operations.antt =====
-- internal/shard.go: one tick of Heartbeat, and Listen, which reads messages until the connection or
-- its context ends.
use sandwich_daemon.Base.{
  ℕ, ◌==◌, ◌-◌, ltb, Bool, true, false, not, ◌||◌, Option, none, some, List, [], ◌∷◌, if◌then◌else◌,
}
use sandwich_daemon.Connection.{Connection, heartbeat, normal_closure}
use sandwich_daemon.Connection.Connect.{ConnectError, Cause, Attempt}
use sandwich_daemon.Connection.Reconnect.{
  Reconnected, returned, waiting, reconnect, Sending, ended, blocked, send_event,
}
use sandwich_daemon.Connection.Gateway.{GatewayPayload, Handling, finished, stuck, gateway_dispatch}

-- A tick of Heartbeat: the goroutine goes on, ends, or waits in Reconnect.
pub data Tick : Type 0 where
  beats : List Attempt → Connection → Tick
  ends : List Attempt → Connection → Tick
  hangs : Connection → Tick

-- `now.Sub(ack) > interval`; on the naturals a time before the acknowledgement counts as no time.
unfoldable pub is_overdue : ℕ → Connection → Bool
is_overdue now s = ltb s.heartbeat_failure_interval (now - s.last_heartbeat_ack)

-- After the heartbeat was sent, or not. The goroutine returns on a failure, without reconnecting.
unfoldable pub after_heartbeat : ℕ → Sending → Tick
unfolding is_overdue
after_heartbeat now (ended rest none s) =
    if is_overdue now s
    then ends rest (record s { last_heartbeat_sent = now })
    else beats rest (record s { last_heartbeat_sent = now })
after_heartbeat now (ended rest (some e) s) = ends rest (record s { last_heartbeat_sent = now })
after_heartbeat now (blocked s) = hangs s

unfoldable pub heartbeat_tick : Option Cause → ℕ → List Attempt → Connection → Tick
unfolding after_heartbeat send_event
heartbeat_tick written now attempts s =
    after_heartbeat now (send_event written attempts (heartbeat s.sequence) s)

-- The connection that is left.
abbrev pub tick_state : Tick → Connection
tick_state (beats rest s) = s
tick_state (ends rest s) = s
tick_state (hangs s) = s

-- What readMessage returns: a message, at a time; an error of a context; a close code; another error.
pub data Reading : Type 0 where
  message : GatewayPayload → ℕ → Reading
  context_ended : Reading
  close_error : ℕ → Reading
  read_error : Reading

pub data ListenError : Type 0 where
  closed_with : ℕ → ListenError
  reconnect_failed : ConnectError → ListenError

-- CloseAuthenticationFailed, CloseInvalidShard, CloseShardingRequired, CloseInvalidAPIVersion,
-- CloseInvalidIntents and CloseDisallowedIntents, of discord/gateway.go
unfoldable pub is_fatal : ℕ → Bool
is_fatal code =
    code == 4004 || code == 4010 || code == 4011 || code == 4012 || code == 4013 || code == 4014

-- `wsConn == sh.wsConn`
unfoldable pub is_same_conn : Option ℕ → Option ℕ → Bool
is_same_conn none none = true
is_same_conn (some m) (some n) = m == n
is_same_conn none (some n) = false
is_same_conn (some m) none = false

-- `ctx.Done()`, for the context that Listen was called with
unfoldable pub is_done : ℕ → Connection → Bool
is_done context s = not (s.context == context) || s.cancelled

-- One round of Listen's loop: it goes on, returns, or waits in Reconnect.
pub data Round : Type 0 where
  goes_on : List Attempt → Connection → Round
  returns : Option ListenError → List Attempt → Connection → Round
  waits_in : Connection → Round

-- OnEvent, which logs the errors of GatewayDispatch.
unfoldable pub on_event : Handling → Round
on_event (finished rest e s) = goes_on rest s
on_event (stuck s) = waits_in s

unfoldable pub return_after : Reconnected → Round
return_after (returned pauses rest (none, s)) = returns none rest s
return_after (returned pauses rest (some e, s)) = returns (some (reconnect_failed e)) rest s
return_after (waiting pauses s) = waits_in s

-- An error while the websocket is the one that Listen began with.
unfoldable pub reconnect_if_same : Option ℕ → List Attempt → Connection → Round
unfolding is_same_conn return_after reconnect
reconnect_if_same conn rest s =
    if is_same_conn conn s.ws_conn
    then return_after (reconnect normal_closure rest s)
    else goes_on rest s

unfoldable pub hear : Option ℕ → Reading → List Attempt → Connection → Round
unfolding on_event gateway_dispatch reconnect_if_same is_fatal
hear conn (message p now) rest s = on_event (gateway_dispatch p now rest s)
hear conn context_ended rest s = returns none rest s
hear conn (close_error code) rest s =
    if is_fatal code
    then returns (some (closed_with code)) rest s
    else reconnect_if_same conn rest s
hear conn read_error rest s = reconnect_if_same conn rest s

-- Listen returned, with the readings and answers that are left, or waits.
pub data Listening : Type 0 where
  stopped : Option ListenError → List Reading → List Attempt → Connection → Listening
  listening : Connection → Listening

unfoldable pub listen_on :
    (List Attempt → Connection → Listening) → List Reading → Round → Listening
listen_on again readings (goes_on rest s) = again rest s
listen_on again readings (returns e rest s) = stopped e readings rest s
listen_on again readings (waits_in s) = listening s

-- The loop of Listen, for the websocket and the context that it began with.
unfoldable pub listen_loop : Option ℕ → ℕ → List Reading → List Attempt → Connection → Listening
unfolding is_done hear listen_on
listen_loop conn context [] rest s =
    if is_done context s then stopped none [] rest s else listening s
listen_loop conn context (r ∷ readings) rest s =
    if is_done context s
    then stopped none (r ∷ readings) rest s
    else listen_on (listen_loop conn context readings) readings (hear conn r rest s)

-- Listen
unfoldable pub listen : List Reading → List Attempt → Connection → Listening
unfolding listen_loop
listen readings rest s = listen_loop s.ws_conn s.context readings rest s
