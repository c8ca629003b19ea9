-- ===== src/Connection/Steps.antt =====
-- internal/shard.go and internal/events_gateway.go: the operations as steps of a connection, and what
-- holds in every state that they reach.
use sandwich_daemon.Base.{ℕ, Bool, Option, List, ℤ, refl, arith}
use sandwich_daemon.Connection.{Connection, StatusCode, SentPayload, heartbeat, close, new_shard}
use sandwich_daemon.Connection.Connect.{Cause, Attempt, connect}
use sandwich_daemon.Connection.Reconnect.{reconnect, send_event}
use sandwich_daemon.Connection.Keeps.{reconnected_state, sending_state}
use sandwich_daemon.Connection.Gateway.{GatewayPayload, gateway_dispatch}
use sandwich_daemon.Connection.Fresh.{handling_state}
use sandwich_daemon.Connection.Operations.{heartbeat_tick, tick_state}
use sandwich_daemon.Connection.Consistent.{
  IsConsistent, connect-IsConsistent, close-IsConsistent, reconnect-IsConsistent,
  send_event-IsConsistent, gateway_dispatch-IsConsistent, after_heartbeat-IsConsistent,
}

-- One operation on the connection; the outside is free to answer anything.
pub data Step : Connection → Connection → Type 0 where
  connects : (a : Attempt) (s : Connection) → Step s (connect a s).1
  closes : (code : StatusCode) (i : Bool) (s : Connection) → Step s (close code i s)
  reconnects :
      (code : StatusCode) (attempts : List Attempt) (s : Connection)
      → Step s (reconnected_state (reconnect code attempts s))
  receives :
      (p : GatewayPayload) (now : ℕ) (attempts : List Attempt) (s : Connection)
      → Step s (handling_state (gateway_dispatch p now attempts s))
  sends :
      (w : Option Cause) (attempts : List Attempt) (p : SentPayload) (s : Connection)
      → Step s (sending_state (send_event w attempts p s))
  -- consumers come to the producer, or leave it
  consumers : (blocks : Bool) (s : Connection) → Step s (record s { producer_blocks = blocks })
  ticks :
      (w : Option Cause) (now : ℕ) (attempts : List Attempt) (s : Connection)
      → Step s (tick_state (heartbeat_tick w now attempts s))

-- The states that a new shard can come to.
pub data Reach : Connection → Type 0 where
  new :
      (shard_id shard_count : ℤ) (has_producer : Bool)
      → Reach (new_shard shard_id shard_count has_producer)
  step : {s t : Connection} → Reach s → Step s t → Reach t

Step-IsConsistent : {s t : Connection} → Step s t → IsConsistent s → IsConsistent t
unfolding heartbeat_tick
Step-IsConsistent (connects a s) h = connect-IsConsistent a s h
Step-IsConsistent (consumers b s) h = record { live = h.live; timed = h.timed }
Step-IsConsistent (closes code i s) h = close-IsConsistent code i s h
Step-IsConsistent (reconnects code attempts s) h = reconnect-IsConsistent code attempts s h
Step-IsConsistent (receives p now attempts s) h = gateway_dispatch-IsConsistent p now attempts s h
Step-IsConsistent (sends w attempts p s) h = send_event-IsConsistent w attempts p s h
Step-IsConsistent (ticks w now attempts s) h =
    after_heartbeat-IsConsistent now (send_event w attempts (heartbeat s.sequence) s)
      (send_event-IsConsistent w attempts (heartbeat s.sequence) s h)

-- In every state that a new shard comes to by Connect, Close, Reconnect, messages of the gateway, SendEvent and ticks of the heartbeat, whatever the outside answers and whether or not the producer blocks, a shard whose status is Connected has a websocket, and the failure interval is the heartbeat's interval 50 times.
pub Reach-IsConsistent : {s : Connection} → Reach s → IsConsistent s
unfolding new_shard
Reach-IsConsistent (new i c p) = record { live = λ e. absurd (ground arith); timed = refl }
Reach-IsConsistent (step r m) = Step-IsConsistent m (Reach-IsConsistent r)
