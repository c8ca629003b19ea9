-- ===== src/Connection/Gateway.antt =====
-- internal/events_gateway.go: the operations of the gateway, and what READY and RESUMED of
-- internal/events_dispatch.go do to the connection.
use sandwich_daemon.Base.{
  ℕ, zero, suc, ◌*◌, Bool, true, not, ◌||◌, Option, none, some, List, [], ℤ, pos, negsuc,
  if◌then◌else◌, sub_ℕ,
}
use sandwich_daemon.Strconv.{Bytes}
use sandwich_daemon.Connection.{
  Connection, normal_closure, websocket_reconnect_close_code, heartbeat, shard_ready, set_status,
  shard_max_heartbeat_failures,
}
use sandwich_daemon.Connection.Connect.{ConnectError, Cause, Attempt}
use sandwich_daemon.Connection.Reconnect.{
  Reconnected, returned, waiting, reconnect, Sending, ended, blocked, send_event,
}

-- The payload of READY: session id and resume URL.
pub record ReadySession : Type 0 where
  pub session_id : Bytes
  pub resume_gateway_url : Bytes

-- A dispatch as the connection sees it; `lazy_loaded` is a READY whose payload decodes, after the
-- messages that OnReady reads for a few seconds, and OnReady's chunking.
pub data Dispatched : Type 0 where
  lazy_loaded : ReadySession → Dispatched
  resumed : Dispatched
  another : Dispatched

-- A message of the gateway, by its operation, with its decoded content.
pub data GatewayPayload : Type 0 where
  dispatch_op : ℤ → Bool → Dispatched → GatewayPayload
  heartbeat_op : Option Cause → GatewayPayload
  reconnect_op : GatewayPayload
  invalid_session_op : Option Bool → GatewayPayload
  hello_op : Option ℤ → GatewayPayload
  heartbeat_ack_op : GatewayPayload
  unknown_op : GatewayPayload

pub data GatewayError : Type 0 where
  no_gateway_handler : GatewayError
  not_decoded : GatewayError
  bad_interval : GatewayError
  not_reconnected : ConnectError → GatewayError

-- An operation ends with the answers that it did not use, or waits for one.
pub data Handling : Type 0 where
  finished : List Attempt → Option GatewayError → Connection → Handling
  stuck : Connection → Handling

-- OnReady up to its loop: the session.
unfoldable pub begin_session : ReadySession → Connection → Connection
begin_session r s = record s {
  is_ready = true;
  resume_gateway_url = r.resume_gateway_url;
  session_id = r.session_id;
}

-- OnReady after its loop.
unfoldable pub mark_ready : Connection → Connection
unfolding set_status
mark_ready s = set_status shard_ready (record s { ready = true })

-- OnResumed
unfoldable pub on_resumed : Connection → Connection
unfolding set_status
on_resumed s = set_status shard_ready (record s { ready = true; is_ready = true })

unfoldable pub handle : Dispatched → Connection → Connection
unfolding begin_session mark_ready on_resumed
handle (lazy_loaded r) s = mark_ready (begin_session r s)
handle resumed s = on_resumed s
handle another s = s

-- gatewayOpDispatch, which returns nil. OnDispatch runs the handler when there is a producer and the
-- type of the event is not on the blacklist.
unfoldable pub gateway_op_dispatch : ℤ → Bool → Dispatched → Connection → Connection
unfolding handle
gateway_op_dispatch sequence blacklisted event s =
    let t : Connection = record s { sequence = sequence } in
    if not s.has_producer || blacklisted then t else handle event t

unfoldable pub reconnected : Reconnected → Handling
reconnected (returned pauses rest (none, s)) = finished rest none s
reconnected (returned pauses rest (some e, s)) = finished rest (some (not_reconnected e)) s
reconnected (waiting pauses s) = stuck s

unfoldable pub reconnect_unless : Sending → Handling
unfolding reconnected reconnect
reconnect_unless (ended rest none s) = finished rest none s
reconnect_unless (ended rest (some e) s) = reconnected (reconnect normal_closure rest s)
reconnect_unless (blocked s) = stuck s

unfoldable pub gateway_op_heartbeat : Option Cause → List Attempt → Connection → Handling
unfolding reconnect_unless send_event
gateway_op_heartbeat written attempts s =
    reconnect_unless (send_event written attempts (heartbeat s.sequence) s)

unfoldable pub gateway_op_reconnect : List Attempt → Connection → Handling
unfolding reconnected reconnect
gateway_op_reconnect attempts s = reconnected (reconnect websocket_reconnect_close_code attempts s)

unfoldable pub forget_session : Connection → Connection
forget_session s = record s { session_id = []; sequence = pos 0; resume_gateway_url = [] }

unfoldable pub gateway_op_invalid_session : Option Bool → List Attempt → Connection → Handling
unfolding forget_session reconnected reconnect
gateway_op_invalid_session none attempts s = finished attempts (some not_decoded) s
gateway_op_invalid_session (some resumable) attempts s =
    reconnected (
      reconnect websocket_reconnect_close_code attempts (if resumable then s else forget_session s))

unfoldable pub gateway_op_hello : Option ℤ → ℕ → List Attempt → Connection → Handling
gateway_op_hello none now rest s = finished rest (some not_decoded) s
gateway_op_hello (some (pos (suc n))) now rest s = finished rest none (record s {
  last_heartbeat_sent = now;
  last_heartbeat_ack = now;
  heartbeat_interval = suc n;
  heartbeat_failure_interval = suc n * shard_max_heartbeat_failures;
})
gateway_op_hello (some (pos zero)) now rest s =
    finished rest (some bad_interval)
      (record s { last_heartbeat_sent = now; last_heartbeat_ack = now })
gateway_op_hello (some (negsuc n)) now rest s =
    finished rest (some bad_interval)
      (record s { last_heartbeat_sent = now; last_heartbeat_ack = now })

unfoldable pub gateway_op_heartbeat_ack : ℕ → Connection → Connection
gateway_op_heartbeat_ack now s = record s { last_heartbeat_ack = now }

-- The latency that the acknowledgement is measured by.
unfoldable pub heartbeat_rtt : Connection → ℤ
heartbeat_rtt s = sub_ℕ s.last_heartbeat_ack s.last_heartbeat_sent

-- GatewayDispatch, with the table that `init` fills.
unfoldable pub gateway_dispatch : GatewayPayload → ℕ → List Attempt → Connection → Handling
unfolding gateway_op_dispatch gateway_op_heartbeat gateway_op_reconnect gateway_op_invalid_session
    gateway_op_hello gateway_op_heartbeat_ack
gateway_dispatch (dispatch_op sequence blacklisted event) now rest s =
    finished rest none (gateway_op_dispatch sequence blacklisted event s)
gateway_dispatch (heartbeat_op written) now rest s = gateway_op_heartbeat written rest s
gateway_dispatch reconnect_op now rest s = gateway_op_reconnect rest s
gateway_dispatch (invalid_session_op resumable) now rest s =
    gateway_op_invalid_session resumable rest s
gateway_dispatch (hello_op interval) now rest s = gateway_op_hello interval now rest s
gateway_dispatch heartbeat_ack_op now rest s = finished rest none (gateway_op_heartbeat_ack now s)
gateway_dispatch unknown_op now rest s = finished rest (some no_gateway_handler) s
