-- ===== src/Connection/Consistent.antt =====
-- internal/shard.go and internal/events_gateway.go: a connected shard has a websocket, and the
-- intervals of its heartbeat belong together, after every operation.
use sandwich_daemon.Base.{
  ℕ, suc, Bool, true, false, Option, none, some, List, ℤ, pos, negsuc, ◌≡◌, ◌≢◌, ◌∙◌, refl, sym, ap,
  arith, Option-cases, Bool-cases, inl, inr, not, ◌||◌, if◌then◌else◌, zero,
}
use sandwich_daemon.Connection.{
  Connection, StatusCode, ShardStatus, shard_connected, shard_reconnecting, SentPayload, heartbeat,
  sent, emit, set_status, start_closing, close_ws, close_producer, waits_for_producer, end_closing,
  close, normal_closure, websocket_reconnect_close_code,
}
use sandwich_daemon.Connection.Connect.{Cause, Attempt, connect}
use sandwich_daemon.Connection.Statuses.{
  connect-status, connect-HasConn, HasConn, left_status, tried,
}
use sandwich_daemon.Connection.Reconnect.{reconnect, Sending, ended, blocked, send_event}
use sandwich_daemon.Connection.Keeps.{
  reconnected_state, sending_state, reconnect-keeps, send_event-keeps,
}
use sandwich_daemon.Connection.Gateway.{
  Dispatched, lazy_loaded, resumed, another, GatewayPayload, dispatch_op, heartbeat_op,
  reconnect_op, invalid_session_op, hello_op, heartbeat_ack_op, unknown_op, gateway_dispatch,
  gateway_op_dispatch, gateway_op_heartbeat, gateway_op_reconnect, gateway_op_invalid_session,
  gateway_op_hello, gateway_op_heartbeat_ack, forget_session, handle, mark_ready, on_resumed,
  reconnect_unless,
}
use sandwich_daemon.Connection.Fresh.{handling_state, reconnected-state}
use sandwich_daemon.Connection.Operations.{after_heartbeat, is_overdue, tick_state}
use sandwich_daemon.Connection.Timing.{IsTimed, connect-IsTimed, close-IsTimed, dispatch-IsTimed}

-- A connected shard has a websocket.
abbrev pub IsLive : Connection → Type 0
IsLive s = s.status ≡ shard_connected → HasConn s

pub record IsConsistent (s : Connection) : Type 0 where
  pub live : IsLive s
  pub timed : IsTimed s

tried-not-connected : (status : ShardStatus) → ¬ (tried status ≡ shard_connected)
tried-not-connected status e = ground arith

connect-IsLive : (a : Attempt) (s : Connection) → IsLive (connect a s).1
connect-IsLive a s e = elim (Option-cases (connect a s).0) [
  | inl ok ↦ connect-HasConn a s ok
  | inr (x, failed) ↦ absurd (
      tried-not-connected s.status
        (sym (ap (λ r. left_status r (tried s.status)) failed) ∙ sym (connect-status a s) ∙ e))
]

pub connect-IsConsistent :
    (a : Attempt) (s : Connection) → IsConsistent s → IsConsistent (connect a s).1
connect-IsConsistent a s h = record {
  live = connect-IsLive a s;
  timed = connect-IsTimed a s h.timed;
}

close_producer-unconnected :
    (i : Bool) (s : Connection)
    → s.status ≢ shard_connected
    → (close_producer i s).status ≢ shard_connected
unfolding close_producer
close_producer-unconnected i s h = by_producer s.has_producer
  where
    by_producer :
        (b : Bool) → (close_producer i (record s { has_producer = b })).status ≢ shard_connected
    by_producer true = h
    by_producer false = h

end_closing-unconnected :
    (b : Bool) (s : Connection)
    → s.status ≢ shard_connected
    → (end_closing b s).status ≢ shard_connected
unfolding end_closing set_status
end_closing-unconnected true s h = h
end_closing-unconnected false s h = λ e. ground arith

pub close-IsConsistent :
    (code : StatusCode) (i : Bool) (s : Connection) → IsConsistent s → IsConsistent (close code i s)
unfolding close start_closing set_status close_ws
close-IsConsistent code i s h = record {
  live =
      let t : Connection = close_ws code (start_closing s) in
      λ e. absurd (
        end_closing-unconnected (waits_for_producer i s) (close_producer i t)
          (close_producer-unconnected i t (λ c. ground arith)) e);
  timed = close-IsTimed code i s h.timed;
}

reconnecting-IsConsistent :
    (s : Connection) → IsConsistent s → IsConsistent (set_status shard_reconnecting s)
unfolding set_status
reconnecting-IsConsistent s h = record { live = λ e. absurd (ground arith); timed = h.timed }

counted-IsConsistent :
    (n : ℤ) (s : Connection) → IsConsistent s → IsConsistent (record s { retries_remaining = n })
counted-IsConsistent n s h = record { live = h.live; timed = h.timed }

sent-IsConsistent :
    (p : SentPayload) (s : Connection) → IsConsistent s → IsConsistent (emit (sent p) s)
sent-IsConsistent p s h = record { live = h.live; timed = h.timed }

pub reconnect-IsConsistent :
    (code : StatusCode) (attempts : List Attempt) (s : Connection)
    → IsConsistent s
    → IsConsistent (reconnected_state (reconnect code attempts s))
reconnect-IsConsistent =
    reconnect-keeps IsConsistent connect-IsConsistent close-IsConsistent counted-IsConsistent
      reconnecting-IsConsistent

pub send_event-IsConsistent :
    (w : Option Cause) (attempts : List Attempt) (p : SentPayload) (s : Connection)
    → IsConsistent s
    → IsConsistent (sending_state (send_event w attempts p s))
send_event-IsConsistent =
    send_event-keeps IsConsistent connect-IsConsistent close-IsConsistent counted-IsConsistent
      reconnecting-IsConsistent sent-IsConsistent

handle-IsLive : (e : Dispatched) (s : Connection) → IsLive s → IsLive (handle e s)
unfolding handle mark_ready on_resumed set_status
handle-IsLive (lazy_loaded r) s h e = absurd (ground arith)
handle-IsLive resumed s h e = absurd (ground arith)
handle-IsLive another s h e = h e

dispatch-IsLive :
    (n : ℤ) (b : Bool) (e : Dispatched) (s : Connection)
    → IsLive s
    → IsLive (gateway_op_dispatch n b e s)
unfolding gateway_op_dispatch
dispatch-IsLive n b e s h = by_gate (not s.has_producer || b)
  where
    by_gate :
        (g : Bool)
        → IsLive (if g then record s { sequence = n } else handle e (record s { sequence = n }))
    by_gate true = h
    by_gate false = handle-IsLive e (record s { sequence = n }) h

reconnect_unless-IsConsistent :
    (x : Sending)
    → IsConsistent (sending_state x)
    → IsConsistent (handling_state (reconnect_unless x))
unfolding reconnect_unless
reconnect_unless-IsConsistent (ended rest none s) h = h
reconnect_unless-IsConsistent (ended rest (some e) s) h =
    rw (reconnected-state (reconnect normal_closure rest s))
      (reconnect-IsConsistent normal_closure rest s h)
reconnect_unless-IsConsistent (blocked s) h = h

invalid_session-IsConsistent :
    (r : Option Bool) (attempts : List Attempt) (s : Connection)
    → IsConsistent s
    → IsConsistent (handling_state (gateway_op_invalid_session r attempts s))
unfolding gateway_op_invalid_session forget_session
invalid_session-IsConsistent none attempts s h = h
invalid_session-IsConsistent (some true) attempts s h =
    rw (reconnected-state (reconnect websocket_reconnect_close_code attempts s))
      (reconnect-IsConsistent websocket_reconnect_close_code attempts s h)
invalid_session-IsConsistent (some false) attempts s h =
    rw (reconnected-state (reconnect websocket_reconnect_close_code attempts (forget_session s))) (
      reconnect-IsConsistent websocket_reconnect_close_code attempts (forget_session s)
        (record { live = h.live; timed = h.timed }))

hello-IsConsistent :
    (i : Option ℤ) (now : ℕ) (attempts : List Attempt) (s : Connection)
    → IsConsistent s
    → IsConsistent (handling_state (gateway_op_hello i now attempts s))
unfolding gateway_op_hello
hello-IsConsistent none now attempts s h = h
hello-IsConsistent (some (pos zero)) now attempts s h = record { live = h.live; timed = h.timed }
hello-IsConsistent (some (pos (suc n))) now attempts s h = record { live = h.live; timed = refl }
hello-IsConsistent (some (negsuc n)) now attempts s h = record { live = h.live; timed = h.timed }

pub gateway_dispatch-IsConsistent :
    (p : GatewayPayload) (now : ℕ) (attempts : List Attempt) (s : Connection)
    → IsConsistent s
    → IsConsistent (handling_state (gateway_dispatch p now attempts s))
unfolding gateway_dispatch gateway_op_heartbeat gateway_op_reconnect gateway_op_heartbeat_ack
gateway_dispatch-IsConsistent (dispatch_op n b e) now attempts s h = record {
  live = dispatch-IsLive n b e s h.live;
  timed = dispatch-IsTimed n b e s h.timed;
}
gateway_dispatch-IsConsistent (heartbeat_op w) now attempts s h =
    reconnect_unless-IsConsistent (send_event w attempts (heartbeat s.sequence) s)
      (send_event-IsConsistent w attempts (heartbeat s.sequence) s h)
gateway_dispatch-IsConsistent reconnect_op now attempts s h =
    rw (reconnected-state (reconnect websocket_reconnect_close_code attempts s))
      (reconnect-IsConsistent websocket_reconnect_close_code attempts s h)
gateway_dispatch-IsConsistent (invalid_session_op r) now attempts s h =
    invalid_session-IsConsistent r attempts s h
gateway_dispatch-IsConsistent (hello_op i) now attempts s h = hello-IsConsistent i now attempts s h
gateway_dispatch-IsConsistent heartbeat_ack_op now attempts s h = record {
  live = h.live;
  timed = h.timed;
}
gateway_dispatch-IsConsistent unknown_op now attempts s h = h

pub after_heartbeat-IsConsistent :
    (now : ℕ) (x : Sending)
    → IsConsistent (sending_state x)
    → IsConsistent (tick_state (after_heartbeat now x))
unfolding after_heartbeat
after_heartbeat-IsConsistent now (ended rest none s) h = elim (Bool-cases (is_overdue now s)) [
  | inl e ↦ rw e (record { live = h.live; timed = h.timed })
  | inr e ↦ rw e (record { live = h.live; timed = h.timed })
]
after_heartbeat-IsConsistent now (ended rest (some e) s) h = record {
  live = h.live;
  timed = h.timed;
}
after_heartbeat-IsConsistent now (blocked s) h = h
