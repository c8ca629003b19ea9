-- ===== src/Connection/Timing.antt =====
-- internal/shard.go: the intervals of the heartbeat belong together, in every operation.
use sandwich_daemon.Base.{
  ℕ, zero, suc, ◌*◌, Bool, true, false, Option, none, some, [], ℤ, pos, negsuc, ◌≡◌, refl, arith,
  Bool-cases, Option-cases, inl, inr,
}
use sandwich_daemon.Connection.{
  Connection, StatusCode, set_status, close_ws, close_producer, start_closing, waits_for_producer,
  end_closing, close, SentPayload, shard_max_heartbeat_failures,
}
use sandwich_daemon.Connection.Connect.{
  Cause, Dialling, unparsed, refused, dialled, Greeting, unread, undecoded, hello, Attempt, Result,
  start_connecting, renew, dial, dial_unless, abandon_with, write_payload, send_identify,
  send_resume, needs_identify, abandon, conclude, authenticate, start_heartbeat, stamp, greet,
  greet_unless, connect,
}
use sandwich_daemon.Connection.Gateway.{
  Dispatched, handle, gateway_op_dispatch, gateway_op_hello, begin_session, mark_ready, on_resumed,
}
use sandwich_daemon.Connection.Fresh.{handling_state}

-- The time after which a silent gateway is given up is the interval of the heartbeat, 50 times.
abbrev pub IsTimed : Connection → Type 0
IsTimed s = s.heartbeat_failure_interval ≡ s.heartbeat_interval * shard_max_heartbeat_failures

start_connecting-IsTimed : (s : Connection) → IsTimed s → IsTimed (start_connecting s)
unfolding start_connecting set_status
start_connecting-IsTimed s h = ground (arith, h)

dial_unless-IsTimed :
    (c : Option ℕ) (d : Dialling) (s : Connection) → IsTimed s → IsTimed (dial_unless c d s).1
unfolding dial_unless dial
dial_unless-IsTimed none unparsed s h = h
dial_unless-IsTimed none (refused cause) s h = h
dial_unless-IsTimed none (dialled m) s h = h
dial_unless-IsTimed (some m) d s h = h

abandon_with-IsTimed : (c : Option ℕ) (s : Connection) → IsTimed s → IsTimed (abandon_with c s)
unfolding abandon_with set_status close_ws
abandon_with-IsTimed none s h = h
abandon_with-IsTimed (some m) s h = h

write_payload-IsTimed :
    (w : Option Cause) (p : SentPayload) (s : Connection)
    → IsTimed s
    → IsTimed (write_payload w p s).1
unfolding write_payload
write_payload-IsTimed none p s h = h
write_payload-IsTimed (some cause) p s h = h

send_identify-IsTimed : (a : Attempt) (s : Connection) → IsTimed s → IsTimed (send_identify a s).1
unfolding send_identify
send_identify-IsTimed a s h = elim (Option-cases a.waited) [
  | inl e ↦ rw e (write_payload-IsTimed a.written _ _ h)
  | inr (c, e) ↦ rw e h
]

authenticate-IsTimed : (a : Attempt) (s : Connection) → IsTimed s → IsTimed (authenticate a s).1
unfolding authenticate send_resume
authenticate-IsTimed a s h = elim (Bool-cases (needs_identify s)) [
  | inl e ↦ rw e (send_identify-IsTimed a s h)
  | inr e ↦ rw e (write_payload-IsTimed a.written _ s h)
]

conclude-IsTimed : (r : Result) → IsTimed r.1 → IsTimed (conclude r).1
unfolding conclude set_status abandon
conclude-IsTimed (none, s) h = h
conclude-IsTimed (some e, s) h = abandon_with-IsTimed s.ws_conn s h

started-IsTimed : (m now : ℕ) (s : Connection) → IsTimed (start_heartbeat m (stamp now s))
unfolding start_heartbeat
started-IsTimed m now s = refl

greet-IsTimed : (g : Greeting) (a : Attempt) (s : Connection) → IsTimed s → IsTimed (greet g a s).1
unfolding greet stamp abandon
greet-IsTimed (unread cause) a s h = abandon_with-IsTimed s.ws_conn s h
greet-IsTimed undecoded a s h = abandon_with-IsTimed s.ws_conn s h
greet-IsTimed (hello (pos zero)) a s h = h
greet-IsTimed (hello (pos (suc m))) a s h =
    let t : Connection = start_heartbeat m (stamp a.now s) in
    conclude-IsTimed (authenticate a t) (authenticate-IsTimed a t (started-IsTimed m a.now s))
greet-IsTimed (hello (negsuc m)) a s h = h

greet_unless-IsTimed : (a : Attempt) (r : Result) → IsTimed r.1 → IsTimed (greet_unless a r).1
unfolding greet_unless
greet_unless-IsTimed a (none, s) h = greet-IsTimed a.greeting a s h
greet_unless-IsTimed a (some e, s) h = h

pub connect-IsTimed : (a : Attempt) (s : Connection) → IsTimed s → IsTimed (connect a s).1
unfolding connect renew
connect-IsTimed a s h =
    let t : Connection = renew (start_connecting s) in
    greet_unless-IsTimed a (dial_unless t.ws_conn a.dialling t)
      (dial_unless-IsTimed t.ws_conn a.dialling t (start_connecting-IsTimed s h))

close_producer-IsTimed : (i : Bool) (s : Connection) → IsTimed s → IsTimed (close_producer i s)
unfolding close_producer
close_producer-IsTimed i s h = ground (arith, h)

end_closing-IsTimed : (b : Bool) (s : Connection) → IsTimed s → IsTimed (end_closing b s)
unfolding end_closing set_status
end_closing-IsTimed true s h = h
end_closing-IsTimed false s h = h

pub close-IsTimed :
    (code : StatusCode) (i : Bool) (s : Connection) → IsTimed s → IsTimed (close code i s)
unfolding close set_status close_ws start_closing
close-IsTimed code i s h =
    let t : Connection = close_ws code (start_closing s) in
    end_closing-IsTimed (waits_for_producer i s) (close_producer i t) (close_producer-IsTimed i t h)

pub dispatch-IsTimed :
    (n : ℤ) (b : Bool) (e : Dispatched) (s : Connection)
    → IsTimed s
    → IsTimed (gateway_op_dispatch n b e s)
unfolding gateway_op_dispatch handle begin_session mark_ready on_resumed set_status
dispatch-IsTimed n b e s h = ground (arith, h)

pub hello-IsTimed :
    (i : Option ℤ) (now : ℕ) (s : Connection)
    → IsTimed s
    → IsTimed (handling_state (gateway_op_hello i now [] s))
unfolding gateway_op_hello
hello-IsTimed none now s h = h
hello-IsTimed (some (pos zero)) now s h = h
hello-IsTimed (some (pos (suc n))) now s h = refl
hello-IsTimed (some (negsuc n)) now s h = h
