-- ===== src/Connection/Statuses.antt =====
-- internal/shard.go, Connect: the status it leaves, and the attempts that succeed from every state.
use sandwich_daemon.Base.{
  ℕ, zero, suc, Option, none, some, pos, negsuc, ◌≡◌, ◌∙◌, sym, refl, arith, Bool-cases,
  Option-cases, inl, inr,
}
use sandwich_daemon.Connection.{
  Connection, ShardStatus, shard_connecting, shard_connected, shard_reconnecting, set_status,
  close_ws, SentPayload,
}
use sandwich_daemon.Connection.Connect.{
  ConnectError, Cause, Dialling, unparsed, refused, dialled, Greeting, unread, undecoded, hello,
  Attempt, Result, start_connecting, renew, dial, dial_unless, abandon_with, write_payload,
  send_identify, send_resume, needs_identify, abandon, conclude, authenticate, start_heartbeat,
  stamp, greet, greet_unless, connect,
}

-- The status in which Connect tries: Reconnecting stays, everything else becomes Connecting.
abbrev pub tried : ShardStatus → ShardStatus
tried shard_reconnecting = shard_reconnecting
tried _ = shard_connecting

-- The status after a result.
abbrev pub left_status : Option ConnectError → ShardStatus → ShardStatus
left_status none status = shard_connected
left_status (some e) status = status

start_connecting_status : (s : Connection) → (start_connecting s).status ≡ tried s.status
unfolding start_connecting set_status
start_connecting_status s = ground arith

-- A websocket, and the status of before.
abbrev HasBegun : ShardStatus → Connection → Type 0
HasBegun status s = (s.status ≡ status) × ((n : ℕ) × (s.ws_conn ≡ some n))

abandon_with-status :
    (status : ShardStatus) (c : Option ℕ) (s : Connection)
    → s.status ≡ status
    → (n : ℕ) × (c ≡ some n)
    → (abandon_with c s).status ≡ status
unfolding abandon_with close_ws
abandon_with-status status none s h (n, e) = absurd (ground arith)
abandon_with-status status (some _) s h e = h

abandon-status :
    (status : ShardStatus) (s : Connection) → HasBegun status s → (abandon s).status ≡ status
unfolding abandon
abandon-status status s h = abandon_with-status status s.ws_conn s h.0 h.1

write_payload-HasBegun :
    (status : ShardStatus) (w : Option Cause) (p : SentPayload) (s : Connection)
    → HasBegun status s
    → HasBegun status (write_payload w p s).1
unfolding write_payload
write_payload-HasBegun status none p s h = h
write_payload-HasBegun status (some c) p s h = h

send_identify-HasBegun :
    (status : ShardStatus) (a : Attempt) (s : Connection)
    → HasBegun status s
    → HasBegun status (send_identify a s).1
unfolding send_identify
send_identify-HasBegun status a s h = elim (Option-cases a.waited) [
  | inl e ↦ rw e (write_payload-HasBegun status a.written _ _ h)
  | inr (c, e) ↦ rw e h
]

authenticate-HasBegun :
    (status : ShardStatus) (a : Attempt) (s : Connection)
    → HasBegun status s
    → HasBegun status (authenticate a s).1
unfolding authenticate send_resume
authenticate-HasBegun status a s h = elim (Bool-cases (needs_identify s)) [
  | inl e ↦ rw e (send_identify-HasBegun status a s h)
  | inr e ↦ rw e (write_payload-HasBegun status a.written _ s h)
]

conclude-status :
    (status : ShardStatus) (r : Result)
    → HasBegun status r.1
    → (conclude r).1.status ≡ left_status (conclude r).0 status
unfolding conclude set_status
conclude-status status (none, s) h = refl
conclude-status status (some e, s) h = abandon-status status s h

greet-status :
    (status : ShardStatus) (g : Greeting) (a : Attempt) (s : Connection)
    → HasBegun status s
    → (greet g a s).1.status ≡ left_status (greet g a s).0 status
unfolding greet stamp start_heartbeat
greet-status status (unread cause) a s h = abandon-status status s h
greet-status status undecoded a s h = abandon-status status s h
greet-status status (hello (pos zero)) a s h = h.0
greet-status status (hello (pos (suc n))) a s h =
    conclude-status status _ (authenticate-HasBegun status a (start_heartbeat n (stamp a.now s)) h)
greet-status status (hello (negsuc n)) a s h = h.0

dial_unless-HasBegun :
    (status : ShardStatus) (c : Option ℕ) (d : Dialling) (s : Connection)
    → c ≡ s.ws_conn
    → s.status ≡ status
    → (dial_unless c d s).0 ≡ none
    → HasBegun status (dial_unless c d s).1
unfolding dial_unless dial
dial_unless-HasBegun status none unparsed s c h e = absurd (ground arith)
dial_unless-HasBegun status none (refused cause) s c h e = absurd (ground arith)
dial_unless-HasBegun status none (dialled n) s c h e = (h, (n, refl))
dial_unless-HasBegun status (some n) d s c h e = (h, (n, sym c))

dial_unless-status :
    (c : Option ℕ) (d : Dialling) (s : Connection) → (dial_unless c d s).1.status ≡ s.status
unfolding dial_unless dial
dial_unless-status c d s = ground arith

greet_unless-status :
    (status : ShardStatus) (a : Attempt) (r : Result)
    → (r.0 ≡ none → HasBegun status r.1)
    → r.1.status ≡ status
    → (greet_unless a r).1.status ≡ left_status (greet_unless a r).0 status
unfolding greet_unless
greet_unless-status status a (none, s) h k = greet-status status a.greeting a s (h refl)
greet_unless-status status a (some e, s) h k = k

-- Connect leaves the status Connected when it returns no error. When it returns an error, the status is Reconnecting if it was so before, and Connecting otherwise; it is never Erroring.
pub connect-status :
    (a : Attempt) (s : Connection)
    → (connect a s).1.status ≡ left_status (connect a s).0 (tried s.status)
unfolding connect renew
connect-status a s =
    let t : Connection = renew (start_connecting s) in
    let h : t.status ≡ tried s.status = start_connecting_status s in
    greet_unless-status (tried s.status) a (dial_unless t.ws_conn a.dialling t)
      (dial_unless-HasBegun (tried s.status) t.ws_conn a.dialling t refl h)
      (dial_unless-status t.ws_conn a.dialling t ∙ h)

-- The shard has a websocket.
abbrev pub HasConn : Connection → Type 0
HasConn s = (n : ℕ) × (s.ws_conn ≡ some n)

conclude-HasConn : (r : Result) → HasConn r.1 → (conclude r).0 ≡ none → HasConn (conclude r).1
unfolding conclude set_status
conclude-HasConn (none, s) h e = h
conclude-HasConn (some x, s) h e = absurd (ground arith)

greet-HasConn :
    (status : ShardStatus) (g : Greeting) (a : Attempt) (s : Connection)
    → HasBegun status s
    → (greet g a s).0 ≡ none
    → HasConn (greet g a s).1
unfolding greet stamp start_heartbeat
greet-HasConn status (unread cause) a s h e = absurd (ground arith)
greet-HasConn status undecoded a s h e = absurd (ground arith)
greet-HasConn status (hello (pos zero)) a s h e = absurd (ground arith)
greet-HasConn status (hello (pos (suc n))) a s h e =
    let t : Connection = start_heartbeat n (stamp a.now s) in
    conclude-HasConn (authenticate a t) (authenticate-HasBegun status a t h).1 e
greet-HasConn status (hello (negsuc n)) a s h e = absurd (ground arith)

greet_unless-HasConn :
    (status : ShardStatus) (a : Attempt) (r : Result)
    → (r.0 ≡ none → HasBegun status r.1)
    → (greet_unless a r).0 ≡ none
    → HasConn (greet_unless a r).1
unfolding greet_unless
greet_unless-HasConn status a (none, s) h e = greet-HasConn status a.greeting a s (h refl) e
greet_unless-HasConn status a (some x, s) h e = absurd (ground arith)

-- When Connect returns no error, the shard has a websocket.
pub connect-HasConn :
    (a : Attempt) (s : Connection) → (connect a s).0 ≡ none → HasConn (connect a s).1
unfolding connect renew
connect-HasConn a s =
    let t : Connection = renew (start_connecting s) in
    greet_unless-HasConn t.status a (dial_unless t.ws_conn a.dialling t)
      (dial_unless-HasBegun t.status t.ws_conn a.dialling t refl refl)
