-- ===== src/Connection/Fresh.antt =====
-- internal/events_gateway.go, gatewayOpInvalidSession: the session that Discord refused is not resumed.
use sandwich_daemon.Base.{
  ℕ, zero, suc, ◌+◌, Bool, true, false, Option, none, some, List, [], ◌∷◌, ℤ, pos, negsuc, ◌≡◌, ◌∙◌,
  refl, arith, Option-cases, inl, inr,
}
use sandwich_daemon.Connection.{
  Connection, StatusCode, ShardStatus, shard_reconnecting, shard_closed, Output, sent, SentPayload,
  identify, resume, set_status, close_ws, close_producer, start_closing, waits_for_producer,
  end_closing, close, ws_closed,
}
use sandwich_daemon.Connection.Connect.{
  Cause, Dialling, unparsed, refused, dialled, Greeting, unread, undecoded, hello, Attempt, Result,
  start_connecting, renew, dial, dial_unless, abandon_with, write_payload, send_identify,
  needs_identify, is_empty, abandon, conclude, authenticate, start_heartbeat, stamp, greet,
  greet_unless, connect,
}
use sandwich_daemon.Connection.Reconnect.{Reconnected, returned, waiting, reconnect}
use sandwich_daemon.Connection.Keeps.{reconnected_state, reconnect-keeps}
use sandwich_daemon.Connection.Gateway.{
  Handling, finished, stuck, reconnected, forget_session, gateway_op_invalid_session,
}

-- The RESUMEs that were sent.
abbrev resume_count : SentPayload → ℕ
resume_count (resume session sequence) = 1
resume_count _ = 0

abbrev sent_resumes : Output → ℕ
sent_resumes (sent p) = resume_count p
sent_resumes _ = 0

abbrev pub resumes : List Output → ℕ
resumes [] = 0
resumes (o ∷ os) = sent_resumes o + resumes os

-- A connection without a session, which has sent `n` RESUMEs.
abbrev IsFresh : ℕ → Connection → Type 0
IsFresh n s = (s.session_id ≡ []) × (resumes s.outputs ≡ n)

module _ (n : ℕ) where
  start_connecting-IsFresh : (s : Connection) → IsFresh n s → IsFresh n (start_connecting s)
  unfolding start_connecting set_status
  start_connecting-IsFresh s (h, k) = ground (arith, h, k)

  dial_unless-IsFresh :
      (c : Option ℕ) (d : Dialling) (s : Connection) → IsFresh n s → IsFresh n (dial_unless c d s).1
  unfolding dial_unless dial
  dial_unless-IsFresh none unparsed s h = h
  dial_unless-IsFresh none (refused cause) s h = h
  dial_unless-IsFresh none (dialled m) s h = h
  dial_unless-IsFresh (some m) d s h = h

  closed_resumes :
      (c : Option ℕ) (code : StatusCode) (os : List Output)
      → resumes (elim c [ none ↦ os | some _ ↦ ws_closed code ∷ os ]) ≡ resumes os
  closed_resumes none code os = refl
  closed_resumes (some m) code os = omega arith

  close_ws-IsFresh :
      (code : StatusCode) (s : Connection) → IsFresh n s → IsFresh n (close_ws code s)
  unfolding close_ws
  close_ws-IsFresh code s (h, k) = (h, closed_resumes s.ws_conn code s.outputs ∙ k)

  abandon_with-IsFresh :
      (c : Option ℕ) (s : Connection) → IsFresh n s → IsFresh n (abandon_with c s)
  unfolding abandon_with set_status
  abandon_with-IsFresh none s (h, k) = (h, omega (arith, k))
  abandon_with-IsFresh (some m) s h = close_ws-IsFresh _ s h

  write_payload-IsFresh :
      (w : Option Cause) (i c : ℤ) (s : Connection)
      → IsFresh n s
      → IsFresh n (write_payload w (identify i c) s).1
  unfolding write_payload
  write_payload-IsFresh none i c s (h, k) = (h, omega (arith, k))
  write_payload-IsFresh (some cause) i c s h = h

  send_identify-IsFresh :
      (a : Attempt) (s : Connection) → IsFresh n s → IsFresh n (send_identify a s).1
  unfolding send_identify
  send_identify-IsFresh a s (h, k) = elim (Option-cases a.waited) [
    | inl e ↦
        rw e (write_payload-IsFresh a.written s.shard_id s.shard_count _ (h, omega (arith, k)))
    | inr (c, e) ↦ rw e (h, omega (arith, k))
  ]

  needs_identify-IsFresh : (s : Connection) → IsFresh n s → needs_identify s ≡ true
  unfolding needs_identify is_empty
  needs_identify-IsFresh s (h, k) = ground (arith, h)

  authenticate-IsFresh :
      (a : Attempt) (s : Connection) → IsFresh n s → IsFresh n (authenticate a s).1
  unfolding authenticate
  authenticate-IsFresh a s h = rw (needs_identify-IsFresh s h) (send_identify-IsFresh a s h)

  conclude-IsFresh : (r : Result) → IsFresh n r.1 → IsFresh n (conclude r).1
  unfolding conclude set_status abandon
  conclude-IsFresh (none, s) (h, k) = (h, omega (arith, k))
  conclude-IsFresh (some e, s) h = abandon_with-IsFresh s.ws_conn s h

  started : (m now : ℕ) (s : Connection) → IsFresh n s → IsFresh n (start_heartbeat m (stamp now s))
  unfolding start_heartbeat stamp
  started m now s (h, k) = (h, omega (arith, k))

  greet-IsFresh :
      (g : Greeting) (a : Attempt) (s : Connection) → IsFresh n s → IsFresh n (greet g a s).1
  unfolding greet stamp abandon
  greet-IsFresh (unread cause) a s h = abandon_with-IsFresh s.ws_conn s h
  greet-IsFresh undecoded a s h = abandon_with-IsFresh s.ws_conn s h
  greet-IsFresh (hello (pos zero)) a s h = h
  greet-IsFresh (hello (pos (suc m))) a s h =
      let t : Connection = start_heartbeat m (stamp a.now s) in
      conclude-IsFresh (authenticate a t) (authenticate-IsFresh a t (started m a.now s h))
  greet-IsFresh (hello (negsuc m)) a s h = h

  greet_unless-IsFresh : (a : Attempt) (r : Result) → IsFresh n r.1 → IsFresh n (greet_unless a r).1
  unfolding greet_unless
  greet_unless-IsFresh a (none, s) h = greet-IsFresh a.greeting a s h
  greet_unless-IsFresh a (some e, s) h = h

  connect-IsFresh : (a : Attempt) (s : Connection) → IsFresh n s → IsFresh n (connect a s).1
  unfolding connect renew
  connect-IsFresh a s h =
      let t : Connection = renew (start_connecting s) in
      greet_unless-IsFresh a (dial_unless t.ws_conn a.dialling t)
        (dial_unless-IsFresh t.ws_conn a.dialling t (start_connecting-IsFresh s h))

  close_producer-IsFresh :
      (i : Bool) (s : Connection) → IsFresh n s → IsFresh n (close_producer i s)
  unfolding close_producer
  close_producer-IsFresh i s (h, k) = ground (arith, h, k)

  set_status-IsFresh :
      (status : ShardStatus) (s : Connection) → IsFresh n s → IsFresh n (set_status status s)
  unfolding set_status
  set_status-IsFresh status s (h, k) = (h, omega (arith, k))

  start_closing-IsFresh : (s : Connection) → IsFresh n s → IsFresh n (start_closing s)
  unfolding start_closing set_status
  start_closing-IsFresh s (h, k) = (h, omega (arith, k))

  end_closing-IsFresh : (b : Bool) (s : Connection) → IsFresh n s → IsFresh n (end_closing b s)
  unfolding end_closing
  end_closing-IsFresh true s h = h
  end_closing-IsFresh false s h = set_status-IsFresh shard_closed s h

  close-IsFresh :
      (code : StatusCode) (i : Bool) (s : Connection) → IsFresh n s → IsFresh n (close code i s)
  unfolding close
  close-IsFresh code i s h =
      let t : Connection = start_closing s in
      let u : Connection = close_ws code t in
      end_closing-IsFresh (waits_for_producer i s) (close_producer i u)
        (close_producer-IsFresh i u (close_ws-IsFresh code t (start_closing-IsFresh s h)))

  reconnect-IsFresh :
      (code : StatusCode) (attempts : List Attempt) (s : Connection)
      → IsFresh n s
      → IsFresh n (reconnected_state (reconnect code attempts s))
  reconnect-IsFresh =
      reconnect-keeps (IsFresh n) connect-IsFresh close-IsFresh (λ m s h. h)
        (set_status-IsFresh shard_reconnecting)

-- The connection that is left.
abbrev pub handling_state : Handling → Connection
handling_state (finished rest e s) = s
handling_state (stuck s) = s

pub reconnected-state : (r : Reconnected) → handling_state (reconnected r) ≡ reconnected_state r
unfolding reconnected
reconnected-state (returned pauses rest (none, s)) = refl
reconnected-state (returned pauses rest (some e, s)) = refl
reconnected-state (waiting pauses s) = refl

-- After an invalid session that is not resumable the shard has no session, and reconnecting has sent no RESUME, however many calls of Connect it took and however they ended.
pub gateway_op_invalid_session-resumes :
    (attempts : List Attempt) (s : Connection)
    → ((handling_state (gateway_op_invalid_session (some false) attempts s)).session_id ≡ [])
      × (resumes (handling_state (gateway_op_invalid_session (some false) attempts s)).outputs
          ≡ resumes s.outputs)
unfolding gateway_op_invalid_session forget_session
gateway_op_invalid_session-resumes attempts s =
    rw (reconnected-state (reconnect _ attempts (forget_session s)))
      (reconnect-IsFresh (resumes s.outputs) _ attempts (forget_session s) (refl, refl))
