-- ===== src/Connection/Keeps.antt =====
-- internal/shard.go: predicates on the connection that Reconnect and SendEvent keep, since Connect and
-- Close do.
use sandwich_daemon.Base.{
  ℕ, Bool, true, false, Option, none, some, List, [], ◌∷◌, ℤ, ◌≡◌, refl, Bool-cases, inl, inr,
}
use sandwich_daemon.Connection.{
  Connection, StatusCode, websocket_reconnect_close_code, shard_reconnecting, SentPayload, sent,
  emit, set_status, waits_for_producer, close,
}
use sandwich_daemon.Connection.Connect.{Cause, Attempt, Result, write_payload, connect}
use sandwich_daemon.Connection.Reconnect.{
  Reconnected, returned, waiting, paused, next_wait, count_retry, is_out_of_retries, give_up,
  reset_retries, settle, retry, reconnect, Sending, ended, blocked, without_connection,
  with_connection, write_json, send_event,
}

-- The connection that is left.
abbrev pub reconnected_state : Reconnected → Connection
reconnected_state (returned pauses rest r) = r.1
reconnected_state (waiting pauses s) = s

abbrev pub sending_state : Sending → Connection
sending_state (ended rest e s) = s
sending_state (blocked s) = s

-- The answers that are left.
abbrev pub answers_left : Sending → List Attempt
answers_left (ended rest e s) = rest
answers_left (blocked s) = []

paused-state :
    (wait : ℕ) (r : Reconnected) → reconnected_state (paused wait r) ≡ reconnected_state r
paused-state wait (returned pauses rest r) = refl
paused-state wait (waiting pauses s) = refl

module _ (P : Connection → Type 0)
    (connects : (a : Attempt) (s : Connection) → P s → P (connect a s).1)
    (closes : (code : StatusCode) (i : Bool) (s : Connection) → P s → P (close code i s))
    (counts : (n : ℤ) (s : Connection) → P s → P (record s { retries_remaining = n }))
    (begins : (s : Connection) → P s → P (set_status shard_reconnecting s)) where
  give_up-keeps :
      (code : StatusCode) (rest : List Attempt) (s : Connection)
      → P s
      → P (reconnected_state (give_up code rest s))
  unfolding give_up
  give_up-keeps code [] s h = closes code false s h
  give_up-keeps code (a ∷ rest) s h = elim (Bool-cases (waits_for_producer false s)) [
    | inl e ↦ rw (e, give_up) (closes code false s h)
    | inr e ↦ rw (e, give_up) (connects a _ (closes code false s h))
  ]

  settle-keeps :
      (code : StatusCode) (wait : ℕ) (rest : List Attempt) (r : Result) (again : Reconnected)
      → P r.1
      → P (reconnected_state again)
      → P (reconnected_state (settle code wait rest r again))
  unfolding settle reset_retries count_retry
  settle-keeps code wait rest (none, s) again h p = counts _ s h
  settle-keeps code wait rest (some e, s) again h p =
      elim (Bool-cases (is_out_of_retries (count_retry s).retries_remaining)) [
        | inl out ↦ rw out (give_up-keeps code rest _ (counts _ s h))
        | inr more ↦ rw (more, paused-state wait again) p
      ]

  retry-keeps :
      (code : StatusCode) (wait : ℕ) (attempts : List Attempt) (s : Connection)
      → P s
      → P (reconnected_state (retry code wait attempts s))
  unfolding retry count_retry
  retry-keeps code wait [] s h = h
  retry-keeps code wait (a ∷ rest) s h =
      let k : P (connect a s).1 = connects a s h in
      settle-keeps code wait rest (connect a s) _ k
        (retry-keeps code (next_wait wait) rest _ (counts _ (connect a s).1 k))

  pub reconnect-keeps :
      (code : StatusCode) (attempts : List Attempt) (s : Connection)
      → P s
      → P (reconnected_state (reconnect code attempts s))
  unfolding reconnect
  reconnect-keeps code attempts s h =
      retry-keeps code 1 attempts _ (closes code true _ (begins s h))

  module _ (sends : (p : SentPayload) (s : Connection) → P s → P (emit (sent p) s)) where
    send_with_connection :
        (w : Option Cause) (attempts : List Attempt) (p : SentPayload) (s : Connection)
        → P s
        → P (sending_state (with_connection attempts (write_payload w p s)))
    unfolding with_connection write_payload
    send_with_connection none attempts p s h = sends p s h
    send_with_connection (some cause) attempts p s h = h

    send_without_connection :
        (r : Reconnected) → P (reconnected_state r) → P (sending_state (without_connection r))
    unfolding without_connection
    send_without_connection (returned pauses rest r) h = h
    send_without_connection (waiting pauses s) h = h

    write_json-keeps :
        (c : Option ℕ) (w : Option Cause) (attempts : List Attempt) (p : SentPayload)
        (s : Connection)
        → P s
        → P (sending_state (write_json c w attempts p s))
    unfolding write_json
    write_json-keeps none w attempts p s h =
        send_without_connection (reconnect websocket_reconnect_close_code attempts s)
          (reconnect-keeps websocket_reconnect_close_code attempts s h)
    write_json-keeps (some _) w attempts p s h = send_with_connection w attempts p s h

    pub send_event-keeps :
        (w : Option Cause) (attempts : List Attempt) (p : SentPayload) (s : Connection)
        → P s
        → P (sending_state (send_event w attempts p s))
    unfolding send_event
    send_event-keeps w attempts p s h = write_json-keeps s.ws_conn w attempts p s h
