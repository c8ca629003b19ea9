-- ===== src/Websocket/Sessions.antt =====
-- internal/msg_websocket.go: how a session begins and ends. deleteSubscriber, the end of subscribe's
-- identification, and the client's CloseShard, StopSession and Close.
use sandwich_daemon.Base.{
  ℕ, zero, suc, ◌-◌, ltb, ◌||◌, ◌==◌, Bool, true, false, Option, none, some, List, [], ◌∷◌, ◌++◌,
  length, get_elem?, map, ℤ, ℤ_discrete, ite, if◌then◌else◌,
}
use sandwich_daemon.Strconv.{Bytes, same_bytes}
use sandwich_daemon.Connection.{
  MqCloseShardReason, close_shard_reason_gateway, close_shard_reason_other,
}
use sandwich_daemon.Websocket.{
  Subscriber, Subscribers, same_shard, SandwichPayload, Sending, sent, full, broken, send_invalid,
  write_to, add_subscriber, subscriber_status_resuming, subscriber_status_moving,
  subscriber_status_ready, subscriber_status_dead,
}

-- `append(sub[:i], sub[i+1:]...)` within the array of `sub`: what stands after `i` moves one place to
-- the left, and the last entry stays.
unfoldable pub shift : ℕ → List Subscriber → List Subscriber
shift i [] = []
shift zero (x ∷ []) = x ∷ []
shift zero (x ∷ y ∷ rest) = y ∷ shift zero (y ∷ rest)
shift (suc i) (x ∷ rest) = x ∷ shift i rest

-- All but the last entry.
unfoldable pub but_last : List Subscriber → List Subscriber
but_last [] = []
but_last (x ∷ []) = []
but_last (x ∷ y ∷ rest) = x ∷ but_last (y ∷ rest)

-- `is.sessionId == s.sessionId || is == s`
unfoldable pub is_session_of : Subscriber → Subscriber → Bool
unfolding same_bytes
is_session_of s other = ite (same_bytes other.session_id s.session_id) true (other.key == s.key)

-- The loop of deleteSubscriber from place `i` on, for `n` places: it reads the array that it shifts.
-- The last argument is the slice that the map has.
unfoldable pub delete_loop :
    Subscriber → ℕ → ℕ → List Subscriber → List Subscriber → List Subscriber
unfolding is_session_of shift but_last
delete_loop s zero i entries slice = slice
delete_loop s (suc n) i entries slice =
    let moved : List Subscriber = shift i entries in
    let deleted : List Subscriber = delete_loop s n (suc i) moved (but_last moved) in
    let left : List Subscriber = delete_loop s n (suc i) entries slice in
    elim (get_elem? entries i) [
      | none ↦ slice
      | some other ↦ if is_session_of s other then deleted else left
    ]

-- deleteSubscriber; it also cancels the contexts of those that it deletes.
unfoldable pub delete_subscriber : Subscriber → Subscribers → Subscribers
unfolding delete_loop same_shard
delete_subscriber s [] = []
delete_subscriber s ((k, subs) ∷ rest) =
    ite (same_shard k s.shard) ((k, delete_loop s (length subs) 0 subs subs) ∷ rest)
      ((k, subs) ∷ delete_subscriber s rest)

-- Case 5 of writeMessages: the subscriber gets the close message, is dead, and is deleted.
unfoldable pub write_close_message :
    Subscriber → Subscribers → Option (Bytes × Subscriber × Subscribers)
unfolding delete_subscriber
write_close_message s subscribers = elim s.closing [
  | [] ↦ none
  | reason ∷ rest ↦
      let t : Subscriber = record s {
        status = subscriber_status_dead;
        cancelled = true;
        closing = rest;
      } in
      some (reason, t, delete_subscriber t subscribers)
]

-- The loop of subscribe that moves the messages of an old session. It goes on until the old session's
-- channel is closed, or one of the contexts is done when a message comes.
unfoldable pub move_messages : List SandwichPayload → Subscriber → Subscriber
unfolding write_to
move_messages [] s = s
move_messages (msg ∷ queue) s = move_messages queue (if msg.op == 0 then write_to msg s else s)

-- The old session's state, in the map too, which holds it by its address.
unfoldable pub put_subscriber : Subscriber → Subscribers → Subscribers
put_subscriber s [] = []
put_subscriber s ((k, subs) ∷ rest) =
    (k, map (λ other. if other.key == s.key then s else other) subs) ∷ put_subscriber s rest

-- subscribe after identifyClient: a new session goes on with the initial messages; a resumed one stays
-- in the loop above, and waits for messages of the old session there.
pub data SessionStart : Type 0 where
  begun : Subscriber → Subscribers → SessionStart
  moving : Subscriber → Subscribers → SessionStart
  -- the context of the old session is done
  ended_at_once : Subscriber → Subscribers → SessionStart

unfoldable pub resume_session : Subscriber → Subscriber → Subscribers → SessionStart
unfolding add_subscriber move_messages put_subscriber
resume_session s old subscribers =
    let t : Subscriber = record s { status = subscriber_status_resuming } in
    let from : Subscriber = record old { status = subscriber_status_moving } in
    elim old.write_normal [
      | [] ↦ moving t (put_subscriber from (add_subscriber t t.shard subscribers))
      | msg ∷ queue ↦
          if old.cancelled
          then ended_at_once t (
              put_subscriber (record from { write_normal = queue })
                (add_subscriber t t.shard subscribers))
          else let u : Subscriber = move_messages (msg ∷ queue) t in
            moving u (
              put_subscriber (record from { write_normal = [] })
                (add_subscriber u u.shard subscribers))
    ]

unfoldable pub start_session :
    List SandwichPayload → Subscriber → Option Subscriber → Subscribers → SessionStart
unfolding add_subscriber resume_session
start_session initial s none subscribers =
    let t : Subscriber = record s {
      status = subscriber_status_ready;
      write_normal = s.write_normal ++ initial;
    } in
    begun t (add_subscriber t t.shard subscribers)
start_session initial s (some old) subscribers = resume_session s old subscribers

-- subscribersMu, a sync.RWMutex: those who read, and whether one writes.
pub record RwMutex : Type 0 where
  pub readers : ℕ
  pub writer : Bool

-- RLock and Lock get the lock, or have to wait.
unfoldable pub read_lock : RwMutex → Option RwMutex
read_lock l = if l.writer then none else some (record l { readers = suc l.readers })

unfoldable pub write_lock : RwMutex → Option RwMutex
write_lock l = if l.writer || ltb 0 l.readers then none else some (record l { writer = true })

unfoldable pub read_unlock : RwMutex → RwMutex
read_unlock l = record l { readers = l.readers - 1 }

-- deleteSubscriber with its lock, which it gives back at its end.
unfoldable pub delete_locked : Subscriber → RwMutex → Subscribers → Option Subscribers
unfolding write_lock delete_subscriber
delete_locked s l subscribers = elim (write_lock l) [
  | none ↦ none
  | some _ ↦ some (delete_subscriber s subscribers)
]

-- CloseShard, StopSession and Close have returned; or they wait for a lock, or at a channel that is full,
-- or panic at one that is closed; in each case the lock and the subscribers then.
pub data Closing : Type 0 where
  all_left : RwMutex → Subscribers → Closing
  waits : RwMutex → Subscribers → Closing
  waits_at_channel : RwMutex → Subscribers → Closing
  panics : RwMutex → Subscribers → Closing

unfoldable pub entries : Subscribers → List Subscriber
entries [] = []
entries ((_, subs) ∷ rest) = subs ++ entries rest

-- The two loops, over the subscribers that the map had at their start: those that match are told, and
-- deleted.
unfoldable pub close_entries :
    (Subscriber → Bool)
    → (Subscriber → Sending Subscriber)
    → RwMutex
    → List Subscriber
    → Subscribers
    → Closing
unfolding put_subscriber delete_locked read_unlock
close_entries matches tell l [] subscribers = all_left (read_unlock l) subscribers
close_entries matches tell l (s ∷ subs) subscribers =
    let unmatched : Closing = close_entries matches tell l subs subscribers in
    if matches s
    then elim (tell s) [
      | sent t ↦ elim (delete_locked t l (put_subscriber t subscribers)) [
        | none ↦ waits l (put_subscriber t subscribers)
        | some left ↦ close_entries matches tell l subs left
      ]
      | full t ↦ waits_at_channel l (put_subscriber t subscribers)
      | broken t ↦ panics (read_unlock l) (put_subscriber t subscribers)
    ]
    else unmatched

-- The body that CloseShard, StopSession and Close share, with the read lock around it.
unfoldable pub close_matching :
    (Subscriber → Bool) → (Subscriber → Sending Subscriber) → RwMutex → Subscribers → Closing
unfolding read_lock entries close_entries
close_matching matches tell l subscribers = elim (read_lock l) [
  | none ↦ waits l subscribers
  | some held ↦ close_entries matches tell held (entries subscribers) subscribers
]

unfoldable pub is_on_shard : ℤ → Subscriber → Bool
unfolding ℤ_discrete
is_on_shard shard_id s = ite (ℤ_discrete s.shard.0 shard_id) true false

-- CloseShard, with the length of the channels. The texts of the reasons are left out.
unfoldable pub close_shard : ℕ → ℤ → MqCloseShardReason → RwMutex → Subscribers → Closing
unfolding close_matching is_on_shard send_invalid
close_shard buffer shard_id close_shard_reason_gateway l subscribers = all_left l subscribers
close_shard buffer shard_id close_shard_reason_other l subscribers =
    close_matching (is_on_shard shard_id) (send_invalid buffer [] true) l subscribers

unfoldable pub is_session : Bytes → Subscriber → Bool
unfolding same_bytes
is_session session_id s = ite (same_bytes s.session_id session_id) true false

-- StopSession
unfoldable pub stop_session : ℕ → Bytes → RwMutex → Subscribers → Closing
unfolding close_matching is_session send_invalid
stop_session buffer session_id l subscribers =
    close_matching (is_session session_id) (send_invalid buffer [] true) l subscribers

-- `s.cancelFunc()`, after invalidSession
unfoldable pub cancel_sent : Sending Subscriber → Sending Subscriber
cancel_sent (sent s) = sent (record s { cancelled = true })
cancel_sent (full s) = full s
cancel_sent (broken s) = broken s

-- Close, of the client, which also cancels the subscribers' contexts.
unfoldable pub close_client : ℕ → RwMutex → Subscribers → Closing
unfolding close_matching send_invalid cancel_sent
close_client buffer l subscribers =
    close_matching (λ _. true) (λ s. cancel_sent (send_invalid buffer [] true s)) l subscribers
