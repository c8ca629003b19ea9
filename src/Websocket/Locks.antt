-- ===== src/Websocket/Locks.antt =====
-- internal/msg_websocket.go, CloseShard: a lock that is held twice.
use sandwich_daemon.Base.{
  ℕ, suc, ◌<◌, Bool, true, false, none, some, List, [], ◌∷◌, ◌++◌, ℤ, ◌≡◌, ◌⊎◌, refl, inl, inr,
  length, lt→ltb, arith, Bool-cases,
}
use sandwich_daemon.Connection.{close_shard_reason_other}
use sandwich_daemon.Websocket.{
  Subscriber, Subscribers, Sending, sent, send_invalid, invalid_session,
}
use sandwich_daemon.Websocket.Sessions.{
  RwMutex, put_subscriber, read_lock, write_lock, delete_locked, Closing, waits, entries,
  close_entries, close_matching, is_on_shard, close_shard,
}

-- A subscriber for which a test holds.
abbrev pub AnyOf : (Subscriber → Bool) → List Subscriber → Type 0
AnyOf matches [] = ⊥
AnyOf matches (s ∷ subs) = (matches s ≡ true) ⊎ AnyOf matches subs

abbrev pub AnyIn : (Subscriber → Bool) → Subscribers → Type 0
AnyIn matches [] = ⊥
AnyIn matches ((k, subs) ∷ rest) = AnyOf matches subs ⊎ AnyIn matches rest

-- Every subscriber for which a test holds has a property.
abbrev pub AllOf : (Subscriber → Bool) → (Subscriber → Type 0) → List Subscriber → Type 0
AllOf matches P [] = Unit {0}
AllOf matches P (s ∷ subs) = (matches s ≡ true → P s) × AllOf matches P subs

abbrev pub AllIn : (Subscriber → Bool) → (Subscriber → Type 0) → Subscribers → Type 0
AllIn matches P [] = Unit {0}
AllIn matches P ((k, subs) ∷ rest) = AllOf matches P subs × AllIn matches P rest

-- A subscriber that invalidSession can tell: its channels are open and have room.
abbrev pub Hears : ℕ → Subscriber → Type 0
Hears buffer s = (s.closed ≡ false) × (length s.write_bytes < buffer) × (length s.closing < buffer)

-- The call waits for the write lock, which it cannot get, with a read lock of its own on it.
pub data Deadlocks (readers : ℕ) : Closing → Type 0 where
  deadlocks :
      (l : RwMutex) (subscribers : Subscribers)
      → l.readers ≡ suc readers
      → write_lock l ≡ none
      → Deadlocks readers (waits l subscribers)

held-by_reader : (l : RwMutex) → 0 < l.readers → write_lock l ≡ none
unfolding write_lock
held-by_reader l h = ground (arith, h)

appended-AnyOf :
    (matches : Subscriber → Bool) (xs ys : List Subscriber)
    → AnyOf matches xs ⊎ AnyOf matches ys
    → AnyOf matches (xs ++ ys)
appended-AnyOf matches [] ys (inl h) = absurd h
appended-AnyOf matches [] ys (inr h) = h
appended-AnyOf matches (x ∷ xs) ys (inl (inl h)) = inl h
appended-AnyOf matches (x ∷ xs) ys (inl (inr h)) = inr (appended-AnyOf matches xs ys (inl h))
appended-AnyOf matches (x ∷ xs) ys (inr h) = inr (appended-AnyOf matches xs ys (inr h))

entries-AnyOf :
    (matches : Subscriber → Bool) (subscribers : Subscribers)
    → AnyIn matches subscribers
    → AnyOf matches (entries subscribers)
unfolding entries
entries-AnyOf matches [] h = absurd h
entries-AnyOf matches ((k, subs) ∷ rest) (inl h) =
    appended-AnyOf matches subs (entries rest) (inl h)
entries-AnyOf matches ((k, subs) ∷ rest) (inr h) =
    appended-AnyOf matches subs (entries rest) (inr (entries-AnyOf matches rest h))

appended-AllOf :
    (matches : Subscriber → Bool) (P : Subscriber → Type 0) (xs ys : List Subscriber)
    → AllOf matches P xs
    → AllOf matches P ys
    → AllOf matches P (xs ++ ys)
appended-AllOf matches P [] ys h k = k
appended-AllOf matches P (x ∷ xs) ys (h, hs) k = (h, appended-AllOf matches P xs ys hs k)

entries-AllOf :
    (matches : Subscriber → Bool) (P : Subscriber → Type 0) (subscribers : Subscribers)
    → AllIn matches P subscribers
    → AllOf matches P (entries subscribers)
unfolding entries
entries-AllOf matches P [] h = tt
entries-AllOf matches P ((k, subs) ∷ rest) (h, hs) =
    appended-AllOf matches P subs (entries rest) h (entries-AllOf matches P rest hs)

delete_locked-waits :
    (s : Subscriber) (l : RwMutex) (subscribers : Subscribers)
    → 0 < l.readers
    → delete_locked s l subscribers ≡ none
unfolding delete_locked
delete_locked-waits s l subscribers h = rw (held-by_reader l h, delete_locked) refl

-- What a call of invalidSession does when it is done.
abbrev Told : (Subscriber → Sending Subscriber) → Subscriber → Type 0
Told tell s = (t : Subscriber) × (tell s ≡ sent t)

send_invalid-Told :
    (buffer : ℕ) (s : Subscriber) → Hears buffer s → Told (send_invalid buffer [] true) s
unfolding send_invalid
send_invalid-Told buffer s (o, h, k) = (
  invalid_session [] true s,
  ground (arith, o, lt→ltb (length s.write_bytes) buffer h, lt→ltb (length s.closing) buffer k),
)

close_entries-Deadlocks :
    (matches : Subscriber → Bool) (tell : Subscriber → Sending Subscriber) (n : ℕ) (l : RwMutex)
    (subs : List Subscriber) (subscribers : Subscribers)
    → l.readers ≡ suc n
    → AnyOf matches subs
    → AllOf matches (Told tell) subs
    → Deadlocks n (close_entries matches tell l subs subscribers)
unfolding close_entries
close_entries-Deadlocks matches tell n l [] subscribers e h k = absurd h
close_entries-Deadlocks matches tell n l (s ∷ subs) subscribers e h (k, ks) =
    elim (Bool-cases (matches s)) [
      | inl f ↦
          let t : Subscriber = (k f).0 in
          rw (f, (k f).1, delete_locked-waits t l (put_subscriber t subscribers) (omega (arith, e)))
            (deadlocks l _ e (held-by_reader l (omega (arith, e))))
      | inr f ↦ rw f (close_entries-Deadlocks matches tell n l subs subscribers e (others h f) ks)
    ]
  where
    others : AnyOf matches (s ∷ subs) → matches s ≡ false → AnyOf matches subs
    others (inl g) f = absurd (ground (arith, f, g))
    others (inr g) f = g

read_lock-free :
    (l : RwMutex) → l.writer ≡ false → read_lock l ≡ some (record l { readers = suc l.readers })
unfolding read_lock
read_lock-free l free = ground (arith, free)

heard-AllOf :
    (matches : Subscriber → Bool) (buffer : ℕ) (subs : List Subscriber)
    → AllOf matches (Hears buffer) subs
    → AllOf matches (Told (send_invalid buffer [] true)) subs
heard-AllOf matches buffer [] h = tt
heard-AllOf matches buffer (s ∷ subs) (h, hs) =
    (λ f. send_invalid-Told buffer s (h f), heard-AllOf matches buffer subs hs)

close_matching-Deadlocks :
    (matches : Subscriber → Bool) (tell : Subscriber → Sending Subscriber) (l : RwMutex)
    (subscribers : Subscribers)
    → l.writer ≡ false
    → AnyIn matches subscribers
    → AllOf matches (Told tell) (entries subscribers)
    → Deadlocks l.readers (close_matching matches tell l subscribers)
unfolding close_matching
close_matching-Deadlocks matches tell l subscribers free h k =
    rw (read_lock-free l free, close_matching)
      (close_entries-Deadlocks matches tell l.readers (record l { readers = suc l.readers })
        (entries subscribers) subscribers refl (entries-AnyOf matches subscribers h) k)

-- When a subscriber is on the shard, the channels of all that are on it are open and have room, and nobody
-- writes, CloseShard, unless the reason is the gateway, comes to wait for the write lock of the subscribers
-- while it holds a read lock on it; and as long as there is a reader, nobody gets the write lock: it
-- never returns.
pub close_shard-Deadlocks :
    (buffer : ℕ) (shard_id : ℤ) (l : RwMutex) (subscribers : Subscribers)
    → l.writer ≡ false
    → AnyIn (is_on_shard shard_id) subscribers
    → AllIn (is_on_shard shard_id) (Hears buffer) subscribers
    → Deadlocks l.readers (close_shard buffer shard_id close_shard_reason_other l subscribers)
      × ((m : RwMutex) → 0 < m.readers → write_lock m ≡ none)
unfolding close_shard
close_shard-Deadlocks buffer shard_id l subscribers free h k = (
  close_matching-Deadlocks (is_on_shard shard_id) (send_invalid buffer [] true) l subscribers free h
      (heard-AllOf (is_on_shard shard_id) buffer (entries subscribers)
        (entries-AllOf (is_on_shard shard_id) (Hears buffer) subscribers k)),
  held-by_reader,
)
