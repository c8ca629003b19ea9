-- ===== src/Websocket/Sequences.antt =====
-- internal/msg_websocket.go, writeMessages: the sequence numbers of a subscriber's messages.
use sandwich_daemon.Base.{
  ℕ, zero, suc, ◌+◌, ◌<◌, ◌≤◌, ◌==◌, Bool, true, false, some, List, [], ◌∷◌, length, get_elem?, pos,
  inc_int32, lt→ltb, if◌then◌else◌, ◌≡◌, ◌∙◌, refl, ap, arith,
}
use sandwich_daemon.Websocket.{SandwichPayload, Subscriber}
use sandwich_daemon.Websocket.Writer.{
  Written, wrote_message, on_wire, number, numbered, after_message, write_messages,
}

-- 1 for a dispatch
abbrev pub dispatch_count : SandwichPayload → ℕ
dispatch_count msg = if msg.op == 0 then 1 else 0

-- The dispatches before a place of a queue.
abbrev pub dispatches_before : ℕ → List SandwichPayload → ℕ
dispatches_before zero queue = 0
dispatches_before (suc i) [] = 0
dispatches_before (suc i) (msg ∷ queue) = dispatch_count msg + dispatches_before i queue

-- A message as it is written after `n` dispatches.
abbrev pub with_sequence : ℕ → SandwichPayload → Written
with_sequence n msg = wrote_message (record msg { sequence = if msg.op == 0 then pos n else pos 0 })

some-inj : (a b : SandwichPayload) → some a ≡ some b → a ≡ b
some-inj a b e = cc

dispatch_count_bound : (msg : SandwichPayload) → dispatch_count msg ≤ 1
dispatch_count_bound msg = ground arith

inc_int32-pos : (n : ℕ) → n < 2147483647 → inc_int32 (pos n) ≡ pos (suc n)
unfolding inc_int32
inc_int32-pos n h = rw (lt→ltb n 2147483647 h) refl

number-sequence :
    (n : ℕ) (b : Bool) (msg : SandwichPayload) (s : Subscriber)
    → s.seq ≡ pos n
    → (number b msg s).0 ≡ record msg { sequence = if b then pos n else pos 0 }
unfolding number
number-sequence n true msg s h = ap (λ q. record msg { sequence = q }) h
number-sequence n false msg s h = refl

number-seq :
    (n : ℕ) (b : Bool) (msg : SandwichPayload) (s : Subscriber)
    → n < 2147483647
    → s.seq ≡ pos n
    → (number b msg s).1.seq ≡ pos (n + (if b then 1 else 0))
unfolding number
number-seq n true msg s k h = ap inc_int32 h ∙ inc_int32-pos n k ∙ ap pos (omega arith)
number-seq n false msg s k h = h ∙ ap pos (omega arith)

-- The i-th message that writeMessages takes from the queue of a subscriber is the i-th that was written, if all can be marshalled and written. A dispatch has as its sequence number the subscriber's plus the number of dispatches before it, and any other message has 0. The numbers do not run over the int32.
pub write_messages-sequence :
    (queue : List SandwichPayload) (n : ℕ) (s : Subscriber) (i : ℕ) (msg : SandwichPayload)
    → s.seq ≡ pos n
    → n + length queue < 2147483647
    → get_elem? queue i ≡ some msg
    → get_elem? (write_messages (λ _. on_wire) queue s).0 i
      ≡ some (with_sequence (n + dispatches_before i queue) msg)
unfolding write_messages after_message numbered
write_messages-sequence [] n s i msg h k e = absurd (ground arith)
write_messages-sequence (m ∷ queue) n s zero msg h k e =
    ap (λ p. some (wrote_message p)) (number-sequence n (m.op == 0) m s h)
    ∙ ap (λ p. some (with_sequence n p)) (some-inj m msg e)
    ∙ ap (λ x. some (with_sequence x msg)) (omega arith)
write_messages-sequence (m ∷ queue) n s (suc i) msg h k e =
    let seq : (number (m.op == 0) m s).1.seq ≡ pos (n + dispatch_count m) =
      number-seq n (m.op == 0) m s (omega (arith, k)) h in
    write_messages-sequence queue (n + dispatch_count m) (number (m.op == 0) m s).1 i msg seq
      (omega (arith, k, dispatch_count_bound m)) e
    ∙ ap (λ x. some (with_sequence x msg)) (omega arith)
