-- ===== src/Connection/Sessions.antt =====
-- internal/shard.go, Connect and Close: the session that they keep, and how Connect authenticates.
use sandwich_daemon.Base.{
  ℕ, zero, suc, Bool, true, false, Option, none, some, ℤ, pos, negsuc, ◌≡◌, ◌∙◌, refl, arith,
  Bool-cases, Option-cases, inl, inr,
}
use sandwich_daemon.Strconv.{Bytes}
use sandwich_daemon.Connection.{
  Connection, StatusCode, SentPayload, set_status, close_ws, close_producer, start_closing,
  waits_for_producer, end_closing, close,
}
use sandwich_daemon.Connection.Connect.{
  Cause, Dialling, unparsed, refused, dialled, Greeting, unread, undecoded, hello, Attempt, Result,
  start_connecting, renew, dial, dial_unless, abandon_with, write_payload, send_identify,
  send_resume, needs_identify, abandon, conclude, authenticate, start_heartbeat, stamp, greet,
  greet_unless, connect,
}

-- What a connection remembers when it is lost: the retries, and the session to resume.
abbrev pub memory : Connection → ℤ × Bytes × ℤ
memory s = (s.retries_remaining, s.session_id, s.sequence)

start_connecting-memory : (s : Connection) → memory (start_connecting s) ≡ memory s
unfolding start_connecting set_status
start_connecting-memory s = ground arith

dial_unless-memory :
    (c : Option ℕ) (d : Dialling) (s : Connection) → memory (dial_unless c d s).1 ≡ memory s
unfolding dial_unless dial
dial_unless-memory none unparsed s = refl
dial_unless-memory none (refused cause) s = refl
dial_unless-memory none (dialled n) s = refl
dial_unless-memory (some n) d s = refl

abandon-memory : (s : Connection) → memory (abandon s) ≡ memory s
unfolding abandon abandon_with close_ws set_status
abandon-memory s = by_conn s.ws_conn
  where
    by_conn : (c : Option ℕ) → memory (abandon_with c s) ≡ memory s
    by_conn none = refl
    by_conn (some _) = refl

write_payload-memory :
    (w : Option Cause) (p : SentPayload) (s : Connection)
    → memory (write_payload w p s).1 ≡ memory s
unfolding write_payload
write_payload-memory none p s = refl
write_payload-memory (some c) p s = refl

identify-memory : (a : Attempt) (s : Connection) → memory (send_identify a s).1 ≡ memory s
unfolding send_identify
identify-memory a s = elim (Option-cases a.waited) [
  | inl e ↦ rw e (write_payload-memory a.written _ _)
  | inr (c, e) ↦ rw e refl
]

authenticate-memory : (a : Attempt) (s : Connection) → memory (authenticate a s).1 ≡ memory s
unfolding authenticate send_resume
authenticate-memory a s = elim (Bool-cases (needs_identify s)) [
  | inl e ↦ rw e (identify-memory a s)
  | inr e ↦ rw e (write_payload-memory a.written _ s)
]

conclude-memory : (r : Result) → memory (conclude r).1 ≡ memory r.1
unfolding conclude set_status
conclude-memory (none, s) = refl
conclude-memory (some e, s) = abandon-memory s

greet-memory : (g : Greeting) (a : Attempt) (s : Connection) → memory (greet g a s).1 ≡ memory s
unfolding greet stamp start_heartbeat
greet-memory (unread cause) a s = abandon-memory s
greet-memory undecoded a s = abandon-memory s
greet-memory (hello (pos zero)) a s = refl
greet-memory (hello (pos (suc n))) a s =
    conclude-memory (authenticate a (start_heartbeat n (stamp a.now s)))
    ∙ authenticate-memory a (start_heartbeat n (stamp a.now s))
greet-memory (hello (negsuc n)) a s = refl

greet_unless-memory : (a : Attempt) (r : Result) → memory (greet_unless a r).1 ≡ memory r.1
unfolding greet_unless
greet_unless-memory a (none, s) = greet-memory a.greeting a s
greet_unless-memory a (some e, s) = refl

pub connect-memory : (a : Attempt) (s : Connection) → memory (connect a s).1 ≡ memory s
unfolding connect renew
connect-memory a s =
    let t : Connection = renew (start_connecting s) in
    greet_unless-memory a (dial_unless t.ws_conn a.dialling t)
    ∙ dial_unless-memory t.ws_conn a.dialling t
    ∙ start_connecting-memory s

close_producer-memory : (i : Bool) (s : Connection) → memory (close_producer i s) ≡ memory s
unfolding close_producer
close_producer-memory i s = by_producer s.has_producer
  where
    by_producer : (b : Bool) → memory (close_producer i (record s { has_producer = b })) ≡ memory s
    by_producer true = refl
    by_producer false = refl

end_closing-memory : (b : Bool) (s : Connection) → memory (end_closing b s) ≡ memory s
unfolding end_closing set_status
end_closing-memory true s = refl
end_closing-memory false s = refl

pub close-memory :
    (code : StatusCode) (i : Bool) (s : Connection) → memory (close code i s) ≡ memory s
unfolding close start_closing set_status close_ws
close-memory code i s =
    let t : Connection = close_ws code (start_closing s) in
    end_closing-memory (waits_for_producer i s) (close_producer i t) ∙ close_producer-memory i t
