-- ===== src/Websocket/Tokens.antt =====
-- internal/msg_websocket.go, identifyClient: what an accepted IDENTIFY has, and that no RESUME of a
-- session is accepted.
use sandwich_daemon.Base.{
  false, Option, none, [], ℤ, ltb_ℤ, ◌≤ℤ◌, ◌≡◌, ◌≢◌, ◌∙◌, refl, sym, arith, if_pos, if_neg,
  Bool-cases, inl, inr,
}
use sandwich_daemon.Strconv.{Bytes, same_bytes}
use sandwich_daemon.Websocket.{Subscriber, ShardPair, Subscribers}
use sandwich_daemon.Websocket.Identify.{
  strip_bot, IdentifyData, ResumeData, IdentifyError, invalid_session_id, invalid_token, Identified,
  identified, rejected, with_count, check_shard, accept_identify, accept_resume, find_session,
  take_over,
}

-- An accepted IDENTIFY: the new session, for a shard and a count that are not above the consumers'
-- count, with the token that is expected and no old session. The count is the consumers' where the
-- client sent none.
pub record IsAccepted (expected_token : Bytes) (csc : ℤ) (session : Bytes) (i : IdentifyData)
    (s : Subscriber) (old : Option Subscriber) : Type 0 where
  token : strip_bot i.token ≡ expected_token
  new_session : s.session_id ≡ session
  no_old : old ≡ none
  count_bound : s.shard.1 ≤ℤ csc
  shard_bound : s.shard.0 ≤ℤ csc
  shard_kept : s.shard.0 ≡ i.shard.0

-- The outcome of an IDENTIFY: accepted, or refused.
pub data Judged (expected_token : Bytes) (csc : ℤ) (session : Bytes) (i : IdentifyData)
    : Identified → Type 0 where
  accepted :
      (s : Subscriber) (old : Option Subscriber)
      → IsAccepted expected_token csc session i s old
      → Judged expected_token csc session i (identified s old)
  refused :
      (e : IdentifyError) (s : Subscriber) → Judged expected_token csc session i (rejected e s)

ltb_ℤ-not : (a b : ℤ) → ltb_ℤ b a ≡ false → a ≤ℤ b
ltb_ℤ-not a b h = ground (arith, h)

with_count-shard : (csc : ℤ) (shard : ShardPair) → (with_count csc shard).0 ≡ shard.0
unfolding with_count
with_count-shard csc shard = ground arith

check_shard-Judged :
    (expected_token : Bytes) (csc : ℤ) (session : Bytes) (i : IdentifyData) (s : Subscriber)
    (shard : ShardPair)
    → strip_bot i.token ≡ expected_token
    → s.session_id ≡ session
    → shard.0 ≡ i.shard.0
    → Judged expected_token csc session i (check_shard csc shard s)
unfolding check_shard
check_shard-Judged expected_token csc session i s shard t n k =
    elim (Bool-cases (ltb_ℤ csc shard.1)) [
      | inl e ↦ rw e (refused _ s)
      | inr e ↦ elim (Bool-cases (ltb_ℤ csc shard.0)) [
        | inl f ↦ rw (e, f) (refused _ s)
        | inr f ↦
            rw (e, f)
              (accepted (record s { shard = shard }) none
                (record {
                  token = t;
                  new_session = n;
                  no_old = refl;
                  count_bound = ltb_ℤ-not shard.1 csc e;
                  shard_bound = ltb_ℤ-not shard.0 csc f;
                  shard_kept = k;
                }))
      ]
    ]

-- An IDENTIFY is refused, or accepted for the client's shard id with the session id that was made, and then its token without "Bot " is the expected one, and neither the shard id nor the shard count is above the consumers' shard count.
pub accept_identify-Judged :
    (expected_token : Bytes) (csc : ℤ) (session : Bytes) (i : IdentifyData) (s : Subscriber)
    → Judged expected_token csc session i (accept_identify expected_token csc session i s)
unfolding accept_identify
accept_identify-Judged expected_token csc session i s =
    elim (same_bytes (strip_bot i.token) expected_token) [
      | yes e ↦ rw (if_pos (same_bytes (strip_bot i.token) expected_token) e) (
          check_shard-Judged expected_token csc session i (record s { session_id = session })
            (with_count csc i.shard) e refl (with_count-shard csc i.shard))
      | no h ↦
          rw (if_neg (same_bytes (strip_bot i.token) expected_token) h) (refused invalid_token s)
    ]

find_session-other :
    (own wanted : Bytes) (subscribers : Subscribers)
    → own ≢ wanted
    → find_session own wanted subscribers ≡ none
unfolding find_session
find_session-other own wanted subscribers h = if_neg (same_bytes own wanted) h _ _

-- A new connection cannot resume a session: a RESUME that names a session id is refused, whatever its token and the sessions are.
pub accept_resume-rejects :
    (expected_token : Bytes) (csc : ℤ) (subscribers : Subscribers) (r : ResumeData) (s : Subscriber)
    → s.session_id ≡ []
    → r.session_id ≢ []
    → (e : IdentifyError) × (accept_resume expected_token csc subscribers r s ≡ rejected e s)
unfolding accept_resume take_over
accept_resume-rejects expected_token csc subscribers r s h k =
    let other : find_session s.session_id r.session_id subscribers ≡ none =
      find_session-other s.session_id r.session_id subscribers (λ e. k (sym e ∙ h)) in
    elim (same_bytes (strip_bot r.token) expected_token) [
      | yes e ↦ (
        invalid_session_id,
        rw (if_pos (same_bytes (strip_bot r.token) expected_token) e, other) refl,
      )
      | no n ↦ (invalid_token, rw (if_neg (same_bytes (strip_bot r.token) expected_token) n) refl)
    ]
