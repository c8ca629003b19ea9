-- ===== src/Websocket/Identify.antt =====
-- internal/msg_websocket.go, identifyClient: IDENTIFY and RESUME of a consumer.
use sandwich_daemon.Base.{
  ◌==◌, ◌&&◌, Option, none, some, List, [], ◌∷◌, ◌++◌, ℤ, ltb_ℤ, ite, if◌then◌else◌,
}
use sandwich_daemon.Strconv.{Bytes, same_bytes}
use sandwich_daemon.Websocket.{hello_payload, Subscriber, ShardPair, Subscribers, is_not_positive}

-- `strings.Replace(token, "Bot ", "", 1)`: the first "Bot " goes, wherever it stands.
unfoldable pub strip_bot : Bytes → Bytes
strip_bot (b ∷ o ∷ t ∷ sp ∷ rest) =
    let later = strip_bot (o ∷ t ∷ sp ∷ rest) in
    if b == 66 && o == 111 && t == 116 && sp == 32 then rest else b ∷ later
strip_bot text = text

pub record IdentifyData : Type 0 where
  pub token : Bytes
  pub shard : ShardPair

pub record ResumeData : Type 0 where
  pub token : Bytes
  pub session_id : Bytes
  pub seq : ℤ

-- A packet of the reader: `none` where it does not decode.
pub data ReaderPacket : Type 0 where
  identify_packet : Option IdentifyData → ReaderPacket
  resume_packet : Option ResumeData → ReaderPacket
  other_packet : ReaderPacket

pub data IdentifyError : Type 0 where
  not_unmarshalled : IdentifyError
  invalid_token : IdentifyError
  invalid_count : ℤ → ℤ → IdentifyError
  invalid_shard : ℤ → ℤ → IdentifyError
  invalid_session_id : IdentifyError
  identify_timeout : IdentifyError

-- identifyClient returned, with the subscriber and the session that it resumes, or waits for a packet.
pub data Identified : Type 0 where
  identified : Subscriber → Option Subscriber → Identified
  rejected : IdentifyError → Subscriber → Identified
  waiting : Subscriber → Identified

-- dpy/serenity workaround
unfoldable pub with_count : ℤ → ShardPair → ShardPair
unfolding is_not_positive
with_count csc shard = if is_not_positive shard.1 then (shard.0, csc) else shard

unfoldable pub check_shard : ℤ → ShardPair → Subscriber → Identified
check_shard csc shard s =
    if ltb_ℤ csc shard.1
    then rejected (invalid_count shard.1 csc) s
    else if ltb_ℤ csc shard.0
    then rejected (invalid_shard shard.0 csc) s
    else identified (record s { shard = shard }) none

-- IDENTIFY. `session` is the random session id, `csc` the consumers' shard count.
unfoldable pub accept_identify : Bytes → ℤ → Bytes → IdentifyData → Subscriber → Identified
unfolding strip_bot same_bytes with_count check_shard
accept_identify expected_token csc session i s =
    ite (same_bytes (strip_bot i.token) expected_token)
      (check_shard csc (with_count csc i.shard) (record s { session_id = session }))
      (rejected invalid_token s)

-- The session that `range` comes to first.
unfoldable pub any_session : Subscribers → Option Subscriber
any_session [] = none
any_session ((k, []) ∷ rest) = any_session rest
any_session ((k, old ∷ subs) ∷ rest) = some old

-- The loops over the sessions: the condition compares the new subscriber's own session id, so that it
-- holds for the first session or for none.
unfoldable pub find_session : Bytes → Bytes → Subscribers → Option Subscriber
unfolding same_bytes any_session
find_session own wanted subscribers = ite (same_bytes own wanted) (any_session subscribers) none

unfoldable pub take_over : ℤ → ResumeData → Subscriber → Option Subscriber → Identified
unfolding with_count
take_over csc r s none = rejected invalid_session_id s
take_over csc r s (some old) =
    identified (record s { seq = r.seq; shard = with_count csc old.shard }) (some old)

-- RESUME
unfoldable pub accept_resume : Bytes → ℤ → Subscribers → ResumeData → Subscriber → Identified
unfolding strip_bot same_bytes take_over find_session
accept_resume expected_token csc subscribers r s =
    ite (same_bytes (strip_bot r.token) expected_token)
      (take_over csc r s (find_session s.session_id r.session_id subscribers))
      (rejected invalid_token s)

-- What the loop's select gives.
pub data IdentifyEvent : Type 0 where
  context_done : IdentifyEvent
  five_seconds : IdentifyEvent
  packet : ReaderPacket → IdentifyEvent

unfoldable pub identify_loop :
    Bytes → ℤ → Bytes → Subscribers → List IdentifyEvent → Subscriber → Identified
unfolding accept_identify accept_resume
identify_loop expected_token csc session subscribers [] s = waiting s
identify_loop expected_token csc session subscribers (context_done ∷ events) s = identified s none
identify_loop expected_token csc session subscribers (five_seconds ∷ events) s =
    rejected identify_timeout s
identify_loop expected_token csc session subscribers (packet other_packet ∷ events) s =
    identify_loop expected_token csc session subscribers events s
identify_loop expected_token csc session subscribers (packet (identify_packet none) ∷ events) s =
    rejected not_unmarshalled s
identify_loop expected_token csc session subscribers (packet (identify_packet (some i)) ∷ events)
      s =
    accept_identify expected_token csc session i s
identify_loop expected_token csc session subscribers (packet (resume_packet none) ∷ events) s =
    rejected not_unmarshalled s
identify_loop expected_token csc session subscribers (packet (resume_packet (some r)) ∷ events) s =
    accept_resume expected_token csc subscribers r s

-- identifyClient
unfoldable pub identify_client :
    Bytes → ℤ → Bytes → Subscribers → List IdentifyEvent → Subscriber → Identified
unfolding identify_loop
identify_client expected_token csc session subscribers events s =
    identify_loop expected_token csc session subscribers events
      (record s { write_bytes = s.write_bytes ++ hello_payload ∷ [] })
