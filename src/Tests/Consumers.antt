-- ===== src/Tests/Consumers.antt =====
-- The theorems on the websocket producer at concrete inputs.
use sandwich_daemon.Base.{
  List, true, none, ◌<◌, ◌+◌, ◌≡◌, ◌≢◌, pos, some, [], ◌∷◌, refl, arith, false, inl, inr, get_elem?,
}
use sandwich_daemon.Strconv.{Bytes}
use sandwich_daemon.CsMap.Assoc.{assoc}
use sandwich_daemon.Tests.{with_club}
use sandwich_daemon.Discord.{Snowflake, Guild}
use sandwich_daemon.Websocket.Created.{ListsOwn, Creates, IsSent, dispatch_initial-ready}
use sandwich_daemon.Events.{for_guild}
use sandwich_daemon.Connection.{close_shard_reason_other}
use sandwich_daemon.Websocket.{
  SandwichPayload, Subscriber, Subscribers, subscriber_status_ready, delivery,
}
use sandwich_daemon.Websocket.Publish.{delivery-any_shard}
use sandwich_daemon.Websocket.Identify.{
  IdentifyData, ResumeData, IdentifyError, accept_identify, accept_resume, rejected,
}
use sandwich_daemon.Websocket.Tokens.{Judged, accept_identify-Judged, accept_resume-rejects}
use sandwich_daemon.Websocket.Writer.{write_messages, on_wire}
use sandwich_daemon.Websocket.Sequences.{with_sequence, dispatches_before, write_messages-sequence}
use sandwich_daemon.Websocket.Initial.{Initial, ready_event, dispatch_initial}
use sandwich_daemon.Websocket.Sessions.{RwMutex, write_lock, close_shard, is_on_shard}
use sandwich_daemon.Websocket.Locks.{Deadlocks, close_shard-Deadlocks}

-- Two subscribers of two shards, and a message for guild 7.
abbrev first : Subscriber
first = record {
  key = 1;
  session_id = 97 ∷ [];
  shard = (pos 0, pos 2);
  seq = pos 0;
  status = subscriber_status_ready;
  last_heartbeat = 0;
  cancelled = false;
  closed = false;
  write_normal = [];
  write_bytes = [];
  closing = [];
  acks = 0;
}

abbrev second : Subscriber
second = record first { key = 2; session_id = 98 ∷ []; shard = (pos 1, pos 2) }

abbrev new_client : Subscriber
new_client = record first { key = 3; session_id = []; shard = (pos 0, pos 0) }

abbrev subscribers : Subscribers
subscribers = ((pos 0, pos 2), first ∷ []) ∷ ((pos 1, pos 2), second ∷ []) ∷ []

abbrev message : SandwichPayload
message = record {
  op = 0;
  sequence = pos 0;
  kind = 77 ∷ [];
  data_text = 123 ∷ 125 ∷ [];
  identifier = some (for_guild (some (pos 7)));
  metadata_shard = (pos 0, pos 0, pos 2);
}

other_count : pos 4 ≢ pos 2
other_count e = cc

delivery-any_shard_example :
    delivery (pos 0, pos 2) (some (for_guild (some (pos 7)))) (pos 1, pos 4)
    ≡ delivery (pos 0, pos 2) (some (for_guild (some (pos 7)))) (pos 3, pos 4)
delivery-any_shard_example =
    delivery-any_shard (pos 0, pos 2) (for_guild (some (pos 7))) (pos 7) (pos 1) (pos 3) (pos 4)
      refl other_count

-- "Bot t"
abbrev bot_token : Bytes
bot_token = 66 ∷ 111 ∷ 116 ∷ 32 ∷ 116 ∷ []

abbrev identify_data : IdentifyData
identify_data = record { token = bot_token; shard = (pos 1, pos 2) }

accept_identify-Judged_example :
    Judged
      (116 ∷ [])
      (pos 2)
      (99 ∷ [])
      identify_data
      (accept_identify (116 ∷ []) (pos 2) (99 ∷ []) identify_data new_client)
accept_identify-Judged_example =
    accept_identify-Judged (116 ∷ []) (pos 2) (99 ∷ []) identify_data new_client

abbrev session : Bytes
session = 97 ∷ []

abbrev resume_data : ResumeData
resume_data = record { token = bot_token; session_id = session; seq = pos 3 }

has_session : session ≢ []
has_session e = cc

accept_resume-rejects_example :
    (e : IdentifyError) × (accept_resume (116 ∷ []) (pos 2) subscribers resume_data new_client
      ≡ rejected e new_client)
accept_resume-rejects_example =
    accept_resume-rejects (116 ∷ []) (pos 2) subscribers resume_data new_client refl has_session

write_messages-sequence_example :
    get_elem?
      (write_messages (λ _. on_wire) (message ∷ record message { op = 9 } ∷ message ∷ []) first).0
      2
    ≡ some (
        with_sequence
          (0 + dispatches_before 2 (message ∷ record message { op = 9 } ∷ message ∷ []))
          message)
write_messages-sequence_example =
    write_messages-sequence (message ∷ record message { op = 9 } ∷ message ∷ []) 0 first 2 message
      refl (omega arith) refl

dispatch_initial-ready_example :
    (dispatch_initial false true with_club (λ _. true) (λ _. false) (pos 2) [] (pos 0, pos 2)
      ≡ ready_event [] (pos 0, pos 2) [] ∷ [])
    × (ids : List Snowflake) × (creates : List Initial) × (dispatch_initial false false with_club
          (λ _. true)
          (λ _. false)
          (pos 2)
          []
          (pos 0, pos 2)
        ≡ ready_event [] (pos 0, pos 2) ids ∷ creates)
    × ListsOwn with_club (pos 2) (pos 0, pos 2) ids
    × ((g : Guild)
        → Creates g creates
        → IsSent with_club (λ _. true) (λ _. false) (pos 2) (pos 0, pos 2) g ids)
    × (((id : Snowflake) → false ≡ false)
        → (g : Guild) → IsSent with_club (λ _. true) (λ _. false) (pos 2) (pos 0, pos 2) g ids
        → Creates g creates)
dispatch_initial-ready_example =
    dispatch_initial-ready with_club (λ _. true) (λ _. false) (pos 2) [] (pos 0, pos 2)

abbrev unlocked : RwMutex
unlocked = record { readers = 0; writer = false }

room : (false ≡ false) × (0 < 1) × (0 < 1)
room = (refl, omega arith, omega arith)

close_shard-Deadlocks_example :
    Deadlocks 0 (close_shard 1 (pos 1) close_shard_reason_other unlocked subscribers)
    × ((m : RwMutex) → 0 < m.readers → write_lock m ≡ none)
unfolding is_on_shard
close_shard-Deadlocks_example =
    close_shard-Deadlocks 1 (pos 1) unlocked subscribers refl (inr (inl (inl refl)))
      (((λ _. room), tt), (((λ _. room), tt), tt))
