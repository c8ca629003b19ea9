-- ===== src/Tests/Connections.antt =====
-- The theorems on the connection of a shard and on shard groups at concrete inputs.
use sandwich_daemon.Base.{
  inr, ◌≡◌, ◌≢◌, pos, none, some, List, [], ◌∷◌, refl, arith, true, false, inl,
}
use sandwich_daemon.CsMap.Assoc.{assoc}
use sandwich_daemon.Cache.{new_cache}
use sandwich_daemon.Strconv.{Bytes, same_bytes}
use sandwich_daemon.State.{new_sandwich_state}
use sandwich_daemon.Connection.{Connection, normal_closure, new_shard}
use sandwich_daemon.Connection.Connect.{
  Attempt, refused, dialled, hello, other_cause, connect, undecoded,
}
use sandwich_daemon.Connection.Statuses.{connect-status, left_status, tried}
use sandwich_daemon.Connection.Reconnect.{reconnect}
use sandwich_daemon.Connection.Retries.{
  IsGood, Succeeded, reconnect-Succeeded, IsUndefeated, reconnect-IsUndefeated,
}
use sandwich_daemon.Connection.Pauses.{IsPaced, reconnect-pauses}
use sandwich_daemon.Connection.Gateway.{gateway_op_invalid_session}
use sandwich_daemon.Connection.Fresh.{handling_state, resumes, gateway_op_invalid_session-resumes}
use sandwich_daemon.Connection.Consistent.{IsConsistent}
use sandwich_daemon.Connection.Steps.{new, step, connects, Reach-IsConsistent}
use sandwich_daemon.Connection.Chunks.{ChunkEvent, chunk}
use sandwich_daemon.Connection.Collected.{no_events, own_chunk, other_chunk}
use sandwich_daemon.Discord.{Snowflake}
use sandwich_daemon.Connection.AllChunks.{
  Meeting, IsAnswered, answered, all_chunked, requested, chunk_all_guilds,
  chunk_all_guilds-requested,
}
use sandwich_daemon.ShardGroup.{new_shard_group, Manager, all_ready, on_all_ready}
use sandwich_daemon.ShardGroup.Opening.{connect_first}
use sandwich_daemon.ShardGroup.Attempts.{Ended, connect_first-ends}
use sandwich_daemon.Strconv.{format_int}
use sandwich_daemon.Routing.{get_shard_id_of_guild}
use sandwich_daemon.ShardGroup.Found.{IsResult, find_shard_of_guild, find_shard_of_guild-IsResult}
use sandwich_daemon.ShardGroup.Handover.{
  AreHandedOver, on_all_ready-AreHandedOver, all_ready-unready,
}

-- An attempt that succeeds, one that cannot dial, and one whose HELLO does not decode.
abbrev good : Attempt
good = record {
  dialling = dialled 7;
  greeting = hello (pos 41250);
  waited = none;
  written = none;
  now = 1000;
}

abbrev offline : Attempt
offline = record good { dialling = refused other_cause }

abbrev garbled : Attempt
garbled = record good { greeting = undecoded }

good-IsGood : IsGood good
good-IsGood = record {
  conn = 7;
  interval = 41249;
  dials = refl;
  greets = refl;
  waits = refl;
  writes = refl;
}

-- Shard 0 of 2, new, and with a session.
abbrev shard : Connection
shard = new_shard (pos 0) (pos 2) true

abbrev running : Connection
running = record shard { session_id = 97 ∷ 98 ∷ []; sequence = pos 12; ws_conn = some 3 }

connect-status_example :
    (connect good shard).1.status ≡ left_status (connect good shard).0 (tried shard.status)
connect-status_example = connect-status good shard

reconnect-Succeeded_example :
    Succeeded (reconnect normal_closure (offline ∷ garbled ∷ good ∷ []) shard)
unfolding new_shard
reconnect-Succeeded_example =
    reconnect-Succeeded normal_closure (offline ∷ garbled ∷ []) good [] shard good-IsGood
      (9, refl, omega arith)

reconnect-IsUndefeated_example :
    IsUndefeated (reconnect normal_closure (offline ∷ offline ∷ []) shard)
unfolding new_shard
reconnect-IsUndefeated_example =
    reconnect-IsUndefeated normal_closure (offline ∷ offline ∷ []) shard (9, refl, omega arith)

reconnect-pauses_example :
    IsPaced 0
      (offline ∷ garbled ∷ offline ∷ [])
      (reconnect normal_closure (offline ∷ garbled ∷ offline ∷ []) shard)
unfolding new_shard
reconnect-pauses_example =
    reconnect-pauses normal_closure (offline ∷ garbled ∷ offline ∷ []) shard (9, refl, omega arith)

gateway_op_invalid_session-resumes_example :
    ((handling_state
        (gateway_op_invalid_session (some false) (offline ∷ good ∷ []) running)).session_id
      ≡ [])
    × (resumes
          (handling_state
            (gateway_op_invalid_session (some false) (offline ∷ good ∷ []) running)).outputs
        ≡ resumes running.outputs)
gateway_op_invalid_session-resumes_example =
    gateway_op_invalid_session-resumes (offline ∷ good ∷ []) running

Reach-IsConsistent_example : IsConsistent (connect good shard).1
Reach-IsConsistent_example =
    Reach-IsConsistent (step (new (pos 0) (pos 2) true) (connects good shard))

-- Two chunks with the nonce "n" of two, with another request's between.
abbrev nonce : Bytes
nonce = 110 ∷ []

abbrev chunks : List ChunkEvent
chunks = chunk nonce (pos 2) ∷ chunk [] (pos 5) ∷ chunk nonce (pos 2) ∷ []

other_nonce : [] ≢ nonce
other_nonce e = cc

abbrev met : Snowflake → Meeting
met _ = record { state = new_sandwich_state; nonce = nonce; written = none; events = chunks }

met-IsAnswered : (id : Snowflake) → IsAnswered (met id)
unfolding same_bytes
met-IsAnswered _ =
    answered 2 (omega arith) (omega arith)
      (own_chunk _ (other_chunk [] (pos 5) _ other_nonce (own_chunk [] no_events))) (omega arith)
      refl

chunk_all_guilds-requested_example :
    (chunk_all_guilds met (pos 5 ∷ pos 7 ∷ []) (new_cache 50) [] running).1
    ≡ all_chunked [] (requested met (pos 5 ∷ pos 7 ∷ []) running)
chunk_all_guilds-requested_example =
    chunk_all_guilds-requested met (pos 5 ∷ pos 7 ∷ []) (new_cache 50) [] running 3 refl
      met-IsAnswered

connect_first-ends_example :
    Ended (connect_first (offline ∷ offline ∷ []) (record shard { retries_remaining = pos 1 }))
connect_first-ends_example =
    connect_first-ends 1 (offline ∷ offline ∷ []) (record shard { retries_remaining = pos 1 }) refl
      (omega arith)

-- A manager with an old group that was never ready, and a new one.
abbrev manager : Manager
manager = record {
  shard_groups =
      (pos 1, new_shard_group (pos 1) (pos 0 ∷ []) (pos 1))
      ∷ (pos 2, new_shard_group (pos 2) (pos 0 ∷ pos 1 ∷ []) (pos 2))
      ∷ [];
  shard_group_counter = pos 2;
  is_closing = false;
  has_producer = true;
}

-- The other group has shard 0, with a producer whose CloseShard returns.
abbrev served : Manager
served = record manager {
  shard_groups =
      (
        pos 1,
        record (new_shard_group (pos 1) (pos 0 ∷ []) (pos 2)) {
          shards = (pos 0, new_shard (pos 0) (pos 2) true) ∷ [];
        },
      )
      ∷ (pos 2, new_shard_group (pos 2) (pos 0 ∷ []) (pos 2))
      ∷ [];
}

on_all_ready-AreHandedOver_example :
    AreHandedOver (pos 2) (on_all_ready (pos 2) served).shard_groups
unfolding new_shard_group new_shard
on_all_ready-AreHandedOver_example =
    on_all_ready-AreHandedOver (pos 2) served ((inr ((inr refl, tt)), (inl refl, tt)))

other_id : pos 1 ≢ pos 2
other_id e = cc

all_ready-unready_example : all_ready (on_all_ready (pos 2) manager) ≡ false
unfolding new_shard_group
all_ready-unready_example = all_ready-unready (pos 2) manager (inl (other_id, refl))

-- A manager whose second group has shard 0.
abbrev sharded : Manager
sharded = record manager {
  shard_groups =
      (pos 1, new_shard_group (pos 1) (pos 1 ∷ []) (pos 2))
      ∷ (
        pos 2,
        record (new_shard_group (pos 2) (pos 0 ∷ []) (pos 2)) { shards = (pos 0, shard) ∷ [] },
      )
      ∷ [];
}

find_shard_of_guild-IsResult_example :
    IsResult
      (get_shard_id_of_guild (pos 90) (pos 2))
      sharded.shard_groups
      (find_shard_of_guild (format_int (pos 90)) 1 sharded)
find_shard_of_guild-IsResult_example = find_shard_of_guild-IsResult 90 1 sharded (omega arith)
