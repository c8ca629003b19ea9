-- ===== src/Websocket/Writer.antt =====
-- internal/msg_websocket.go, writeMessages, readMessages, the watchdog and handleReadMessages, each as
-- one round of its loop.
use sandwich_daemon.Base.{
  ℕ, ◌+◌, ◌==◌, ◌-◌, ltb, Bool, true, false, ◌||◌, Option, none, some, List, [], ◌∷◌, ℤ, pos,
  inc_int32, ℤ_discrete, ite, if◌then◌else◌,
}
use sandwich_daemon.Strconv.{Bytes}
use sandwich_daemon.Discord.{Snowflake}
use sandwich_daemon.Routing.{get_shard_id_of_guild}
use sandwich_daemon.Websocket.{
  SandwichPayload, RawMessage, Subscriber, subscriber_status_identified, SubscriberStatusCode,
  invalid_session,
}

-- What writeMessages does to the websocket.
pub data Written : Type 0 where
  wrote_message : SandwichPayload → Written
  wrote_raw : RawMessage → Written
  wrote_ack : Written
  websocket_failed : Written

-- The sequence number of a message: only a dispatch counts.
unfoldable pub number : Bool → SandwichPayload → Subscriber → SandwichPayload × Subscriber
unfolding inc_int32
number true msg s = (record msg { sequence = s.seq }, record s { seq = inc_int32 s.seq })
number false msg s = (record msg { sequence = pos 0 }, s)

unfoldable pub numbered : SandwichPayload → Subscriber → SandwichPayload × Subscriber
unfolding number
numbered msg s = number (msg.op == 0) msg s

-- What becomes of a message: it cannot be marshalled, it cannot be written, or it is written.
pub data Fate : Type 0 where
  unmarshalled : Fate
  unwritten : Fate
  on_wire : Fate

unfoldable pub after_message :
    Fate → SandwichPayload → Subscriber → List Written × Subscriber → List Written × Subscriber
after_message unmarshalled msg s rest = rest
after_message unwritten msg s rest = (websocket_failed ∷ [], record s { cancelled = true })
after_message on_wire msg s rest = (wrote_message msg ∷ rest.0, rest.1)

-- Case 2 of writeMessages: its rounds for the messages of writeNormal, in their order. The loop ends
-- when a message cannot be written.
unfoldable pub write_messages :
    (SandwichPayload → Fate) → List SandwichPayload → Subscriber → List Written × Subscriber
unfolding numbered after_message
write_messages fate [] s = ([], s)
write_messages fate (msg ∷ queue) s =
    let r : SandwichPayload × Subscriber = numbered msg s in
    let rest : List Written × Subscriber = write_messages fate queue r.1 in
    after_message (fate r.0) r.0 r.1 rest

unfoldable pub is_identified : SubscriberStatusCode → Bool
is_identified subscriber_status_identified = true
is_identified _ = false

-- heartbeatTimeout, in milliseconds
abbrev pub heartbeat_timeout : ℕ
heartbeat_timeout = 120000

-- A round of handleTimeoutWatchdog, every five seconds.
unfoldable pub watch : ℕ → Subscriber → Subscriber
unfolding is_identified
watch now s =
    if ltb heartbeat_timeout (now - s.last_heartbeat) || is_identified s.status
    then record s { cancelled = true }
    else s

-- What the reader gets: an error of the websocket, or a message of the consumer, which is one that does not decode, a heartbeat, or another, with its guild.
pub data Received : Type 0 where
  unread : Received
  garbage : Received
  client_heartbeat : Received
  client_packet : Option Snowflake → Received

-- A round of readMessages: the subscriber, and what goes to the reader.
unfoldable pub read_message :
    ℕ → Bytes → Received → Subscriber → Subscriber × Option (Option Snowflake)
unfolding invalid_session
read_message now reason unread s = (record s { cancelled = true }, none)
read_message now reason garbage s =
    (record (invalid_session reason true s) { cancelled = true }, none)
read_message now reason client_heartbeat s =
    (record s { last_heartbeat = now; acks = s.acks + 1 }, none)
read_message now reason (client_packet guild_id) s = (s, some guild_id)

-- The real shard that handleReadMessages sends a packet to: the subscriber's own if its count is the
-- real one, and otherwise the shard of the packet's guild; none without a guild, or for the guild 0.
unfoldable pub real_shard : ℤ → Option Snowflake → Subscriber → Option ℤ
unfolding get_shard_id_of_guild ℤ_discrete
real_shard no_shards guild_id s =
    ite (ℤ_discrete s.shard.1 no_shards) (some s.shard.0) (elim guild_id [
      | none ↦ none
      | some g ↦ ite (ℤ_discrete g (pos 0)) none (some (get_shard_id_of_guild g no_shards))
    ])
