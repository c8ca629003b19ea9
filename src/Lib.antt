-- ===== src/Lib.antt =====
-- Sandwich Daemon: the daemon holds connections to Discord's gateway (shards), keeps what the events
-- say in a state that all its bots share, and publishes the events to consumers.
--
-- The parts and their files:
-- - CsMap: the concurrent map of github.com/mhmtszr/concurrent-swiss-map, a parameter with its
--   documented laws; CsMap.Assoc is an association list that satisfies them.
-- - Cache and DoubleCache: internal/cache.go. A `Cache` field of a struct is a record; the `Cache`
--   structs that DoubleCache copies by value are records that name a map in a store, so that what a
--   copy shares, and what it does not, is as in Go. The locks of csmap make each call one step.
-- - Discord: the structures of discord/ with the fields that the modelled code uses. Every id is an
--   integer; a pointer that may be nil, and a slice where nil differs from empty, is an option.
-- - Outcome: Go functions that may panic. A panic keeps the state that it happened in, since
--   internal/events.go's OnDispatch recovers from it.
-- - State: internal/state.go, one child per kind of entry (Users, Members, Roles, Emojis, Channels,
--   Voice, Guilds), with each method of SandwichState under its name in this spelling (GetGuildMember
--   is get_guild_member). StateCtx holds the flags of a context; Env is the clock, which stands still
--   during one call, and whether a text is an RFC 3339 time.
-- - Strconv: decimal texts as bytes. Dedupe: internal/dedupe.go.
-- - Events: the handlers of internal/events_dispatch.go, which call the state's operations and the
--   dedupe table. A handler gets its payload decoded, or nothing where decodeContent fails; whether
--   makeExtra can marshal a value is part of the message. Chunks has OnGuildMembersChunk, with the
--   chunk that it hands to Connection.Chunks.
-- - Dispatch: internal/events.go's StateDispatch and OnDispatch, and internal/messaging.go's
--   PublishEvent up to the call of the producer. Ready has OnReady, whose loop handles the messages
--   that come before the guilds are there.
-- - Routing: the consumer shard of a payload (internal/manager.go) and the shard of a guild's id as
--   text (internal/utils.go). Ranges: the shard ids of a configuration (internal/utils.go,
--   internal/manager.go).
-- - Ejector: the tick of internal/sandwich.go's cacheEjector, over the guilds of ShardGroup's groups,
--   the state and the dedupe table.
-- - Connection: internal/shard.go and internal/events_gateway.go, the connection of a shard. The record
--   is Shard with the fields that the connection uses (Shard of State.Guilds has its caches); what it
--   tells the outside is logged in it, and what the outside answers to a call of Connect is an Attempt.
--   Connect, Reconnect, Gateway (the operations of the gateway) and Operations (Heartbeat and Listen)
--   have the code; Chunks has ChunkGuild, which reads the shared state, and AllChunks has
--   ChunkAllGuilds. Steps makes the operations one step relation. A function that calls Reconnect gets
--   a list of attempts, and ends in a state of its own when the list is used up, in which it waits for
--   the outside. The producer's CloseShard may not return (producer_blocks); Close and Reconnect then
--   wait in it.
-- - ShardGroup: internal/shardgroup.go, and Scale, AllReady and Close of internal/manager.go. Opening
--   has Open; the goroutine that Open leaves behind is on_all_ready, a step of its own, which stops at
--   the first group whose Close does not return. Found has internal/utils.go's findShardOfGuild.
-- - Websocket: internal/msg_websocket.go, the producer: the subscribers and publish; Identify has
--   IDENTIFY and RESUME, Initial the first messages (Announced and Created: the guilds that they name),
--   Writer the loops of a subscriber, Sessions how a session begins and ends, with subscribersMu as a
--   lock that can be held and waited for. Its messages come from Dispatch's packets, and its shard
--   count from Routing.
-- - Tests: concrete inputs.
--
-- Bounds: member counts, retries, chunks and sequence numbers are int32 with the wrap-around of `++`
-- and `--`; shard ids are cut to int32 as the source cuts them; ParseInt has the range of an int64. Ids
-- and times are integers without a bound. The digits of a number are printed on fuel, for which the
-- number itself is enough. The loops of Reconnect, Listen, Open and ChunkGuild take one answer of the
-- outside per round, from a list; nothing else bounds them. Loops over caches go through the entries in
-- the order that the map gives them; every other loop is on a list.
--
-- Not modelled: logging, Prometheus counters, webhooks and traces, which change nothing that the rest
-- reads; the call of ChunkAllGuilds at the end of OnReady; the text of a presence; WaitForIdentify,
-- Initialize and Open of internal/manager.go, which call the REST interface; the rest of the daemon
-- (internal/sandwich.go), the producers for message brokers (the other msg files), the HTTP interface
-- (internal/rest.go) and the REST wrappers of discord/. Goroutines are steps: two operations on one
-- connection, or two handlers within one event, do not interleave. The sends of publish, CloseShard,
-- StopSession and Close to a subscriber's channels wait at a full one and panic at a closed one; the
-- other sends to them are taken to be done.
pub mod Base
pub mod CsMap
pub mod Cache
pub mod DoubleCache
pub mod Discord
pub mod Outcome
pub mod State
pub mod Strconv
pub mod Dedupe
pub mod Events
pub mod Routing
pub mod Ranges
pub mod Dispatch
pub mod Ejector
pub mod Tests
pub mod Connection
pub mod ShardGroup
pub mod Websocket
