-- ===== src/Connection/Chunks.antt =====
-- internal/shard.go, ChunkGuild: the members of a guild are asked for, and their chunks counted.
use sandwich_daemon.Base.{
  ℕ, Bool, true, false, ◌||◌, Option, none, some, List, [], ◌∷◌, ℤ, pos, ltb_ℤ, inc_int32, ite,
  if◌then◌else◌,
}
use sandwich_daemon.CsMap.{CsMap}
use sandwich_daemon.Cache
use sandwich_daemon.Cache.{Cache}
use sandwich_daemon.DoubleCache
use sandwich_daemon.Discord.{Snowflake}
use sandwich_daemon.Strconv.{Bytes, same_bytes}
use sandwich_daemon.State.{SandwichState, same_id}
use sandwich_daemon.Connection.{Connection, request_guild_members}
use sandwich_daemon.Connection.Connect.{Cause, Attempt}
use sandwich_daemon.Connection.Reconnect.{SendError, Sending, ended, blocked, send_event}

-- A chunk that OnGuildMembersChunk hands over: its nonce and its chunk count; or the timer.
pub data ChunkEvent : Type 0 where
  chunk : Bytes → ℤ → ChunkEvent
  timeout : ChunkEvent

-- The loop ended, or waits for the next event; `chunksReceived` and `totalChunks`.
pub data Collected : Type 0 where
  received_all : ℤ → ℤ → Collected
  timed_out : ℤ → ℤ → Collected
  collecting : ℤ → ℤ → Collected

-- The loop guildChunkLoop. The timer starts again with each chunk that counts, so that an event
-- `timeout` means that two seconds passed without one.
unfoldable pub collect : Bytes → ℤ → ℤ → List ChunkEvent → Collected
unfolding same_bytes inc_int32
collect nonce received total [] = collecting received total
collect nonce received total (timeout ∷ events) = timed_out received total
collect nonce received total (chunk n count ∷ events) =
    let skipped : Collected = collect nonce received total events in
    let counted : Collected = collect nonce (inc_int32 received) count events in
    ite (same_bytes n nonce)
      (if ltb_ℤ (inc_int32 received) count
        then counted
        else received_all (inc_int32 received) count)
      skipped

-- GuildChunks, of internal/sandwich.go, whose chunking channel ChunkGuild makes.
pub record GuildChunks : Type 0 where
  pub started_at : ℕ
  pub completed_at : ℕ
  pub chunk_count : ℤ
  pub complete : Bool

abbrev pub no_chunks : GuildChunks
no_chunks = record { started_at = 0; completed_at = 0; chunk_count = pos 0; complete = false }

-- What ChunkGuild returns, with the answers for Reconnect that are left; or it waits, in SendEvent or
-- in its loop.
pub data Chunking : Type 0 where
  chunked : Bool → List Attempt → Connection → Chunking
  not_requested : SendError → List Attempt → Connection → Chunking
  chunking : Connection → Chunking

unfoldable pub end_chunking : List Attempt → Connection → Collected → Chunking
end_chunking rest s (received_all received total) = chunked true rest s
end_chunking rest s (timed_out received total) = chunked true rest s
end_chunking rest s (collecting received total) = chunking s

unfoldable pub after_request : Bytes → List ChunkEvent → Sending → Chunking
unfolding end_chunking collect
after_request nonce events (ended rest none s) =
    end_chunking rest s (collect nonce (pos 0) (pos 0) events)
after_request nonce events (ended rest (some e) s) = not_requested e rest s
after_request nonce events (blocked s) = chunking s

module _ ⦃lib : CsMap⦄ where
  -- The number of cached members of a guild.
  unfoldable pub member_count : SandwichState → Snowflake → ℕ
  member_count ss guild_id = elim (DoubleCache.inner same_id ss.guild_members guild_id) [
    | none ↦ 0
    | some gm ↦ DoubleCache.inner_count ss.guild_members.cells gm
  ]

  unfoldable pub needs_chunking : SandwichState → Snowflake → Bool
  unfolding member_count
  needs_chunking ss guild_id = elim (Cache.load same_id ss.guilds guild_id) [
    | none ↦ true
    | some guild ↦ ltb_ℤ (pos (member_count ss guild_id)) guild.member_count
  ]

  -- The table of chunks gets an entry for the guild. The entry is a copy from then on: what ChunkGuild
  -- stores in it does not reach the table.
  unfoldable pub chunk_entry : Cache Snowflake GuildChunks → Snowflake → Cache Snowflake GuildChunks
  chunk_entry table guild_id = elim (Cache.load same_id table guild_id) [
    | none ↦ Cache.store same_id table guild_id no_chunks
    | some _ ↦ table
  ]

  -- ChunkGuild. `nonce` is the request's, or random; `written` is the error of writing the request.
  unfoldable pub chunk_guild :
      SandwichState
      → Cache Snowflake GuildChunks
      → Snowflake
      → Bool
      → Bytes
      → Option Cause
      → List Attempt
      → List ChunkEvent
      → Connection
      → Cache Snowflake GuildChunks × Chunking
  unfolding chunk_entry needs_chunking after_request send_event
  chunk_guild ss table guild_id always_chunk nonce written attempts events s = (
    chunk_entry table guild_id,
    if needs_chunking ss guild_id || always_chunk
        then after_request nonce events
            (send_event written attempts (request_guild_members guild_id nonce) s)
        else chunked false attempts s,
  )
