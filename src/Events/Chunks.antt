-- ===== src/Events/Chunks.antt =====
-- internal/events_dispatch.go, OnGuildMembersChunk.
pub mod Cached
use sandwich_daemon.Base.{Bool, true, Option, none, some, List, ℤ, if◌then◌else◌}
use sandwich_daemon.CsMap.{CsMap}
use sandwich_daemon.Cache
use sandwich_daemon.Cache.{Cache}
use sandwich_daemon.Discord.{Snowflake, GuildMember}
use sandwich_daemon.Strconv.{Bytes}
use sandwich_daemon.Outcome.{Action, pure, each, ◌>>◌}
use sandwich_daemon.State.{StateCtx, Env, same_id}
use sandwich_daemon.State.Members.{set_guild_member}
use sandwich_daemon.Events.{Message, Handled, failed, for_guild, dispatch, Daemon, on_state}
use sandwich_daemon.Connection.Chunks.{ChunkEvent, chunk, GuildChunks}

-- discord/events.go's GuildMembersChunk
pub record GuildMembersChunk : Type 0 where
  pub nonce : Bytes
  pub members : List GuildMember
  pub guild_id : Snowflake
  pub chunk_count : ℤ

-- Users and members are cached whatever the configuration says.
unfoldable pub force_caching : StateCtx → StateCtx
force_caching ctx = record ctx { cache_users = true; cache_members = true }

module _ ⦃lib : CsMap⦄ where
  -- What goes into the guild's chunking channel: the chunk, if the table has the guild and a ChunkGuild
  -- waits for it at that moment. Every entry of the table has a channel.
  unfoldable pub hand_chunk :
      Bool → GuildMembersChunk → Cache Snowflake GuildChunks → Option ChunkEvent
  hand_chunk is_awaited p table = elim (Cache.load same_id table p.guild_id) [
    | none ↦ none
    | some _ ↦ if is_awaited then some (chunk p.nonce p.chunk_count) else none
  ]

  unfoldable pub cache_members : Env → StateCtx → GuildMembersChunk → Action Daemon (Unit {0})
  unfolding force_caching
  cache_members env ctx p =
      on_state (each p.members (set_guild_member env (force_caching ctx) p.guild_id))

  -- OnGuildMembersChunk, with the chunk that it hands over.
  unfoldable pub on_guild_members_chunk :
      Env
      → StateCtx
      → Message
      → Bool
      → Cache Snowflake GuildChunks
      → Option GuildMembersChunk
      → Action Daemon (Handled × Option ChunkEvent)
  unfolding cache_members hand_chunk
  on_guild_members_chunk env ctx msg is_awaited table none = pure (failed, none)
  on_guild_members_chunk env ctx msg is_awaited table (some p) =
      cache_members env ctx p
      >> pure (dispatch msg (for_guild (some p.guild_id)), hand_chunk is_awaited p table)
