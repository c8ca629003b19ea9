-- ===== src/Connection/AllChunks.antt =====
-- internal/shard.go, ChunkAllGuilds: the guilds of the shard are chunked one after the other.
use sandwich_daemon.Base.{
  ℕ, Bool, true, false, ◌||◌, ◌≤◌, ◌<◌, none, some, Option, List, [], ◌∷◌, Bool-cases, inl, inr,
  if◌then◌else◌, ◌≡◌, refl, ap, sym, ◌∙◌, ◌⊎◌,
}
use sandwich_daemon.CsMap.{CsMap}
use sandwich_daemon.Cache.{Cache}
use sandwich_daemon.Discord.{Snowflake}
use sandwich_daemon.Strconv.{Bytes}
use sandwich_daemon.State.{SandwichState}
use sandwich_daemon.Connection.{Connection, request_guild_members, sent, emit}
use sandwich_daemon.Connection.Connect.{Cause, Attempt}
use sandwich_daemon.Connection.Chunks.{
  ChunkEvent, GuildChunks, Chunking, chunked, not_requested, chunking, chunk_entry, chunk_guild,
  needs_chunking,
}
use sandwich_daemon.Connection.Collected.{matching, AreChunks, chunk_guild-returns}

-- ChunkAllGuilds returned, or waits within ChunkGuild.
pub data AllChunks : Type 0 where
  all_chunked : List Attempt → Connection → AllChunks
  still_chunking : Connection → AllChunks

module _ ⦃lib : CsMap⦄ where
  -- What ChunkGuild meets at one guild: the shared state at its call, its random nonce, the error of
  -- writing the request, and the chunks that come until it returns.
  pub record Meeting : Type 0 where
    pub state : SandwichState
    pub nonce : Bytes
    pub written : Option Cause
    pub events : List ChunkEvent

  -- The guilds in the order of Range. An error of ChunkGuild is only logged.
  unfoldable pub chunk_all_guilds :
      (Snowflake → Meeting)
      → List Snowflake
      → Cache Snowflake GuildChunks
      → List Attempt
      → Connection
      → Cache Snowflake GuildChunks × AllChunks
  unfolding chunk_guild
  chunk_all_guilds met [] table attempts s = (table, all_chunked attempts s)
  chunk_all_guilds met (id ∷ ids) table attempts s =
      let m : Meeting = met id in
      let r : Cache Snowflake GuildChunks × Chunking =
        chunk_guild m.state table id false m.nonce m.written attempts m.events s in
      elim r.1 [
        | chunked _ rest t ↦ chunk_all_guilds met ids r.0 rest t
        | not_requested _ rest t ↦ chunk_all_guilds met ids r.0 rest t
        | chunking t ↦ (r.0, still_chunking t)
      ]

  -- All chunks of the request come, and it can be written.
  pub data IsAnswered (m : Meeting) : Type 0 where
    answered :
        (total : ℕ)
        → 0 < total
        → total ≤ 2147483647
        → AreChunks m.nonce total m.events
        → total ≤ matching m.nonce m.events
        → m.written ≡ none
        → IsAnswered m

  -- The connection after a request for each guild that needs it, in order.
  unfoldable pub requested : (Snowflake → Meeting) → List Snowflake → Connection → Connection
  requested met [] s = s
  requested met (id ∷ ids) s = requested met ids (
      if needs_chunking (met id).state id
      then emit (sent (request_guild_members id (met id).nonce)) s
      else s)

  module _ (state : SandwichState) (table : Cache Snowflake GuildChunks) (id : Snowflake)
      (nonce : Bytes) (attempts : List Attempt) (events : List ChunkEvent) (s : Connection) where
    chunk_guild-needed :
        (written : Option Cause) (n total : ℕ)
        → needs_chunking state id ≡ true
        → s.ws_conn ≡ some n
        → 0 < total
        → total ≤ 2147483647
        → AreChunks nonce total events
        → total ≤ matching nonce events
        → written ≡ none
        → (chunk_guild state table id false nonce written attempts events s).1
          ≡ chunked true attempts (emit (sent (request_guild_members id nonce)) s)
    chunk_guild-needed written n total e c h b k l w = rw w (
        chunk_guild-returns state table id false nonce attempts events s n total
          (ap (λ x. x || false) e) c h b k l)

    chunk_guild-unneeded :
        (written : Option Cause)
        → needs_chunking state id ≡ false
        → (chunk_guild state table id false nonce written attempts events s).1
          ≡ chunked false attempts s
    unfolding chunk_guild
    chunk_guild-unneeded written e = rw e refl

  -- After ChunkGuild for a guild whose request is answered.
  next_chunked :
      (met : Snowflake → Meeting) (id : Snowflake) (ids : List Snowflake)
      (table : Cache Snowflake GuildChunks) (attempts : List Attempt) (s t : Connection) (b : Bool)
      → (chunk_guild
          (met id).state
          table
          id
          false
          (met id).nonce
          (met id).written
          attempts
          (met id).events
          s).1
        ≡ chunked b attempts t
      → (chunk_all_guilds met (id ∷ ids) table attempts s).1
        ≡ (chunk_all_guilds met ids (chunk_entry table id) attempts t).1
  unfolding chunk_all_guilds
  next_chunked met id ids table attempts s t b e = rw (e, chunk_all_guilds) refl

  -- On a shard with a websocket ChunkAllGuilds returns, if each request can be written and all its chunks
  -- come: it has asked for the members of the guilds that need chunking when their turn comes, of each once
  -- and in order, and changed nothing else of the connection.
  pub chunk_all_guilds-requested :
      (met : Snowflake → Meeting) (ids : List Snowflake) (table : Cache Snowflake GuildChunks)
      (attempts : List Attempt) (s : Connection) (n : ℕ)
      → s.ws_conn ≡ some n
      → ((id : Snowflake) → IsAnswered (met id))
      → (chunk_all_guilds met ids table attempts s).1 ≡ all_chunked attempts (requested met ids s)
  unfolding chunk_all_guilds requested
  chunk_all_guilds-requested met [] table attempts s n c all = refl
  chunk_all_guilds-requested met (id ∷ ids) table attempts s n c all =
      by_need (all id) (Bool-cases (needs_chunking (met id).state id))
        (λ t d. chunk_all_guilds-requested met ids (chunk_entry table id) attempts t n d all)
    where
      asked : Connection
      asked = emit (sent (request_guild_members id (met id).nonce)) s

      from : Bool → AllChunks
      from b = all_chunked attempts (requested met ids (if b then asked else s))

      by_need :
          IsAnswered (met id)
          → (needs_chunking (met id).state id ≡ true) ⊎ (needs_chunking (met id).state id ≡ false)
          → ((t : Connection)
              → t.ws_conn ≡ some n
              → (chunk_all_guilds met ids (chunk_entry table id) attempts t).1
                ≡ all_chunked attempts (requested met ids t))
          → (chunk_all_guilds met (id ∷ ids) table attempts s).1
            ≡ all_chunked attempts (requested met (id ∷ ids) s)
      by_need (answered total h b k l w) (inl e) rest =
          next_chunked met id ids table attempts s asked true (
            chunk_guild-needed (met id).state table id (met id).nonce attempts (met id).events s
              (met id).written n total e c h b k l w)
          ∙ rest asked c
          ∙ sym (ap from e)
      by_need (answered total h b k l w) (inr e) rest =
          next_chunked met id ids table attempts s s false (
            chunk_guild-unneeded (met id).state table id (met id).nonce attempts (met id).events s
              (met id).written e)
          ∙ rest s c
          ∙ sym (ap from e)
