-- ===== src/Websocket/Initial.antt =====
-- internal/msg_websocket.go, dispatchInitial: READY, and then the guilds of the subscriber's shard.
use sandwich_daemon.Base.{
  Option, none, some, Bool, true, false, List, [], ◌∷◌, map, ℤ, ℤ_discrete, ite, if◌then◌else◌,
}
use sandwich_daemon.CsMap.{CsMap}
use sandwich_daemon.Cache
use sandwich_daemon.Discord.{Snowflake, Guild}
use sandwich_daemon.Strconv.{Bytes}
use sandwich_daemon.State.{SandwichState}
use sandwich_daemon.State.Guilds.{get_guild}
use sandwich_daemon.Routing.{get_shard_id_of_guild}
use sandwich_daemon.Websocket.{ShardPair}

-- What dispatchInitial puts into writeNormal: READY, with its session id and the guilds that it lists,
-- and GUILD_CREATE with a guild.
pub data Initial : Type 0 where
  ready_event : Bytes → ShardPair → List Snowflake → Initial
  guild_create_event : Guild → Initial

-- `shardId == s.shard[0]`, for the shard of a guild among the consumers' shards
unfoldable pub is_of_shard : ℤ → ShardPair → Snowflake → Bool
unfolding get_shard_id_of_guild ℤ_discrete
is_of_shard csc shard id = ite (ℤ_discrete (get_shard_id_of_guild id csc) shard.0) true false

-- The loop that makes the list of unavailable guilds.
unfoldable pub unavailable_guilds : ℤ → ShardPair → List Snowflake → List Snowflake
unfolding is_of_shard
unavailable_guilds csc shard [] = []
unavailable_guilds csc shard (id ∷ ids) =
    let rest : List Snowflake = unavailable_guilds csc shard ids in
    if is_of_shard csc shard id then id ∷ rest else rest

-- GetGuild's answer, and whether the guild can be marshalled.
unfoldable pub guild_create_of : (Guild → Bool) → Guild × Bool → Option Guild
guild_create_of marshals (guild, true) = if marshals guild then some guild else none
guild_create_of marshals (guild, false) = none

-- The loop goes on with the next guild, unless it sent one and the context is done.
unfoldable pub send_guild : Bool → Option Guild → List Initial → List Initial
send_guild is_done none rest = rest
send_guild is_done (some guild) rest = guild_create_event guild ∷ (if is_done then [] else rest)

module _ ⦃lib : CsMap⦄ where
  -- The loop that sends the guilds; `is_done` says whether the context is done after a guild was sent.
  unfoldable pub guild_creates :
      SandwichState
      → (Guild → Bool)
      → (Snowflake → Bool)
      → ℤ
      → ShardPair
      → List Snowflake
      → List Initial
  unfolding is_of_shard guild_create_of send_guild get_guild
  guild_creates ss marshals is_done csc shard [] = []
  guild_creates ss marshals is_done csc shard (id ∷ ids) =
      let rest : List Initial = guild_creates ss marshals is_done csc shard ids in
      if is_of_shard csc shard id
      then send_guild (is_done id) (guild_create_of marshals (get_guild ss id)) rest
      else rest

  -- The ids in the order of `range`, which is taken to be the same in both loops.
  unfoldable pub guild_ids : SandwichState → List Snowflake
  guild_ids ss = map (λ e. e.0) (Cache.range ss.guilds)

  -- dispatchInitial: the first flag is for a context that is done at the start, or a READY that cannot
  -- be marshalled.
  unfoldable pub dispatch_initial :
      Bool
      → Bool
      → SandwichState
      → (Guild → Bool)
      → (Snowflake → Bool)
      → ℤ
      → Bytes
      → ShardPair
      → List Initial
  unfolding guild_creates unavailable_guilds guild_ids
  dispatch_initial true quick_start ss marshals is_done csc session_id shard = []
  dispatch_initial false quick_start ss marshals is_done csc session_id shard =
      if quick_start
      then ready_event session_id shard [] ∷ []
      else ready_event session_id shard (unavailable_guilds csc shard (guild_ids ss))
        ∷ guild_creates ss marshals is_done csc shard (guild_ids ss)
