-- ===== src/State/Emojis.antt =====
-- internal/state.go, the emojis of guilds.
use sandwich_daemon.Base.{Option, none, some, List, [], ◌∷◌, Bool, true, false, ite}
use sandwich_daemon.CsMap.{CsMap, or_value}
use sandwich_daemon.Cache
use sandwich_daemon.Discord.{Snowflake, Slice, User, Emoji, items, no_emoji}
use sandwich_daemon.State.{SandwichState, StateCtx, Env, same_id}
use sandwich_daemon.State.Users.{get_user, set_user}

-- The loop of GetGuildEmoji: the first emoji with the id, or the zero value.
unfoldable pub find_emoji : Snowflake → List Emoji → Emoji
find_emoji emoji_id [] = no_emoji
find_emoji emoji_id (e ∷ es) = ite (same_id e.id emoji_id) e (find_emoji emoji_id es)

module _ ⦃lib : CsMap⦄ where
  -- The user of an emoji, as the cache has it.
  unfoldable pub refreshed : SandwichState → Option User → Option User
  refreshed ss none = none
  refreshed ss (some u) = some (or_value (get_user ss u.id) u)

  -- GetGuildEmoji. The flag stays that of the guild's list when no emoji matches.
  unfoldable pub get_guild_emoji : SandwichState → Snowflake → Snowflake → Emoji × Bool
  unfolding find_emoji refreshed
  get_guild_emoji ss guild_id emoji_id = elim (Cache.load same_id ss.guild_emojis guild_id) [
    | none ↦ (no_emoji, false)
    | some emojis ↦
        let e = find_emoji emoji_id (items emojis) in
        (record e { user = refreshed ss e.user }, true)
  ]

  -- The body of the loop of SetGuildEmojis.
  unfoldable pub set_emoji_user : Env → StateCtx → Option User → SandwichState → SandwichState
  set_emoji_user env ctx none ss = ss
  set_emoji_user env ctx (some u) ss = set_user env ctx u ss

  -- The loop of SetGuildEmojis.
  unfoldable pub set_emoji_users : Env → StateCtx → List Emoji → SandwichState → SandwichState
  unfolding set_emoji_user
  set_emoji_users env ctx [] ss = ss
  set_emoji_users env ctx (e ∷ es) ss =
      set_emoji_users env ctx es (set_emoji_user env ctx e.user ss)

  unfoldable pub set_guild_emojis :
      Env → StateCtx → Snowflake → Slice Emoji → SandwichState → SandwichState
  unfolding set_emoji_users
  set_guild_emojis env ctx guild_id emojis ss =
      set_emoji_users env ctx (items emojis)
        (record ss { guild_emojis = Cache.store same_id ss.guild_emojis guild_id emojis })

  unfoldable pub get_all_guild_emojis : SandwichState → Snowflake → Option (Slice Emoji)
  get_all_guild_emojis ss guild_id = Cache.load same_id ss.guild_emojis guild_id

  unfoldable pub remove_all_guild_emojis : Snowflake → SandwichState → SandwichState
  remove_all_guild_emojis guild_id ss = record ss {
    guild_emojis = Cache.delete same_id ss.guild_emojis guild_id;
  }
