-- ===== src/State/Users.antt =====
-- internal/state.go, users and the guilds that a user shares with the bot.
use sandwich_daemon.Base.{Option, List, map, not, if◌then◌else◌, ite}
use sandwich_daemon.CsMap.{CsMap, mapped}
use sandwich_daemon.Cache
use sandwich_daemon.DoubleCache
use sandwich_daemon.Discord.{Snowflake, User}
use sandwich_daemon.State.{SandwichState, StateUser, StateCtx, Env, same_id}

unfoldable pub user_from_state : StateUser → User
user_from_state s = s.user

unfoldable pub user_to_state : Env → User → StateUser
user_to_state env user = record { user = user; last_updated = env.now }

module _ ⦃lib : CsMap⦄ where
  unfoldable pub get_user : SandwichState → Snowflake → Option User
  unfolding user_from_state
  get_user ss user_id = mapped user_from_state (Cache.load same_id ss.users user_id)

  -- The bot's own user is always cached.
  unfoldable pub set_user : Env → StateCtx → User → SandwichState → SandwichState
  unfolding user_to_state
  set_user env ctx user ss =
      let stored = record ss {
        users = Cache.store same_id ss.users user.id (user_to_state env user);
      } in
      if ctx.cache_users then stored else ite (same_id user.id ctx.user_id) stored ss

  unfoldable pub remove_user : Snowflake → SandwichState → SandwichState
  remove_user user_id ss = record ss { users = Cache.delete same_id ss.users user_id }

  unfoldable pub get_user_mutual_guilds : SandwichState → Snowflake → Option (List Snowflake)
  get_user_mutual_guilds ss user_id =
      mapped (λ c. map (λ e. e.0) (DoubleCache.inner_range ss.mutuals.cells c))
        (DoubleCache.inner same_id ss.mutuals user_id)

  unfoldable pub add_user_mutual_guild :
      StateCtx → Snowflake → Snowflake → SandwichState → SandwichState
  add_user_mutual_guild ctx user_id guild_id ss =
      if not ctx.store_mutuals
      then ss
      else record ss { mutuals = DoubleCache.store same_id same_id ss.mutuals user_id guild_id tt }

  unfoldable pub remove_user_mutual_guild : Snowflake → Snowflake → SandwichState → SandwichState
  remove_user_mutual_guild user_id guild_id ss = record ss {
    mutuals = DoubleCache.delete same_id same_id ss.mutuals user_id guild_id;
  }
