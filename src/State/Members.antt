-- ===== src/State/Members.antt =====
-- internal/state.go, the members of guilds.
use sandwich_daemon.Base.{
  Option, none, some, List, map, String, Bool, true, false, if◌then◌else◌, ite,
}
use sandwich_daemon.CsMap.{CsMap, mapped}
use sandwich_daemon.DoubleCache
use sandwich_daemon.Discord.{Snowflake, User, GuildMember, no_member}
use sandwich_daemon.Outcome.{Action, pure, panic, changes}
use sandwich_daemon.State.{SandwichState, StateCtx, Env, same_id}
use sandwich_daemon.State.Users.{get_user, set_user}

-- The repair of `joined_at` in GetGuildMember: a text that does not parse is dropped.
unfoldable pub fixed_joined_at : Env → String → String
fixed_joined_at env t = if env.is_rfc3339 t then t else ""

module _ ⦃lib : CsMap⦄ where
  -- The second half of GetGuildMember: the user of the cache in place of the member's own.
  unfoldable pub with_user : GuildMember → Option User → Action SandwichState (GuildMember × Bool)
  with_user m none = pure (m, false)
  with_user m (some user) = pure (record m { user = some user }, true)

  -- The half after the lookup. A member without a user is a nil dereference.
  unfoldable pub found_member :
      Env → GuildMember → Option User → Action SandwichState (GuildMember × Bool)
  unfolding with_user fixed_joined_at
  found_member env m none ss = panic ss
  found_member env m (some u) ss =
      with_user (record m { joined_at = fixed_joined_at env m.joined_at }) (get_user ss u.id) ss

  -- GetGuildMember. The flag is that of the last lookup, the one of the user.
  unfoldable pub get_guild_member :
      Env → Snowflake → Snowflake → Action SandwichState (GuildMember × Bool)
  unfolding found_member
  get_guild_member env guild_id member_id ss =
      elim (DoubleCache.load same_id same_id ss.guild_members guild_id member_id) [
        | none ↦ pure (no_member, false) ss
        | some m ↦ found_member env m m.user ss
      ]

  -- The writes of SetGuildMember, once the user is known not to be nil.
  unfoldable pub put_guild_member :
      Env → StateCtx → Snowflake → GuildMember → User → SandwichState → SandwichState
  put_guild_member env ctx guild_id m u ss = set_user env ctx u (record ss {
    guild_members = DoubleCache.store same_id same_id ss.guild_members guild_id u.id m;
  })

  -- SetGuildMember. The bot's own member is always cached. A member without a user is a nil
  -- dereference, which comes before the test for a nil user.
  unfoldable pub set_guild_member :
      Env → StateCtx → Snowflake → GuildMember → Action SandwichState (Unit {0})
  unfolding put_guild_member
  set_guild_member env ctx guild_id m = elim m.user [
    | none ↦ panic
    | some u ↦
        if ctx.cache_members
        then changes (put_guild_member env ctx guild_id m u)
        else ite (same_id u.id ctx.user_id) (changes (put_guild_member env ctx guild_id m u))
            (pure tt)
  ]

  unfoldable pub remove_guild_member : Snowflake → Snowflake → SandwichState → SandwichState
  remove_guild_member guild_id member_id ss = record ss {
    guild_members = DoubleCache.delete same_id same_id ss.guild_members guild_id member_id;
  }

  unfoldable pub get_all_guild_members : SandwichState → Snowflake → Option (List GuildMember)
  get_all_guild_members ss guild_id =
      mapped (λ c. map (λ e. e.1) (DoubleCache.inner_range ss.guild_members.cells c))
        (DoubleCache.inner same_id ss.guild_members guild_id)

  unfoldable pub remove_all_guild_members : Snowflake → SandwichState → SandwichState
  remove_all_guild_members guild_id ss = record ss {
    guild_members = DoubleCache.clear_key same_id ss.guild_members guild_id;
  }
