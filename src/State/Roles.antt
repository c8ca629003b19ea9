-- ===== src/State/Roles.antt =====
-- internal/state.go, the roles of guilds.
use sandwich_daemon.Base.{Option, List, map, ite}
use sandwich_daemon.CsMap.{CsMap, mapped}
use sandwich_daemon.DoubleCache
use sandwich_daemon.Discord.{Snowflake, Role, nil_id}
use sandwich_daemon.Outcome.{Action, panic, changes}
use sandwich_daemon.State.{SandwichState, same_id}

-- A role with no id gets the key that it is stored under.
unfoldable pub keyed_role : Snowflake × Role → Role
keyed_role (id, role) = ite (same_id role.id nil_id) (record role { id = id }) role

module _ ⦃lib : CsMap⦄ where
  unfoldable pub get_guild_role : SandwichState → Snowflake → Snowflake → Option Role
  get_guild_role ss guild_id role_id =
      DoubleCache.load same_id same_id ss.guild_roles guild_id role_id

  -- The write of SetGuildRole.
  unfoldable pub put_guild_role : Snowflake → Role → SandwichState → SandwichState
  put_guild_role guild_id role ss = record ss {
    guild_roles = DoubleCache.store same_id same_id ss.guild_roles guild_id role.id role;
  }

  unfoldable pub set_guild_role : Snowflake → Role → Action SandwichState (Unit {0})
  unfolding put_guild_role
  set_guild_role guild_id role =
      ite (same_id role.id nil_id) panic (changes (put_guild_role guild_id role))

  unfoldable pub remove_guild_role : Snowflake → Snowflake → SandwichState → SandwichState
  remove_guild_role guild_id role_id ss = record ss {
    guild_roles = DoubleCache.delete same_id same_id ss.guild_roles guild_id role_id;
  }

  unfoldable pub get_all_guild_roles : SandwichState → Snowflake → Option (List Role)
  unfolding keyed_role
  get_all_guild_roles ss guild_id =
      mapped (λ c. map keyed_role (DoubleCache.inner_range ss.guild_roles.cells c))
        (DoubleCache.inner same_id ss.guild_roles guild_id)

  unfoldable pub remove_all_guild_roles : Snowflake → SandwichState → SandwichState
  remove_all_guild_roles guild_id ss = record ss {
    guild_roles = DoubleCache.clear_key same_id ss.guild_roles guild_id;
  }
