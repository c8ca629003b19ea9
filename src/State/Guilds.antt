-- ===== src/State/Guilds.antt =====
-- internal/state.go, whole guilds. The guilds that the shard and its group hold are caches of their
-- own, beside the shared state.
pub mod Keeps
pub mod Invariant
pub mod Stored
pub mod Removed
use sandwich_daemon.Base.{Option, none, some, List, [], map, Bool, true, false, if◌then◌else◌}
use sandwich_daemon.CsMap.{CsMap, mapped, or_value}
use sandwich_daemon.Cache
use sandwich_daemon.Cache.{Cache}
use sandwich_daemon.DoubleCache
use sandwich_daemon.Discord.{
  Snowflake, Slice, Guild, Role, Channel, Emoji, GuildMember, VoiceState, items, no_guild,
}
use sandwich_daemon.Outcome.{
  Action, Outcome, done, panicked, pure, panic, changes, after, each, ◌>>=◌, ◌>>◌,
}
use sandwich_daemon.State.{SandwichState, StateCtx, Env, same_id}
use sandwich_daemon.State.Members.{
  set_guild_member, get_all_guild_members, remove_all_guild_members,
}
use sandwich_daemon.State.Roles.{set_guild_role, get_all_guild_roles, remove_all_guild_roles}
use sandwich_daemon.State.Emojis.{set_guild_emojis, get_all_guild_emojis, remove_all_guild_emojis}
use sandwich_daemon.State.Channels.{
  set_guild_channel, get_all_guild_channels, remove_all_guild_channels,
}
use sandwich_daemon.State.Voice.{update_voice_state}

module _ ⦃lib : CsMap⦄ where
  -- The shard's view: `ctx.ShardGroup.Guilds`, `ctx.Guilds`, `ctx.Lazy` and `ctx.Unavailable`.
  pub record Shard : Type 0 where
    pub group_guilds : Cache Snowflake (Unit {0})
    pub guilds : Cache Snowflake (Unit {0})
    pub lazy : Cache Snowflake (Unit {0})
    pub unavailable : Cache Snowflake (Unit {0})

  -- The voice states of a guild, as GetGuild lists them.
  unfoldable pub voice_states_in : SandwichState → Snowflake → List VoiceState
  voice_states_in ss guild_id = elim (DoubleCache.inner same_id ss.guild_voice_states guild_id) [
    | none ↦ []
    | some c ↦ map (λ e. e.1) (DoubleCache.inner_range ss.guild_voice_states.cells c)
  ]

  -- The lists that GetGuild fills in first, once the roles are known.
  unfoldable pub with_lists : SandwichState → Snowflake → Guild → List Role → Guild
  unfolding voice_states_in
  with_lists ss guild_id guild roles = record guild {
    roles = some roles;
    channels = some (or_value (get_all_guild_channels ss guild_id) []);
    voice_states = some (voice_states_in ss guild_id);
  }

  -- The end of GetGuild, once every list is known.
  unfoldable pub with_members : Guild → List GuildMember → Guild
  with_members guild members = record guild {
    members = some members;
    afk_channel_id = some (or_value guild.afk_channel_id guild.id);
    approximate_member_count = guild.member_count;
  }

  -- GetGuild. Without roles, emojis or members the flag is false, beside what was put together so far.
  unfoldable pub get_guild : SandwichState → Snowflake → Guild × Bool
  unfolding with_lists with_members
  get_guild ss guild_id = elim (Cache.load same_id ss.guilds guild_id) [
    | none ↦ (no_guild, false)
    | some guild ↦ elim (get_all_guild_roles ss guild_id) [
      | none ↦ (guild, false)
      | some roles ↦
          let listed = with_lists ss guild_id guild roles in
          elim (get_all_guild_emojis ss guild_id) [
            | none ↦ (listed, false)
            | some emojis ↦
                let with_emojis = record listed { emojis = emojis } in
                elim (get_all_guild_members ss guild_id) [
                  | none ↦ (with_emojis, false)
                  | some members ↦ (with_members with_emojis members, true)
                ]
          ]
    ]
  ]

  -- The writes of SetGuild for the guild's lists, in their order.
  unfoldable pub set_guild_lists : Env → StateCtx → Guild → Action SandwichState (Unit {0})
  set_guild_lists env ctx guild = do
    each (items guild.roles) (set_guild_role guild.id)
    each (items guild.channels) (λ c. changes (set_guild_channel env ctx guild.id c))
    changes (set_guild_emojis env ctx guild.id guild.emojis)
    each (items guild.members) (set_guild_member env ctx guild.id)
    each (items guild.voice_states)
        (λ vs. update_voice_state env ctx (record vs { guild_id = some guild.id }))

  -- The writes of SetGuild to the shared state. The fields that it clears at the end are those of its
  -- own copy of the guild.
  unfoldable pub set_guild_state : Env → StateCtx → Guild → Action SandwichState (Unit {0})
  unfolding set_guild_lists
  set_guild_state env ctx guild =
      changes (λ ss. record ss { guilds = Cache.store same_id ss.guilds guild.id guild })
      >> set_guild_lists env ctx guild

  -- The shard's side of SetGuild.
  unfoldable pub hold_guild : Snowflake → Shard → Shard
  hold_guild guild_id sh = record sh {
    group_guilds = Cache.store same_id sh.group_guilds guild_id tt;
    guilds = Cache.store same_id sh.guilds guild_id tt;
  }

  -- SetGuild. A context with no shard group is a nil dereference at the first statement.
  unfoldable pub set_guild :
      Env → StateCtx → Guild → Shard → SandwichState → Shard × Outcome SandwichState (Unit {0})
  unfolding set_guild_state hold_guild
  set_guild env ctx guild sh ss =
      if ctx.has_group
      then (hold_guild guild.id sh, set_guild_state env ctx guild ss)
      else (sh, panicked ss)

  -- The shared state after RemoveGuild, which leaves the voice states alone.
  unfoldable pub remove_guild_state : Snowflake → SandwichState → SandwichState
  remove_guild_state guild_id ss = remove_all_guild_members guild_id (
      remove_all_guild_emojis guild_id (
        remove_all_guild_channels guild_id (
          remove_all_guild_roles guild_id
            (record ss { guilds = Cache.delete same_id ss.guilds guild_id }))))

  -- RemoveGuild. Without a shard group only a stateless context is safe.
  unfoldable pub remove_guild :
      StateCtx → Snowflake → Shard → SandwichState → Shard × Outcome SandwichState (Unit {0})
  unfolding remove_guild_state
  remove_guild ctx guild_id sh ss =
      if ctx.stateless
      then (sh, done tt (remove_guild_state guild_id ss))
      else if ctx.has_group
      then (
        record sh { group_guilds = Cache.delete same_id sh.group_guilds guild_id },
        done tt (remove_guild_state guild_id ss),
      )
      else (sh, panicked (record ss { guilds = Cache.delete same_id ss.guilds guild_id }))
