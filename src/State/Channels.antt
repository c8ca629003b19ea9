-- ===== src/State/Channels.antt =====
-- internal/state.go, the channels of guilds and the DM channels.
use sandwich_daemon.Base.{
  Option, none, some, List, [], ◌∷◌, map, ite, if◌then◌else◌, ℤ, pos, ◌+ℤ◌, ltb_ℤ,
}
use sandwich_daemon.CsMap.{CsMap, mapped, or_value}
use sandwich_daemon.Cache
use sandwich_daemon.DoubleCache
use sandwich_daemon.Discord.{Snowflake, User, Channel, nil_id}
use sandwich_daemon.State.{SandwichState, StateDmChannel, StateCtx, Env, same_id}
use sandwich_daemon.State.Users.{get_user, set_user}

-- memberDMExpiration, in seconds
abbrev pub member_dm_expiration : ℤ
member_dm_expiration = pos 1800

module _ ⦃lib : CsMap⦄ where
  -- The loop of GetGuildChannel: recipients as the cache has them.
  unfoldable pub current_recipients : SandwichState → List User → List User
  current_recipients ss = map (λ r. or_value (get_user ss r.id) r)

  unfoldable pub with_recipients : SandwichState → Channel → Channel
  unfolding current_recipients
  with_recipients ss c = record c { recipients = current_recipients ss c.recipients }

  unfoldable pub get_guild_channel : SandwichState → Snowflake → Snowflake → Option Channel
  unfolding with_recipients
  get_guild_channel ss guild_id channel_id =
      mapped (with_recipients ss)
        (DoubleCache.load same_id same_id ss.guild_channels guild_id channel_id)

  -- The loop of SetGuildChannel.
  unfoldable pub set_users : Env → StateCtx → List User → SandwichState → SandwichState
  set_users env ctx [] ss = ss
  set_users env ctx (u ∷ us) ss = set_users env ctx us (set_user env ctx u ss)

  unfoldable pub set_guild_channel :
      Env → StateCtx → Snowflake → Channel → SandwichState → SandwichState
  unfolding set_users
  set_guild_channel env ctx guild_id channel ss = set_users env ctx channel.recipients (record ss {
    guild_channels =
        DoubleCache.store same_id same_id ss.guild_channels guild_id channel.id
          (record channel { guild_id = some guild_id });
  })

  unfoldable pub remove_guild_channel : Snowflake → Snowflake → SandwichState → SandwichState
  remove_guild_channel guild_id channel_id ss = record ss {
    guild_channels = DoubleCache.delete same_id same_id ss.guild_channels guild_id channel_id;
  }

  unfoldable pub update_guild_channel :
      Snowflake → Snowflake → (Channel → Channel) → SandwichState → SandwichState × Option Channel
  update_guild_channel guild_id channel_id fn ss =
      let r = DoubleCache.update same_id same_id ss.guild_channels guild_id channel_id fn in
      (record ss { guild_channels = r.0 }, r.1)

  unfoldable pub get_all_guild_channels : SandwichState → Snowflake → Option (List Channel)
  get_all_guild_channels ss guild_id =
      mapped (λ c. map (λ e. e.1) (DoubleCache.inner_range ss.guild_channels.cells c))
        (DoubleCache.inner same_id ss.guild_channels guild_id)

  unfoldable pub remove_all_guild_channels : Snowflake → SandwichState → SandwichState
  remove_all_guild_channels guild_id ss = record ss {
    guild_channels = DoubleCache.clear_key same_id ss.guild_channels guild_id;
  }

  -- GetDMChannel: a channel that has not expired is renewed; it returns the state, too.
  unfoldable pub get_dm_channel : Env → Snowflake → SandwichState → SandwichState × Option Channel
  get_dm_channel env channel_id ss = elim (Cache.load same_id ss.dm_channels channel_id) [
    | none ↦ (ss, none)
    | some dm ↦ if ltb_ℤ dm.expires_at env.now then (ss, none) else (
      record ss {
        dm_channels =
            Cache.store same_id ss.dm_channels channel_id
              (record dm { expires_at = env.now +ℤ member_dm_expiration });
      },
      some dm.channel,
    )
  ]

  unfoldable pub add_dm_channel : Env → Snowflake → Channel → SandwichState → SandwichState
  add_dm_channel env user_id channel ss = record ss {
    dm_channels = Cache.store same_id ss.dm_channels channel.id (record {
      channel = channel;
      user_id = user_id;
      expires_at = env.now +ℤ member_dm_expiration;
    });
  }

  unfoldable pub remove_dm_channel_by_channel_id : Snowflake → SandwichState → SandwichState
  remove_dm_channel_by_channel_id channel_id ss = record ss {
    dm_channels = Cache.delete same_id ss.dm_channels channel_id;
  }

  -- The loop of RemoveDMChannelByUserID: the id of the user's first channel, or 0.
  unfoldable pub dm_channel_of : Snowflake → List (Snowflake × StateDmChannel) → Snowflake
  dm_channel_of user_id [] = nil_id
  dm_channel_of user_id ((id, dm) ∷ rest) =
      ite (same_id dm.user_id user_id) id (dm_channel_of user_id rest)

  unfoldable pub remove_dm_channel_by_user_id : Snowflake → SandwichState → SandwichState
  unfolding dm_channel_of remove_dm_channel_by_channel_id
  remove_dm_channel_by_user_id user_id ss =
      let id = dm_channel_of user_id (Cache.range ss.dm_channels) in
      ite (same_id id nil_id) ss (remove_dm_channel_by_channel_id id ss)

  unfoldable pub update_dm_channel_by_channel_id :
      Snowflake
      → (StateDmChannel → StateDmChannel)
      → SandwichState
      → SandwichState × Option StateDmChannel
  update_dm_channel_by_channel_id channel_id fn ss =
      let r = Cache.update same_id ss.dm_channels channel_id fn in
      (record ss { dm_channels = r.0 }, r.1)

  -- GetChannel: a DM channel first, then the guild's when a guild is given.
  unfoldable pub get_channel :
      Env → Option Snowflake → Snowflake → SandwichState → SandwichState × Option Channel
  unfolding get_dm_channel
  get_channel env guild_hint channel_id ss =
      let r = get_dm_channel env channel_id ss in
      elim r.1 [
        | some dm ↦ (r.0, some dm)
        | none ↦ elim guild_hint [
          | none ↦ (r.0, none)
          | some guild_id ↦ (r.0, get_guild_channel r.0 guild_id channel_id)
        ]
      ]
