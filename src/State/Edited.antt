-- ===== src/State/Edited.antt =====
-- internal/state.go: the other operations that keep the invariant of the shared state.
use sandwich_daemon.Base.{Option, none, some, inl, inr, Option-cases, Bool-cases, ltb_ℤ}
use sandwich_daemon.CsMap.{CsMap}
use sandwich_daemon.Cache
use sandwich_daemon.DoubleCache
use sandwich_daemon.DoubleCache.Clean.{delete-IsClean, update-IsClean}
use sandwich_daemon.DoubleCache.History.{deletes, step, step-IsSound}
use sandwich_daemon.Discord.{Snowflake, Channel}
use sandwich_daemon.State.{SandwichState, StateCtx, Env, StateDmChannel, same_id}
use sandwich_daemon.State.Users.{remove_user_mutual_guild}
use sandwich_daemon.State.Roles.{remove_guild_role}
use sandwich_daemon.State.Emojis.{remove_all_guild_emojis}
use sandwich_daemon.State.Channels.{
  remove_guild_channel, update_guild_channel, get_dm_channel, add_dm_channel,
  remove_dm_channel_by_channel_id, update_dm_channel_by_channel_id, get_guild_channel,
}
use sandwich_daemon.State.Voice.{remove_voice_state, count_left_channel}
use sandwich_daemon.State.WellFormed.{
  IsWellFormed, with_emojis, with_channels, with_roles, with_mutuals,
  set_guild_channel-IsWellFormed,
}
use sandwich_daemon.State.Guilds.Invariant.{with_dm_channels}

module _ ⦃lib : CsMap⦄ where
  pub remove_user_mutual_guild-IsWellFormed :
      (user_id guild_id : Snowflake) (ss : SandwichState)
      → IsWellFormed ss
      → IsWellFormed (remove_user_mutual_guild user_id guild_id ss)
  unfolding remove_user_mutual_guild
  remove_user_mutual_guild-IsWellFormed user_id guild_id ss p =
      with_mutuals ss _ (delete-IsClean same_id same_id ss.mutuals user_id guild_id p.mutuals) p

  pub remove_guild_role-IsWellFormed :
      (guild_id role_id : Snowflake) (ss : SandwichState)
      → IsWellFormed ss
      → IsWellFormed (remove_guild_role guild_id role_id ss)
  unfolding remove_guild_role
  remove_guild_role-IsWellFormed guild_id role_id ss p =
      with_roles ss _ (delete-IsClean same_id same_id ss.guild_roles guild_id role_id p.roles) p

  pub remove_all_guild_emojis-IsWellFormed :
      (guild_id : Snowflake) (ss : SandwichState)
      → IsWellFormed ss
      → IsWellFormed (remove_all_guild_emojis guild_id ss)
  unfolding remove_all_guild_emojis
  remove_all_guild_emojis-IsWellFormed guild_id ss p = with_emojis ss _ p

  pub remove_guild_channel-IsWellFormed :
      (guild_id channel_id : Snowflake) (ss : SandwichState)
      → IsWellFormed ss
      → IsWellFormed (remove_guild_channel guild_id channel_id ss)
  unfolding remove_guild_channel
  remove_guild_channel-IsWellFormed guild_id channel_id ss p =
      with_channels ss _
        (delete-IsClean same_id same_id ss.guild_channels guild_id channel_id p.channels) p

  pub update_guild_channel-IsWellFormed :
      (guild_id channel_id : Snowflake) (fn : Channel → Channel) (ss : SandwichState)
      → IsWellFormed ss
      → IsWellFormed (update_guild_channel guild_id channel_id fn ss).0
  unfolding update_guild_channel
  update_guild_channel-IsWellFormed guild_id channel_id fn ss p =
      with_channels ss _
        (update-IsClean same_id same_id ss.guild_channels guild_id channel_id p.channels fn) p

  pub add_dm_channel-IsWellFormed :
      (env : Env) (user_id : Snowflake) (c : Channel) (ss : SandwichState)
      → IsWellFormed ss
      → IsWellFormed (add_dm_channel env user_id c ss)
  unfolding add_dm_channel
  add_dm_channel-IsWellFormed env user_id c ss p = with_dm_channels _ ss p

  pub remove_dm_channel-IsWellFormed :
      (channel_id : Snowflake) (ss : SandwichState)
      → IsWellFormed ss
      → IsWellFormed (remove_dm_channel_by_channel_id channel_id ss)
  unfolding remove_dm_channel_by_channel_id
  remove_dm_channel-IsWellFormed channel_id ss p = with_dm_channels _ ss p

  pub update_dm_channel-IsWellFormed :
      (channel_id : Snowflake) (fn : StateDmChannel → StateDmChannel) (ss : SandwichState)
      → IsWellFormed ss
      → IsWellFormed (update_dm_channel_by_channel_id channel_id fn ss).0
  unfolding update_dm_channel_by_channel_id
  update_dm_channel-IsWellFormed channel_id fn ss p = with_dm_channels _ ss p

  pub get_dm_channel-IsWellFormed :
      (env : Env) (channel_id : Snowflake) (ss : SandwichState)
      → IsWellFormed ss
      → IsWellFormed (get_dm_channel env channel_id ss).0
  unfolding get_dm_channel
  get_dm_channel-IsWellFormed env channel_id ss p =
      elim (Option-cases (Cache.load same_id ss.dm_channels channel_id)) [
        | inl e ↦ rw (e, get_dm_channel) p
        | inr (dm, e) ↦ elim (Bool-cases (ltb_ℤ dm.expires_at env.now)) [
          | inl f ↦ rw (e, f, get_dm_channel) p
          | inr f ↦ rw (e, f, get_dm_channel) (with_dm_channels _ ss p)
        ]
      ]

  count_left_channel-IsWellFormed :
      (env : Env) (ctx : StateCtx) (guild_id : Snowflake) (o : Option Channel) (ss : SandwichState)
      → IsWellFormed ss
      → IsWellFormed (count_left_channel env ctx guild_id o ss)
  unfolding count_left_channel
  count_left_channel-IsWellFormed env ctx guild_id none ss p = p
  count_left_channel-IsWellFormed env ctx guild_id (some c) ss p =
      set_guild_channel-IsWellFormed env ctx guild_id _ ss p

  pub remove_voice_state-IsWellFormed :
      (env : Env) (ctx : StateCtx) (guild_id user_id : Snowflake) (ss : SandwichState)
      → IsWellFormed ss
      → IsWellFormed (remove_voice_state env ctx guild_id user_id ss)
  unfolding remove_voice_state step
  remove_voice_state-IsWellFormed env ctx guild_id user_id ss p =
      elim (Option-cases
        (DoubleCache.load same_id same_id ss.guild_voice_states guild_id user_id)) [
          | inl e ↦ rw (e, remove_voice_state) p
          | inr (vs, e) ↦
              let removed : SandwichState = record ss {
                guild_voice_states =
                    DoubleCache.delete same_id same_id ss.guild_voice_states guild_id user_id;
              } in
              let q : IsWellFormed removed = record {
                members = p.members;
                channels = p.channels;
                roles = p.roles;
                mutuals = p.mutuals;
                voice_states =
                    step-IsSound same_id same_id (deletes guild_id user_id) ss.guild_voice_states
                      p.voice_states;
              } in
              rw (e, remove_voice_state)
                (count_left_channel-IsWellFormed env ctx guild_id
                  (get_guild_channel removed guild_id vs.channel_id) removed q)
        ]
