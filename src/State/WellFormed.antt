-- ===== src/State/WellFormed.antt =====
-- The invariant of the shared state of internal/state.go: its two-key caches share no maps, and only
-- that of the voice states, which UpdateVoiceState uses LoadOrNew on, may hold nil structs.
use sandwich_daemon.Base.{subst, sym, arith, ite-elim, inl, inr, Option-cases}
use sandwich_daemon.CsMap.{CsMap}
use sandwich_daemon.Cache.{Cache}
use sandwich_daemon.DoubleCache.{DoubleCache}
use sandwich_daemon.DoubleCache.Views.{IsSound, new-IsSound}
use sandwich_daemon.DoubleCache.Clean.{
  IsClean, new-IsClean, store-IsClean, delete-IsClean, clear_key-IsClean,
}
use sandwich_daemon.Discord.{nil_id, Snowflake, Slice, User, Channel, Role, Emoji, GuildMember}
use sandwich_daemon.Outcome.{Action}
use sandwich_daemon.Outcome.Keeps.{Keeps}
use sandwich_daemon.State.{SandwichState, StateUser, StateCtx, Env, same_id, new_sandwich_state}
use sandwich_daemon.State.Users.{set_user, add_user_mutual_guild}
use sandwich_daemon.State.Members.{
  set_guild_member, put_guild_member, remove_guild_member, remove_all_guild_members,
}
use sandwich_daemon.State.Roles.{set_guild_role, put_guild_role, remove_all_guild_roles}
use sandwich_daemon.State.Emojis.{set_guild_emojis, remove_all_guild_emojis}
use sandwich_daemon.State.Channels.{set_guild_channel, remove_all_guild_channels}
use sandwich_daemon.State.Guilds.{remove_guild_state}
use sandwich_daemon.State.Frames.{
  set_user_frame, set_guild_channel_frame, set_guild_emojis_frame, put_guild_member_frame,
}

module _ ⦃lib : CsMap⦄ where
  pub record IsWellFormed (ss : SandwichState) : Type 0 where
    pub members : IsClean same_id ss.guild_members
    pub channels : IsClean same_id ss.guild_channels
    pub roles : IsClean same_id ss.guild_roles
    pub mutuals : IsClean same_id ss.mutuals
    pub voice_states : IsSound same_id ss.guild_voice_states

  pub new_sandwich_state-IsWellFormed : IsWellFormed new_sandwich_state
  unfolding new_sandwich_state
  new_sandwich_state-IsWellFormed = record {
    members = new-IsClean same_id same_id 0 50;
    channels = new-IsClean same_id same_id 0 50;
    roles = new-IsClean same_id same_id 0 50;
    mutuals = new-IsClean same_id same_id 0 50;
    voice_states = new-IsSound same_id 0 50;
  }

  pub with_users :
      (ss : SandwichState) (users : Cache Snowflake StateUser)
      → IsWellFormed ss
      → IsWellFormed (record ss { users = users })
  with_users ss users p = record {
    members = p.members;
    channels = p.channels;
    roles = p.roles;
    mutuals = p.mutuals;
    voice_states = p.voice_states;
  }

  pub with_emojis :
      (ss : SandwichState) (emojis : Cache Snowflake (Slice Emoji))
      → IsWellFormed ss
      → IsWellFormed (record ss { guild_emojis = emojis })
  with_emojis ss emojis p = record {
    members = p.members;
    channels = p.channels;
    roles = p.roles;
    mutuals = p.mutuals;
    voice_states = p.voice_states;
  }

  pub with_members :
      (ss : SandwichState) (members : DoubleCache Snowflake Snowflake GuildMember)
      → IsClean same_id members
      → IsWellFormed ss
      → IsWellFormed (record ss { guild_members = members })
  with_members ss members c p = record {
    members = c;
    channels = p.channels;
    roles = p.roles;
    mutuals = p.mutuals;
    voice_states = p.voice_states;
  }

  pub with_channels :
      (ss : SandwichState) (channels : DoubleCache Snowflake Snowflake Channel)
      → IsClean same_id channels
      → IsWellFormed ss
      → IsWellFormed (record ss { guild_channels = channels })
  with_channels ss channels c p = record {
    members = p.members;
    channels = c;
    roles = p.roles;
    mutuals = p.mutuals;
    voice_states = p.voice_states;
  }

  pub with_roles :
      (ss : SandwichState) (roles : DoubleCache Snowflake Snowflake Role)
      → IsClean same_id roles
      → IsWellFormed ss
      → IsWellFormed (record ss { guild_roles = roles })
  with_roles ss roles c p = record {
    members = p.members;
    channels = p.channels;
    roles = c;
    mutuals = p.mutuals;
    voice_states = p.voice_states;
  }

  pub with_mutuals :
      (ss : SandwichState) (mutuals : DoubleCache Snowflake Snowflake (Unit {0}))
      → IsClean same_id mutuals
      → IsWellFormed ss
      → IsWellFormed (record ss { mutuals = mutuals })
  with_mutuals ss mutuals c p = record {
    members = p.members;
    channels = p.channels;
    roles = p.roles;
    mutuals = c;
    voice_states = p.voice_states;
  }

  module _ (env : Env) (ctx : StateCtx) where
    pub set_user-IsWellFormed :
        (u : User) (ss : SandwichState) → IsWellFormed ss → IsWellFormed (set_user env ctx u ss)
    set_user-IsWellFormed u ss p =
        subst IsWellFormed (sym (set_user_frame env ctx u ss)) (with_users ss _ p)

    pub set_guild_channel-IsWellFormed :
        (guild_id : Snowflake) (c : Channel) (ss : SandwichState)
        → IsWellFormed ss
        → IsWellFormed (set_guild_channel env ctx guild_id c ss)
    set_guild_channel-IsWellFormed guild_id c ss p =
        subst IsWellFormed (sym (set_guild_channel_frame env ctx guild_id c ss)) (
          with_users _ _ (
            with_channels ss _
              (store-IsClean same_id same_id ss.guild_channels guild_id c.id p.channels _) p))

    pub set_guild_emojis-IsWellFormed :
        (guild_id : Snowflake) (es : Slice Emoji) (ss : SandwichState)
        → IsWellFormed ss
        → IsWellFormed (set_guild_emojis env ctx guild_id es ss)
    set_guild_emojis-IsWellFormed guild_id es ss p =
        subst IsWellFormed (sym (set_guild_emojis_frame env ctx guild_id es ss))
          (with_users _ _ (with_emojis ss _ p))

    pub put_guild_member-IsWellFormed :
        (guild_id : Snowflake) (m : GuildMember) (u : User) (ss : SandwichState)
        → IsWellFormed ss
        → IsWellFormed (put_guild_member env ctx guild_id m u ss)
    put_guild_member-IsWellFormed guild_id m u ss p =
        subst IsWellFormed (sym (put_guild_member_frame env ctx guild_id m u ss)) (
          with_users _ _ (
            with_members ss _
              (store-IsClean same_id same_id ss.guild_members guild_id u.id p.members m) p))

    -- SetGuildMember, on all its branches and on the panic of a member without a user.
    pub set_guild_member-IsWellFormed :
        (guild_id : Snowflake) (m : GuildMember)
        → Keeps IsWellFormed (set_guild_member env ctx guild_id m)
    unfolding set_guild_member
    set_guild_member-IsWellFormed guild_id m s p = elim (Option-cases m.user) [
      | inl e ↦ rw (e, set_guild_member) p
      | inr (u, e) ↦
          rw (e, set_guild_member) (ground (arith, put_guild_member-IsWellFormed guild_id m u s p))
    ]

  pub set_guild_role-IsWellFormed :
      (guild_id : Snowflake) (r : Role) → Keeps IsWellFormed (set_guild_role guild_id r)
  unfolding set_guild_role put_guild_role
  set_guild_role-IsWellFormed guild_id r =
      ite-elim {A = Action SandwichState (Unit {0})} (λ m. Keeps IsWellFormed {A = Unit {0}} m)
        (same_id r.id nil_id) _ _ (λ s p. p)
        (λ s p.
          with_roles s _ (store-IsClean same_id same_id s.guild_roles guild_id r.id p.roles r) p)

  -- RemoveGuild's five deletes.
  pub remove_guild_state-IsWellFormed :
      (guild_id : Snowflake) (ss : SandwichState)
      → IsWellFormed ss
      → IsWellFormed (remove_guild_state guild_id ss)
  unfolding remove_guild_state remove_all_guild_members remove_all_guild_channels
      remove_all_guild_roles remove_all_guild_emojis
  remove_guild_state-IsWellFormed guild_id ss p = record {
    members = clear_key-IsClean same_id same_id ss.guild_members guild_id p.members;
    channels = clear_key-IsClean same_id same_id ss.guild_channels guild_id p.channels;
    roles = clear_key-IsClean same_id same_id ss.guild_roles guild_id p.roles;
    mutuals = p.mutuals;
    voice_states = p.voice_states;
  }

  pub remove_guild_member-IsWellFormed :
      (guild_id member_id : Snowflake) (ss : SandwichState)
      → IsWellFormed ss
      → IsWellFormed (remove_guild_member guild_id member_id ss)
  unfolding remove_guild_member
  remove_guild_member-IsWellFormed guild_id member_id ss p =
      with_members ss _
        (delete-IsClean same_id same_id ss.guild_members guild_id member_id p.members) p

  pub add_user_mutual_guild-IsWellFormed :
      (ctx : StateCtx) (user_id guild_id : Snowflake) (ss : SandwichState)
      → IsWellFormed ss
      → IsWellFormed (add_user_mutual_guild ctx user_id guild_id ss)
  unfolding add_user_mutual_guild
  add_user_mutual_guild-IsWellFormed ctx user_id guild_id ss p = ground (
    arith,
    p,
    with_mutuals ss _ (store-IsClean same_id same_id ss.mutuals user_id guild_id p.mutuals tt) p,
  )
