-- ===== src/State/Guilds/Invariant.antt =====
-- SetGuild and UpdateVoiceState of internal/state.go keep the invariant of the shared state.
use sandwich_daemon.Base.{refl}
use sandwich_daemon.CsMap.{CsMap}
use sandwich_daemon.DoubleCache.Edits.{same_outer-IsSound, load_or_new-IsSound}
use sandwich_daemon.Discord.{Snowflake, Guild, VoiceState}
use sandwich_daemon.Outcome.Keeps.{Keeps}
use sandwich_daemon.Cache.{Cache}
use sandwich_daemon.State.{SandwichState, StateCtx, Env, same_id, StateDmChannel}
use sandwich_daemon.State.Voice.{update_voice_state}
use sandwich_daemon.State.Voice.Keeps.{IsClosed, update_voice_state-Keeps}
use sandwich_daemon.State.Guilds.{set_guild_state}
use sandwich_daemon.State.Guilds.Keeps.{set_guild_lists-Keeps}
use sandwich_daemon.State.WellFormed.{
  IsWellFormed, set_guild_channel-IsWellFormed, set_guild_member-IsWellFormed,
  set_guild_role-IsWellFormed, set_guild_emojis-IsWellFormed,
}

module _ ⦃lib : CsMap⦄ where
  pub with_guilds :
      (ss : SandwichState) (guilds : Cache Snowflake Guild)
      → IsWellFormed ss
      → IsWellFormed (record ss { guilds = guilds })
  with_guilds ss guilds p = record {
    members = p.members;
    channels = p.channels;
    roles = p.roles;
    mutuals = p.mutuals;
    voice_states = p.voice_states;
  }

  pub with_dm_channels :
      (dms : Cache Snowflake StateDmChannel) (ss : SandwichState)
      → IsWellFormed ss
      → IsWellFormed (record ss { dm_channels = dms })
  with_dm_channels dms ss p = record {
    members = p.members;
    channels = p.channels;
    roles = p.roles;
    mutuals = p.mutuals;
    voice_states = p.voice_states;
  }

  pub IsWellFormed-IsClosed : IsClosed IsWellFormed
  IsWellFormed-IsClosed = record {
    channel = set_guild_channel-IsWellFormed;
    member = set_guild_member-IsWellFormed;
    dm_channels = with_dm_channels;
    new_struct = λ guild_id s p. record {
      members = p.members;
      channels = p.channels;
      roles = p.roles;
      mutuals = p.mutuals;
      voice_states = load_or_new-IsSound same_id s.guild_voice_states guild_id p.voice_states;
    };
    cells = λ l s h p. record {
      members = p.members;
      channels = p.channels;
      roles = p.roles;
      mutuals = p.mutuals;
      voice_states =
          same_outer-IsSound same_id s.guild_voice_states
            (record (s.guild_voice_states) { cells = l }) refl h p.voice_states;
    };
  }

  module _ (env : Env) (ctx : StateCtx) where
    -- From a well-formed state UpdateVoiceState leads to a well-formed state, whether it returns or
    -- panics.
    pub update_voice_state-IsWellFormed :
        (vs : VoiceState) → Keeps IsWellFormed (update_voice_state env ctx vs)
    update_voice_state-IsWellFormed vs =
        update_voice_state-Keeps IsWellFormed IsWellFormed-IsClosed env ctx vs

    -- From a well-formed state the writes of SetGuild lead to a well-formed state, whether they store the
    -- whole guild or panic on the way.
    pub set_guild_state-IsWellFormed :
        (guild : Guild) → Keeps IsWellFormed (set_guild_state env ctx guild)
    unfolding set_guild_state
    set_guild_state-IsWellFormed guild s p =
        set_guild_lists-Keeps IsWellFormed IsWellFormed-IsClosed set_guild_role-IsWellFormed
          set_guild_emojis-IsWellFormed env ctx guild _ (with_guilds s _ p)
