-- ===== src/State/Guilds/Keeps.antt =====
-- The predicates on the shared state that the writes of SetGuild of internal/state.go keep.
use sandwich_daemon.Base.{some}
use sandwich_daemon.CsMap.{CsMap}
use sandwich_daemon.Discord.{Snowflake, Slice, Emoji, Guild, Role, Channel, VoiceState, items}
use sandwich_daemon.Outcome.{changes, each, ◌>>◌}
use sandwich_daemon.Outcome.Keeps.{Keeps, >>-Keeps, each-Keeps}
use sandwich_daemon.State.{SandwichState, StateCtx, Env}
use sandwich_daemon.State.Members.{set_guild_member}
use sandwich_daemon.State.Roles.{set_guild_role}
use sandwich_daemon.State.Emojis.{set_guild_emojis}
use sandwich_daemon.State.Channels.{set_guild_channel}
use sandwich_daemon.State.Voice.{update_voice_state}
use sandwich_daemon.State.Voice.Keeps.{IsClosed, update_voice_state-Keeps}
use sandwich_daemon.State.Guilds.{set_guild_lists}

module _ ⦃lib : CsMap⦄ (P : SandwichState → Type 0) (closed : IsClosed P)
    (role : (guild_id : Snowflake) (r : Role) → Keeps P (set_guild_role guild_id r))
    (emojis : (env : Env) (ctx : StateCtx) (guild_id : Snowflake) (es : Slice Emoji)
        (s : SandwichState)
      → P s
      → P (set_guild_emojis env ctx guild_id es s))
    (env : Env) (ctx : StateCtx) where
  pub set_guild_lists-Keeps : (guild : Guild) → Keeps P (set_guild_lists env ctx guild)
  unfolding set_guild_lists
  set_guild_lists-Keeps guild =
      let voice =
        λ (vs : VoiceState). update_voice_state env ctx (record vs { guild_id = some guild.id }) in
      let k5 = each (items guild.voice_states) voice in
      let k4 = each (items guild.members) (set_guild_member env ctx guild.id) >> k5 in
      let k3 = changes (set_guild_emojis env ctx guild.id guild.emojis) >> k4 in
      let channel = λ (c : Channel). changes (set_guild_channel env ctx guild.id c) in
      let k2 = each (items guild.channels) channel >> k3 in
      >>-Keeps P (each (items guild.roles) (set_guild_role guild.id)) k2
        (each-Keeps P (items guild.roles) (set_guild_role guild.id) (role guild.id))
        (>>-Keeps P (each (items guild.channels) channel) k3
          (each-Keeps P (items guild.channels) channel
            (λ c s p. closed.channel env ctx guild.id c s p))
          (>>-Keeps P (changes (set_guild_emojis env ctx guild.id guild.emojis)) k4
            (emojis env ctx guild.id guild.emojis)
            (>>-Keeps P (each (items guild.members) (set_guild_member env ctx guild.id)) k5
              (each-Keeps P (items guild.members) (set_guild_member env ctx guild.id)
                (closed.member env ctx guild.id))
              (each-Keeps P (items guild.voice_states) voice (λ vs.
                update_voice_state-Keeps P closed env ctx
                  (record vs { guild_id = some guild.id }))))))
