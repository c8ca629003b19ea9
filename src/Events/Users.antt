-- ===== src/Events/Users.antt =====
-- internal/events_dispatch.go, the events of users and of voice states.
pub mod Safe
use sandwich_daemon.Base.{true, ite, Option, none}
use sandwich_daemon.CsMap.{CsMap, or_value}
use sandwich_daemon.Discord.{User, VoiceState, nil_id, no_user}
use sandwich_daemon.Outcome.{Action, pure, reads, ◌>>=◌, ◌>>◌}
use sandwich_daemon.State.{StateCtx, Env, same_id}
use sandwich_daemon.State.Users.{get_user}
use sandwich_daemon.State.Voice.{get_voice_state, update_voice_state, remove_voice_state}
use sandwich_daemon.Events.{
  Message, Handled, before_user, before_voice_state, EventDispatchIdentifier, for_guild,
  dispatch_extra, Daemon, on_state, edits, decoding,
}

abbrev pub everywhere : EventDispatchIdentifier
everywhere = record { guild_id = none; user_id = none; globally_routed = true }

module _ ⦃lib : CsMap⦄ where
  -- The cached user is read, and not replaced.
  unfoldable pub on_user_update : Message → Option User → Action Daemon Handled
  on_user_update msg payload = decoding payload (λ u. do
    before ← reads (λ d. or_value (get_user d.state u.id) no_user)
    pure (dispatch_extra msg (before_user before) everywhere))

  unfoldable pub on_voice_state_update :
      Env → StateCtx → Message → Option VoiceState → Action Daemon Handled
  on_voice_state_update env ctx msg payload = decoding payload (λ vs.
      let guild_id = or_value vs.guild_id nil_id in
      do
        before ← on_state (get_voice_state env guild_id vs.user_id)
        ite (same_id guild_id nil_id) (edits (remove_voice_state env ctx guild_id vs.user_id))
            (on_state (update_voice_state env ctx vs))
        pure (dispatch_extra msg (before_voice_state before.0) (for_guild vs.guild_id)))
