-- ===== src/Events/Users/Safe.antt =====
-- internal/events_dispatch.go: the events of users and of voice states keep the invariant of the shared
-- state.
use sandwich_daemon.Base.{Option, ite, ite-elim}
use sandwich_daemon.CsMap.{CsMap, or_value}
use sandwich_daemon.Discord.{Snowflake, User, VoiceState, nil_id}
use sandwich_daemon.Outcome.{Action}
use sandwich_daemon.State.{StateCtx, Env, same_id}
use sandwich_daemon.State.Voice.{get_voice_state, update_voice_state, remove_voice_state}
use sandwich_daemon.State.Voice.Keeps.{get_voice_state-Keeps}
use sandwich_daemon.State.WellFormed.{IsWellFormed}
use sandwich_daemon.State.Edited.{remove_voice_state-IsWellFormed}
use sandwich_daemon.State.Guilds.Invariant.{IsWellFormed-IsClosed, update_voice_state-IsWellFormed}
use sandwich_daemon.Events.{Message, Daemon, on_state, edits}
use sandwich_daemon.Events.Invariant.{Safe, on_state-Safe, decoding-Safe, then-Safe}
use sandwich_daemon.Events.Users.{on_user_update, on_voice_state_update}

module _ ⦃lib : CsMap⦄ where
  pub on_user_update-Safe : (msg : Message) (o : Option User) → Safe (on_user_update msg o)
  unfolding on_user_update
  on_user_update-Safe msg o = decoding-Safe o _ (λ u d p. p)

  change_voice_state-Safe :
      (env : Env) (ctx : StateCtx) (vs : VoiceState) (guild_id : Snowflake)
      → Safe (
          ite
            (same_id guild_id nil_id)
            (edits (remove_voice_state env ctx guild_id vs.user_id))
            (on_state (update_voice_state env ctx vs)))
  change_voice_state-Safe env ctx vs guild_id =
      ite-elim {A = Action Daemon (Unit {0})} (λ m. Safe {A = Unit {0}} m) (same_id guild_id nil_id)
        _ _ (λ d p. remove_voice_state-IsWellFormed env ctx guild_id vs.user_id d.state p)
        (on_state-Safe (update_voice_state env ctx vs) (update_voice_state-IsWellFormed env ctx vs))

  pub on_voice_state_update-Safe :
      (env : Env) (ctx : StateCtx) (msg : Message) (o : Option VoiceState)
      → Safe (on_voice_state_update env ctx msg o)
  unfolding on_voice_state_update
  on_voice_state_update-Safe env ctx msg o = decoding-Safe o _ (λ vs.
      let guild_id : Snowflake = or_value vs.guild_id nil_id in
      then-Safe (on_state (get_voice_state env guild_id vs.user_id)) _
        (on_state-Safe (get_voice_state env guild_id vs.user_id)
          (get_voice_state-Keeps IsWellFormed IsWellFormed-IsClosed env guild_id vs.user_id))
        (λ before.
          then-Safe
            (ite (same_id guild_id nil_id) (edits (remove_voice_state env ctx guild_id vs.user_id))
              (on_state (update_voice_state env ctx vs)))
            _ (change_voice_state-Safe env ctx vs guild_id) (λ _ d p. p)))
