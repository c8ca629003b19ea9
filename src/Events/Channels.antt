-- ===== src/Events/Channels.antt =====
-- internal/events_dispatch.go, the events of channels and threads.
pub mod Safe
use sandwich_daemon.Base.{
  Bool, ◌||◌, ◌==◌, if◌then◌else◌, ite, Option, none, some, List, [], ◌∷◌, String,
}
use sandwich_daemon.CsMap.{CsMap, or_value}
use sandwich_daemon.Discord.{Snowflake, User, Channel, nil_id, no_channel}
use sandwich_daemon.Outcome.{done, Action, pure, reads, ◌>>=◌, ◌>>◌}
use sandwich_daemon.State.{SandwichState, StateCtx, Env, same_id}
use sandwich_daemon.State.Channels.{
  get_guild_channel, set_guild_channel, remove_guild_channel, update_guild_channel, get_dm_channel,
  add_dm_channel, remove_dm_channel_by_channel_id, update_dm_channel_by_channel_id,
}
use sandwich_daemon.Events.{
  Message, Handled, before_channel, for_guild, dispatch, dispatch_extra, present, Daemon, edits,
  decoding,
}

-- ChannelTypeDM is 1 and ChannelTypeGroupDM 3.
unfoldable pub is_dm : Channel → Bool
is_dm c = (c.kind == 1) || (c.kind == 3)

pub record ChannelPinsUpdate : Type 0 where
  pub guild_id : Snowflake
  pub channel_id : Snowflake
  pub last_pin_timestamp : String

module _ ⦃lib : CsMap⦄ where
  -- A DM channel is cached under its first recipient.
  unfoldable pub add_for : Env → List User → Channel → Action Daemon (Unit {0})
  add_for env [] c = pure tt
  add_for env (u ∷ _) c = edits (add_dm_channel env u.id c)

  unfoldable pub create_channel :
      Env → StateCtx → Option Snowflake → Channel → Action Daemon (Unit {0})
  unfolding is_dm add_for
  create_channel env ctx (some guild_id) c = edits (set_guild_channel env ctx guild_id c)
  create_channel env ctx none c = if is_dm c then add_for env c.recipients c else pure tt

  unfoldable pub on_channel_create :
      Env → StateCtx → Message → Option Channel → Action Daemon Handled
  unfolding create_channel
  on_channel_create env ctx msg payload = decoding payload (λ c. do
    create_channel env ctx (present c.guild_id) c
    pure (dispatch msg (for_guild c.guild_id)))

  -- GetDMChannel, which renews the channel.
  unfoldable pub read_dm : Env → Snowflake → Action Daemon Channel
  read_dm env channel_id d =
      let r = get_dm_channel env channel_id d.state in
      done (or_value r.1 no_channel) (record d { state = r.0 })

  unfoldable pub read_guild_channel : Snowflake → Snowflake → Action Daemon Channel
  read_guild_channel guild_id channel_id =
      reads (λ d. or_value (get_guild_channel d.state guild_id channel_id) no_channel)

  -- The three branches that OnChannelUpdate and OnChannelDelete share: a guild's channel, a DM
  -- channel, or neither; the result is the channel before.
  unfoldable pub replace_channel :
      Env
      → Option Snowflake
      → Channel
      → (Snowflake → SandwichState → SandwichState)
      → (SandwichState → SandwichState)
      → Action Daemon (Option Channel)
  unfolding is_dm read_dm read_guild_channel
  replace_channel env (some guild_id) c in_guild in_dms = do
    before ← read_guild_channel guild_id c.id
    edits (in_guild guild_id)
    pure (some before)
  replace_channel env none c in_guild in_dms =
      if is_dm c
      then (do before ← read_dm env c.id; edits in_dms; pure (some before))
      else pure none

  unfoldable pub on_channel_update :
      Env → StateCtx → Message → Option Channel → Action Daemon Handled
  unfolding replace_channel
  on_channel_update env ctx msg payload = decoding payload (λ c. do
    before ←
        replace_channel env (present c.guild_id) c (λ g. set_guild_channel env ctx g c)
          (λ ss. (update_dm_channel_by_channel_id c.id (λ dm. record dm { channel = c }) ss).0)
    pure (dispatch_extra msg (before_channel before) (for_guild c.guild_id)))

  unfoldable pub on_channel_delete : Env → Message → Option Channel → Action Daemon Handled
  unfolding replace_channel
  on_channel_delete env msg payload = decoding payload (λ c. do
    before ←
        replace_channel env (present c.guild_id) c (λ g. remove_guild_channel g c.id)
          (remove_dm_channel_by_channel_id c.id)
    pure (dispatch_extra msg (before_channel before) (for_guild c.guild_id)))

  unfoldable pub pinned : String → Channel → Channel
  pinned t c = record c { last_pin_timestamp = some t }

  unfoldable pub set_pins : ChannelPinsUpdate → SandwichState → SandwichState
  unfolding pinned
  set_pins p ss =
      ite (same_id p.guild_id nil_id)
        (update_dm_channel_by_channel_id p.channel_id
          (λ dm. record dm { channel = pinned p.last_pin_timestamp dm.channel }) ss).0
        (update_guild_channel p.guild_id p.channel_id (pinned p.last_pin_timestamp) ss).0

  unfoldable pub on_channel_pins_update : Message → Option ChannelPinsUpdate → Action Daemon Handled
  unfolding set_pins
  on_channel_pins_update msg payload =
      decoding payload
        (λ p. do edits (set_pins p); pure (dispatch msg (for_guild (some p.guild_id))))

  -- The channel before, where a guild is named.
  unfoldable pub thread_before : Option Snowflake → Channel → Action Daemon (Option Channel)
  unfolding read_guild_channel
  thread_before none c = pure none
  thread_before (some guild_id) c =
      read_guild_channel guild_id c.id >>= λ before. pure (some before)

  unfoldable pub on_thread_update : Message → Option Channel → Action Daemon Handled
  unfolding thread_before
  on_thread_update msg payload = decoding payload (λ c. do
    before ← thread_before (present c.guild_id) c
    pure (dispatch_extra msg (before_channel before) (for_guild c.guild_id)))
