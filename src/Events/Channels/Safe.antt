-- ===== src/Events/Channels/Safe.antt =====
-- internal/events_dispatch.go: the events of channels and threads keep the invariant of the shared
-- state.
use sandwich_daemon.Base.{Option, none, some, List, [], ◌∷◌, Bool-cases, inl, inr, ite-elim}
use sandwich_daemon.CsMap.{CsMap}
use sandwich_daemon.Discord.{Snowflake, User, Channel, nil_id}
use sandwich_daemon.State.{SandwichState, StateCtx, Env, same_id}
use sandwich_daemon.State.WellFormed.{IsWellFormed, set_guild_channel-IsWellFormed}
use sandwich_daemon.State.Edited.{
  remove_guild_channel-IsWellFormed, update_guild_channel-IsWellFormed, add_dm_channel-IsWellFormed,
  remove_dm_channel-IsWellFormed, update_dm_channel-IsWellFormed, get_dm_channel-IsWellFormed,
}
use sandwich_daemon.Events.{Message, present}
use sandwich_daemon.Events.Invariant.{Safe, decoding-Safe, then-Safe}
use sandwich_daemon.Events.Channels.{
  is_dm, ChannelPinsUpdate, add_for, create_channel, read_dm, replace_channel, set_pins,
  thread_before, on_channel_create, on_channel_update, on_channel_delete, on_channel_pins_update,
  on_thread_update,
}

module _ ⦃lib : CsMap⦄ where
  add_for-Safe : (env : Env) (us : List User) (c : Channel) → Safe (add_for env us c)
  unfolding add_for
  add_for-Safe env [] c d p = p
  add_for-Safe env (u ∷ _) c d p = add_dm_channel-IsWellFormed env u.id c d.state p

  create_channel-Safe :
      (env : Env) (ctx : StateCtx) (o : Option Snowflake) (c : Channel)
      → Safe (create_channel env ctx o c)
  unfolding create_channel
  create_channel-Safe env ctx (some guild_id) c d p =
      set_guild_channel-IsWellFormed env ctx guild_id c d.state p
  create_channel-Safe env ctx none c d p = elim (Bool-cases (is_dm c)) [
    | inr e ↦ rw (e, create_channel) p
    | inl e ↦ rw (e, create_channel) (add_for-Safe env c.recipients c d p)
  ]

  pub on_channel_create-Safe :
      (env : Env) (ctx : StateCtx) (msg : Message) (o : Option Channel)
      → Safe (on_channel_create env ctx msg o)
  unfolding on_channel_create
  on_channel_create-Safe env ctx msg o = decoding-Safe o _ (λ c.
      then-Safe (create_channel env ctx (present c.guild_id) c) _
        (create_channel-Safe env ctx (present c.guild_id) c) (λ _ d p. p))

  replace_channel-Safe :
      (env : Env) (o : Option Snowflake) (c : Channel)
      (in_guild : Snowflake → SandwichState → SandwichState)
      (in_dms : SandwichState → SandwichState)
      → ((g : Snowflake) (ss : SandwichState) → IsWellFormed ss → IsWellFormed (in_guild g ss))
      → ((ss : SandwichState) → IsWellFormed ss → IsWellFormed (in_dms ss))
      → Safe (replace_channel env o c in_guild in_dms)
  unfolding replace_channel read_dm
  replace_channel-Safe env (some g) c in_guild in_dms h k d p = h g d.state p
  replace_channel-Safe env none c in_guild in_dms h k d p = elim (Bool-cases (is_dm c)) [
    | inr e ↦ rw (e, replace_channel) p
    | inl e ↦ rw (e, replace_channel) (k _ (get_dm_channel-IsWellFormed env c.id d.state p))
  ]

  pub on_channel_update-Safe :
      (env : Env) (ctx : StateCtx) (msg : Message) (o : Option Channel)
      → Safe (on_channel_update env ctx msg o)
  unfolding on_channel_update
  on_channel_update-Safe env ctx msg o = decoding-Safe o _ (λ c.
      then-Safe (replace_channel env (present c.guild_id) c _ _) _
        (replace_channel-Safe env (present c.guild_id) c _ _
          (λ g ss p. set_guild_channel-IsWellFormed env ctx g c ss p)
          (λ ss p. update_dm_channel-IsWellFormed c.id _ ss p))
        (λ _ d p. p))

  pub on_channel_delete-Safe :
      (env : Env) (msg : Message) (o : Option Channel) → Safe (on_channel_delete env msg o)
  unfolding on_channel_delete
  on_channel_delete-Safe env msg o = decoding-Safe o _ (λ c.
      then-Safe (replace_channel env (present c.guild_id) c _ _) _
        (replace_channel-Safe env (present c.guild_id) c _ _
          (λ g ss p. remove_guild_channel-IsWellFormed g c.id ss p)
          (λ ss p. remove_dm_channel-IsWellFormed c.id ss p))
        (λ _ d p. p))

  set_pins-IsWellFormed :
      (u : ChannelPinsUpdate) (ss : SandwichState) → IsWellFormed ss → IsWellFormed (set_pins u ss)
  unfolding set_pins
  set_pins-IsWellFormed u ss p =
      ite-elim IsWellFormed (same_id u.guild_id nil_id) _ _
        (update_dm_channel-IsWellFormed u.channel_id _ ss p)
        (update_guild_channel-IsWellFormed u.guild_id u.channel_id _ ss p)

  pub on_channel_pins_update-Safe :
      (msg : Message) (o : Option ChannelPinsUpdate) → Safe (on_channel_pins_update msg o)
  unfolding on_channel_pins_update
  on_channel_pins_update-Safe msg o = decoding-Safe o _ (λ u d p. set_pins-IsWellFormed u d.state p)

  thread_before-Safe : (o : Option Snowflake) (c : Channel) → Safe (thread_before o c)
  unfolding thread_before
  thread_before-Safe none c d p = p
  thread_before-Safe (some g) c d p = p

  pub on_thread_update-Safe :
      (env : Env) (ctx : StateCtx) (msg : Message) (o : Option Channel)
      → Safe (on_thread_update msg o)
  unfolding on_thread_update
  on_thread_update-Safe env ctx msg o = decoding-Safe o _ (λ c.
      then-Safe (thread_before (present c.guild_id) c) _ (thread_before-Safe (present c.guild_id) c)
        (λ _ d p. p))
