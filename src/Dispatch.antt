-- ===== src/Dispatch.antt =====
-- internal/events.go's StateDispatch and OnDispatch: the handler of an event, the two blacklists, the
-- floodgate, the recovery from panics; and the packet that internal/messaging.go's PublishEvent sends.
pub mod Gates
pub mod Invariant
pub mod Ready
use sandwich_daemon.Base.{
  Bool, true, false, not, if◌then◌else◌, Option, none, some, List, [], ◌∷◌, ◌||◌, String, ℤ, pos,
  ite,
}
use sandwich_daemon.CsMap.{CsMap}
use sandwich_daemon.Discord.{Snowflake, User, GuildMember, VoiceState, Channel, Guild}
use sandwich_daemon.Outcome.{Outcome, done, panicked, Action}
use sandwich_daemon.State.{StateCtx, Env}
use sandwich_daemon.Events.{
  Message, Handled, handled, failed, EventDispatch, EventDispatchIdentifier, Daemon, Extra,
}
use sandwich_daemon.Events.Guilds.{
  UnavailableGuild, GuildEmojisUpdate, GuildStickersUpdate, GuildRole, GuildRoleDelete,
  on_guild_create, on_guild_update, on_guild_delete, on_guild_emojis_update,
  on_guild_stickers_update, on_guild_role_create, on_guild_role_update, on_guild_role_delete,
}
use sandwich_daemon.Events.Channels.{
  ChannelPinsUpdate, on_channel_create, on_channel_update, on_channel_delete,
  on_channel_pins_update, on_thread_update,
}
use sandwich_daemon.Events.Members.{
  GuildMemberRemove, on_guild_member_add, on_guild_member_remove, on_guild_member_update,
}
use sandwich_daemon.Events.Users.{everywhere, on_user_update, on_voice_state_update}
use sandwich_daemon.Events.Simple.{
  Origin, on_guild_event, on_guild_ban, on_message_event, on_entitlement, wildcard_event,
}
use sandwich_daemon.Routing.{VirtualShards, Target, route_payload_to_consumer}

-- An event with its payload, or nothing if the payload does not decode. READY, RESUMED and
-- GUILD_MEMBERS_CHUNK are not among them.
pub data Event : Type 0 where
  guild_create : Option Guild → Event
  guild_update : Option Guild → Event
  guild_delete : Option UnavailableGuild → Event
  guild_emojis_update : Option GuildEmojisUpdate → Event
  guild_stickers_update : Option GuildStickersUpdate → Event
  guild_role_create : Option GuildRole → Event
  guild_role_update : Option GuildRole → Event
  guild_role_delete : Option GuildRoleDelete → Event
  channel_create : Option Channel → Event
  channel_update : Option Channel → Event
  channel_delete : Option Channel → Event
  channel_pins_update : Option ChannelPinsUpdate → Event
  thread_update : Option Channel → Event
  guild_member_add : Option GuildMember → Event
  guild_member_remove : Option GuildMemberRemove → Event
  guild_member_update : Option GuildMember → Event
  user_update : Option User → Event
  voice_state_update : Option VoiceState → Event
  guild_event : Option Origin → Event
  guild_ban : Option Origin → Event
  message_event : Option Origin → Event
  entitlement : Option Origin → Event
  other : Option Origin → Event

module _ ⦃lib : CsMap⦄ where
  -- StateDispatch, with the table that `init` fills.
  unfoldable pub state_dispatch : Env → StateCtx → Message → Event → Action Daemon Handled
  state_dispatch env ctx msg (guild_create p) = on_guild_create env ctx msg p
  state_dispatch env ctx msg (guild_update p) = on_guild_update env ctx msg p
  state_dispatch env ctx msg (guild_delete p) = on_guild_delete msg p
  state_dispatch env ctx msg (guild_emojis_update p) = on_guild_emojis_update env ctx msg p
  state_dispatch env ctx msg (guild_stickers_update p) = on_guild_stickers_update env ctx msg p
  state_dispatch env ctx msg (guild_role_create p) = on_guild_role_create msg p
  state_dispatch env ctx msg (guild_role_update p) = on_guild_role_update msg p
  state_dispatch env ctx msg (guild_role_delete p) = on_guild_role_delete msg p
  state_dispatch env ctx msg (channel_create p) = on_channel_create env ctx msg p
  state_dispatch env ctx msg (channel_update p) = on_channel_update env ctx msg p
  state_dispatch env ctx msg (channel_delete p) = on_channel_delete env msg p
  state_dispatch env ctx msg (channel_pins_update p) = on_channel_pins_update msg p
  state_dispatch env ctx msg (thread_update p) = on_thread_update msg p
  state_dispatch env ctx msg (guild_member_add p) = on_guild_member_add env ctx msg p
  state_dispatch env ctx msg (guild_member_remove p) = on_guild_member_remove env msg p
  state_dispatch env ctx msg (guild_member_update p) = on_guild_member_update env ctx msg p
  state_dispatch env ctx msg (user_update p) = on_user_update msg p
  state_dispatch env ctx msg (voice_state_update p) = on_voice_state_update env ctx msg p
  state_dispatch env ctx msg (guild_event p) = on_guild_event msg p
  state_dispatch env ctx msg (guild_ban p) = on_guild_ban msg p
  state_dispatch env ctx msg (message_event p) = on_message_event msg p
  state_dispatch env ctx msg (entitlement p) = on_entitlement msg p
  state_dispatch env ctx msg (other p) = wildcard_event msg p

-- What OnDispatch reads of the manager and the shard group for one message: whether the type of the
-- message is on a blacklist, and the gate.
pub record Gate : Type 0 where
  pub has_producer : Bool
  pub event_blacklisted : Bool
  pub produce_blacklisted : Bool
  pub floodgate : Bool
  pub virtual_shards : VirtualShards

-- A packet for the producer, with the shard of its metadata.
pub record Packet : Type 0 where
  pub dispatch : EventDispatch
  pub shard : Target

-- What OnDispatch returns: an error, nil with nothing sent, or what Publish returns for a packet.
pub data Sent : Type 0 where
  errored : Sent
  ignored : Sent
  published : Packet → Sent

-- A dispatch without an identifier is routed everywhere.
unfoldable pub identified : EventDispatch → EventDispatchIdentifier
identified r = elim r.identifier [ none ↦ everywhere | some id ↦ id ]

-- PublishEvent, up to the producer's Publish. The metadata is the shard's own.
unfoldable pub publish_event : Gate → Target → EventDispatch → Sent
publish_event gate metadata r =
    elim (route_payload_to_consumer gate.virtual_shards r.identifier metadata) [
      | none ↦ errored
      | some shard ↦ published (record { dispatch = r; shard = shard })
    ]

-- The end of OnDispatch, with the result of the handler.
unfoldable pub send : Gate → Target → Handled → Sent
unfolding identified publish_event
send gate metadata failed = errored
send gate metadata (handled r continuable) =
    if not gate.floodgate || not continuable
    then ignored
    else if gate.produce_blacklisted
    then ignored
    else publish_event gate metadata (record r { identifier = some (identified r) })

module _ ⦃lib : CsMap⦄ where
  -- A panic of the handler is recovered from, and OnDispatch returns nil.
  unfoldable pub recovered : Gate → Target → Outcome Daemon Handled → Daemon × Sent
  unfolding send
  recovered gate metadata (done r d) = (d, send gate metadata r)
  recovered gate metadata (panicked d) = (d, ignored)

  unfoldable pub on_dispatch :
      Env → StateCtx → Gate → Target → Message → Event → Daemon → Daemon × Sent
  unfolding recovered state_dispatch
  on_dispatch env ctx gate metadata msg event d =
      if not gate.has_producer
      then (d, errored)
      else if gate.event_blacklisted
      then (d, ignored)
      else recovered gate metadata (state_dispatch env ctx msg event d)
