-- ===== src/Events/Simple.antt =====
-- internal/events_dispatch.go, the events that change nothing and are only routed.
use sandwich_daemon.Base.{false, Option, none, some}
use sandwich_daemon.CsMap.{CsMap, is_some}
use sandwich_daemon.Base.{not}
use sandwich_daemon.Discord.{Snowflake}
use sandwich_daemon.Outcome.{Action, pure, panic}
use sandwich_daemon.Events.{
  Message, Handled, EventDispatchIdentifier, for_guild, dispatch, Daemon, decoding,
}

-- What these handlers read of a payload. The guild's id is 0 where the source has a plain id and the
-- payload none.
pub record Origin : Type 0 where
  pub guild_id : Option Snowflake
  pub user_id : Option Snowflake

abbrev pub of_author : Option Snowflake → Option Snowflake → EventDispatchIdentifier
of_author guild_id user_id = record {
  guild_id = guild_id;
  user_id = user_id;
  globally_routed = false;
}

module _ ⦃lib : CsMap⦄ where
  -- OnGuildAuditLogEntryCreate, OnGuildIntegrationsUpdate, OnInviteCreate, OnInviteDelete,
  -- OnMessageDelete, OnMessageDeleteBulk, OnMessageReactionRemoveAll, OnMessageReactionRemoveEmoji,
  -- OnPresenceUpdate and OnTypingStart
  unfoldable pub on_guild_event : Message → Option Origin → Action Daemon Handled
  on_guild_event msg payload = decoding payload (λ o. pure (dispatch msg (for_guild o.guild_id)))

  -- OnGuildBanAdd and OnGuildBanRemove, which dereference the guild's id.
  unfoldable pub on_guild_ban : Message → Option Origin → Action Daemon Handled
  on_guild_ban msg payload =
      decoding payload (λ o. elim o.guild_id [
        | none ↦ panic
        | some id ↦ pure (dispatch msg (for_guild (some id)))
      ])

  -- OnMessageCreate, OnMessageUpdate, OnMessageReactionAdd and OnMessageReactionRemove
  unfoldable pub on_message_event : Message → Option Origin → Action Daemon Handled
  on_message_event msg payload =
      decoding payload (λ o. pure (dispatch msg (of_author o.guild_id o.user_id)))

  -- OnEntitlementCreate, OnEntitlementUpdate and OnEntitlementDelete
  unfoldable pub on_entitlement : Message → Option Origin → Action Daemon Handled
  on_entitlement msg payload = decoding payload (λ o. pure (
      dispatch msg (record {
        guild_id = o.guild_id;
        user_id = none;
        globally_routed = not (is_some o.guild_id);
      })))

  -- WildcardEvent, for every event type without a handler.
  unfoldable pub wildcard_event : Message → Option Origin → Action Daemon Handled
  wildcard_event msg payload = decoding payload (λ o. pure (
      dispatch msg (record {
        guild_id = o.guild_id;
        user_id = o.user_id;
        globally_routed = not (is_some o.guild_id);
      })))
