-- ===== src/Events/Guilds.antt =====
-- internal/events_dispatch.go, the events of whole guilds, of emojis, stickers and roles.
pub mod Kept
pub mod Safe
use sandwich_daemon.Base.{
  Bool, true, false, if◌then◌else◌, ite, Option, none, some, List, [], ◌∷◌, ℤ, pos, ℤ_discrete,
}
use sandwich_daemon.CsMap.{CsMap, or_value}
use sandwich_daemon.Cache
use sandwich_daemon.Discord.{Snowflake, Slice, Role, Emoji, Sticker, Guild, nil_id, no_role}
use sandwich_daemon.Outcome.{Outcome, done, panicked, Action, pure, reads, changes, ◌>>=◌, ◌>>◌}
use sandwich_daemon.State.{SandwichState, StateCtx, Env, same_id}
use sandwich_daemon.State.Roles.{get_guild_role, set_guild_role, remove_guild_role}
use sandwich_daemon.State.Emojis.{get_all_guild_emojis, remove_all_guild_emojis, set_guild_emojis}
use sandwich_daemon.State.Guilds.{Shard, get_guild, set_guild}
use sandwich_daemon.Events.{
  Message, Handled, handled, EventDispatch, Extra, lazy_unavailable, before_guild, before_emojis,
  before_stickers, before_role, for_guild, dispatch, dispatch_extra, Daemon, in_state, on_state,
  edits, decoding,
}

-- discord/guild.go's UnavailableGuild, the payload of GUILD_DELETE
pub record UnavailableGuild : Type 0 where
  pub id : Snowflake
  pub unavailable : Bool

pub record GuildEmojisUpdate : Type 0 where
  pub guild_id : Snowflake
  pub emojis : Slice Emoji

pub record GuildStickersUpdate : Type 0 where
  pub guild_id : Snowflake
  pub stickers : Slice Sticker

pub record GuildRole : Type 0 where
  pub guild_id : Snowflake
  pub role : Role

pub record GuildRoleDelete : Type 0 where
  pub guild_id : Snowflake
  pub role_id : Snowflake

-- A list of the new guild, or the old one's if it is nil.
unfoldable pub kept : {A : Type 0} → Slice A → Slice A → Slice A
kept none old = old
kept (some l) old = some l

-- OnGuildUpdate's merge: what only GUILD_CREATE carries comes from the cached guild.
unfoldable pub preserved : Guild → Guild → Guild
unfolding kept ℤ_discrete
preserved before guild = record guild {
  stage_instances = kept guild.stage_instances before.stage_instances;
  channels = kept guild.channels before.channels;
  members = kept guild.members before.members;
  voice_states = kept guild.voice_states before.voice_states;
  member_count = ite (ℤ_discrete guild.member_count (pos 0)) before.member_count guild.member_count;
  large = before.large;
  joined_at = before.joined_at;
}

module _ ⦃lib : CsMap⦄ where
  -- SetGuild, on the state and on the shard.
  unfoldable pub store_guild : Env → StateCtx → Guild → Action Daemon (Unit {0})
  store_guild env ctx guild d =
      let r = set_guild env ctx guild d.shard d.state in in_state (record d { shard = r.0 }) r.1

  unfoldable pub clear_lazy : Snowflake → Daemon → Daemon
  clear_lazy guild_id d = record d {
    shard = record (d.shard) {
      lazy = Cache.delete same_id d.shard.lazy guild_id;
      unavailable = Cache.delete same_id d.shard.unavailable guild_id;
    };
  }

  unfoldable pub on_guild_create : Env → StateCtx → Message → Option Guild → Action Daemon Handled
  unfolding store_guild clear_lazy
  on_guild_create env ctx msg payload = decoding payload (λ guild. do
    store_guild env ctx guild
    changes (clear_lazy guild.id)
    pure (dispatch_extra msg (lazy_unavailable tt tt) (for_guild (some guild.id))))

  -- The guild that OnGuildUpdate stores.
  unfoldable pub updated_guild : Guild → Guild × Bool → Guild
  unfolding preserved
  updated_guild guild (before, true) = preserved before guild
  updated_guild guild (before, false) = guild

  unfoldable pub on_guild_update : Env → StateCtx → Message → Option Guild → Action Daemon Handled
  unfolding store_guild updated_guild
  on_guild_update env ctx msg payload = decoding payload (λ guild. do
    before ← reads (λ d. get_guild d.state guild.id)
    store_guild env ctx (updated_guild guild before)
    pure (dispatch_extra msg (before_guild before.0) (for_guild (some guild.id))))

  -- The guild's entry stays in the shared state, since other managers may use it.
  unfoldable pub forget_guild : UnavailableGuild → Daemon → Daemon
  forget_guild g d =
      if g.unavailable
      then record d {
        shard = record (d.shard) { unavailable = Cache.store same_id d.shard.unavailable g.id tt };
      }
      else record d {
        shard = record (d.shard) {
          group_guilds = Cache.delete same_id d.shard.group_guilds g.id;
          guilds = Cache.delete same_id d.shard.guilds g.id;
        };
      }

  -- A payload that does not decode is dispatched for the id 0; the same without extras is done when
  -- they cannot be marshalled.
  unfoldable pub on_guild_delete : Message → Option UnavailableGuild → Action Daemon Handled
  unfolding forget_guild
  on_guild_delete msg none = pure (dispatch msg (for_guild (some nil_id)))
  on_guild_delete msg (some g) = do
    before ← reads (λ d. get_guild d.state g.id)
    changes (forget_guild g)
    pure (
        if msg.marshals (before_guild before.0)
        then dispatch_extra msg (before_guild before.0) (for_guild (some g.id))
        else dispatch msg (for_guild (some g.id)))

  unfoldable pub on_guild_emojis_update :
      Env → StateCtx → Message → Option GuildEmojisUpdate → Action Daemon Handled
  on_guild_emojis_update env ctx msg payload = decoding payload (λ p. do
    before ← reads (λ d. or_value (get_all_guild_emojis d.state p.guild_id) none)
    edits (remove_all_guild_emojis p.guild_id)
    edits (set_guild_emojis env ctx p.guild_id p.emojis)
    pure (dispatch_extra msg (before_emojis before) (for_guild (some p.guild_id))))

  -- SetGuild of a guild that was found, with its new stickers.
  unfoldable pub store_stickers :
      Env → StateCtx → Slice Sticker → Guild × Bool → Action Daemon (Unit {0})
  unfolding store_guild
  store_stickers env ctx stickers (before, false) = pure tt
  store_stickers env ctx stickers (before, true) =
      store_guild env ctx (record before { stickers = stickers })

  unfoldable pub on_guild_stickers_update :
      Env → StateCtx → Message → Option GuildStickersUpdate → Action Daemon Handled
  unfolding store_stickers
  on_guild_stickers_update env ctx msg payload = decoding payload (λ p. do
    before ← reads (λ d. get_guild d.state p.guild_id)
    store_stickers env ctx p.stickers before
    pure (dispatch_extra msg (before_stickers before.0.stickers) (for_guild (some p.guild_id))))

  unfoldable pub on_guild_role_create : Message → Option GuildRole → Action Daemon Handled
  on_guild_role_create msg payload = decoding payload (λ p. do
    on_state (set_guild_role p.guild_id p.role)
    pure (dispatch msg (for_guild (some p.guild_id))))

  unfoldable pub on_guild_role_update : Message → Option GuildRole → Action Daemon Handled
  on_guild_role_update msg payload = decoding payload (λ p. do
    before ← reads (λ d. or_value (get_guild_role d.state p.guild_id p.role.id) no_role)
    on_state (set_guild_role p.guild_id p.role)
    pure (dispatch_extra msg (before_role before) (for_guild (some p.guild_id))))

  unfoldable pub on_guild_role_delete : Message → Option GuildRoleDelete → Action Daemon Handled
  on_guild_role_delete msg payload = decoding payload (λ p. do
    edits (remove_guild_role p.guild_id p.role_id)
    pure (dispatch msg (for_guild (some p.guild_id))))
