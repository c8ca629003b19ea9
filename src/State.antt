-- ===== src/State.antt =====
-- internal/state.go: the state that all managers share, and the context that an event handler passes.
-- Each child module holds the operations on one kind of entry.
pub mod Users
pub mod Members
pub mod Roles
pub mod Emojis
pub mod Channels
pub mod Voice
pub mod Guilds
pub mod Frames
pub mod WellFormed
pub mod Edited
pub mod RoundTrips
pub mod DmChannels
use sandwich_daemon.Base.{Bool, List, Option, ℤ, ℤ_discrete, String}
use sandwich_daemon.CsMap.{CsMap}
use sandwich_daemon.Cache
use sandwich_daemon.Cache.{Cache}
use sandwich_daemon.DoubleCache
use sandwich_daemon.DoubleCache.{DoubleCache}
use sandwich_daemon.Discord.{
  Snowflake, Slice, User, GuildMember, VoiceState, Channel, Role, Emoji, Guild,
}

-- The equality of ids, which the caches compare keys by.
unfoldable pub same_id : Discrete Snowflake
unfolding ℤ_discrete
same_id = ℤ_discrete

pub record StateUser : Type 0 where
  pub user : User
  pub last_updated : ℤ

pub record StateDmChannel : Type 0 where
  pub channel : Channel
  pub user_id : Snowflake
  pub expires_at : ℤ

-- What an operation reads from outside: the clock in Unix seconds, which stands still for one
-- operation, and whether `time.Parse` takes a text for an RFC 3339 time.
pub record Env : Type 0 where
  pub now : ℤ
  pub is_rfc3339 : String → Bool

-- `user_id` is `ctx.Manager.User.ID`. A context made by NewFakeCtx, or the cache ejector's, has no
-- shard group.
pub record StateCtx : Type 0 where
  pub cache_users : Bool
  pub cache_members : Bool
  pub stateless : Bool
  pub store_mutuals : Bool
  pub has_group : Bool
  pub user_id : Snowflake

-- NewFakeCtx
unfoldable pub new_fake_ctx : Snowflake → StateCtx
new_fake_ctx user_id = record {
  cache_users = Bool.true;
  cache_members = Bool.true;
  stateless = Bool.false;
  store_mutuals = Bool.true;
  has_group = Bool.false;
  user_id = user_id;
}

module _ ⦃lib : CsMap⦄ where
  pub record SandwichState : Type 0 where
    pub guilds : Cache Snowflake Guild
    pub guild_members : DoubleCache Snowflake Snowflake GuildMember
    pub guild_channels : DoubleCache Snowflake Snowflake Channel
    pub guild_roles : DoubleCache Snowflake Snowflake Role
    pub guild_emojis : Cache Snowflake (Slice Emoji)
    pub users : Cache Snowflake StateUser
    pub dm_channels : Cache Snowflake StateDmChannel
    pub mutuals : DoubleCache Snowflake Snowflake (Unit {0})
    pub guild_voice_states : DoubleCache Snowflake Snowflake VoiceState

  unfoldable pub new_sandwich_state : SandwichState
  new_sandwich_state = record {
    guilds = Cache.new_cache 100;
    guild_members = DoubleCache.new_double_cache 0 50;
    guild_channels = DoubleCache.new_double_cache 0 50;
    guild_roles = DoubleCache.new_double_cache 0 50;
    guild_emojis = Cache.new_cache 50;
    users = Cache.new_cache 100;
    dm_channels = Cache.new_cache 50;
    mutuals = DoubleCache.new_double_cache 0 50;
    guild_voice_states = DoubleCache.new_double_cache 0 50;
  }
