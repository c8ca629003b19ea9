-- ===== src/Tests.antt =====
-- Concrete inputs, and the theorems at these inputs.
pub mod Caches
mod Connections
mod Consumers
mod Dispatches
mod Ejections
pub mod States
pub mod Members
pub mod Routes
use sandwich_daemon.Base.{ℤ, pos, none, some, [], ◌∷◌, true, false}
use sandwich_daemon.CsMap.Assoc.{assoc}
use sandwich_daemon.Discord.{User, GuildMember, Channel, Role, Emoji, Guild, VoiceState}
use sandwich_daemon.State.{Env, StateCtx, SandwichState, new_sandwich_state}
use sandwich_daemon.Cache
use sandwich_daemon.State.Guilds.{Shard, set_guild_state}
use sandwich_daemon.Outcome.{state_after}
use sandwich_daemon.Events.{Message, Daemon}

abbrev pub alice : User
alice = record { id = pos 5; username = "alice" }

abbrev pub alice_member : GuildMember
alice_member = record {
  user = some alice;
  guild_id = some (pos 7);
  nick = "al";
  joined_at = "2024-01-01T00:00:00Z";
}

abbrev pub general : Channel
general = record {
  id = pos 11;
  guild_id = none;
  last_pin_timestamp = none;
  recipients = alice ∷ [];
  member_count = pos 0;
  kind = 0;
}

abbrev pub admin : Role
admin = record { id = pos 21; name = "admin" }

abbrev pub smile : Emoji
smile = record { id = pos 31; user = some alice; name = "smile" }

abbrev pub talking : VoiceState
talking = record {
  guild_id = some (pos 7);
  member = some alice_member;
  user_id = pos 5;
  channel_id = pos 11;
}

abbrev pub club : Guild
club = record {
  id = pos 7;
  afk_channel_id = none;
  joined_at = "2023-01-01T00:00:00Z";
  stickers = none;
  stage_instances = none;
  roles = some (admin ∷ []);
  emojis = some (smile ∷ []);
  voice_states = none;
  members = some (alice_member ∷ []);
  channels = some (general ∷ []);
  approximate_member_count = pos 1;
  member_count = pos 1;
  large = false;
}

abbrev pub env : Env
env = record { now = pos 1000; is_rfc3339 = λ _. true }

abbrev pub half_minute_later : Env
half_minute_later = record { now = pos 1030; is_rfc3339 = λ _. true }

abbrev pub ctx : StateCtx
ctx = record {
  cache_users = true;
  cache_members = true;
  stateless = false;
  store_mutuals = true;
  has_group = true;
  user_id = pos 1;
}

abbrev pub start : SandwichState
start = new_sandwich_state

abbrev pub with_club : SandwichState
with_club = state_after (set_guild_state env ctx club start)

abbrev pub msg : Message
msg = record { payload = "{}"; marshals = λ _. true }

abbrev pub shard : Shard
shard = record {
  group_guilds = Cache.new_cache 0;
  guilds = Cache.new_cache 0;
  lazy = Cache.new_cache 0;
  unavailable = Cache.new_cache 0;
}

abbrev pub daemon : Daemon
daemon = record { state = with_club; dedupe = assoc.create 50; shard = shard }
