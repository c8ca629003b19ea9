-- ===== src/Tests/Dispatches.antt =====
-- The theorems on OnDispatch, OnReady and OnGuildMembersChunk at concrete inputs.
use sandwich_daemon.Base.{◌≡◌, pos, none, some, [], ◌∷◌, refl, arith, true, false}
use sandwich_daemon.Cache
use sandwich_daemon.Cache.{Cache}
use sandwich_daemon.CsMap.Assoc.{assoc}
use sandwich_daemon.Discord.{Snowflake, User, GuildMember}
use sandwich_daemon.Outcome.{done, state_after}
use sandwich_daemon.State.{StateCtx}
use sandwich_daemon.State.Members.{get_guild_member, fixed_joined_at}
use sandwich_daemon.State.WellFormed.{IsWellFormed, new_sandwich_state-IsWellFormed}
use sandwich_daemon.State.Guilds.Invariant.{set_guild_state-IsWellFormed}
use sandwich_daemon.Connection.{Connection}
use sandwich_daemon.Connection.Chunks.{GuildChunks}
use sandwich_daemon.Events.Chunks.{GuildMembersChunk, on_guild_members_chunk}
use sandwich_daemon.Events.Chunks.Cached.{on_guild_members_chunk-cached}
use sandwich_daemon.Dispatch.Ready.{Ready}
use sandwich_daemon.Tests.{alice_member, club, env, ctx, start, daemon, msg}

daemon-IsWellFormed : IsWellFormed daemon.state
daemon-IsWellFormed =
    set_guild_state-IsWellFormed env ctx club start new_sandwich_state-IsWellFormed

abbrev bob : User
bob = record { id = pos 6; username = "bob" }

abbrev bob_member : GuildMember
bob_member = record {
  user = some bob;
  guild_id = none;
  nick = "";
  joined_at = "2024-02-01T00:00:00Z";
}

-- A configuration that caches neither members nor users.
abbrev uncached : StateCtx
uncached = record ctx { cache_users = false; cache_members = false }

abbrev two_members : GuildMembersChunk
two_members = record {
  nonce = [];
  members = bob_member ∷ alice_member ∷ [];
  guild_id = pos 7;
  chunk_count = pos 1;
}

abbrev table : Cache Snowflake GuildChunks
table = Cache.new_cache 0

on_guild_members_chunk-cached_example :
    get_guild_member env
      (pos 7)
      (pos 6)
      (state_after
        (on_guild_members_chunk env uncached msg false table (some two_members) daemon)).state
    ≡ done
        (
          record bob_member {
            joined_at = fixed_joined_at env bob_member.joined_at;
            user = some bob;
          },
          true,
        )
        (state_after
          (on_guild_members_chunk env uncached msg false table (some two_members) daemon)).state
on_guild_members_chunk-cached_example =
    on_guild_members_chunk-cached env uncached msg false table two_members [] (alice_member ∷ [])
      bob_member bob daemon daemon-IsWellFormed refl refl tt ((λ v e f. ground (arith, e, f)), tt)
