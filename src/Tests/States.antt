-- ===== src/Tests/States.antt =====
-- The theorems on the shared state of internal/state.go at concrete inputs.
use sandwich_daemon.Base.{
  ◌≡◌, pos, none, some, [], ◌∷◌, ite, refl, arith, true, false, ◌+ℤ◌, ltb_ℤ, if◌then◌else◌, insert,
  lookup, remove,
}
use sandwich_daemon.CsMap.Assoc.{assoc}
use sandwich_daemon.Cache
use sandwich_daemon.Cache.Laws
use sandwich_daemon.Discord.{Channel, Snowflake, no_emoji, no_voice_state}
use sandwich_daemon.Outcome.{done, panicked, state_after}
use sandwich_daemon.State.{SandwichState, StateDmChannel, same_id, new_sandwich_state}
use sandwich_daemon.State.Members.{get_guild_member, set_guild_member, fixed_joined_at}
use sandwich_daemon.State.Emojis.{get_guild_emoji, set_guild_emojis}
use sandwich_daemon.State.Channels.{
  member_dm_expiration, get_dm_channel, add_dm_channel, remove_dm_channel_by_user_id,
}
use sandwich_daemon.State.Voice.{get_voice_state}
use sandwich_daemon.State.Voice.Keeps.{update_all}
use sandwich_daemon.State.Voice.Lost.{get_voice_state-update_all}
use sandwich_daemon.State.Guilds.{set_guild}
use sandwich_daemon.State.Guilds.Stored.{load-set_guild, set_guild-Returns}
use sandwich_daemon.State.WellFormed.{new_sandwich_state-IsWellFormed}
use sandwich_daemon.State.RoundTrips.{
  get_guild_member-set_guild_member, get_guild_emoji-set_guild_emojis,
}
use sandwich_daemon.State.DmChannels.{get_dm_channel-add_dm_channel}
use sandwich_daemon.Tests.{
  shard, alice, alice_member, general, smile, talking, club, env, half_minute_later, ctx, start,
}

get_voice_state-update_all_example :
    get_voice_state env (pos 7) (pos 5) (update_all env ctx (talking ∷ []) start)
    ≡ done (no_voice_state, false) (update_all env ctx (talking ∷ []) start)
get_voice_state-update_all_example =
    get_voice_state-update_all env ctx (talking ∷ []) (pos 7) (pos 5)

load-set_guild_example :
    (true ≡ true
      → Cache.load same_id (state_after (set_guild env ctx club shard start).1).guilds (pos 7)
        ≡ some club)
    × (true ≡ false → set_guild env ctx club shard start ≡ (shard, panicked start))
load-set_guild_example = load-set_guild env ctx club shard start

set_guild-Returns_example :
    (t : SandwichState) × ((set_guild env ctx club shard start).1 ≡ done tt t)
set_guild-Returns_example =
    set_guild-Returns env ctx club shard start refl ((λ e. cc), tt) ((λ e. cc), tt) refl

get_guild_member-set_guild_member_example :
    get_guild_member env
      (pos 7)
      (pos 5)
      (state_after (set_guild_member env ctx (pos 7) alice_member start))
    ≡ done
        (
          record alice_member {
            joined_at = fixed_joined_at env alice_member.joined_at;
            user = some alice;
          },
          true,
        )
        (state_after (set_guild_member env ctx (pos 7) alice_member start))
get_guild_member-set_guild_member_example =
    get_guild_member-set_guild_member env ctx (pos 7) alice_member alice start
      new_sandwich_state-IsWellFormed refl refl refl

get_guild_emoji-set_guild_emojis_example :
    get_guild_emoji (set_guild_emojis env ctx (pos 7) (some (smile ∷ [])) start) (pos 7) (pos 99)
    ≡ (no_emoji, true)
get_guild_emoji-set_guild_emojis_example =
    get_guild_emoji-set_guild_emojis env ctx (pos 7) (some (smile ∷ [])) start (pos 99)
      ((λ e. ground arith), tt)

get_dm_channel-add_dm_channel_example :
    (get_dm_channel half_minute_later (pos 11) (add_dm_channel env (pos 5) general start)).1
    ≡ (if ltb_ℤ (pos 1000 +ℤ member_dm_expiration) (pos 1030) then none else some general)
get_dm_channel-add_dm_channel_example =
    get_dm_channel-add_dm_channel start env half_minute_later (pos 5) general

abbrev with_dm : SandwichState
with_dm = add_dm_channel env (pos 5) general start

with_dm_found : (get_dm_channel half_minute_later (pos 11) with_dm).1 ≡ some general
unfolding get_dm_channel add_dm_channel Cache.load Cache.store ◌+ℤ◌
with_dm_found = get_dm_channel-add_dm_channel start env half_minute_later (pos 5) general

abbrev other_channel : Channel
other_channel = record general { id = pos 12 }

abbrev with_two_dms : SandwichState
with_two_dms = add_dm_channel env (pos 6) other_channel with_dm

abbrev entry_of : Snowflake → Channel → StateDmChannel
entry_of user_id c = record {
  channel = c;
  user_id = user_id;
  expires_at = pos 1000 +ℤ member_dm_expiration;
}

load-with_two_dms :
    (i : Snowflake)
    → Cache.load same_id with_two_dms.dm_channels i
      ≡ ite
          (same_id (pos 12) i)
          (some (entry_of (pos 6) other_channel))
          (ite (same_id (pos 11) i) (some (entry_of (pos 5) general)) none)
unfolding add_dm_channel new_sandwich_state
load-with_two_dms i = ground (
  arith,
  Cache.Laws.load-store same_id with_dm.dm_channels (pos 12) (entry_of (pos 6) other_channel) i,
  Cache.Laws.load-store same_id start.dm_channels (pos 11) (entry_of (pos 5) general) i,
  Cache.Laws.load-new_cache {V = StateDmChannel} same_id 50 i,
)

dm_key :
    (i : Snowflake) (a : StateDmChannel)
    → Cache.load same_id with_two_dms.dm_channels i ≡ some a
    → a.user_id ≡ pos 5
    → i ≡ pos 11
dm_key i a e f = ground (arith, load-with_two_dms i)

other_stays :
    Cache.load same_id (remove_dm_channel_by_user_id (pos 5) with_two_dms).dm_channels (pos 12)
    ≡ some (entry_of (pos 6) other_channel)
unfolding remove_dm_channel_by_user_id add_dm_channel new_sandwich_state Cache.load Cache.store
    Cache.range Cache.delete Cache.new_cache same_id insert lookup remove
other_stays = refl
