-- ===== src/Tests/Members.antt =====
-- The theorems on the events of internal/events_dispatch.go and on the dedupe table at concrete inputs.
use sandwich_daemon.Base.{
  ◌≡◌, pos, none, some, [], ◌∷◌, ite, refl, arith, true, false, ◌+ℤ◌, ◌<ℤ◌, ℤ,
}
use sandwich_daemon.CsMap.{mapped}
use sandwich_daemon.CsMap.Assoc.{assoc}
use sandwich_daemon.Cache
use sandwich_daemon.Discord.{Snowflake, Guild}
use sandwich_daemon.Strconv.{same_bytes}
use sandwich_daemon.Dedupe.{
  DedupeMap, member_dedupe_expiration, create_dedupe_member_add_key,
  create_dedupe_member_remove_key, check_dedupe, check_and_add_dedupe,
}
use sandwich_daemon.Dedupe.Keys.{dedupe_keys-inj}
use sandwich_daemon.Dedupe.Windows.{check_and_add_dedupe-twice}
use sandwich_daemon.Outcome.{done, state_after}
use sandwich_daemon.State.{Env, same_id}
use sandwich_daemon.State.Guilds.{get_guild}
use sandwich_daemon.State.Guilds.Stored.{load-set_guild_state}
use sandwich_daemon.Events.{Message, handled, no_dispatch}
use sandwich_daemon.Events.Guilds.{UnavailableGuild, on_guild_update, on_guild_delete}
use sandwich_daemon.Events.Guilds.Kept.{IsMerged, on_guild_delete-keeps, load-on_guild_update}
use sandwich_daemon.Events.Members.{joined, on_guild_member_add, on_guild_member_remove}
use sandwich_daemon.Events.Members.Counting.{IsInt32}
use sandwich_daemon.Events.Members.Joins.{after_join, on_guild_member_add-once}
use sandwich_daemon.Events.Members.Leaves.{on_guild_member_remove-undoes}
use sandwich_daemon.Tests.{
  alice, alice_member, club, env, half_minute_later, ctx, with_club, msg, daemon, start,
}

abbrev table : DedupeMap
table = assoc.create 50

dedupe_keys-inj_example :
    (create_dedupe_member_add_key (pos 1) (pos 23) ≡ create_dedupe_member_add_key (pos 12) (pos 3)
      → (pos 1 ≡ pos 12) × (pos 23 ≡ pos 3))
    × (create_dedupe_member_remove_key (pos 1) (pos 23)
          ≡ create_dedupe_member_remove_key (pos 12) (pos 3)
        → (pos 1 ≡ pos 12) × (pos 23 ≡ pos 3))
    × (¬ (
        create_dedupe_member_add_key (pos 1) (pos 23)
        ≡ create_dedupe_member_remove_key (pos 12) (pos 3)))
dedupe_keys-inj_example = dedupe_keys-inj (pos 1) (pos 23) (pos 12) (pos 3)

within_a_minute : pos 1030 <ℤ (pos 1000 +ℤ member_dedupe_expiration)
unfolding ◌+ℤ◌
within_a_minute = omega arith

check_and_add_dedupe-twice_example :
    ((check_and_add_dedupe (pos 1000) (77 ∷ []) table).1 ≡ check_dedupe (pos 1000) (77 ∷ []) table)
    × ((check_and_add_dedupe (pos 1000) (77 ∷ []) table).1 ≡ false
        → (check_and_add_dedupe
            (pos 1030)
            (77 ∷ [])
            (check_and_add_dedupe (pos 1000) (77 ∷ []) table).0).1
          ≡ true)
check_and_add_dedupe-twice_example =
    check_and_add_dedupe-twice table (77 ∷ []) (pos 1000) (pos 1030) (omega arith) within_a_minute

not_seen : check_dedupe (pos 1000) (create_dedupe_member_add_key (pos 7) (pos 5)) table ≡ false
unfolding check_dedupe
not_seen =
    ground (
      arith,
      assoc.load-create {V = ℤ} same_bytes 50 (create_dedupe_member_add_key (pos 7) (pos 5)),
    )

on_guild_member_add-once_example :
    ((id : Snowflake)
      → Cache.load same_id
          (after_join ctx msg alice_member (pos 7) alice env daemon).state.guilds
          id
        ≡ ite
            (same_id (pos 7) id)
            (mapped joined (Cache.load same_id with_club.guilds (pos 7)))
            (Cache.load same_id with_club.guilds id))
    × ((later : Env) (msg' : Message)
        → later.now <ℤ (pos 1000 +ℤ member_dedupe_expiration)
        → on_guild_member_add later ctx msg'
            (some alice_member)
            (after_join ctx msg alice_member (pos 7) alice env daemon)
          ≡ done
              (handled no_dispatch false)
              (after_join ctx msg alice_member (pos 7) alice env daemon))
on_guild_member_add-once_example =
    on_guild_member_add-once ctx msg alice_member (pos 7) alice env daemon refl refl not_seen
      (omega arith)

club_count :
    (g : Guild) → Cache.load same_id with_club.guilds (pos 7) ≡ some g → IsInt32 g.member_count
club_count g e = ground (arith, load-set_guild_state env ctx club start)

on_guild_member_remove-undoes_example :
    Cache.load same_id
      (state_after (
        on_guild_member_remove half_minute_later msg
          (some (record { guild_id = pos 7; user = alice }))
          (state_after (on_guild_member_add env ctx msg (some alice_member) daemon)))).state.guilds
      (pos 7)
    ≡ Cache.load same_id with_club.guilds (pos 7)
on_guild_member_remove-undoes_example =
    on_guild_member_remove-undoes ctx msg alice_member (pos 7) alice env half_minute_later daemon
      msg refl refl not_seen club_count

load-on_guild_update_example :
    (u : Guild) × (Cache.load same_id
        (state_after (on_guild_update env ctx msg (some club) daemon)).state.guilds
        (pos 7)
      ≡ some u)
    × ((get_guild with_club (pos 7)).1 ≡ true → IsMerged (get_guild with_club (pos 7)).0 club u)
    × ((get_guild with_club (pos 7)).1 ≡ false → u ≡ club)
load-on_guild_update_example = load-on_guild_update env ctx msg club daemon refl

abbrev outage : UnavailableGuild
outage = record { id = pos 7; unavailable = true }

on_guild_delete-keeps_example :
    ((state_after (on_guild_delete msg (some outage) daemon)).state ≡ with_club)
    × ((state_after (on_guild_delete msg (some outage) daemon)).dedupe ≡ daemon.dedupe)
    × (true ≡ true
        → Cache.load same_id
            (state_after (on_guild_delete msg (some outage) daemon)).shard.unavailable
            (pos 7)
          ≡ some tt)
    × (true ≡ false
        → (Cache.load same_id
              (state_after (on_guild_delete msg (some outage) daemon)).shard.guilds
              (pos 7)
            ≡ none)
          × (Cache.load same_id
                (state_after (on_guild_delete msg (some outage) daemon)).shard.group_guilds
                (pos 7)
              ≡ none))
on_guild_delete-keeps_example = on_guild_delete-keeps msg outage daemon
