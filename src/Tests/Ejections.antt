-- ===== src/Tests/Ejections.antt =====
-- The theorems on internal/sandwich.go's cacheEjector at concrete inputs.
use sandwich_daemon.Base.{◌≡◌, ◌↔◌, List, ℤ, pos, some, [], ◌∷◌, arith, true, false, ◌≤ℤ◌}
use sandwich_daemon.Cache
use sandwich_daemon.CsMap.Assoc.{assoc}
use sandwich_daemon.Strconv.{same_bytes}
use sandwich_daemon.Dedupe.{DedupeMap, check_dedupe}
use sandwich_daemon.Discord.{Guild}
use sandwich_daemon.Outcome.{done, state_after}
use sandwich_daemon.State.{same_id}
use sandwich_daemon.ShardGroup.{ShardGroup, Manager, new_shard_group}
use sandwich_daemon.Ejector.{eject_guilds, eject_dedupes}
use sandwich_daemon.Ejector.Held.{IsHeld}
use sandwich_daemon.Ejector.Guilds.{HaveSame, IsGone}
use sandwich_daemon.Ejector.Ticks.{eject_guilds-Unheld}
use sandwich_daemon.Ejector.Dedupes.{check_dedupe-eject_dedupes}
use sandwich_daemon.Tests.{with_club, shard}

abbrev keys : DedupeMap
keys =
    assoc.store same_bytes (assoc.store same_bytes (assoc.create 50) (77 ∷ []) (pos 900)) (78 ∷ [])
      (pos 1040)

check_dedupe-eject_dedupes_example :
    (check_dedupe (pos 1030) (78 ∷ []) (eject_dedupes (pos 1000) keys)
      ≡ check_dedupe (pos 1030) (78 ∷ []) keys)
    × ((t : ℤ)
        → (assoc.load same_bytes (eject_dedupes (pos 1000) keys) (78 ∷ []) ≡ some t)
          ↔ ((assoc.load same_bytes keys (78 ∷ []) ≡ some t) × (pos 1000 ≤ℤ t)))
check_dedupe-eject_dedupes_example =
    check_dedupe-eject_dedupes (pos 1000) (pos 1030) keys (78 ∷ []) (omega arith)

-- A group that holds one guild, with a number of its own.
abbrev other_guild : ShardGroup
other_guild = record (new_shard_group (pos 1) (pos 0 ∷ []) (pos 1)) { guilds = pos 8 ∷ [] }

abbrev managers : List Manager
managers =
    record {
      shard_groups = (pos 1, other_guild) ∷ [];
      shard_group_counter = pos 1;
      is_closing = false;
      has_producer = true;
    }
    ∷ []

-- The club is in the state, and no group holds it.
eject_guilds-Unheld_example :
    (eject_guilds managers shard with_club
      ≡ done tt (state_after (eject_guilds managers shard with_club)))
    × (IsHeld (pos 7) managers
        → HaveSame (pos 7) with_club (state_after (eject_guilds managers shard with_club)))
    × ((g : Guild)
        → ¬ IsHeld (pos 7) managers
        → Cache.load same_id with_club.guilds (pos 7) ≡ some g
        → IsGone (pos 7) (state_after (eject_guilds managers shard with_club)))
eject_guilds-Unheld_example = eject_guilds-Unheld managers shard with_club (pos 7)
