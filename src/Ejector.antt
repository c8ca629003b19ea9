-- ===== src/Ejector.antt =====
-- internal/sandwich.go, cacheEjector: what it does at a tick of its clock.
pub mod Held
pub mod Guilds
pub mod Ticks
pub mod Dedupes
use sandwich_daemon.Base.{
  Bool, true, false, not, Option, none, some, List, [], ◌∷◌, ℤ, pos, ltb_ℤ, insert, lookup,
  if◌then◌else◌,
}
use sandwich_daemon.CsMap.{CsMap}
use sandwich_daemon.Cache
use sandwich_daemon.Strconv.{Bytes, same_bytes}
use sandwich_daemon.Dedupe.{DedupeMap}
use sandwich_daemon.Discord.{Snowflake, Guild}
use sandwich_daemon.Outcome.{Action, each}
use sandwich_daemon.State.{SandwichState, StateCtx, same_id}
use sandwich_daemon.State.Guilds.{Shard, remove_guild}
use sandwich_daemon.ShardGroup.{ShardGroup, Manager}

-- The map allGuildIDs.
abbrev pub GuildIds : Type 0
GuildIds = List (Snowflake × Bool)

unfoldable pub note_guilds : List Snowflake → GuildIds → GuildIds
unfolding insert
note_guilds [] ids = ids
note_guilds (id ∷ rest) ids = note_guilds rest (insert same_id id true ids)

unfoldable pub note_groups : List (ℤ × ShardGroup) → GuildIds → GuildIds
unfolding note_guilds
note_groups [] ids = ids
note_groups ((_, g) ∷ rest) ids = note_groups rest (note_guilds g.guilds ids)

unfoldable pub note_managers : List Manager → GuildIds → GuildIds
unfolding note_groups
note_managers [] ids = ids
note_managers (m ∷ rest) ids = note_managers rest (note_groups m.shard_groups ids)

-- `val, ok := allGuildIDs[guildID]; !val || !ok`
unfoldable pub is_unheld : GuildIds → Snowflake → Bool
unfolding lookup
is_unheld ids id = elim (lookup same_id id ids) [ none ↦ true | some val ↦ not val ]

-- The guilds of the state that no group holds.
unfoldable pub ejected_guilds : GuildIds → List (Snowflake × Guild) → List Snowflake
unfolding is_unheld
ejected_guilds ids [] = []
ejected_guilds ids ((id, _) ∷ rest) =
    let ejected : List Snowflake = ejected_guilds ids rest in
    if is_unheld ids id then id ∷ ejected else ejected

-- cacheEjectorStateCtx: of the zero value only Stateless is set.
abbrev pub cache_ejector_state_ctx : StateCtx
cache_ejector_state_ctx = record {
  cache_users = false;
  cache_members = false;
  stateless = true;
  store_mutuals = false;
  has_group = false;
  user_id = pos 0;
}

-- `now > t`
unfoldable pub ejected_dedupes : ℤ → List (Bytes × ℤ) → List Bytes
ejected_dedupes now [] = []
ejected_dedupes now ((key, t) ∷ rest) =
    let ejected : List Bytes = ejected_dedupes now rest in
    if ltb_ℤ t now then key ∷ ejected else ejected

module _ ⦃lib : CsMap⦄ where
  -- The first half of a tick. The context has no shard, and RemoveGuild does not look at it.
  unfoldable pub eject_guilds : List Manager → Shard → Action SandwichState (Unit {0})
  unfolding note_managers ejected_guilds
  eject_guilds managers sh ss =
      each (ejected_guilds (note_managers managers []) (Cache.range ss.guilds))
        (λ id s. (remove_guild cache_ejector_state_ctx id sh s).1) ss

  unfoldable pub delete_dedupes : List Bytes → DedupeMap → DedupeMap
  delete_dedupes [] m = m
  delete_dedupes (key ∷ keys) m = delete_dedupes keys (lib.delete same_bytes m key)

  -- The second half.
  unfoldable pub eject_dedupes : ℤ → DedupeMap → DedupeMap
  unfolding ejected_dedupes delete_dedupes
  eject_dedupes now m = delete_dedupes (ejected_dedupes now (lib.entries m)) m
