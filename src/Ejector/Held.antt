-- ===== src/Ejector/Held.antt =====
-- internal/sandwich.go, cacheEjector: the guilds that the groups of all managers hold.
use sandwich_daemon.Base.{
  insert, ◌≡◌, refl, true, false, some, none, List, [], ◌∷◌, ℤ, ◌⊎◌, inl, inr, arith, lookup,
  lookup-insert,
}
use sandwich_daemon.Discord.{Snowflake}
use sandwich_daemon.State.{same_id}
use sandwich_daemon.ShardGroup.{ShardGroup, Manager}
use sandwich_daemon.Ejector.{GuildIds, note_guilds, note_groups, note_managers, is_unheld}

module _ (id : Snowflake) where
  abbrev pub Has : List Snowflake → Type 0
  Has [] = ⊥
  Has (j ∷ ids) = (j ≡ id) ⊎ Has ids

  abbrev pub GroupsHold : List (ℤ × ShardGroup) → Type 0
  GroupsHold [] = ⊥
  GroupsHold ((_, g) ∷ groups) = Has g.guilds ⊎ GroupsHold groups

  -- A group of a manager holds the guild.
  abbrev pub IsHeld : List Manager → Type 0
  IsHeld [] = ⊥
  IsHeld (m ∷ managers) = GroupsHold m.shard_groups ⊎ IsHeld managers

  IsNoted : GuildIds → Type 0
  IsNoted ids = lookup same_id id ids ≡ some true

  insert-IsNoted :
      (j : Snowflake) (ids : GuildIds)
      → (j ≡ id) ⊎ IsNoted ids
      → IsNoted (insert same_id j true ids)
  unfolding IsNoted
  insert-IsNoted j ids (inl e) = ground (arith, e, lookup-insert same_id j id true ids)
  insert-IsNoted j ids (inr e) = ground (arith, e, lookup-insert same_id j id true ids)

  note_guilds-IsNoted :
      (gs : List Snowflake) (ids : GuildIds) → Has gs ⊎ IsNoted ids → IsNoted (note_guilds gs ids)
  unfolding note_guilds
  note_guilds-IsNoted [] ids (inl h) = absurd h
  note_guilds-IsNoted [] ids (inr h) = h
  note_guilds-IsNoted (j ∷ gs) ids (inl (inl e)) =
      note_guilds-IsNoted gs _ (inr (insert-IsNoted j ids (inl e)))
  note_guilds-IsNoted (j ∷ gs) ids (inl (inr h)) = note_guilds-IsNoted gs _ (inl h)
  note_guilds-IsNoted (j ∷ gs) ids (inr h) =
      note_guilds-IsNoted gs _ (inr (insert-IsNoted j ids (inr h)))

  note_groups-IsNoted :
      (gs : List (ℤ × ShardGroup)) (ids : GuildIds)
      → GroupsHold gs ⊎ IsNoted ids
      → IsNoted (note_groups gs ids)
  unfolding note_groups
  note_groups-IsNoted [] ids (inl h) = absurd h
  note_groups-IsNoted [] ids (inr h) = h
  note_groups-IsNoted ((_, g) ∷ gs) ids (inl (inl h)) =
      note_groups-IsNoted gs _ (inr (note_guilds-IsNoted g.guilds ids (inl h)))
  note_groups-IsNoted ((_, g) ∷ gs) ids (inl (inr h)) = note_groups-IsNoted gs _ (inl h)
  note_groups-IsNoted ((_, g) ∷ gs) ids (inr h) =
      note_groups-IsNoted gs _ (inr (note_guilds-IsNoted g.guilds ids (inr h)))

  note_managers-IsNoted :
      (ms : List Manager) (ids : GuildIds)
      → IsHeld ms ⊎ IsNoted ids
      → IsNoted (note_managers ms ids)
  unfolding note_managers
  note_managers-IsNoted [] ids (inl h) = absurd h
  note_managers-IsNoted [] ids (inr h) = h
  note_managers-IsNoted (m ∷ ms) ids (inl (inl h)) =
      note_managers-IsNoted ms _ (inr (note_groups-IsNoted m.shard_groups ids (inl h)))
  note_managers-IsNoted (m ∷ ms) ids (inl (inr h)) = note_managers-IsNoted ms _ (inl h)
  note_managers-IsNoted (m ∷ ms) ids (inr h) =
      note_managers-IsNoted ms _ (inr (note_groups-IsNoted m.shard_groups ids (inr h)))

  IsUnknown : GuildIds → Type 0
  IsUnknown ids = lookup same_id id ids ≡ none

  note_guilds-IsUnknown :
      (gs : List Snowflake) (ids : GuildIds)
      → ¬ Has gs
      → IsUnknown ids
      → IsUnknown (note_guilds gs ids)
  unfolding note_guilds IsUnknown
  note_guilds-IsUnknown [] ids n h = h
  note_guilds-IsUnknown (j ∷ gs) ids n h =
      note_guilds-IsUnknown gs _ (λ x. n (inr x)) (other (λ e. n (inl e)))
    where
      other : ¬ (j ≡ id) → lookup same_id id (insert same_id j true ids) ≡ none
      other ne = ground (arith, ne, h, lookup-insert same_id j id true ids)

  note_groups-IsUnknown :
      (gs : List (ℤ × ShardGroup)) (ids : GuildIds)
      → ¬ GroupsHold gs
      → IsUnknown ids
      → IsUnknown (note_groups gs ids)
  unfolding note_groups
  note_groups-IsUnknown [] ids n h = h
  note_groups-IsUnknown ((_, g) ∷ gs) ids n h =
      note_groups-IsUnknown gs _ (λ x. n (inr x))
        (note_guilds-IsUnknown g.guilds ids (λ x. n (inl x)) h)

  note_managers-IsUnknown :
      (ms : List Manager) (ids : GuildIds)
      → ¬ IsHeld ms
      → IsUnknown ids
      → IsUnknown (note_managers ms ids)
  unfolding note_managers
  note_managers-IsUnknown [] ids n h = h
  note_managers-IsUnknown (m ∷ ms) ids n h =
      note_managers-IsUnknown ms _ (λ x. n (inr x))
        (note_groups-IsUnknown m.shard_groups ids (λ x. n (inl x)) h)

  pub is_unheld-held : (ms : List Manager) → IsHeld ms → is_unheld (note_managers ms []) id ≡ false
  unfolding is_unheld IsNoted
  is_unheld-held ms h = rw (note_managers-IsNoted ms [] (inl h), is_unheld) refl

  pub is_unheld-unheld :
      (ms : List Manager) → ¬ IsHeld ms → is_unheld (note_managers ms []) id ≡ true
  unfolding is_unheld IsUnknown lookup
  is_unheld-unheld ms n = rw (note_managers-IsUnknown ms [] n refl, is_unheld) refl
