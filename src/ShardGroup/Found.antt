-- ===== src/ShardGroup/Found.antt =====
-- internal/utils.go, findShardOfGuild: the shard that a REST request of a guild goes through.
use sandwich_daemon.Base.{
  ℕ, suc, ◌<◌, subst, Option, none, some, List, [], ◌∷◌, ℤ, pos, ℤ_discrete, ◌≡◌, ◌≢◌, ◌⊎◌, inl,
  inr, refl, sym,
}
use sandwich_daemon.Strconv.{Bytes, format_int}
use sandwich_daemon.Connection.{Connection}
use sandwich_daemon.Routing.{int64_bound, get_shard_id_from_guild_id, get_shard_id_of_guild}
use sandwich_daemon.Routing.Bounds.{get_shard_id_from_guild_id-format_int}
use sandwich_daemon.ShardGroup.{ShardGroup, Manager}

-- The id is no number; or no group has the shard.
pub data FoundShard : Type 0 where
  invalid_id : FoundShard
  not_found : FoundShard
  found : Connection → FoundShard

-- The inner Range, over the shards of a group.
unfoldable pub find_in_shards : ℤ → List (ℤ × Connection) → Option Connection
unfolding ℤ_discrete
find_in_shards shard_id [] = none
find_in_shards shard_id ((id, s) ∷ rest) = elim (ℤ_discrete shard_id id) [
  | yes _ ↦ some s
  | no _ ↦ find_in_shards shard_id rest
]

-- The outer one, which stops at the first group that has the shard.
unfoldable pub find_in_groups : ℤ → List (ℤ × ShardGroup) → FoundShard
unfolding find_in_shards
find_in_groups shard_id [] = not_found
find_in_groups shard_id ((_, g) ∷ rest) = elim (find_in_shards shard_id g.shards) [
  | none ↦ find_in_groups shard_id rest
  | some s ↦ found s
]

-- The shard count of the gateway is `suc last`; an id below an int32 stays as it is in the conversion.
unfoldable pub find_shard_of_guild : Bytes → ℕ → Manager → FoundShard
unfolding get_shard_id_from_guild_id find_in_groups
find_shard_of_guild guild_id last m = elim (get_shard_id_from_guild_id guild_id last) [
  | none ↦ invalid_id
  | some r ↦ find_in_groups (pos r) m.shard_groups
]

-- A shard of a group that stands under an id.
abbrev pub IsShard : ℤ → Connection → List (ℤ × Connection) → Type 0
IsShard id s [] = ⊥
IsShard id s ((j, t) ∷ rest) = ((id ≡ j) × (t ≡ s)) ⊎ IsShard id s rest

abbrev pub IsOfGroups : ℤ → Connection → List (ℤ × ShardGroup) → Type 0
IsOfGroups id s [] = ⊥
IsOfGroups id s ((_, g) ∷ rest) = IsShard id s g.shards ⊎ IsOfGroups id s rest

-- No group has a shard of the id.
abbrev pub HasNone : ℤ → List (ℤ × Connection) → Type 0
HasNone id [] = Unit
HasNone id ((j, _) ∷ rest) = (id ≢ j) × HasNone id rest

abbrev pub HaveNone : ℤ → List (ℤ × ShardGroup) → Type 0
HaveNone id [] = Unit
HaveNone id ((_, g) ∷ rest) = HasNone id g.shards × HaveNone id rest

-- What a search for the id may end with.
abbrev pub IsResult : ℤ → List (ℤ × ShardGroup) → FoundShard → Type 0
IsResult id gs invalid_id = ⊥
IsResult id gs not_found = HaveNone id gs
IsResult id gs (found s) = IsOfGroups id s gs

abbrev InShards : ℤ → List (ℤ × Connection) → Option Connection → Type 0
InShards id l none = HasNone id l
InShards id l (some s) = IsShard id s l

wider :
    (id : ℤ) (j : ℤ) (t : Connection) (l : List (ℤ × Connection)) (o : Option Connection)
    → id ≢ j
    → InShards id l o
    → InShards id ((j, t) ∷ l) o
wider id j t l none n h = (n, h)
wider id j t l (some s) n h = inr h

find_in_shards-In : (id : ℤ) (l : List (ℤ × Connection)) → InShards id l (find_in_shards id l)
unfolding find_in_shards
find_in_shards-In id [] = tt
find_in_shards-In id ((j, t) ∷ l) =
    elim (ℤ_discrete id j)
      as (λ d. InShards id ((j, t) ∷ l) (elim d [ yes _ ↦ some t | no _ ↦ find_in_shards id l ])) [
        | yes e ↦ inl (e, refl)
        | no n ↦ wider id j t l (find_in_shards id l) n (find_in_shards-In id l)
      ]

next_group :
    (id k : ℤ) (g : ShardGroup) (gs : List (ℤ × ShardGroup)) (r : FoundShard)
    → HasNone id g.shards
    → IsResult id gs r
    → IsResult id ((k, g) ∷ gs) r
next_group id k g gs invalid_id n h = h
next_group id k g gs not_found n h = (n, h)
next_group id k g gs (found s) n h = inr h

by_group :
    (id k : ℤ) (g : ShardGroup) (gs : List (ℤ × ShardGroup)) (o : Option Connection)
    (r : FoundShard)
    → InShards id g.shards o
    → IsResult id gs r
    → IsResult id ((k, g) ∷ gs) (elim o [ none ↦ r | some s ↦ found s ])
by_group id k g gs none r h rest = next_group id k g gs r h rest
by_group id k g gs (some s) r h rest = inl h

find_in_groups-IsResult :
    (id : ℤ) (gs : List (ℤ × ShardGroup)) → IsResult id gs (find_in_groups id gs)
unfolding find_in_groups
find_in_groups-IsResult id [] = tt
find_in_groups-IsResult id ((k, g) ∷ gs) =
    by_group id k g gs (find_in_shards id g.shards) (find_in_groups id gs)
      (find_in_shards-In id g.shards) (find_in_groups-IsResult id gs)

-- findShardOfGuild, on the decimal text of an id that is not negative, with a positive shard count: the
-- id is read; a shard that is found is one of the manager's, under the id that the events of the guild are
-- routed to; and if none is found, no group of the manager has a shard of that id.
pub find_shard_of_guild-IsResult :
    (n last : ℕ) (m : Manager)
    → n < int64_bound
    → IsResult
        (get_shard_id_of_guild (pos n) (pos (suc last)))
        m.shard_groups
        (find_shard_of_guild (format_int (pos n)) last m)
unfolding find_shard_of_guild
find_shard_of_guild-IsResult n last m h =
    let r : ℕ = (get_shard_id_from_guild_id-format_int n last h).0 in
    let read : get_shard_id_from_guild_id (format_int (pos n)) last ≡ some r =
      (get_shard_id_from_guild_id-format_int n last h).1 in
    let routed : get_shard_id_of_guild (pos n) (pos (suc last)) ≡ pos r =
      (get_shard_id_from_guild_id-format_int n last h).2 in
    rw (read, find_shard_of_guild)
      (subst (λ (id : ℤ). IsResult id m.shard_groups (find_in_groups (pos r) m.shard_groups))
        (sym routed) (find_in_groups-IsResult (pos r) m.shard_groups))
