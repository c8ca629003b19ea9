-- ===== src/ShardGroup.antt =====
-- internal/shardgroup.go, and internal/manager.go's Scale, AllReady and Close: the groups of shards of
-- a manager. The shards of a group are found by their id; Range meets the groups in the order of the
-- list. Goroutines are steps of their own.
pub mod Opening
pub mod Attempts
pub mod Handover
pub mod Found
use sandwich_daemon.Base.{
  ℕ, zero, suc, Bool, true, false, not, ◌||◌, ◌&&◌, Option, none, some, List, [], ◌∷◌, map, ℤ, pos,
  negsuc, ℤ_discrete, inc_int32, lookup, insert, if◌then◌else◌, ite,
}
use sandwich_daemon.Discord.{Snowflake}
use sandwich_daemon.Connection.{Connection, normal_closure, new_shard, waits_for_producer, close}

-- ShardGroupStatus, of internal/structs/status.go
pub data ShardGroupStatus : Type 0 where
  group_idle : ShardGroupStatus
  group_connecting : ShardGroupStatus
  group_connected : ShardGroupStatus
  group_marked_for_closure : ShardGroupStatus
  group_closing : ShardGroupStatus
  group_closed : ShardGroupStatus
  group_erroring : ShardGroupStatus

-- The ShardGroup; `statuses` are the statuses that SetStatus published, newest first, and `errored`
-- says whether Error is set.
pub record ShardGroup : Type 0 where
  pub id : ℤ
  pub shard_count : ℤ
  pub shard_ids : List ℤ
  pub shards : List (ℤ × Connection)
  pub guilds : List Snowflake
  pub status : ShardGroupStatus
  pub statuses : List ShardGroupStatus
  pub floodgate : Bool
  pub all_shards_ready : Bool
  pub errored : Bool

-- NewShardGroup
unfoldable pub new_shard_group : ℤ → List ℤ → ℤ → ShardGroup
new_shard_group shard_group_id shard_ids shard_count = record {
  id = shard_group_id;
  shard_count = shard_count;
  shard_ids = shard_ids;
  shards = [];
  guilds = [];
  status = group_idle;
  statuses = [];
  floodgate = false;
  all_shards_ready = false;
  errored = false;
}

-- SetStatus
unfoldable pub set_group_status : ShardGroupStatus → ShardGroup → ShardGroup
set_group_status status g = record g { status = status; statuses = status ∷ g.statuses }

-- sh.Close of each shard
unfoldable pub close_shards : List (ℤ × Connection) → List (ℤ × Connection)
close_shards [] = []
close_shards ((id, s) ∷ rest) = (id, close normal_closure false s) ∷ close_shards rest

-- Whether the Close of a shard does not return.
unfoldable pub is_stuck : List (ℤ × Connection) → Bool
unfolding waits_for_producer
is_stuck [] = false
is_stuck ((id, s) ∷ rest) = waits_for_producer false s || is_stuck rest

-- The end of Close, after closeWaiter.Wait, which it does not come to when a shard's Close does not
-- return.
unfoldable pub finish_group : Bool → ShardGroup → ShardGroup
unfolding set_group_status
finish_group true g = g
finish_group false g = set_group_status group_closed (record g { guilds = [] })

-- Close: the group that it leaves, or that it waits in.
unfoldable pub close_group : ShardGroup → ShardGroup
unfolding set_group_status close_shards is_stuck finish_group
close_group g =
    let t : ShardGroup = set_group_status group_closing g in
    finish_group (is_stuck g.shards) (record t { shards = close_shards t.shards })

-- The Manager: its groups, and what they read of it.
pub record Manager : Type 0 where
  pub shard_groups : List (ℤ × ShardGroup)
  pub shard_group_counter : ℤ
  pub is_closing : Bool
  pub has_producer : Bool

-- Scale: a new group under the next id.
unfoldable pub scale : List ℤ → ℤ → Manager → ShardGroup × Manager
unfolding inc_int32 new_shard_group insert ℤ_discrete
scale shard_ids shard_count m =
    let id : ℤ = inc_int32 m.shard_group_counter in
    let g : ShardGroup = new_shard_group id shard_ids shard_count in
    (g, record m { shard_group_counter = id; shard_groups = insert ℤ_discrete id g m.shard_groups })

unfoldable pub are_ready : List (ℤ × ShardGroup) → Bool
are_ready [] = true
are_ready ((id, g) ∷ rest) = g.all_shards_ready && are_ready rest

unfoldable pub has_no_groups : List (ℤ × ShardGroup) → Bool
has_no_groups [] = true
has_no_groups (g ∷ gs) = false

-- AllReady
unfoldable pub all_ready : Manager → Bool
unfolding are_ready has_no_groups
all_ready m =
    if has_no_groups m.shard_groups || m.is_closing then false else are_ready m.shard_groups

-- A change of each group.
unfoldable pub each_group :
    (ℤ → ShardGroup → ShardGroup) → List (ℤ × ShardGroup) → List (ℤ × ShardGroup)
each_group f [] = []
each_group f ((id, g) ∷ rest) = (id, f id g) ∷ each_group f rest

-- The Close of each group but those to skip, one after the other: one that does not return is the last.
unfoldable pub close_each : (ℤ → Bool) → List (ℤ × ShardGroup) → List (ℤ × ShardGroup)
unfolding is_stuck close_group
close_each skip [] = []
close_each skip ((id, g) ∷ rest) =
    let later : List (ℤ × ShardGroup) = close_each skip rest in
    if skip id
    then (id, g) ∷ later
    else (id, close_group g) ∷ (if is_stuck g.shards then rest else later)

-- Close, of the manager
unfoldable pub close_manager : Manager → Manager
unfolding close_each
close_manager m = record m {
  is_closing = true;
  shard_groups = close_each (λ id. false) m.shard_groups;
}

unfoldable pub is_erroring : ShardGroupStatus → Bool
is_erroring group_erroring = true
is_erroring _ = false

-- The start of Open: the other groups are marked, unless they are Erroring.
unfoldable pub mark : ℤ → ShardGroup → ShardGroup
unfolding set_group_status is_erroring ℤ_discrete
mark own g =
    if is_erroring g.status
    then g
    else ite (ℤ_discrete g.id own) g (set_group_status group_marked_for_closure g)

unfoldable pub mark_others : ℤ → Manager → Manager
unfolding mark each_group
mark_others own m = record m { shard_groups = each_group (λ id. mark own) m.shard_groups }

unfoldable pub create_shards : ℤ → Bool → List ℤ → List (ℤ × Connection) → List (ℤ × Connection)
unfolding insert ℤ_discrete new_shard
create_shards count has_producer [] shards = shards
create_shards count has_producer (id ∷ ids) shards =
    create_shards count has_producer ids
      (insert ℤ_discrete id (new_shard id count has_producer) shards)

unfoldable pub is_own : ℤ → ℤ → Bool
unfolding ℤ_discrete
is_own own id = ite (ℤ_discrete id own) true false

-- `sg.allShardsReady.Store(true)`
unfoldable pub store_ready : ℤ → ℤ → ShardGroup → ShardGroup
unfolding is_own
store_ready own id g = record g { all_shards_ready = is_own own id || g.all_shards_ready }

-- The group's own floodgate, the only one that its goroutine sets.
unfoldable pub open_floodgate : ℤ → Bool → ℤ → ShardGroup → ShardGroup
unfolding is_own
open_floodgate own b id g = record g { floodgate = if is_own own id then b else g.floodgate }

-- Whether the loop that closes the other groups does not come to its end.
unfoldable pub any_stuck : ℤ → List (ℤ × ShardGroup) → Bool
unfolding is_own is_stuck
any_stuck own [] = false
any_stuck own ((id, g) ∷ rest) =
    (if is_own own id then false else is_stuck g.shards) || any_stuck own rest

-- The end of the goroutine of Open, when all shards of the group were ready: the other groups are
-- closed, and then the floodgate of this one is opened. While it closes the others, the group shuts its
-- own floodgate for each of them, not theirs, so a Close that does not return leaves it shut.
unfoldable pub on_all_ready : ℤ → Manager → Manager
unfolding each_group store_ready close_each is_own any_stuck open_floodgate
on_all_ready own m = record m {
  shard_groups =
      each_group (open_floodgate own (not (any_stuck own m.shard_groups)))
        (close_each (is_own own) (each_group (store_ready own) m.shard_groups));
}
