-- ===== src/ShardGroup/Opening.antt =====
-- internal/shardgroup.go, Open: the first shard is connected, with a limited number of retries, then
-- the others, each until it succeeds.
use sandwich_daemon.Base.{
  zero, suc, Bool, true, false, ◌||◌, ◌&&◌, Option, none, some, List, [], ◌∷◌, ℤ, pos, negsuc,
  ℤ_discrete, lookup, insert, dec_int32, if◌then◌else◌,
}
use sandwich_daemon.Connection.{Connection, waits_for_producer}
use sandwich_daemon.Connection.Connect.{
  ConnectError, dial_failed, read_failed, wait_failed, write_failed, Cause, context_canceled,
  other_cause, Attempt, Result, connect,
}
use sandwich_daemon.ShardGroup.{
  ShardGroup, group_connecting, group_connected, group_erroring, set_group_status, is_stuck,
  close_group, Manager, mark_others, create_shards,
}

unfoldable pub is_cancellation : Cause → Bool
is_cancellation context_canceled = true
is_cancellation other_cause = false

-- `errors.Is(err, context.Canceled)`
unfoldable pub is_canceled : ConnectError → Bool
unfolding is_cancellation
is_canceled (dial_failed cause) = is_cancellation cause
is_canceled (read_failed cause) = is_cancellation cause
is_canceled (wait_failed cause) = is_cancellation cause
is_canceled (write_failed cause) = is_cancellation cause
is_canceled _ = false

-- `err != nil && !errors.Is(err, context.Canceled)`
unfoldable pub has_failed : Option ConnectError → Bool
unfolding is_canceled
has_failed none = false
has_failed (some e) = if is_canceled e then false else true

-- `retriesRemaining > 0`
unfoldable pub is_positive : ℤ → Bool
is_positive (pos zero) = false
is_positive (pos (suc n)) = true
is_positive (negsuc n) = false

-- The loop for the first shard: it ended with a connection or a canceled context, it gave up, or it
-- waits in Connect.
pub data First : Type 0 where
  connected_first : Option ConnectError → Connection → First
  gave_up : Option ConnectError → Connection → First
  connecting_first : Connection → First

unfoldable pub use_retry : Connection → Connection
unfolding dec_int32
use_retry s = record s { retries_remaining = dec_int32 s.retries_remaining }

unfoldable pub settle_first : Result → First → First
unfolding has_failed is_positive
settle_first (e, s) again =
    if has_failed e
    then if is_positive s.retries_remaining then again else gave_up e s
    else connected_first e s

unfoldable pub connect_first : List Attempt → Connection → First
unfolding settle_first use_retry
connect_first [] s = connecting_first s
connect_first (a ∷ rest) s =
    let r : Result = connect a s in
    let again : First = connect_first rest (use_retry r.1) in settle_first r again

-- The loop for another shard, which has no limit; whether it ended.
unfoldable pub connect_other : List Attempt → Connection → Bool × Connection
unfolding has_failed
connect_other [] s = (false, s)
connect_other (a ∷ rest) s =
    let r : Result = connect a s in
    let again : Bool × Connection = connect_other rest r.1 in
    if has_failed r.0 then again else (true, r.1)

-- The loops for all other shards; whether they all ended.
unfoldable pub connect_others :
    (ℤ → List Attempt) → List ℤ → List (ℤ × Connection) → Bool × List (ℤ × Connection)
unfolding connect_other lookup insert ℤ_discrete
connect_others answers [] shards = (true, shards)
connect_others answers (id ∷ ids) shards =
    let rest : Bool × List (ℤ × Connection) = connect_others answers ids shards in
    elim (lookup ℤ_discrete id shards) [
      | none ↦ rest
      | some s ↦
          let r : Bool × Connection = connect_other (answers id) s in
          (r.0 && rest.0, insert ℤ_discrete id r.1 rest.1)
    ]

-- Open returned the channel and no error, an error, or waits for its shards; `no_shard` is the panic
-- for a first shard that is not there.
pub data Opened : Type 0 where
  opened : Opened
  missing_shards : Opened
  no_shard : Opened
  not_opened : Option ConnectError → Opened
  opening : Opened

-- Open after the first shard, whose state is stored.
unfoldable pub open_others :
    (ℤ → List Attempt) → ℤ → List ℤ → ShardGroup → First → ShardGroup × Opened
unfolding connect_others set_group_status is_stuck waits_for_producer close_group insert ℤ_discrete
open_others answers first others g (connected_first e s) =
    let r : Bool × List (ℤ × Connection) =
      connect_others answers others (insert ℤ_discrete first s g.shards) in
    let t : ShardGroup = record g { shards = r.1 } in
    if r.0 then (set_group_status group_connected t, opened) else (t, opening)
open_others answers first others g (gave_up e s) = (
  close_group (
      set_group_status group_erroring
        (record g { shards = insert ℤ_discrete first s g.shards; errored = true })),
  if is_stuck g.shards || waits_for_producer false s then opening else not_opened e,
)
open_others answers first others g (connecting_first s) =
    (record g { shards = insert ℤ_discrete first s g.shards }, opening)

-- Open after it made the shards.
unfoldable pub open_shards : (ℤ → List Attempt) → List ℤ → ShardGroup → ShardGroup × Opened
unfolding open_others connect_first set_group_status lookup ℤ_discrete
open_shards answers [] g = (g, missing_shards)
open_shards answers (first ∷ others) g = elim (lookup ℤ_discrete first g.shards) [
  | none ↦ (g, no_shard)
  | some s ↦
      open_others answers first others (set_group_status group_connecting g)
        (connect_first (answers first) s)
]

-- Open, of the group with an id; `answers` are the outside's to the calls of Connect of each shard.
unfoldable pub open_group : (ℤ → List Attempt) → ShardGroup → Manager → Manager × Opened
unfolding open_shards create_shards mark_others insert ℤ_discrete
open_group answers g m =
    let t : Manager = mark_others g.id m in
    let shards : List (ℤ × Connection) =
      create_shards g.shard_count m.has_producer g.shard_ids g.shards in
    let r : ShardGroup × Opened = open_shards answers g.shard_ids (record g { shards = shards }) in
    (record t { shard_groups = insert ℤ_discrete g.id r.0 t.shard_groups }, r.1)
