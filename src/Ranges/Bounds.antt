-- ===== src/Ranges/Bounds.antt =====
-- The shard ids that returnRangeInt32 of internal/utils.go gives are in range.
use sandwich_daemon.Base.{
  ℕ, zero, suc, List, [], ◌∷◌, ◌++◌, arith, ℤ, pos, ◌≤ℤ◌, ◌<ℤ◌, inc_int32, Option, none, some, Bool,
  true, false, ◌+ℤ◌,
}
use sandwich_daemon.Strconv.{Bytes, minus}
use sandwich_daemon.Routing.{parse_int}
use sandwich_daemon.Ranges.{
  comma, split, first_part, last_part, range_from, interval, intervals, return_range_int32,
  get_initial_shard_count, turns, to_int32,
}

-- Every id is at least 0 and less than `max`.
abbrev pub AreBelow : ℤ → List ℤ → Type 0
AreBelow max [] = Unit
AreBelow max (i ∷ is) = (pos 0 ≤ℤ i) × (i <ℤ max) × AreBelow max is

append-AreBelow :
    (max : ℤ) (xs ys : List ℤ) → AreBelow max xs → AreBelow max ys → AreBelow max (xs ++ ys)
append-AreBelow max [] ys p q = q
append-AreBelow max (x ∷ xs) ys (a, b, p) q = (a, b, append-AreBelow max xs ys p q)

pub range_from-AreBelow : (i : ℤ) (n : ℕ) (max : ℤ) → AreBelow max (range_from i n max)
unfolding range_from
range_from-AreBelow i zero max = tt
range_from-AreBelow i (suc n) max = ground (arith, range_from-AreBelow (inc_int32 i) n max)

interval-AreBelow : (a b : Option ℤ) (max : ℤ) → AreBelow max (interval a b max)
unfolding interval
interval-AreBelow none b max = tt
interval-AreBelow (some a) none max = tt
interval-AreBelow (some a) (some b) max =
    range_from-AreBelow (to_int32 a) (turns (to_int32 a) (to_int32 (b +ℤ pos 1))) max

intervals-AreBelow : (parts : List Bytes) (max : ℤ) → AreBelow max (intervals parts max)
unfolding intervals
intervals-AreBelow [] max = tt
intervals-AreBelow (p ∷ ps) max =
    let parts = split minus p in
    append-AreBelow max _ (intervals ps max)
      (interval-AreBelow (parse_int (first_part parts)) (parse_int (last_part parts)) max)
      (intervals-AreBelow ps max)

-- For any text, all shard ids that returnRangeInt32 gives are at least 0 and less than the maximum.
pub return_range_int32-AreBelow :
    (text : Bytes) (max : ℤ) → AreBelow max (return_range_int32 text max)
unfolding return_range_int32
return_range_int32-AreBelow text max = intervals-AreBelow (split comma text) max

-- Whatever the configuration says, a manager starts with shard ids that are at least 0 and less than
-- its shard count.
pub get_initial_shard_count-AreBelow :
    (gateway_shards custom_count : ℤ) (custom_ids : Bytes) (auto_sharded : Bool)
    → let r = get_initial_shard_count gateway_shards custom_count custom_ids auto_sharded in
      AreBelow r.1 r.0
unfolding get_initial_shard_count
get_initial_shard_count-AreBelow g c [] true = range_from-AreBelow (pos 0) (turns (pos 0) g) g
get_initial_shard_count-AreBelow g c (b ∷ bs) true = return_range_int32-AreBelow (b ∷ bs) g
get_initial_shard_count-AreBelow g c ids false = return_range_int32-AreBelow ids c
