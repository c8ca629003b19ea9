-- ===== src/Ranges.antt =====
-- internal/utils.go's returnRangeInt32, which reads shard ids such as "0-4,6-7" from the configuration,
-- and the shard ids that a manager starts with (internal/manager.go's getInitialShardCount).
pub mod Bounds
pub mod Intervals
use sandwich_daemon.Base.{
  ℕ, zero, suc, ◌+◌, ◌-◌, ◌%◌, ltb, leb, ◌==◌, ◌&&◌, not, Bool, true, false, if◌then◌else◌, Option,
  none, some, List, [], ◌∷◌, ◌++◌, ℤ, pos, negsuc, pos_part, neg_part, sub_ℕ, ltb_ℤ, inc_int32,
  ◌+ℤ◌,
}
use sandwich_daemon.Strconv.{Bytes, minus}
use sandwich_daemon.Routing.{parse_int}

abbrev pub comma : ℕ
comma = 44

-- A byte before the first part of a split text.
abbrev pub in_first : ℕ → List Bytes → List Bytes
in_first b [] = (b ∷ []) ∷ []
in_first b (part ∷ parts) = (b ∷ part) ∷ parts

-- strings.Split by one byte: at least one part.
unfoldable pub split : ℕ → Bytes → List Bytes
split sep [] = [] ∷ []
split sep (b ∷ bs) = let parts = split sep bs in if b == sep then [] ∷ parts else in_first b parts

abbrev pub first_part : List Bytes → Bytes
first_part [] = []
first_part (p ∷ _) = p

abbrev pub last_part : List Bytes → Bytes
last_part [] = []
last_part (p ∷ []) = p
last_part (p ∷ q ∷ ps) = last_part (q ∷ ps)

-- `int32(x)`: the low 32 bits, with the sign.
abbrev pub signed_32 : ℕ → ℤ
signed_32 n = if ltb n 2147483648 then pos n else negsuc (4294967295 - n)

unfoldable pub to_int32 : ℤ → ℤ
to_int32 (pos n) = signed_32 (n % 4294967296)
to_int32 (negsuc n) = signed_32 (4294967295 - n % 4294967296)

-- The loop over `i`, of `n` turns: the values between 0 and `max` are kept.
unfoldable pub range_from : ℤ → ℕ → ℤ → List ℤ
unfolding inc_int32
range_from i zero max = []
range_from i (suc n) max =
    let rest = range_from (inc_int32 i) n max in
    if not (ltb_ℤ i (pos 0)) && ltb_ℤ i max then i ∷ rest else rest

-- The turns of `for i := low; i < hi; i++`.
unfoldable pub turns : ℤ → ℤ → ℕ
turns low hi = (pos_part hi + neg_part low) - (pos_part low + neg_part hi)

-- One part of the text, with the numbers before the first dash and after the last one.
unfoldable pub interval : Option ℤ → Option ℤ → ℤ → List ℤ
unfolding to_int32 range_from turns ◌+ℤ◌
interval none hi max = []
interval (some low) none max = []
interval (some low) (some hi) max =
    range_from (to_int32 low) (turns (to_int32 low) (to_int32 (hi +ℤ pos 1))) max

unfoldable pub intervals : List Bytes → ℤ → List ℤ
unfolding interval split parse_int
intervals [] max = []
intervals (part ∷ parts) max =
    let ranges = split minus part in
    interval (parse_int (first_part ranges)) (parse_int (last_part ranges)) max
    ++ intervals parts max

unfoldable pub return_range_int32 : Bytes → ℤ → List ℤ
unfolding intervals split
return_range_int32 text max = intervals (split comma text) max

-- getInitialShardCount: the shard ids and the shard count, given the count that the gateway advises.
unfoldable pub get_initial_shard_count : ℤ → ℤ → Bytes → Bool → List ℤ × ℤ
unfolding return_range_int32 range_from turns
get_initial_shard_count gateway_shards custom_count [] true =
    (range_from (pos 0) (turns (pos 0) gateway_shards) gateway_shards, gateway_shards)
get_initial_shard_count gateway_shards custom_count (b ∷ bs) true =
    (return_range_int32 (b ∷ bs) gateway_shards, gateway_shards)
get_initial_shard_count gateway_shards custom_count custom_ids false =
    (return_range_int32 custom_ids custom_count, custom_count)
