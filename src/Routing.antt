-- ===== src/Routing.antt =====
-- internal/manager.go, the shards of consumers (ConsumerShardCount, GetShardIdOfGuild,
-- RoutePayloadToConsumer), and internal/utils.go's getShardIDFromGuildID.
pub mod Bounds
pub mod Targets
use sandwich_daemon.Base.{
  ℕ, zero, suc, ◌+◌, ◌-◌, ◌*◌, ◌/◌, ◌%◌, ltb, leb, ◌==◌, ◌&&◌, Bool, true, false, if◌then◌else◌,
  ite, Option, none, some, List, [], ◌∷◌, ℤ, pos, negsuc, ltb_ℤ,
}
use sandwich_daemon.Discord.{Snowflake, nil_id}
use sandwich_daemon.State.{same_id}
use sandwich_daemon.Strconv.{Bytes, minus}
use sandwich_daemon.Events.{EventDispatchIdentifier}

-- `id >> 22` of an int64, which rounds down.
unfoldable pub shift_22 : ℤ → ℤ
shift_22 (pos n) = pos (n / 4194304)
shift_22 (negsuc n) = negsuc (n / 4194304)

-- Go's `%`, whose result has the sign of the first number; the second is positive here.
unfoldable pub rem : ℤ → ℕ → ℤ
rem (pos n) count = pos (n % count)
rem (negsuc n) count = let r = suc n % count in if r == 0 then pos 0 else negsuc (r - 1)

-- GetShardIdOfGuild. The remainder fits into an int32, as the count does.
unfoldable pub get_shard_id_of_guild : Snowflake → ℤ → ℤ
unfolding shift_22 rem
get_shard_id_of_guild guild_id (pos zero) = pos 0
get_shard_id_of_guild guild_id (pos (suc n)) = rem (shift_22 guild_id) (suc n)
get_shard_id_of_guild guild_id (negsuc n) = pos 0

pub record VirtualShards : Type 0 where
  pub enabled : Bool
  pub count : ℤ
  pub dm_shard : ℤ

-- `no_shards` is the manager's count of real shards.
unfoldable pub consumer_shard_count : VirtualShards → ℤ → ℤ
consumer_shard_count v no_shards = if v.enabled then v.count else no_shards

-- `Metadata.Shard`: the shard group, the shard, the count.
abbrev pub Target : Type 0
Target = ℤ × ℤ × ℤ

-- The guild that a payload is for, if it names one that is not 0.
unfoldable pub guild_target : VirtualShards → Option Snowflake → Target
unfolding get_shard_id_of_guild
guild_target v none = (pos 0, v.dm_shard, v.count)
guild_target v (some guild_id) =
    ite (same_id guild_id nil_id) (pos 0, v.dm_shard, v.count)
      (pos 0, get_shard_id_of_guild guild_id v.count, v.count)

-- RoutePayloadToConsumer on the metadata's shard, which packets and the shard share through a
-- pointer; nothing is returned on an error.
unfoldable pub route_payload_to_consumer :
    VirtualShards → Option EventDispatchIdentifier → Target → Option Target
unfolding guild_target
route_payload_to_consumer v identifier old =
    if v.enabled
    then elim identifier [
      | none ↦ none
      | some id ↦
          some (if id.globally_routed then (pos 0, pos 0, pos 0) else guild_target v id.guild_id)
    ]
    else some old

-- The digits of a number, after `acc`: nothing on a byte that is no digit.
unfoldable pub parse_digits : ℕ → Bytes → Option ℕ
parse_digits acc [] = some acc
parse_digits acc (b ∷ bs) =
    let rest = parse_digits (acc * 10 + (b - 48)) bs in if leb 48 b && ltb b 58 then rest else none

-- 2 ^ 63
abbrev pub int64_bound : ℕ
int64_bound = 9223372036854775808

unfoldable pub to_pos : Option ℕ → Option ℤ
to_pos none = none
to_pos (some n) = if ltb n int64_bound then some (pos n) else none

unfoldable pub to_neg : Option ℕ → Option ℤ
to_neg none = none
to_neg (some zero) = some (pos 0)
to_neg (some (suc n)) = if ltb n int64_bound then some (negsuc n) else none

unfoldable pub parse_unsigned : Bytes → Option ℕ
unfolding parse_digits
parse_unsigned [] = none
parse_unsigned (b ∷ bs) = parse_digits 0 (b ∷ bs)

-- strconv.ParseInt in base 10 and 64 bits: an optional sign, which is a minus or a plus (43), then at
-- least one digit, and a value that fits.
unfoldable pub parse_int : Bytes → Option ℤ
unfolding parse_unsigned to_pos to_neg
parse_int [] = none
parse_int (b ∷ bs) =
    if b == minus
    then to_neg (parse_unsigned bs)
    else if b == 43
    then to_pos (parse_unsigned bs)
    else to_pos (parse_unsigned (b ∷ bs))

-- `uint64(x)` of an int64
unfoldable pub to_uint64 : ℤ → ℕ
to_uint64 (pos n) = n
to_uint64 (negsuc n) = 18446744073709551615 - n

-- getShardIDFromGuildID. A count of 0 is a division by zero in the source: `last` is the count less one.
unfoldable pub get_shard_id_from_guild_id : Bytes → ℕ → Option ℕ
unfolding parse_int to_uint64 shift_22
get_shard_id_from_guild_id text last = elim (parse_int text) [
  | none ↦ none
  | some id ↦ some (to_uint64 (shift_22 id) % suc last)
]
