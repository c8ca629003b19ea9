-- ===== src/Routing/Bounds.antt =====
-- The shard that a guild is routed to: its range, and that both computations of it agree.
use sandwich_daemon.Base.{
  ℕ, zero, suc, ◌+◌, ◌-◌, ◌*◌, ◌/◌, ◌%◌, ◌≤◌, ◌<◌, ◌≡◌, ◌≢◌, refl, arith, none, some, [], ◌∷◌, ◌++◌,
  ℤ, pos, negsuc, ◌≤ℤ◌, ◌<ℤ◌,
}
use native.Mathlib.Nat.{mod-lt}
use sandwich_daemon.Discord.{Snowflake}
use sandwich_daemon.Strconv.{Bytes, format_uint, format_int}
use sandwich_daemon.Strconv.Decimal.{AreDigits, format_uint-AreDigits}
use sandwich_daemon.Routing.{
  shift_22, rem, get_shard_id_of_guild, parse_digits, to_pos, parse_unsigned, parse_int, to_uint64,
  int64_bound, get_shard_id_from_guild_id,
}

-- A guild's shard is between 0 and the count of shards, for an id that is not negative and a positive
-- count.
pub get_shard_id_of_guild-bounds :
    (guild_id : Snowflake) (count : ℤ)
    → pos 0 ≤ℤ guild_id
    → pos 0 <ℤ count
    → (pos 0 ≤ℤ get_shard_id_of_guild guild_id count)
      × (get_shard_id_of_guild guild_id count <ℤ count)
unfolding get_shard_id_of_guild shift_22 rem
get_shard_id_of_guild-bounds (pos n) (pos zero) h k = absurd (omega arith)
get_shard_id_of_guild-bounds (pos n) (pos (suc c)) h k =
    (omega arith, omega (arith, mod-lt (n / 4194304) {m = suc c} (omega arith)))
get_shard_id_of_guild-bounds (pos n) (negsuc c) h k = absurd (omega arith)
get_shard_id_of_guild-bounds (negsuc n) count h k = absurd (omega arith)

parse_digits-append :
    (acc : ℕ) (xs : Bytes) (d : ℕ)
    → d < 10
    → parse_digits acc (xs ++ (48 + d) ∷ [])
      ≡ elim (parse_digits acc xs) [ none ↦ none | some n ↦ some (n * 10 + d) ]
unfolding parse_digits
parse_digits-append acc [] d h = ground arith
parse_digits-append acc (x ∷ xs) d h =
    ground (arith, parse_digits-append (acc * 10 + (x - 48)) xs d h)

-- ParseInt reads what FormatInt wrote.
parse_digits-format_uint : (fuel n : ℕ) → n ≤ fuel → parse_digits 0 (format_uint fuel n) ≡ some n
unfolding parse_digits format_uint
parse_digits-format_uint zero n h = ground arith
parse_digits-format_uint (suc fuel) n h = ground (
  arith,
  parse_digits-append 0 (format_uint fuel (n / 10)) (n % 10),
  parse_digits-format_uint fuel (n / 10),
)

parse_unsigned-AreDigits :
    (xs : Bytes) (n : ℕ)
    → AreDigits xs
    → parse_digits 0 xs ≡ some n
    → n < int64_bound
    → xs ≢ []
    → parse_int xs ≡ some (pos n)
unfolding parse_int parse_unsigned to_pos
parse_unsigned-AreDigits [] n a e h f = absurd (f refl)
parse_unsigned-AreDigits (x ∷ xs) n (p, q, a) e h f = ground arith

append_last-not-nil : (xs : Bytes) (d : ℕ) → (xs ++ d ∷ []) ≢ []
append_last-not-nil [] d e = cc
append_last-not-nil (x ∷ xs) d e = cc

format_uint-not-nil : (fuel n : ℕ) → format_uint fuel n ≢ []
unfolding format_uint
format_uint-not-nil zero n e = cc
format_uint-not-nil (suc fuel) n e =
    ground (arith, append_last-not-nil (format_uint fuel (n / 10)) (48 + n % 10))

-- ParseInt reads an id that FormatInt wrote.
pub parse_int-format_int : (n : ℕ) → n < int64_bound → parse_int (format_int (pos n)) ≡ some (pos n)
unfolding format_int
parse_int-format_int n h =
    parse_unsigned-AreDigits (format_uint n n) n (format_uint-AreDigits n n)
      (parse_digits-format_uint n n (omega arith)) h (format_uint-not-nil n n)

-- The shard that the REST requests of a guild go through is the shard that its events are routed to:
-- getShardIDFromGuildID on the decimal text of an id gives what GetShardIdOfGuild gives on the id, for
-- every id that is not negative and every positive count.
pub get_shard_id_from_guild_id-format_int :
    (n last : ℕ)
    → n < int64_bound
    → (r : ℕ) × (get_shard_id_from_guild_id (format_int (pos n)) last ≡ some r)
      × (get_shard_id_of_guild (pos n) (pos (suc last)) ≡ pos r)
unfolding get_shard_id_from_guild_id get_shard_id_of_guild shift_22 to_uint64 rem
get_shard_id_from_guild_id-format_int n last h =
    ((n / 4194304) % suc last, rw (parse_int-format_int n h, get_shard_id_from_guild_id) refl, refl)
