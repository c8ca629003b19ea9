-- ===== src/Dedupe.antt =====
-- internal/dedupe.go: keys of member events, and the table of the times until which a key counts.
pub mod Keys
pub mod Windows
use sandwich_daemon.Base.{
  Bool, true, false, not, ◌&&◌, if◌then◌else◌, ite, Option, none, some, ◌∷◌, ◌++◌, ℤ, pos,
  ℤ_discrete, ◌+ℤ◌, ltb_ℤ,
}
use sandwich_daemon.CsMap.{CsMap}
use sandwich_daemon.Discord.{Snowflake}
use sandwich_daemon.Strconv.{Bytes, same_bytes, colon, format_int}

-- "MA:" and "MR:" before the guild's id, a colon and the member's id.
unfoldable pub create_dedupe_member_add_key : Snowflake → Snowflake → Bytes
create_dedupe_member_add_key guild_id member_id =
    77 ∷ 65 ∷ colon ∷ (format_int guild_id ++ colon ∷ format_int member_id)

unfoldable pub create_dedupe_member_remove_key : Snowflake → Snowflake → Bytes
create_dedupe_member_remove_key guild_id member_id =
    77 ∷ 82 ∷ colon ∷ (format_int guild_id ++ colon ∷ format_int member_id)

-- memberDedupeExpiration, in seconds
abbrev pub member_dedupe_expiration : ℤ
member_dedupe_expiration = pos 60

-- `time.Now().Unix() < value && value != 0`
unfoldable pub counts : ℤ → ℤ → Bool
unfolding ℤ_discrete
counts now value = ltb_ℤ now value && ite (ℤ_discrete value (pos 0)) false true

module _ ⦃lib : CsMap⦄ where
  abbrev pub DedupeMap : Type 0
  DedupeMap = lib.Map Bytes ℤ

  unfoldable pub add_dedupe : ℤ → Bytes → DedupeMap → DedupeMap
  add_dedupe now key m = lib.store same_bytes m key (now +ℤ member_dedupe_expiration)

  unfoldable pub check_dedupe : ℤ → Bytes → DedupeMap → Bool
  unfolding counts
  check_dedupe now key m = elim (lib.load same_bytes m key) [
    | none ↦ false
    | some value ↦ counts now value
  ]

  -- A missing key reads as the value 0, which does not count.
  unfoldable pub check_and_add_dedupe : ℤ → Bytes → DedupeMap → DedupeMap × Bool
  unfolding counts add_dedupe
  check_and_add_dedupe now key m = elim (lib.load same_bytes m key) [
    | none ↦ (add_dedupe now key m, false)
    | some value ↦ if counts now value then (m, true) else (add_dedupe now key m, false)
  ]

  unfoldable pub remove_dedupe : Bytes → DedupeMap → DedupeMap
  remove_dedupe key m = lib.delete same_bytes m key
