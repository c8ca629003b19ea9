-- ===== src/Events/Members/Counting.antt =====
-- The member count of a guild over joins and leaves, as internal/events_dispatch.go keeps it.
use sandwich_daemon.Base.{
  ◌≡◌, ap, arith, ite, inl, inr, Option-cases, ℤ, pos, negsuc, inc_int32, dec_int32, ◌≤ℤ◌,
}
use sandwich_daemon.CsMap.{CsMap, mapped}
use sandwich_daemon.Cache
use sandwich_daemon.Cache.Laws
use sandwich_daemon.Discord.{Snowflake, GuildMember}
use sandwich_daemon.Outcome.{state_after}
use sandwich_daemon.State.{SandwichState, StateCtx, Env, same_id}
use sandwich_daemon.State.Members.{set_guild_member}
use sandwich_daemon.State.Frames.{put_guild_member_frame}
use sandwich_daemon.Events.Members.{joined, left, count_joined, count_left}

-- An int32.
abbrev pub IsInt32 : ℤ → Type 0
IsInt32 z = (negsuc 2147483647 ≤ℤ z) × (z ≤ℤ pos 2147483647)

-- A leave undoes a join in the count, also where the count wraps around.
pub dec-inc_int32 : (z : ℤ) → IsInt32 z → dec_int32 (inc_int32 z) ≡ z
unfolding dec_int32 inc_int32
dec-inc_int32 (pos n) h = ground arith
dec-inc_int32 (negsuc n) h = ground arith

module _ ⦃lib : CsMap⦄ where
  pub load-count_joined :
      (guild_id : Snowflake) (ss : SandwichState) (id : Snowflake)
      → Cache.load same_id (count_joined guild_id ss).guilds id
        ≡ ite
            (same_id guild_id id)
            (mapped joined (Cache.load same_id ss.guilds guild_id))
            (Cache.load same_id ss.guilds id)
  unfolding count_joined
  load-count_joined guild_id ss id = Cache.Laws.load-update same_id ss.guilds guild_id joined id

  pub load-count_left :
      (guild_id : Snowflake) (ss : SandwichState) (id : Snowflake)
      → Cache.load same_id (count_left guild_id ss).guilds id
        ≡ ite
            (same_id guild_id id)
            (mapped left (Cache.load same_id ss.guilds guild_id))
            (Cache.load same_id ss.guilds id)
  unfolding count_left
  load-count_left guild_id ss id = elim (Option-cases (Cache.load same_id ss.guilds guild_id)) [
    | inl e ↦ rw (e, count_left) (ground arith)
    | inr (g, e) ↦
        rw (e, count_left)
          (ground (arith, Cache.Laws.load-set_if_present same_id ss.guilds guild_id (left g) id))
  ]

  pub set_guild_member_guilds :
      (env : Env) (ctx : StateCtx) (guild_id : Snowflake) (m : GuildMember) (ss : SandwichState)
      → (state_after (set_guild_member env ctx guild_id m ss)).guilds ≡ ss.guilds
  unfolding set_guild_member
  set_guild_member_guilds env ctx guild_id m ss = elim (Option-cases m.user) [
    | inl e ↦ rw (e, set_guild_member)
    | inr (u, e) ↦
        rw (e, set_guild_member)
          (ground (arith, ap (λ t. t.guilds) (put_guild_member_frame env ctx guild_id m u ss)))
  ]
