-- ===== src/Events/Members/Leaves.antt =====
-- GUILD_MEMBER_REMOVE of internal/events_dispatch.go: a leave undoes the count of a join.
use sandwich_daemon.Base.{
  ◌≡◌, refl, ap, ◌∙◌, arith, Bool, false, Option, none, some, inl, inr, Option-cases, ℤ,
}
use sandwich_daemon.CsMap.{CsMap}
use sandwich_daemon.Cache
use sandwich_daemon.DoubleCache
use sandwich_daemon.Discord.{Snowflake, User, GuildMember, Guild}
use sandwich_daemon.Strconv.{Bytes, same_bytes}
use sandwich_daemon.Dedupe.{
  DedupeMap, create_dedupe_member_add_key, create_dedupe_member_remove_key, check_dedupe,
  check_and_add_dedupe, add_dedupe, remove_dedupe,
}
use sandwich_daemon.Outcome.{Outcome, done, panicked, after, state_after}
use sandwich_daemon.State.{SandwichState, StateCtx, Env, same_id}
use sandwich_daemon.State.Members.{get_guild_member, found_member, with_user, remove_guild_member}
use sandwich_daemon.State.Users.{remove_user_mutual_guild}
use sandwich_daemon.Events.{Message, Daemon, in_state}
use sandwich_daemon.Events.Members.{
  GuildMemberRemove, joined, left, seen, unsee, count_joined, count_left, on_guild_member_add,
  drop_member, forget_member, on_guild_member_remove,
}
use sandwich_daemon.Events.Members.Counting.{
  IsInt32, dec-inc_int32, load-count_joined, load-count_left,
}
use sandwich_daemon.Events.Members.Joins.{on_guild_member_add_new}

module _ ⦃lib : CsMap⦄ where
  with_user_same :
      (m : GuildMember) (o : Option User) (ss : SandwichState) → state_after (with_user m o ss) ≡ ss
  unfolding with_user
  with_user_same m none ss = refl
  with_user_same m (some u) ss = refl

  found_member_same :
      (env : Env) (m : GuildMember) (o : Option User) (ss : SandwichState)
      → state_after (found_member env m o ss) ≡ ss
  unfolding found_member
  found_member_same env m none ss = refl
  found_member_same env m (some u) ss = with_user_same _ _ ss

  get_guild_member_same :
      (env : Env) (guild_id user_id : Snowflake) (ss : SandwichState)
      → state_after (get_guild_member env guild_id user_id ss) ≡ ss
  unfolding get_guild_member
  get_guild_member_same env guild_id user_id ss =
      elim (Option-cases (DoubleCache.load same_id same_id ss.guild_members guild_id user_id)) [
        | inl e ↦ rw (e, get_guild_member) refl
        | inr (m, e) ↦ rw (e, get_guild_member) (found_member_same env m m.user ss)
      ]

  forget_member_guilds :
      (msg : Message) (p : GuildMemberRemove) (d : Daemon)
      (o : Outcome SandwichState (GuildMember × Bool))
      → (state_after (after (in_state d o) (forget_member msg p))).state.guilds
        ≡ (state_after o).guilds
  unfolding forget_member remove_guild_member remove_user_mutual_guild
  forget_member_guilds msg p d (done r ss) = refl
  forget_member_guilds msg p d (panicked ss) = refl

  -- A leave that is not dropped counts the guild down, also when GetGuildMember panics after it.
  drop_member_guilds :
      (env : Env) (msg : Message) (p : GuildMemberRemove) (d : Daemon)
      → (state_after (drop_member env msg p d)).state.guilds
        ≡ (count_left p.guild_id d.state).guilds
  unfolding drop_member unsee
  drop_member_guilds env msg p d =
      let s = count_left p.guild_id d.state in
      let d' = record d {
        dedupe = remove_dedupe (create_dedupe_member_add_key p.guild_id p.user.id) d.dedupe;
        state = s;
      } in
      forget_member_guilds msg p d' (get_guild_member env p.guild_id p.user.id s)
      ∙ ap (λ t. t.guilds) (get_guild_member_same env p.guild_id p.user.id s)

  removed :
      (now : ℤ) (key : Bytes) (table : DedupeMap)
      → check_and_add_dedupe now key (remove_dedupe key table)
        ≡ (add_dedupe now key (remove_dedupe key table), false)
  unfolding check_and_add_dedupe remove_dedupe
  removed now key table = ground (arith, lib.load-delete same_bytes table key key)

  -- One down after one up.
  left_joined :
      (guild_id : Snowflake) (ss t : SandwichState)
      → t.guilds ≡ (count_joined guild_id ss).guilds
      → ((g : Guild) → Cache.load same_id ss.guilds guild_id ≡ some g → IsInt32 g.member_count)
      → Cache.load same_id (count_left guild_id t).guilds guild_id
        ≡ Cache.load same_id ss.guilds guild_id
  unfolding joined left
  left_joined guild_id ss t f bounded =
      elim (Option-cases (Cache.load same_id ss.guilds guild_id)) [
        | inl e ↦
            ground
              (arith, load-count_left guild_id t guild_id, load-count_joined guild_id ss guild_id)
        | inr (g, e) ↦ ground (
          arith,
          load-count_left guild_id t guild_id,
          load-count_joined guild_id ss guild_id,
          dec-inc_int32 g.member_count (bounded g e),
        )
      ]

  module _ (ctx : StateCtx) (msg : Message) (m : GuildMember) (guild_id : Snowflake)
      (u : User) where
    -- A GUILD_MEMBER_ADD that the dedupe table does not know, for a member with a guild and a user, and
    -- then, at any time, a GUILD_MEMBER_REMOVE of the same user: the guild's entry is as before both, if
    -- its member count is an int32.
    pub on_guild_member_remove-undoes :
        (env later : Env) (d : Daemon) (msg' : Message)
        → m.guild_id ≡ some guild_id
        → m.user ≡ some u
        → check_dedupe env.now (create_dedupe_member_add_key guild_id u.id) d.dedupe ≡ false
        → ((g : Guild)
            → Cache.load same_id d.state.guilds guild_id ≡ some g
            → IsInt32 g.member_count)
        → Cache.load same_id
            (state_after (
              on_guild_member_remove later msg'
                (some (record { guild_id = guild_id; user = u }))
                (state_after (on_guild_member_add env ctx msg (some m) d)))).state.guilds
            guild_id
          ≡ Cache.load same_id d.state.guilds guild_id
    unfolding on_guild_member_remove seen
    on_guild_member_remove-undoes env later d msg' in_guild has_user new bounded =
        let (t, e, f) = on_guild_member_add_new ctx msg m guild_id u env d in_guild has_user new in
        let key = create_dedupe_member_remove_key guild_id u.id in
        let table = add_dedupe env.now (create_dedupe_member_add_key guild_id u.id) d.dedupe in
        let d' = record d {
          dedupe = add_dedupe later.now key (remove_dedupe key table);
          state = t;
        } in
        let p : GuildMemberRemove = record { guild_id = guild_id; user = u } in
        rw e (
          rw (removed later.now key table) (
            ap (λ c. Cache.load same_id c guild_id) (drop_member_guilds later msg' p d')
            ∙ left_joined guild_id d.state t f bounded))
