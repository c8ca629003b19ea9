-- ===== src/Events/Members/Joins.antt =====
-- GUILD_MEMBER_ADD of internal/events_dispatch.go: a repeated event is dropped.
use sandwich_daemon.Base.{
  ◌≡◌, refl, sym, ◌∙◌, arith, ite, true, false, if◌then◌else◌, some, inl, inr, Option-cases,
  Bool-cases, ℤ, pos, ◌≤ℤ◌, ◌<ℤ◌, ◌+ℤ◌,
}
use sandwich_daemon.CsMap.{CsMap, mapped}
use sandwich_daemon.Cache
use sandwich_daemon.Discord.{Snowflake, User, GuildMember}
use sandwich_daemon.Strconv.{Bytes, same_bytes}
use sandwich_daemon.Dedupe.{
  DedupeMap, member_dedupe_expiration, create_dedupe_member_add_key,
  create_dedupe_member_remove_key, check_dedupe, check_and_add_dedupe, add_dedupe, remove_dedupe,
}
use sandwich_daemon.Dedupe.Keys.{dedupe_keys-inj}
use sandwich_daemon.Dedupe.Windows.{counts_after}
use sandwich_daemon.Outcome.{done, after, pure, state_after}
use sandwich_daemon.State.{SandwichState, StateCtx, Env, same_id}
use sandwich_daemon.State.Users.{add_user_mutual_guild}
use sandwich_daemon.State.Guilds.Stored.{member-Returns}
use sandwich_daemon.Events.{
  Message, handled, no_dispatch, Daemon, in_state, dispatch, for_guild, edits,
}
use sandwich_daemon.Events.Members.{
  joined, seen, unsee, count_joined, add_member, new_member, on_guild_member_add,
}
use sandwich_daemon.Events.Members.Counting.{load-count_joined, set_guild_member_guilds}

module _ ⦃lib : CsMap⦄ where
  check_and_add_dedupe_new :
      (now : ℤ) (key : Bytes) (m : DedupeMap)
      → check_dedupe now key m ≡ false
      → check_and_add_dedupe now key m ≡ (add_dedupe now key m, false)
  unfolding check_and_add_dedupe check_dedupe
  check_and_add_dedupe_new now key m h = elim (Option-cases (lib.load same_bytes m key)) [
    | inl e ↦ rw (e, check_and_add_dedupe)
    | inr (v, e) ↦ let no = rw (e, check_dedupe) at h in rw (e, check_and_add_dedupe, no)
  ]

  module _ (ctx : StateCtx) (msg : Message) (m : GuildMember) (guild_id : Snowflake)
      (u : User) where
    abbrev add_key : Bytes
    add_key = create_dedupe_member_add_key guild_id u.id

    abbrev remove_key : Bytes
    remove_key = create_dedupe_member_remove_key guild_id u.id

    mutual_step :
        (d : Daemon)
        → (t : SandwichState) × ((if ctx.store_mutuals
                then edits (add_user_mutual_guild ctx u.id guild_id)
                else pure tt)
              d
            ≡ done tt (record d { state = t }))
          × (t.guilds ≡ d.state.guilds)
    unfolding add_user_mutual_guild
    mutual_step d = elim (Bool-cases ctx.store_mutuals) [
      | inl on ↦ (add_user_mutual_guild ctx u.id guild_id d.state, rw on refl, ground arith)
      | inr off ↦ (d.state, rw off refl, refl)
    ]

    -- What a new member event does: the guild's count goes up, the key of a leave is forgotten.
    add_member_done :
        (env : Env) (d : Daemon)
        → m.user ≡ some u
        → (t : SandwichState) × (add_member env ctx msg m guild_id u d
            ≡ done
                (dispatch msg (for_guild m.guild_id))
                (record d { dedupe = remove_dedupe remove_key d.dedupe; state = t }))
          × (t.guilds ≡ (count_joined guild_id d.state).guilds)
    unfolding add_member unsee
    add_member_done env d has_user =
        let s = count_joined guild_id d.state in
        let (t, e) = member-Returns env ctx guild_id m (λ f. ground arith) s in
        let same = rw e at (set_guild_member_guilds env ctx guild_id m s) in
        let (t', f, g) =
          mutual_step (record d { dedupe = remove_dedupe remove_key d.dedupe; state = t }) in
        (t', rw (e, in_state, after) (rw (f, after) refl), g ∙ same)

    -- A GUILD_MEMBER_ADD that the dedupe table does not know: it is dispatched, the guild's member count
    -- goes up by one, if the guild is cached, and no other guild's entry changes.
    pub on_guild_member_add_new :
        (env : Env) (d : Daemon)
        → m.guild_id ≡ some guild_id
        → m.user ≡ some u
        → check_dedupe env.now add_key d.dedupe ≡ false
        → (t : SandwichState) × (on_guild_member_add env ctx msg (some m) d
            ≡ done (dispatch msg (for_guild (some guild_id))) (record d {
              dedupe = remove_dedupe remove_key (add_dedupe env.now add_key d.dedupe);
              state = t;
            }))
          × (t.guilds ≡ (count_joined guild_id d.state).guilds)
    unfolding on_guild_member_add new_member seen
    on_guild_member_add_new env d in_guild has_user new =
        let d' = record d { dedupe = add_dedupe env.now add_key d.dedupe } in
        let (t, e, f) = add_member_done env d' has_user in
        let seen_not = check_and_add_dedupe_new env.now add_key d.dedupe new in
        (t, ground (arith, in_guild, has_user, seen_not, e), f)

    -- The daemon after the first event.
    abbrev pub after_join : Env → Daemon → Daemon
    after_join env d = state_after (on_guild_member_add env ctx msg (some m) d)

    -- The key of a new event is in the table afterwards.
    known :
        (env later : Env) (table : DedupeMap)
        → pos 0 ≤ℤ env.now
        → later.now <ℤ (env.now +ℤ member_dedupe_expiration)
        → check_and_add_dedupe later.now add_key
            (remove_dedupe remove_key (add_dedupe env.now add_key table))
          ≡ (remove_dedupe remove_key (add_dedupe env.now add_key table), true)
    unfolding check_and_add_dedupe add_dedupe remove_dedupe
    known env later table h k = ground (
      arith,
      lib.load-store same_bytes table add_key (env.now +ℤ member_dedupe_expiration) add_key,
      lib.load-delete same_bytes
          (lib.store same_bytes table add_key (env.now +ℤ member_dedupe_expiration)) remove_key
          add_key,
      λ (e : remove_key ≡ add_key). (dedupe_keys-inj guild_id u.id guild_id u.id).2 (sym e),
      counts_after env.now later.now h,
    )

    -- A GUILD_MEMBER_ADD that the dedupe table does not know, at a time from the epoch on, for a member
    -- with a guild and a user: the guild's member count goes up by one, if the guild is cached, and no
    -- other guild's entry changes; and the same event again, less than a minute later, changes nothing
    -- at all and is not dispatched.
    pub on_guild_member_add-once :
        (env : Env) (d : Daemon)
        → m.guild_id ≡ some guild_id
        → m.user ≡ some u
        → check_dedupe env.now add_key d.dedupe ≡ false
        → pos 0 ≤ℤ env.now
        → ((id : Snowflake)
            → Cache.load same_id (after_join env d).state.guilds id
              ≡ ite
                  (same_id guild_id id)
                  (mapped joined (Cache.load same_id d.state.guilds guild_id))
                  (Cache.load same_id d.state.guilds id))
          × ((later : Env) (msg' : Message)
              → later.now <ℤ (env.now +ℤ member_dedupe_expiration)
              → on_guild_member_add later ctx msg' (some m) (after_join env d)
                ≡ done (handled no_dispatch false) (after_join env d))
    unfolding on_guild_member_add new_member seen
    on_guild_member_add-once env d in_guild has_user new h =
        let (t, e, f) = on_guild_member_add_new env d in_guild has_user new in
        (
          λ id. rw e (rw f (load-count_joined guild_id d.state id)),
          λ later msg' k. rw e (ground (arith, in_guild, has_user, known env later d.dedupe h k)),
        )
