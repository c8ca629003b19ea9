-- ===== src/Events/Members/Safe.antt =====
-- internal/events_dispatch.go: the events of members keep the invariant of the shared state.
use sandwich_daemon.Base.{Bool, true, false, Option, if◌then◌else◌, Option-cases, inl, inr}
use sandwich_daemon.CsMap.{CsMap}
use sandwich_daemon.Cache
use sandwich_daemon.Strconv.{Bytes}
use sandwich_daemon.Discord.{Snowflake, User, GuildMember}
use sandwich_daemon.Outcome.{Action, pure, ◌>>=◌}
use sandwich_daemon.Dedupe.{create_dedupe_member_add_key, create_dedupe_member_remove_key}
use sandwich_daemon.State.{SandwichState, StateCtx, Env, same_id}
use sandwich_daemon.State.Users.{add_user_mutual_guild}
use sandwich_daemon.State.Members.{get_guild_member, set_guild_member}
use sandwich_daemon.State.WellFormed.{
  IsWellFormed, set_guild_member-IsWellFormed, remove_guild_member-IsWellFormed,
  add_user_mutual_guild-IsWellFormed,
}
use sandwich_daemon.State.Edited.{remove_user_mutual_guild-IsWellFormed}
use sandwich_daemon.State.Voice.Keeps.{get_guild_member-Keeps}
use sandwich_daemon.State.Guilds.Invariant.{with_guilds, IsWellFormed-IsClosed}
use sandwich_daemon.Events.{Message, Handled, handled, no_dispatch, Daemon, on_state, edits}
use sandwich_daemon.Events.Invariant.{Safe, on_state-Safe, decoding-Safe, then-Safe}
use sandwich_daemon.Events.Members.{
  GuildMemberRemove, seen, unsee, count_joined, count_left, add_member, new_member, forget_member,
  drop_member, change_member, on_guild_member_add, on_guild_member_remove, on_guild_member_update,
}

module _ ⦃lib : CsMap⦄ where
  count_joined-IsWellFormed :
      (guild_id : Snowflake) (ss : SandwichState)
      → IsWellFormed ss
      → IsWellFormed (count_joined guild_id ss)
  unfolding count_joined
  count_joined-IsWellFormed guild_id ss p = with_guilds ss _ p

  count_left-IsWellFormed :
      (guild_id : Snowflake) (ss : SandwichState)
      → IsWellFormed ss
      → IsWellFormed (count_left guild_id ss)
  unfolding count_left
  count_left-IsWellFormed guild_id ss p =
      elim (Option-cases (Cache.load same_id ss.guilds guild_id)) [
        | inl e ↦ rw (e, count_left) p
        | inr (g, e) ↦ rw (e, count_left) (with_guilds ss _ p)
      ]

  seen-Safe : (env : Env) (key : Bytes) → Safe (seen env key)
  unfolding seen
  seen-Safe env key d p = p

  mutual_guild-Safe :
      (ctx : StateCtx) (user_id guild_id : Snowflake) (b : Bool)
      → Safe (if b then edits (add_user_mutual_guild ctx user_id guild_id) else pure tt)
  mutual_guild-Safe ctx user_id guild_id true d p =
      add_user_mutual_guild-IsWellFormed ctx user_id guild_id d.state p
  mutual_guild-Safe ctx user_id guild_id false d p = p

  -- A handler that does nothing for an event that was seen before.
  unless_seen-Safe :
      (m : Action Daemon Handled) (dup : Bool)
      → Safe m
      → Safe (if dup then pure (handled no_dispatch false) else m)
  unless_seen-Safe m true k d p = p
  unless_seen-Safe m false k d p = k d p

  once-Safe :
      (env : Env) (key : Bytes) (m : Action Daemon Handled)
      → Safe m
      → Safe (seen env key >>= λ dup. if dup then pure (handled no_dispatch false) else m)
  once-Safe env key m k =
      then-Safe (seen env key) (λ dup. if dup then pure (handled no_dispatch false) else m)
        (seen-Safe env key) (λ dup. unless_seen-Safe m dup k)

  add_member-Safe :
      (env : Env) (ctx : StateCtx) (msg : Message) (m : GuildMember) (guild_id : Snowflake)
      (u : User)
      → Safe (add_member env ctx msg m guild_id u)
  unfolding add_member unsee
  add_member-Safe env ctx msg m guild_id u d p =
      then-Safe (on_state (set_guild_member env ctx guild_id m)) _
        (on_state-Safe (set_guild_member env ctx guild_id m)
          (set_guild_member-IsWellFormed env ctx guild_id m))
        (λ _.
          then-Safe
            (if ctx.store_mutuals then edits (add_user_mutual_guild ctx u.id guild_id) else pure tt)
            _ (mutual_guild-Safe ctx u.id guild_id ctx.store_mutuals) (λ _ d p. p))
        _ (count_joined-IsWellFormed guild_id d.state p)

  new_member-Safe :
      (env : Env) (ctx : StateCtx) (msg : Message) (m : GuildMember) (guild_id : Snowflake)
      (u : User)
      → Safe (new_member env ctx msg m guild_id u)
  unfolding new_member
  new_member-Safe env ctx msg m guild_id u =
      once-Safe env (create_dedupe_member_add_key guild_id u.id)
        (add_member env ctx msg m guild_id u) (add_member-Safe env ctx msg m guild_id u)

  pub on_guild_member_add-Safe :
      (env : Env) (ctx : StateCtx) (msg : Message) (o : Option GuildMember)
      → Safe (on_guild_member_add env ctx msg o)
  unfolding on_guild_member_add
  on_guild_member_add-Safe env ctx msg o = decoding-Safe o _ (λ m d p.
      elim (Option-cases m.guild_id) [
        | inl e ↦ rw e p
        | inr (g, e) ↦ elim (Option-cases m.user) [
          | inl f ↦ rw (e, f) p
          | inr (u, f) ↦ rw (e, f) (new_member-Safe env ctx msg m g u d p)
        ]
      ])

  forget_member-Safe :
      (msg : Message) (p : GuildMemberRemove) (before : GuildMember × Bool)
      → Safe (forget_member msg p before)
  unfolding forget_member
  forget_member-Safe msg r before d p =
      remove_user_mutual_guild-IsWellFormed r.user.id r.guild_id _
        (remove_guild_member-IsWellFormed r.guild_id r.user.id d.state p)

  drop_member-Safe :
      (env : Env) (msg : Message) (r : GuildMemberRemove) → Safe (drop_member env msg r)
  unfolding drop_member unsee
  drop_member-Safe env msg r d p =
      then-Safe (on_state (get_guild_member env r.guild_id r.user.id)) (forget_member msg r)
        (on_state-Safe (get_guild_member env r.guild_id r.user.id)
          (get_guild_member-Keeps IsWellFormed IsWellFormed-IsClosed env r.guild_id r.user.id))
        (forget_member-Safe msg r) _ (count_left-IsWellFormed r.guild_id d.state p)

  pub on_guild_member_remove-Safe :
      (env : Env) (msg : Message) (o : Option GuildMemberRemove)
      → Safe (on_guild_member_remove env msg o)
  unfolding on_guild_member_remove
  on_guild_member_remove-Safe env msg o = decoding-Safe o _ (λ r.
      once-Safe env (create_dedupe_member_remove_key r.guild_id r.user.id) (drop_member env msg r)
        (drop_member-Safe env msg r))

  change_member-Safe :
      (env : Env) (ctx : StateCtx) (msg : Message) (m : GuildMember) (guild_id : Snowflake)
      (u : User)
      → Safe (change_member env ctx msg m guild_id u)
  unfolding change_member
  change_member-Safe env ctx msg m guild_id u =
      then-Safe (on_state (get_guild_member env guild_id u.id)) _
        (on_state-Safe (get_guild_member env guild_id u.id)
          (get_guild_member-Keeps IsWellFormed IsWellFormed-IsClosed env guild_id u.id))
        (λ before.
          then-Safe (on_state (set_guild_member env ctx guild_id m)) _
            (on_state-Safe (set_guild_member env ctx guild_id m)
              (set_guild_member-IsWellFormed env ctx guild_id m))
            (λ _ d p. p))

  pub on_guild_member_update-Safe :
      (env : Env) (ctx : StateCtx) (msg : Message) (o : Option GuildMember)
      → Safe (on_guild_member_update env ctx msg o)
  unfolding on_guild_member_update
  on_guild_member_update-Safe env ctx msg o = decoding-Safe o _ (λ m d p.
      elim (Option-cases m.guild_id) [
        | inl e ↦ rw e p
        | inr (g, e) ↦ elim (Option-cases m.user) [
          | inl f ↦ rw (e, f) p
          | inr (u, f) ↦ rw (e, f) (change_member-Safe env ctx msg m g u d p)
        ]
      ])
