-- ===== src/Events/Members.antt =====
-- internal/events_dispatch.go, the events of members: joins, leaves and updates.
pub mod Safe
pub mod Counting
pub mod Joins
pub mod Leaves
use sandwich_daemon.Base.{
  Bool, true, false, not, if◌then◌else◌, Option, none, some, List, ℤ, inc_int32, dec_int32,
}
use sandwich_daemon.CsMap.{CsMap}
use sandwich_daemon.Cache
use sandwich_daemon.Discord.{Snowflake, User, GuildMember, Guild}
use sandwich_daemon.Dedupe.{
  create_dedupe_member_add_key, create_dedupe_member_remove_key, check_and_add_dedupe,
  remove_dedupe,
}
use sandwich_daemon.Strconv.{Bytes}
use sandwich_daemon.Outcome.{
  Outcome, done, panicked, Action, pure, panic, reads, changes, each, ◌>>=◌, ◌>>◌,
}
use sandwich_daemon.State.{SandwichState, StateCtx, Env, same_id}
use sandwich_daemon.State.Users.{add_user_mutual_guild, remove_user_mutual_guild}
use sandwich_daemon.State.Members.{get_guild_member, set_guild_member, remove_guild_member}
use sandwich_daemon.Events.{
  Message, Handled, handled, no_dispatch, Extra, before_member, for_guild, dispatch, dispatch_extra,
  Daemon, on_state, edits, decoding,
}

pub record GuildMemberRemove : Type 0 where
  pub guild_id : Snowflake
  pub user : User

-- `guild.MemberCount++` and `guild.MemberCount--`
unfoldable pub joined : Guild → Guild
unfolding inc_int32
joined guild = record guild { member_count = inc_int32 guild.member_count }

unfoldable pub left : Guild → Guild
unfolding dec_int32
left guild = record guild { member_count = dec_int32 guild.member_count }

module _ ⦃lib : CsMap⦄ where
  -- CheckAndAddDedupe on the daemon's table.
  unfoldable pub seen : Env → Bytes → Action Daemon Bool
  seen env key d =
      let r = check_and_add_dedupe env.now key d.dedupe in done r.1 (record d { dedupe = r.0 })

  unfoldable pub unsee : Bytes → Daemon → Daemon
  unsee key d = record d { dedupe = remove_dedupe key d.dedupe }

  unfoldable pub count_joined : Snowflake → SandwichState → SandwichState
  unfolding joined
  count_joined guild_id ss = record ss {
    guilds = (Cache.update same_id ss.guilds guild_id joined).0;
  }

  unfoldable pub count_left : Snowflake → SandwichState → SandwichState
  unfolding left
  count_left guild_id ss = elim (Cache.load same_id ss.guilds guild_id) [
    | none ↦ ss
    | some guild ↦ record ss {
      guilds = Cache.set_if_present same_id ss.guilds guild_id (left guild);
    }
  ]

  -- OnGuildMemberAdd, once the guild's id and the user are known not to be nil, and the event is new.
  unfoldable pub add_member :
      Env → StateCtx → Message → GuildMember → Snowflake → User → Action Daemon Handled
  unfolding unsee count_joined
  add_member env ctx msg m guild_id u = do
    changes (unsee (create_dedupe_member_remove_key guild_id u.id))
    edits (count_joined guild_id)
    on_state (set_guild_member env ctx guild_id m)
    (if ctx.store_mutuals then edits (add_user_mutual_guild ctx u.id guild_id) else pure tt)
    pure (dispatch msg (for_guild m.guild_id))

  unfoldable pub new_member :
      Env → StateCtx → Message → GuildMember → Snowflake → User → Action Daemon Handled
  unfolding seen add_member
  new_member env ctx msg m guild_id u =
      seen env (create_dedupe_member_add_key guild_id u.id) >>= λ dup.
      if dup then pure (handled no_dispatch false) else add_member env ctx msg m guild_id u

  -- A member without a guild id or a user is a nil dereference.
  unfoldable pub on_guild_member_add :
      Env → StateCtx → Message → Option GuildMember → Action Daemon Handled
  unfolding new_member
  on_guild_member_add env ctx msg payload = decoding payload (λ m. elim m.guild_id [
    | none ↦ panic
    | some guild_id ↦ elim m.user [ none ↦ panic | some u ↦ new_member env ctx msg m guild_id u ]
  ])

  unfoldable pub forget_member :
      Message → GuildMemberRemove → GuildMember × Bool → Action Daemon Handled
  forget_member msg p before = do
    edits (remove_guild_member p.guild_id p.user.id)
    edits (remove_user_mutual_guild p.user.id p.guild_id)
    pure (dispatch_extra msg (before_member before.0) (for_guild (some p.guild_id)))

  unfoldable pub drop_member : Env → Message → GuildMemberRemove → Action Daemon Handled
  unfolding unsee count_left forget_member
  drop_member env msg p = do
    changes (unsee (create_dedupe_member_add_key p.guild_id p.user.id))
    edits (count_left p.guild_id)
    on_state (get_guild_member env p.guild_id p.user.id) >>= forget_member msg p

  unfoldable pub on_guild_member_remove :
      Env → Message → Option GuildMemberRemove → Action Daemon Handled
  unfolding seen drop_member
  on_guild_member_remove env msg payload = decoding payload (λ p.
      seen env (create_dedupe_member_remove_key p.guild_id p.user.id) >>= λ dup.
      if dup then pure (handled no_dispatch false) else drop_member env msg p)

  unfoldable pub change_member :
      Env → StateCtx → Message → GuildMember → Snowflake → User → Action Daemon Handled
  change_member env ctx msg m guild_id u = do
    before ← on_state (get_guild_member env guild_id u.id)
    on_state (set_guild_member env ctx guild_id m)
    pure (dispatch_extra msg (before_member before.0) (for_guild m.guild_id))

  unfoldable pub on_guild_member_update :
      Env → StateCtx → Message → Option GuildMember → Action Daemon Handled
  unfolding change_member
  on_guild_member_update env ctx msg payload = decoding payload (λ m. elim m.guild_id [
    | none ↦ panic
    | some guild_id ↦ elim m.user [ none ↦ panic | some u ↦ change_member env ctx msg m guild_id u ]
  ])
