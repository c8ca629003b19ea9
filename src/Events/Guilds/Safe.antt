-- ===== src/Events/Guilds/Safe.antt =====
-- internal/events_dispatch.go: the events of guilds, emojis, stickers and roles keep the invariant of
-- the shared state.
use sandwich_daemon.Base.{Bool, true, false, Option, none, some, arith, if◌then◌else◌}
use sandwich_daemon.CsMap.{CsMap}
use sandwich_daemon.Discord.{Slice, Sticker, Guild}
use sandwich_daemon.Outcome.{Outcome, pure, ◌>>◌}
use sandwich_daemon.State.{SandwichState, StateCtx, Env}
use sandwich_daemon.State.Roles.{set_guild_role}
use sandwich_daemon.State.WellFormed.{
  IsWellFormed, set_guild_role-IsWellFormed, set_guild_emojis-IsWellFormed,
}
use sandwich_daemon.State.Edited.{
  remove_all_guild_emojis-IsWellFormed, remove_guild_role-IsWellFormed,
}
use sandwich_daemon.State.Guilds.{Shard, get_guild, set_guild}
use sandwich_daemon.State.Guilds.Invariant.{set_guild_state-IsWellFormed}
use sandwich_daemon.Events.{
  Message, Handled, Daemon, on_state, dispatch_extra, before_stickers, for_guild,
}
use sandwich_daemon.Events.Invariant.{
  Safe, on_state-Safe, decoding-Safe, then-Safe, in_state-IsWellFormed,
}
use sandwich_daemon.Events.Guilds.{
  UnavailableGuild, GuildEmojisUpdate, GuildStickersUpdate, GuildRole, GuildRoleDelete, store_guild,
  clear_lazy, forget_guild, store_stickers, on_guild_create, on_guild_update, on_guild_delete,
  on_guild_emojis_update, on_guild_stickers_update, on_guild_role_create, on_guild_role_update,
  on_guild_role_delete,
}
use sandwich_daemon.Outcome.{state_after}

module _ ⦃lib : CsMap⦄ where
  has_group-IsWellFormed :
      (b : Bool) (x y : Shard × Outcome SandwichState (Unit {0}))
      → IsWellFormed (state_after x.1)
      → IsWellFormed (state_after y.1)
      → IsWellFormed (state_after (if b then x else y).1)
  has_group-IsWellFormed true x y h k = h
  has_group-IsWellFormed false x y h k = k

  set_guild-IsWellFormed :
      (env : Env) (ctx : StateCtx) (guild : Guild) (d : Daemon)
      → IsWellFormed d.state
      → IsWellFormed (state_after (set_guild env ctx guild d.shard d.state).1)
  unfolding set_guild
  set_guild-IsWellFormed env ctx guild d p =
      has_group-IsWellFormed ctx.has_group _ _
        (set_guild_state-IsWellFormed env ctx guild d.state p) p

  store_guild-Safe : (env : Env) (ctx : StateCtx) (guild : Guild) → Safe (store_guild env ctx guild)
  unfolding store_guild
  store_guild-Safe env ctx guild d p =
      in_state-IsWellFormed (record d { shard = (set_guild env ctx guild d.shard d.state).0 })
        (set_guild env ctx guild d.shard d.state).1 (set_guild-IsWellFormed env ctx guild d p)

  pub on_guild_create-Safe :
      (env : Env) (ctx : StateCtx) (msg : Message) (o : Option Guild)
      → Safe (on_guild_create env ctx msg o)
  unfolding on_guild_create clear_lazy
  on_guild_create-Safe env ctx msg o = decoding-Safe o _ (λ guild.
      then-Safe (store_guild env ctx guild) _ (store_guild-Safe env ctx guild) (λ _ d p. p))

  pub on_guild_update-Safe :
      (env : Env) (ctx : StateCtx) (msg : Message) (o : Option Guild)
      → Safe (on_guild_update env ctx msg o)
  unfolding on_guild_update
  on_guild_update-Safe env ctx msg o = decoding-Safe o _ (λ guild d p.
      then-Safe (store_guild env ctx _) _ (store_guild-Safe env ctx _) (λ _ d p. p) d p)

  forget_guild-Safe :
      (g : UnavailableGuild) (d : Daemon)
      → IsWellFormed d.state
      → IsWellFormed (forget_guild g d).state
  unfolding forget_guild
  forget_guild-Safe g d p = ground (arith, p)

  pub on_guild_delete-Safe :
      (msg : Message) (o : Option UnavailableGuild) → Safe (on_guild_delete msg o)
  unfolding on_guild_delete
  on_guild_delete-Safe msg none d p = p
  on_guild_delete-Safe msg (some g) d p = forget_guild-Safe g d p

  pub on_guild_emojis_update-Safe :
      (env : Env) (ctx : StateCtx) (msg : Message) (o : Option GuildEmojisUpdate)
      → Safe (on_guild_emojis_update env ctx msg o)
  unfolding on_guild_emojis_update
  on_guild_emojis_update-Safe env ctx msg o = decoding-Safe o _ (λ u d p.
      set_guild_emojis-IsWellFormed env ctx u.guild_id u.emojis _
        (remove_all_guild_emojis-IsWellFormed u.guild_id d.state p))

  store_stickers-Safe :
      (env : Env) (ctx : StateCtx) (stickers : Slice Sticker) (before : Guild × Bool)
      → Safe (store_stickers env ctx stickers before)
  unfolding store_stickers
  store_stickers-Safe env ctx stickers (before, false) d p = p
  store_stickers-Safe env ctx stickers (before, true) d p = store_guild-Safe env ctx _ d p

  stored_stickers-Safe :
      (env : Env) (ctx : StateCtx) (stickers : Slice Sticker) (before : Guild × Bool) (h : Handled)
      → Safe (store_stickers env ctx stickers before >> pure h)
  stored_stickers-Safe env ctx stickers before h =
      then-Safe (store_stickers env ctx stickers before) (λ _. pure h)
        (store_stickers-Safe env ctx stickers before) (λ _ d p. p)

  pub on_guild_stickers_update-Safe :
      (env : Env) (ctx : StateCtx) (msg : Message) (o : Option GuildStickersUpdate)
      → Safe (on_guild_stickers_update env ctx msg o)
  unfolding on_guild_stickers_update
  on_guild_stickers_update-Safe env ctx msg o = decoding-Safe o _ (λ u d.
      let before : Guild × Bool = get_guild d.state u.guild_id in
      stored_stickers-Safe env ctx u.stickers before
        (dispatch_extra msg (before_stickers before.0.stickers) (for_guild (some u.guild_id))) d)

  pub on_guild_role_create-Safe :
      (msg : Message) (o : Option GuildRole) → Safe (on_guild_role_create msg o)
  unfolding on_guild_role_create
  on_guild_role_create-Safe msg o = decoding-Safe o _ (λ u.
      then-Safe (on_state (set_guild_role u.guild_id u.role)) _
        (on_state-Safe (set_guild_role u.guild_id u.role)
          (set_guild_role-IsWellFormed u.guild_id u.role))
        (λ _ d p. p))

  pub on_guild_role_update-Safe :
      (msg : Message) (o : Option GuildRole) → Safe (on_guild_role_update msg o)
  unfolding on_guild_role_update
  on_guild_role_update-Safe msg o = decoding-Safe o _ (λ u d.
      then-Safe (on_state (set_guild_role u.guild_id u.role)) _
        (on_state-Safe (set_guild_role u.guild_id u.role)
          (set_guild_role-IsWellFormed u.guild_id u.role))
        (λ _ d p. p) d)

  pub on_guild_role_delete-Safe :
      (msg : Message) (o : Option GuildRoleDelete) → Safe (on_guild_role_delete msg o)
  unfolding on_guild_role_delete
  on_guild_role_delete-Safe msg o =
      decoding-Safe o _ (λ u d p. remove_guild_role-IsWellFormed u.guild_id u.role_id d.state p)
