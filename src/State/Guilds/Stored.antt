-- ===== src/State/Guilds/Stored.antt =====
-- SetGuild of internal/state.go: the guild that the state holds afterwards, and when it returns.
use sandwich_daemon.Base.{
  true, false, sym, subst, ap, ◌∙◌, ◌≡◌, ◌≢◌, refl, none, some, List, [], ◌∷◌, arith, inl, inr,
  Option-cases, Bool-cases, ite-elim,
}
use sandwich_daemon.CsMap.{CsMap}
use sandwich_daemon.Cache
use sandwich_daemon.Cache.Laws
use sandwich_daemon.Discord.{
  Snowflake, Slice, User, Emoji, Guild, Role, Channel, GuildMember, items, nil_id,
}
use sandwich_daemon.Outcome.{
  Outcome, Action, done, panicked, pure, changes, after, each, ◌>>◌, state_after,
}
use sandwich_daemon.Outcome.Keeps.{Keeps}
use sandwich_daemon.State.{SandwichState, StateCtx, Env, same_id}
use sandwich_daemon.State.Members.{set_guild_member, put_guild_member}
use sandwich_daemon.State.Roles.{set_guild_role, put_guild_role}
use sandwich_daemon.State.Emojis.{set_guild_emojis}
use sandwich_daemon.State.Channels.{set_guild_channel}
use sandwich_daemon.State.Frames.{
  set_guild_channel_frame, set_guild_emojis_frame, put_guild_member_frame,
}
use sandwich_daemon.State.Voice.Keeps.{IsClosed}
use sandwich_daemon.State.Guilds.{Shard, hold_guild, set_guild, set_guild_state, set_guild_lists}
use sandwich_daemon.State.Guilds.Keeps.{set_guild_lists-Keeps}

module _ ⦃lib : CsMap⦄ where
  -- The state holds the guild, its lists included.
  abbrev Holds : Guild → SandwichState → Type 0
  Holds guild ss = Cache.load same_id ss.guilds guild.id ≡ some guild

  set_guild_channel-Holds :
      (guild : Guild) (env : Env) (ctx : StateCtx) (guild_id : Snowflake) (c : Channel)
      (s : SandwichState)
      → Holds guild s
      → Holds guild (set_guild_channel env ctx guild_id c s)
  set_guild_channel-Holds guild env ctx guild_id c s p =
      rw (set_guild_channel_frame env ctx guild_id c s) p

  set_guild_emojis-Holds :
      (guild : Guild) (env : Env) (ctx : StateCtx) (guild_id : Snowflake) (es : Slice Emoji)
      (s : SandwichState)
      → Holds guild s
      → Holds guild (set_guild_emojis env ctx guild_id es s)
  set_guild_emojis-Holds guild env ctx guild_id es s p =
      rw (set_guild_emojis_frame env ctx guild_id es s) p

  put_guild_member-Holds :
      (guild : Guild) (env : Env) (ctx : StateCtx) (guild_id : Snowflake) (m : GuildMember)
      (u : User) (s : SandwichState)
      → Holds guild s
      → Holds guild (put_guild_member env ctx guild_id m u s)
  put_guild_member-Holds guild env ctx guild_id m u s p =
      rw (put_guild_member_frame env ctx guild_id m u s) p

  set_guild_member-Holds :
      (guild : Guild) (env : Env) (ctx : StateCtx) (guild_id : Snowflake) (m : GuildMember)
      → Keeps (Holds guild) (set_guild_member env ctx guild_id m)
  unfolding set_guild_member
  set_guild_member-Holds guild env ctx guild_id m s p = elim (Option-cases m.user) [
    | inl e ↦ rw (e, set_guild_member) p
    | inr (u, e) ↦
        rw (e, set_guild_member)
          (ground (arith, put_guild_member-Holds guild env ctx guild_id m u s p))
  ]

  set_guild_role-Holds :
      (guild : Guild) (guild_id : Snowflake) (r : Role)
      → Keeps (Holds guild) (set_guild_role guild_id r)
  unfolding set_guild_role put_guild_role
  set_guild_role-Holds guild guild_id r =
      ite-elim {A = Action SandwichState (Unit {0})} (λ m. Keeps (Holds guild) {A = Unit {0}} m)
        (same_id r.id nil_id) _ _ (λ s p. p) (λ s p. p)

  Holds-IsClosed : (guild : Guild) → IsClosed (Holds guild)
  Holds-IsClosed guild = record {
    channel = set_guild_channel-Holds guild;
    member = set_guild_member-Holds guild;
    dm_channels = λ dms s p. p;
    new_struct = λ guild_id s p. p;
    cells = λ l s h p. p;
  }

  -- The writes of SetGuild, also when they panic on the way.
  pub load-set_guild_state :
      (env : Env) (ctx : StateCtx) (guild : Guild) (ss : SandwichState)
      → Cache.load same_id (state_after (set_guild_state env ctx guild ss)).guilds guild.id
        ≡ some guild
  unfolding set_guild_state
  load-set_guild_state env ctx guild ss =
      set_guild_lists-Keeps (Holds guild) (Holds-IsClosed guild) (set_guild_role-Holds guild)
        (set_guild_emojis-Holds guild) env ctx guild
        (record ss { guilds = Cache.store same_id ss.guilds guild.id guild })
        (ground (arith, Cache.Laws.load-store same_id ss.guilds guild.id guild guild.id))

  -- An action that returns from every state.
  abbrev Returns : Action SandwichState (Unit {0}) → Type 0
  Returns m = (s : SandwichState) → (t : SandwichState) × (m s ≡ done tt t)

  abbrev pub HaveIds : List Role → Type 0
  HaveIds [] = Unit
  HaveIds (r ∷ rs) = (r.id ≢ nil_id) × HaveIds rs

  abbrev pub HaveUsers : List GuildMember → Type 0
  HaveUsers [] = Unit
  HaveUsers (m ∷ ms) = (m.user ≢ none) × HaveUsers ms

  >>-Returns : (m k : Action SandwichState (Unit {0})) → Returns m → Returns k → Returns (m >> k)
  >>-Returns m k h i s = let (t, e) = h s in let (u, f) = i t in (u, rw (e, after) f)

  roles-Returns :
      (guild_id : Snowflake) (rs : List Role)
      → HaveIds rs
      → Returns (each rs (set_guild_role guild_id))
  unfolding each set_guild_role
  roles-Returns guild_id [] h = λ s. (s, refl)
  roles-Returns guild_id (r ∷ rs) h =
      >>-Returns (set_guild_role guild_id r) (each rs (set_guild_role guild_id))
        (λ s. (put_guild_role guild_id r s, ground arith)) (roles-Returns guild_id rs h.1)

  pub member-Returns :
      (env : Env) (ctx : StateCtx) (guild_id : Snowflake) (m : GuildMember)
      → m.user ≢ none
      → Returns (set_guild_member env ctx guild_id m)
  unfolding set_guild_member
  member-Returns env ctx guild_id m h s = elim (Option-cases m.user) [
    | inl e ↦ absurd (h e)
    | inr (u, e) ↦
        rw (e, set_guild_member)
          (elim (Bool-cases ctx.cache_members) [
            | inl c ↦ (put_guild_member env ctx guild_id m u s, ground arith)
            | inr c ↦ elim (same_id u.id ctx.user_id) [
              | yes p ↦ (put_guild_member env ctx guild_id m u s, ground arith)
              | no q ↦ (s, ground arith)
            ]
          ])
  ]

  members-Returns :
      (env : Env) (ctx : StateCtx) (guild_id : Snowflake) (ms : List GuildMember)
      → HaveUsers ms
      → Returns (each ms (set_guild_member env ctx guild_id))
  unfolding each
  members-Returns env ctx guild_id [] h = λ s. (s, refl)
  members-Returns env ctx guild_id (m ∷ ms) h =
      >>-Returns (set_guild_member env ctx guild_id m) (each ms (set_guild_member env ctx guild_id))
        (member-Returns env ctx guild_id m h.0) (members-Returns env ctx guild_id ms h.1)

  channels-Returns :
      (env : Env) (ctx : StateCtx) (guild_id : Snowflake) (cs : List Channel)
      → Returns (each cs (λ c. changes (set_guild_channel env ctx guild_id c)))
  unfolding each
  channels-Returns env ctx guild_id [] = λ s. (s, refl)
  channels-Returns env ctx guild_id (c ∷ cs) =
      λ s. channels-Returns env ctx guild_id cs (set_guild_channel env ctx guild_id c s)

  set_guild_state-Returns :
      (env : Env) (ctx : StateCtx) (guild : Guild) (ss : SandwichState)
      → HaveIds (items guild.roles)
      → HaveUsers (items guild.members)
      → items guild.voice_states ≡ []
      → (t : SandwichState) × (set_guild_state env ctx guild ss ≡ done tt t)
  unfolding set_guild_state set_guild_lists each
  set_guild_state-Returns env ctx guild ss ids users no_voice =
      let k4 = each (items guild.members) (set_guild_member env ctx guild.id) in
      let k3 = changes (set_guild_emojis env ctx guild.id guild.emojis) in
      let k2 = each (items guild.channels) (λ c. changes (set_guild_channel env ctx guild.id c)) in
      let k1 = each (items guild.roles) (set_guild_role guild.id) in
      rw no_voice (
        >>-Returns k1 (k2 >> (k3 >> (k4 >> pure tt)))
          (roles-Returns guild.id (items guild.roles) ids)
          (>>-Returns k2 (k3 >> (k4 >> pure tt))
            (channels-Returns env ctx guild.id (items guild.channels))
            (>>-Returns k3 (k4 >> pure tt)
              (λ s. (set_guild_emojis env ctx guild.id guild.emojis s, refl))
              (>>-Returns k4 (pure tt)
                (members-Returns env ctx guild.id (items guild.members) users) (λ s. (s, refl)))))
          (record ss { guilds = Cache.store same_id ss.guilds guild.id guild }))

  pub set_guild_grouped :
      (env : Env) (ctx : StateCtx) (guild : Guild) (sh : Shard) (ss : SandwichState)
      → ctx.has_group ≡ true
      → set_guild env ctx guild sh ss ≡ (hold_guild guild.id sh, set_guild_state env ctx guild ss)
  unfolding set_guild
  set_guild_grouped env ctx guild sh ss group = ground arith

  -- After SetGuild with a context that has a shard group, also when it panics on the way, the state holds
  -- the guild exactly as it came, with all its lists: the fields that SetGuild clears at its end are
  -- still there. Without a shard group SetGuild panics and changes neither the state nor the shard.
  pub load-set_guild :
      (env : Env) (ctx : StateCtx) (guild : Guild) (sh : Shard) (ss : SandwichState)
      → (ctx.has_group ≡ true
          → Cache.load same_id (state_after (set_guild env ctx guild sh ss).1).guilds guild.id
            ≡ some guild)
        × (ctx.has_group ≡ false → set_guild env ctx guild sh ss ≡ (sh, panicked ss))
  unfolding set_guild
  load-set_guild env ctx guild sh ss = (
    (λ group.
        subst
          (λ (r : Shard × Outcome SandwichState (Unit {0})).
            Cache.load same_id (state_after r.1).guilds guild.id ≡ some guild)
          (sym (set_guild_grouped env ctx guild sh ss group))
          (load-set_guild_state env ctx guild ss)),
    λ group. ground (arith, group),
  )

  -- SetGuild, with a context that has a shard group, returns without a panic for a guild whose roles all
  -- have an id and whose members all have a user, if it comes with no voice states.
  pub set_guild-Returns :
      (env : Env) (ctx : StateCtx) (guild : Guild) (sh : Shard) (ss : SandwichState)
      → ctx.has_group ≡ true
      → HaveIds (items guild.roles)
      → HaveUsers (items guild.members)
      → items guild.voice_states ≡ []
      → (t : SandwichState) × ((set_guild env ctx guild sh ss).1 ≡ done tt t)
  set_guild-Returns env ctx guild sh ss group ids users no_voice =
      let (t, e) = set_guild_state-Returns env ctx guild ss ids users no_voice in
      (
        t,
        ap (λ (r : Shard × Outcome SandwichState (Unit {0})). r.1)
              (set_guild_grouped env ctx guild sh ss group)
            ∙ e,
      )
