-- ===== src/State/RoundTrips.antt =====
-- What the reads of internal/state.go find after its writes: users, members, roles and emojis.
use sandwich_daemon.Base.{◌≡◌, ◌≢◌, refl, some, arith, ite, if◌then◌else◌, List, [], ◌∷◌, ap, true}
use sandwich_daemon.CsMap.{CsMap}
use sandwich_daemon.Cache
use sandwich_daemon.Cache.Laws
use sandwich_daemon.DoubleCache
use sandwich_daemon.DoubleCache.Clean.{load-store_clean, load-store_same}
use sandwich_daemon.Discord.{
  Snowflake, Slice, User, GuildMember, Role, Emoji, nil_id, no_emoji, items,
}
use sandwich_daemon.Outcome.{done, state_after}
use sandwich_daemon.State.{SandwichState, StateCtx, Env, same_id}
use sandwich_daemon.State.Users.{get_user, set_user, user_to_state, user_from_state}
use sandwich_daemon.State.Members.{
  get_guild_member, set_guild_member, put_guild_member, fixed_joined_at, found_member, with_user,
}
use sandwich_daemon.State.Roles.{get_guild_role, set_guild_role, put_guild_role}
use sandwich_daemon.State.Emojis.{get_guild_emoji, find_emoji, set_guild_emojis, refreshed}
use sandwich_daemon.State.Frames.{set_guild_emojis_frame, put_guild_member_frame}
use sandwich_daemon.State.WellFormed.{IsWellFormed}

module _ ⦃lib : CsMap⦄ (env : Env) (ctx : StateCtx) where
  -- SetUser, then GetUser: a user that is cached, or the bot's own, is found as it was set; no other
  -- user changes.
  pub get_user-set_user :
      (u : User) (ss : SandwichState) (id : Snowflake)
      → get_user (set_user env ctx u ss) id
        ≡ ite
            (same_id u.id id)
            (if ctx.cache_users
              then some u
              else ite (same_id u.id ctx.user_id) (some u) (get_user ss id))
            (get_user ss id)
  unfolding get_user set_user user_from_state user_to_state
  get_user-set_user u ss id =
      ground (arith, Cache.Laws.load-store same_id ss.users u.id (user_to_state env u) id)

  pub put_guild_member-load :
      (guild_id : Snowflake) (m : GuildMember) (u : User) (ss : SandwichState)
      → IsWellFormed ss
      → DoubleCache.load same_id same_id
          (put_guild_member env ctx guild_id m u ss).guild_members
          guild_id
          u.id
        ≡ some m
  put_guild_member-load guild_id m u ss p =
      rw (put_guild_member_frame env ctx guild_id m u ss)
        (load-store_same same_id same_id ss.guild_members guild_id u.id p.members m)

  pub put_guild_member-user :
      (guild_id : Snowflake) (m : GuildMember) (u : User) (ss : SandwichState)
      → ctx.cache_users ≡ true
      → get_user (put_guild_member env ctx guild_id m u ss) u.id ≡ some u
  unfolding put_guild_member
  put_guild_member-user guild_id m u ss h = ground (
    arith,
    get_user-set_user u
        (record ss {
          guild_members = DoubleCache.store same_id same_id ss.guild_members guild_id u.id m;
        })
        u.id,
  )

  pub set_guild_member_caching :
      (guild_id : Snowflake) (m : GuildMember) (u : User) (ss : SandwichState)
      → m.user ≡ some u
      → ctx.cache_members ≡ true
      → set_guild_member env ctx guild_id m ss ≡ done tt (put_guild_member env ctx guild_id m u ss)
  unfolding set_guild_member
  set_guild_member_caching guild_id m u ss has_user members =
      rw (has_user, set_guild_member) (ground arith)

  -- A cached member with a cached user.
  pub get_guild_member_cached :
      (guild_id : Snowflake) (m : GuildMember) (u : User) (t : SandwichState)
      → m.user ≡ some u
      → DoubleCache.load same_id same_id t.guild_members guild_id u.id ≡ some m
      → get_user t u.id ≡ some u
      → get_guild_member env guild_id u.id t
        ≡ done (record m { joined_at = fixed_joined_at env m.joined_at; user = some u }, true) t
  unfolding get_guild_member found_member
  get_guild_member_cached guild_id m u t has_user cached cached_user =
      rw (cached, get_guild_member) (rw (has_user, found_member) (rw (cached_user, with_user)))

  -- SetGuildMember, then GetGuildMember, in a well-formed state, for a member with a user where members
  -- and users are cached: the member is found as it was set, with `joined_at` repaired.
  pub get_guild_member-set_guild_member :
      (guild_id : Snowflake) (m : GuildMember) (u : User) (ss : SandwichState)
      → IsWellFormed ss
      → m.user ≡ some u
      → ctx.cache_members ≡ true
      → ctx.cache_users ≡ true
      → let t = state_after (set_guild_member env ctx guild_id m ss) in
        get_guild_member env guild_id u.id t
        ≡ done (record m { joined_at = fixed_joined_at env m.joined_at; user = some u }, true) t
  get_guild_member-set_guild_member guild_id m u ss p has_user members users =
      rw (set_guild_member_caching guild_id m u ss has_user members) (
        get_guild_member_cached guild_id m u (put_guild_member env ctx guild_id m u ss) has_user
          (put_guild_member-load guild_id m u ss p) (put_guild_member-user guild_id m u ss users))

module _ ⦃lib : CsMap⦄ where
  -- SetGuildRole, then GetGuildRole, in a well-formed state: a role with an id is found under the
  -- guild and that id, and every other role is as before. A role with id 0 is a panic that changes nothing.
  pub get_guild_role-set_guild_role :
      (guild_id : Snowflake) (r : Role) (ss : SandwichState) (g id : Snowflake)
      → IsWellFormed ss
      → get_guild_role (state_after (set_guild_role guild_id r ss)) g id
        ≡ ite (same_id r.id nil_id) (get_guild_role ss g id) (
            ite
              (same_id guild_id g)
              (ite (same_id r.id id) (some r) (get_guild_role ss guild_id id))
              (get_guild_role ss g id))
  unfolding set_guild_role get_guild_role put_guild_role
  get_guild_role-set_guild_role guild_id r ss g id p =
      ground (arith, load-store_clean same_id same_id ss.guild_roles guild_id r.id p.roles r g id)

  -- No emoji of a list has the id.
  abbrev pub HasNoEmoji : Snowflake → List Emoji → Type 0
  HasNoEmoji id [] = Unit
  HasNoEmoji id (e ∷ es) = (e.id ≢ id) × HasNoEmoji id es

  find_emoji_none :
      (id : Snowflake) (es : List Emoji) → HasNoEmoji id es → find_emoji id es ≡ no_emoji
  unfolding find_emoji
  find_emoji_none id [] h = refl
  find_emoji_none id (e ∷ es) h = ground (arith, find_emoji_none id es h.1)

  -- SetGuildEmojis, then GetGuildEmoji for an id that no emoji of the list has: the result is the
  -- zero emoji, and the flag is true, as for a match.
  pub get_guild_emoji-set_guild_emojis :
      (env : Env) (ctx : StateCtx) (guild_id : Snowflake) (es : Slice Emoji) (ss : SandwichState)
      (id : Snowflake)
      → HasNoEmoji id (items es)
      → get_guild_emoji (set_guild_emojis env ctx guild_id es ss) guild_id id ≡ (no_emoji, true)
  unfolding get_guild_emoji refreshed
  get_guild_emoji-set_guild_emojis env ctx guild_id es ss id h = ground (
    arith,
    ap (λ t. t.guild_emojis) (set_guild_emojis_frame env ctx guild_id es ss),
    Cache.Laws.load-store same_id ss.guild_emojis guild_id es guild_id,
    find_emoji_none id (items es) h,
  )
