-- ===== src/Events/Chunks/Cached.antt =====
-- internal/events_dispatch.go, OnGuildMembersChunk: the members that it caches.
use sandwich_daemon.Base.{
  ◌≡◌, ◌≢◌, refl, sym, subst, true, Bool, Option, Option-cases, inl, inr, some, List, [], ◌∷◌, ◌++◌,
  arith,
}
use sandwich_daemon.CsMap.{CsMap}
use sandwich_daemon.Cache.{Cache}
use sandwich_daemon.DoubleCache
use sandwich_daemon.DoubleCache.Clean.{load-store_clean}
use sandwich_daemon.Discord.{Snowflake, User, GuildMember}
use sandwich_daemon.Outcome.{Outcome, done, panicked, each, after, pure, state_after}
use sandwich_daemon.State.{SandwichState, StateCtx, Env, same_id}
use sandwich_daemon.State.Users.{get_user}
use sandwich_daemon.State.Members.{
  get_guild_member, set_guild_member, put_guild_member, fixed_joined_at,
}
use sandwich_daemon.State.Frames.{put_guild_member_frame}
use sandwich_daemon.State.WellFormed.{IsWellFormed, put_guild_member-IsWellFormed}
use sandwich_daemon.State.RoundTrips.{
  get_user-set_user, put_guild_member-load, put_guild_member-user, set_guild_member_caching,
  get_guild_member_cached,
}
use sandwich_daemon.Events.{Message, Handled, Daemon, dispatch, for_guild, in_state}
use sandwich_daemon.Events.Chunks.{
  GuildMembersChunk, hand_chunk, force_caching, cache_members, on_guild_members_chunk,
}
use sandwich_daemon.Connection.Chunks.{ChunkEvent, GuildChunks}

-- All members have a user.
abbrev pub HaveUsers : List GuildMember → Type 0
HaveUsers [] = Unit
HaveUsers (m ∷ ms) = ((u : User) × (m.user ≡ some u)) × HaveUsers ms

-- No member's user has the id.
abbrev pub AreOthers : Snowflake → List GuildMember → Type 0
AreOthers id [] = Unit
AreOthers id (m ∷ ms) = ((u : User) → m.user ≡ some u → u.id ≢ id) × AreOthers id ms

module _ ⦃lib : CsMap⦄ (env : Env) (ctx : StateCtx) (caching : ctx.cache_members ≡ true)
    (guild_id : Snowflake) (m : GuildMember) (u : User) where
  -- The member and its user are cached.
  IsCached : SandwichState → Type 0
  IsCached s =
      IsWellFormed s
      × (DoubleCache.load same_id same_id s.guild_members guild_id u.id ≡ some m)
      × (get_user s u.id ≡ some u)

  put_other-user :
      (n : GuildMember) (v : User) (s : SandwichState)
      → v.id ≢ u.id
      → get_user s u.id ≡ some u
      → get_user (put_guild_member env ctx guild_id n v s) u.id ≡ some u
  unfolding put_guild_member get_user
  put_other-user n v s ne cached = ground (
    arith,
    ne,
    cached,
    get_user-set_user env ctx v
        (record s {
          guild_members = DoubleCache.store same_id same_id s.guild_members guild_id v.id n;
        })
        u.id,
  )

  put_other-IsCached :
      (n : GuildMember) (v : User) (s : SandwichState)
      → v.id ≢ u.id
      → IsCached s
      → IsCached (put_guild_member env ctx guild_id n v s)
  unfolding IsCached
  put_other-IsCached n v s ne (p, loaded, cached) = (
    put_guild_member-IsWellFormed env ctx guild_id n v s p,
    rw (put_guild_member_frame env ctx guild_id n v s) (
        ground (
          arith,
          ne,
          loaded,
          load-store_clean same_id same_id s.guild_members guild_id v.id p.members n guild_id u.id,
        )),
    put_other-user n v s ne cached,
  )

  put-IsCached :
      (s : SandwichState)
      → ctx.cache_users ≡ true
      → IsWellFormed s
      → IsCached (put_guild_member env ctx guild_id m u s)
  unfolding IsCached
  put-IsCached s users p = (
    put_guild_member-IsWellFormed env ctx guild_id m u s p,
    put_guild_member-load env ctx guild_id m u s p,
    put_guild_member-user env ctx guild_id m u s users,
  )

  set_other-IsCached :
      (n : GuildMember) (s : SandwichState)
      → ((v : User) → n.user ≡ some v → v.id ≢ u.id)
      → IsCached s
      → IsCached (state_after (set_guild_member env ctx guild_id n s))
  unfolding set_guild_member
  set_other-IsCached n s others k = elim (Option-cases n.user) [
    | inl e ↦ rw (e, set_guild_member) k
    | inr (v, e) ↦
        rw (set_guild_member_caching env ctx guild_id n v s e caching)
          (put_other-IsCached n v s (others v e) k)
  ]

  after_others :
      (o : Outcome SandwichState (Unit {0})) (ns : List GuildMember)
      → ((s : SandwichState)
          → IsCached s
          → IsCached (state_after (each ns (set_guild_member env ctx guild_id) s)))
      → IsCached (state_after o)
      → IsCached (state_after (after o (λ _. each ns (set_guild_member env ctx guild_id))))
  after_others (done _ s) ns k p = k s p
  after_others (panicked s) ns k p = p

  each_others-IsCached :
      (ns : List GuildMember) (s : SandwichState)
      → AreOthers u.id ns
      → IsCached s
      → IsCached (state_after (each ns (set_guild_member env ctx guild_id) s))
  unfolding each
  each_others-IsCached [] s others k = k
  each_others-IsCached (n ∷ ns) s (o, others) k =
      after_others (set_guild_member env ctx guild_id n s) ns
        (λ t. each_others-IsCached ns t others) (set_other-IsCached n s o k)

  each-IsCached :
      (ns rest : List GuildMember) (s : SandwichState)
      → m.user ≡ some u
      → ctx.cache_users ≡ true
      → HaveUsers ns
      → AreOthers u.id rest
      → IsWellFormed s
      → IsCached (state_after (each (ns ++ m ∷ rest) (set_guild_member env ctx guild_id) s))
  unfolding each
  each-IsCached [] rest s has_user users tt others p =
      rw (set_guild_member_caching env ctx guild_id m u s has_user caching) (
        each_others-IsCached rest (put_guild_member env ctx guild_id m u s) others
          (put-IsCached s users p))
  each-IsCached (n ∷ ns) rest s has_user users ((v, e), have) others p =
      rw (set_guild_member_caching env ctx guild_id n v s e caching) (
        each-IsCached ns rest (put_guild_member env ctx guild_id n v s) has_user users have others
          (put_guild_member-IsWellFormed env ctx guild_id n v s p))

module _ ⦃lib : CsMap⦄ where
  in_state_lem :
      {A B : Type 0} (d : Daemon) (o : Outcome SandwichState A) (b : B)
      → (state_after (after (in_state d o) (λ _. pure b))).state ≡ state_after o
  in_state_lem d (done a s) b = refl
  in_state_lem d (panicked s) b = refl

  -- After a GUILD_MEMBERS_CHUNK in a well-formed state, whatever the configuration caches, GetGuildMember
  -- finds a member of the chunk that has a user, if the members before it have users, and no member after
  -- it has the same user: with its fields and `joined_at` repaired.
  pub on_guild_members_chunk-cached :
      (env : Env) (ctx : StateCtx) (msg : Message) (is_awaited : Bool)
      (table : Cache Snowflake GuildChunks) (c : GuildMembersChunk) (ms rest : List GuildMember)
      (m : GuildMember) (u : User) (d : Daemon)
      → IsWellFormed d.state
      → c.members ≡ ms ++ m ∷ rest
      → m.user ≡ some u
      → HaveUsers ms
      → AreOthers u.id rest
      → let t =
          (state_after (on_guild_members_chunk env ctx msg is_awaited table (some c) d)).state in
        get_guild_member env c.guild_id u.id t
        ≡ done (record m { joined_at = fixed_joined_at env m.joined_at; user = some u }, true) t
  unfolding on_guild_members_chunk cache_members force_caching IsCached
  on_guild_members_chunk-cached env ctx msg is_awaited table c ms rest m u d p e has_user have
        others =
      let forced : StateCtx = force_caching ctx in
      let o : Outcome SandwichState (Unit {0}) =
        each c.members (set_guild_member env forced c.guild_id) d.state in
      let k : IsCached env forced refl c.guild_id m u (state_after o) =
        subst
          (λ (l : List GuildMember).
            IsCached env forced refl c.guild_id m u
              (state_after (each l (set_guild_member env forced c.guild_id) d.state)))
          (sym e)
          (each-IsCached env forced refl c.guild_id m u ms rest d.state has_user refl have others
            p) in
      rw
        (in_state_lem {B = Handled × Option ChunkEvent} d o
          (dispatch msg (for_guild (some c.guild_id)), hand_chunk is_awaited c table))
        (get_guild_member_cached env forced c.guild_id m u (state_after o) has_user k.1 k.2)
