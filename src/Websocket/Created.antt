-- ===== src/Websocket/Created.antt =====
-- internal/msg_websocket.go, dispatchInitial: what it sends.
use sandwich_daemon.Base.{
  List, [], ◌∷◌, ℤ, ◌≡◌, ◌∙◌, ◌⊎◌, ◌↔◌, refl, sym, ap, subst, inl, inr, lookup, some, none, Option,
  Bool, true, false, arith, if◌then◌else◌,
}
use sandwich_daemon.Discord.{Snowflake, Guild}
use sandwich_daemon.CsMap.{CsMap}
use sandwich_daemon.Strconv.{Bytes}
use sandwich_daemon.Cache
use sandwich_daemon.Cache.Laws
use sandwich_daemon.State.{SandwichState, same_id}
use sandwich_daemon.State.Guilds.{get_guild}
use sandwich_daemon.Routing.{get_shard_id_of_guild}
use sandwich_daemon.Websocket.{ShardPair}
use sandwich_daemon.Websocket.Initial.{
  Initial, ready_event, guild_create_event, is_of_shard, unavailable_guilds, guild_create_of,
  send_guild, guild_creates, guild_ids, dispatch_initial,
}
use sandwich_daemon.Websocket.Announced.{Has, IsAnnounced, unavailable_guilds_iff, listed_iff}

-- A GUILD_CREATE with the guild.
abbrev pub Creates : Guild → List Initial → Type 0
Creates g [] = ⊥
Creates g (ready_event _ _ _ ∷ events) = Creates g events
Creates g (guild_create_event h ∷ events) = (h ≡ g) ⊎ Creates g events

some-inj : (a b : Guild) → some a ≡ some b → a ≡ b
some-inj a b e = cc

guild_create_of-some :
    (marshals : Guild → Bool) (r : Guild × Bool) (g : Guild)
    → guild_create_of marshals r ≡ some g
    → (r ≡ (g, true)) × (marshals g ≡ true)
unfolding guild_create_of
guild_create_of-some marshals (h, false) g e = absurd (ground (arith, e))
guild_create_of-some marshals (h, true) g e = by_marshals (marshals h) refl e
  where
    by_marshals :
        (b : Bool)
        → marshals h ≡ b
        → (if b then some h else none) ≡ some g
        → (◌≡◌ {A = Guild × Bool} (h, true) (g, true)) × (marshals g ≡ true)
    by_marshals false f k = absurd (ground (arith, k))
    by_marshals true f k =
        let same : h ≡ g = some-inj h g k in
        (ap (λ (x : Guild). (x, true)) same, ap marshals (sym same) ∙ f)

send_guild-Creates :
    (g : Guild) (d : Bool) (o : Option Guild) (rest : List Initial)
    → Creates g (send_guild d o rest)
    → (o ≡ some g) ⊎ Creates g rest
unfolding send_guild
send_guild-Creates g d none rest h = inr h
send_guild-Creates g d (some k) rest (inl e) = inl (ap some e)
send_guild-Creates g true (some k) rest (inr h) = absurd h
send_guild-Creates g false (some k) rest (inr h) = inr h

module _ ⦃lib : CsMap⦄ (ss : SandwichState) (marshals : Guild → Bool) (is_done : Snowflake → Bool)
    (csc : ℤ) (shard : ShardPair) (g : Guild) where
  -- A guild of the list that the loop sends.
  abbrev pub IsSent : List Snowflake → Type 0
  IsSent ids = (id : Snowflake) × Has id ids × (get_guild ss id ≡ (g, true)) × (marshals g ≡ true)

  next-IsSent :
      (id : Snowflake) (ids : List Snowflake) (b : Bool)
      → IsSent ids
      → IsSent (if b then id ∷ ids else ids)
  next-IsSent id ids true (i, h, e, m) = (i, inr h, e, m)
  next-IsSent id ids false h = h

  guild_creates-IsSent :
      (ids : List Snowflake)
      → Creates g (guild_creates ss marshals is_done csc shard ids)
      → IsSent (unavailable_guilds csc shard ids)
  unfolding guild_creates unavailable_guilds
  guild_creates-IsSent [] h = absurd h
  guild_creates-IsSent (id ∷ ids) h =
      by_shard (is_of_shard csc shard id) (guild_creates-IsSent ids) h
    where
      by_shard :
          (b : Bool)
          → (Creates g (guild_creates ss marshals is_done csc shard ids)
              → IsSent (unavailable_guilds csc shard ids))
          → Creates g (
              if b
              then send_guild
                  (is_done id)
                  (guild_create_of marshals (get_guild ss id))
                  (guild_creates ss marshals is_done csc shard ids)
              else guild_creates ss marshals is_done csc shard ids)
          → IsSent (
              if b then id ∷ unavailable_guilds csc shard ids else unavailable_guilds csc shard ids)
      by_shard false rest k = rest k
      by_shard true rest k =
          elim (send_guild-Creates g (is_done id) (guild_create_of marshals (get_guild ss id)) _
            k) [
              | inl e ↦
                  let r : (get_guild ss id ≡ (g, true)) × (marshals g ≡ true) =
                    guild_create_of-some marshals (get_guild ss id) g e in
                  (id, inl refl, r.0, r.1)
              | inr c ↦ next-IsSent id (unavailable_guilds csc shard ids) true (rest c)
            ]

  sent-Creates :
      (d : Bool) (o : Option Guild) (rest : List Initial)
      → d ≡ false
      → (o ≡ some g) ⊎ Creates g rest
      → Creates g (send_guild d o rest)
  unfolding send_guild
  sent-Creates true o rest e h = absurd (ground (arith, e))
  sent-Creates false none rest e (inl f) = absurd (ground (arith, f))
  sent-Creates false none rest e (inr c) = c
  sent-Creates false (some k) rest e (inl f) = inl (some-inj k g f)
  sent-Creates false (some k) rest e (inr c) = inr c

  create_of :
      (r : Guild × Bool) → r ≡ (g, true) → marshals g ≡ true → guild_create_of marshals r ≡ some g
  unfolding guild_create_of
  create_of (h, false) e m = absurd (ground (arith, ap (λ (x : Guild × Bool). x.1) e))
  create_of (h, true) e m =
      subst (λ (x : Guild). (if marshals x then some x else none) ≡ some g)
        (sym (ap (λ (x : Guild × Bool). x.0) e)) (rw m refl)

  IsSent-Creates :
      (ids : List Snowflake)
      → ((id : Snowflake) → is_done id ≡ false)
      → IsSent (unavailable_guilds csc shard ids)
      → Creates g (guild_creates ss marshals is_done csc shard ids)
  unfolding guild_creates unavailable_guilds
  IsSent-Creates [] live (i, h, f, m) = absurd h
  IsSent-Creates (id ∷ ids) live h = by_shard (is_of_shard csc shard id) (IsSent-Creates ids live) h
    where
      by_shard :
          (b : Bool)
          → (IsSent (unavailable_guilds csc shard ids)
              → Creates g (guild_creates ss marshals is_done csc shard ids))
          → IsSent (
              if b then id ∷ unavailable_guilds csc shard ids else unavailable_guilds csc shard ids)
          → Creates g (
              if b
              then send_guild
                  (is_done id)
                  (guild_create_of marshals (get_guild ss id))
                  (guild_creates ss marshals is_done csc shard ids)
              else guild_creates ss marshals is_done csc shard ids)
      by_shard false rest k = rest k
      by_shard true rest (i, inl e, f, m) =
          sent-Creates (is_done id) (guild_create_of marshals (get_guild ss id))
            (guild_creates ss marshals is_done csc shard ids) (live id)
            (inl (create_of (get_guild ss id) (ap (get_guild ss) (sym e) ∙ f) m))
      by_shard true rest (i, inr k, f, m) =
          sent-Creates (is_done id) (guild_create_of marshals (get_guild ss id))
            (guild_creates ss marshals is_done csc shard ids) (live id) (inr (rest (i, k, f, m)))

-- The guilds of READY: those of the shared state whose shard, among the consumers' shards, is the
-- subscriber's.
abbrev pub ListsOwn : ⦃lib : CsMap⦄ → SandwichState → ℤ → ShardPair → List Snowflake → Type 0
ListsOwn ss csc shard ids =
    (id : Snowflake)
    → Has id ids ↔ (
        ((guild : Guild) × (Cache.load same_id ss.guilds id ≡ some guild))
        × (get_shard_id_of_guild id csc ≡ shard.0))

module _ ⦃lib : CsMap⦄ where
  own-ListsOwn :
      (ss : SandwichState) (csc : ℤ) (shard : ShardPair)
      → ListsOwn ss csc shard (unavailable_guilds csc shard (guild_ids ss))
  unfolding guild_ids
  own-ListsOwn ss csc shard id =
      let own : Has id (unavailable_guilds csc shard (guild_ids ss))
          ↔ IsAnnounced csc shard (guild_ids ss) id =
        unavailable_guilds_iff csc shard (guild_ids ss) id in
      let listed : Has id (guild_ids ss)
          ↔ ((guild : Guild) × (lookup same_id id (Cache.range ss.guilds) ≡ some guild)) =
        listed_iff (Cache.range ss.guilds) id in
      let read : lookup same_id id (Cache.range ss.guilds) ≡ Cache.load same_id ss.guilds id =
        Cache.Laws.lookup-range same_id ss.guilds id in
      (
        (λ h.
            let r : IsAnnounced csc shard (guild_ids ss) id = own.0 h in
            (((listed.0 r.0).0, sym read ∙ (listed.0 r.0).1), r.1)),
        λ h. own.1 (listed.1 ((h.0).0, read ∙ (h.0).1), h.1),
      )

  -- What dispatchInitial sends, when READY can be marshalled and the context is not done at the start:
  -- with quick start, a READY without guilds and nothing else; otherwise a READY that lists exactly the
  -- guilds of the shared state whose shard, among the consumers' shards, is the subscriber's, and then
  -- a GUILD_CREATE only for those guilds of the list that GetGuild finds and that can be marshalled, and
  -- for all of these, if the context is never done.
  pub dispatch_initial-ready :
      (ss : SandwichState) (marshals : Guild → Bool) (is_done : Snowflake → Bool) (csc : ℤ)
      (session_id : Bytes) (shard : ShardPair)
      → (dispatch_initial false true ss marshals is_done csc session_id shard
          ≡ ready_event session_id shard [] ∷ [])
        × (ids : List Snowflake) × (creates : List Initial) × (dispatch_initial false false ss
              marshals is_done csc session_id shard
            ≡ ready_event session_id shard ids ∷ creates)
        × ListsOwn ss csc shard ids
        × ((g : Guild) → Creates g creates → IsSent ss marshals is_done csc shard g ids)
        × (((id : Snowflake) → is_done id ≡ false)
            → (g : Guild) → IsSent ss marshals is_done csc shard g ids
            → Creates g creates)
  unfolding dispatch_initial
  dispatch_initial-ready ss marshals is_done csc session_id shard = (
    refl,
    unavailable_guilds csc shard (guild_ids ss),
    guild_creates ss marshals is_done csc shard (guild_ids ss),
    refl,
    own-ListsOwn ss csc shard,
    (λ g h. guild_creates-IsSent ss marshals is_done csc shard g (guild_ids ss) h),
    λ live g h. IsSent-Creates ss marshals is_done csc shard g (guild_ids ss) live h,
  )
