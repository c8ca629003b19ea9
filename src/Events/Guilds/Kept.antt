-- ===== src/Events/Guilds/Kept.antt =====
-- What GUILD_UPDATE and GUILD_DELETE of internal/events_dispatch.go leave in the state.
use sandwich_daemon.Base.{
  ◌≡◌, refl, ap, ◌∙◌, subst, arith, Bool, true, false, none, some, List, ◌≢◌, pos, ℤ_discrete,
  if_pos, if_neg,
}
use sandwich_daemon.CsMap.{CsMap}
use sandwich_daemon.Cache
use sandwich_daemon.Cache.Laws
use sandwich_daemon.Discord.{Slice, Guild}
use sandwich_daemon.Outcome.{Outcome, done, panicked, after, state_after}
use sandwich_daemon.State.{SandwichState, StateCtx, Env, same_id}
use sandwich_daemon.State.Guilds.{get_guild, set_guild_state, hold_guild}
use sandwich_daemon.State.Guilds.Stored.{load-set_guild_state, set_guild_grouped}
use sandwich_daemon.Events.{
  Message, Handled, Daemon, in_state, before_guild, dispatch_extra, for_guild,
}
use sandwich_daemon.Events.Guilds.{
  UnavailableGuild, kept, updated_guild, preserved, store_guild, on_guild_update, forget_guild,
  on_guild_delete,
}

-- What a list becomes: the new one, or the old one where the new one is nil.
abbrev pub IsKept : {A : Type 0} → Slice A → Slice A → Slice A → Type 0
IsKept {A} new old result =
    (new ≡ none → result ≡ old) × ((l : List A) → new ≡ some l → result ≡ some l)

-- What a cached guild and the guild of a GUILD_UPDATE become together.
pub record IsMerged (before guild result : Guild) : Type 0 where
  pub id : result.id ≡ guild.id
  pub afk_channel_id : result.afk_channel_id ≡ guild.afk_channel_id
  pub stickers : result.stickers ≡ guild.stickers
  pub roles : result.roles ≡ guild.roles
  pub emojis : result.emojis ≡ guild.emojis
  pub approximate_member_count : result.approximate_member_count ≡ guild.approximate_member_count
  pub stage_instances : IsKept guild.stage_instances before.stage_instances result.stage_instances
  pub channels : IsKept guild.channels before.channels result.channels
  pub members : IsKept guild.members before.members result.members
  pub voice_states : IsKept guild.voice_states before.voice_states result.voice_states
  pub no_count : guild.member_count ≡ pos 0 → result.member_count ≡ before.member_count
  pub count : guild.member_count ≢ pos 0 → result.member_count ≡ guild.member_count
  pub large : result.large ≡ before.large
  pub joined_at : result.joined_at ≡ before.joined_at

kept-IsKept : {A : Type 0} (new old : Slice A) → IsKept new old (kept new old)
unfolding kept
kept-IsKept none old = ((λ e. refl), λ l e. absurd (ground (arith, e)))
kept-IsKept (some l) old = ((λ e. absurd (ground (arith, e))), λ k e. e)

preserved-IsMerged : (before guild : Guild) → IsMerged before guild (preserved before guild)
unfolding preserved
preserved-IsMerged before guild = record {
  id = refl;
  afk_channel_id = refl;
  stickers = refl;
  roles = refl;
  emojis = refl;
  approximate_member_count = refl;
  stage_instances = kept-IsKept guild.stage_instances before.stage_instances;
  channels = kept-IsKept guild.channels before.channels;
  members = kept-IsKept guild.members before.members;
  voice_states = kept-IsKept guild.voice_states before.voice_states;
  no_count = λ e. if_pos (ℤ_discrete guild.member_count (pos 0)) e _ _;
  count = λ n. if_neg (ℤ_discrete guild.member_count (pos 0)) n _ _;
  large = refl;
  joined_at = refl;
}

module _ ⦃lib : CsMap⦄ where
  updated_guild-IsMerged :
      (guild : Guild) (b : Guild × Bool) → b.1 ≡ true → IsMerged b.0 guild (updated_guild guild b)
  unfolding updated_guild
  updated_guild-IsMerged guild (before, true) e = preserved-IsMerged before guild
  updated_guild-IsMerged guild (before, false) e = absurd (ground (arith, e))

  updated_guild_new :
      (guild : Guild) (b : Guild × Bool) → b.1 ≡ false → updated_guild guild b ≡ guild
  unfolding updated_guild
  updated_guild_new guild (before, true) e = absurd (ground (arith, e))
  updated_guild_new guild (before, false) e = refl

  -- A GUILD_DELETE never changes the shared state, nor the dedupe table. Of a guild that is only
  -- unavailable the shard takes note; any other the shard and its group no longer hold.
  pub on_guild_delete-keeps :
      (msg : Message) (g : UnavailableGuild) (d : Daemon)
      → ((state_after (on_guild_delete msg (some g) d)).state ≡ d.state)
        × ((state_after (on_guild_delete msg (some g) d)).dedupe ≡ d.dedupe)
        × (g.unavailable ≡ true
            → Cache.load same_id
                (state_after (on_guild_delete msg (some g) d)).shard.unavailable
                g.id
              ≡ some tt)
        × (g.unavailable ≡ false
            → (Cache.load same_id (state_after (on_guild_delete msg (some g) d)).shard.guilds g.id
                ≡ none)
              × (Cache.load same_id
                    (state_after (on_guild_delete msg (some g) d)).shard.group_guilds
                    g.id
                  ≡ none))
  unfolding on_guild_delete forget_guild
  on_guild_delete-keeps msg g d = (
    ground arith,
    ground arith,
    λ e. ground (arith, Cache.Laws.load-store same_id d.shard.unavailable g.id tt g.id),
    λ e. (
      ground (arith, Cache.Laws.load-delete same_id d.shard.guilds g.id g.id),
      ground (arith, Cache.Laws.load-delete same_id d.shard.group_guilds g.id g.id),
    ),
  )

  state_after-in_state :
      (d : Daemon) (o : Outcome SandwichState (Unit {0})) (h : Handled)
      → (state_after (after (in_state d o) (λ _ s. done h s))).state ≡ state_after o
  state_after-in_state d (done _ ss) h = refl
  state_after-in_state d (panicked ss) h = refl

  updated_guild_id : (guild : Guild) (b : Guild × Bool) → (updated_guild guild b).id ≡ guild.id
  unfolding updated_guild preserved
  updated_guild_id guild (before, true) = refl
  updated_guild_id guild (before, false) = refl

  load-updated_guild :
      (env : Env) (ctx : StateCtx) (msg : Message) (guild : Guild) (d : Daemon)
      → ctx.has_group ≡ true
      → Cache.load same_id
          (state_after (on_guild_update env ctx msg (some guild) d)).state.guilds
          guild.id
        ≡ some (updated_guild guild (get_guild d.state guild.id))
  unfolding on_guild_update store_guild
  load-updated_guild env ctx msg guild d group =
      let before = get_guild d.state guild.id in
      let u = updated_guild guild before in
      let d' = record d { shard = hold_guild u.id d.shard } in
      let result = dispatch_extra msg (before_guild before.0) (for_guild (some guild.id)) in
      rw (set_guild_grouped env ctx u d.shard d.state group) (
        ap (λ s. Cache.load same_id s.guilds guild.id)
          (state_after-in_state d' (set_guild_state env ctx u d.state) result)
        ∙ subst
            (λ i.
              Cache.load same_id (state_after (set_guild_state env ctx u d.state)).guilds i
              ≡ some u)
            (updated_guild_id guild before) (load-set_guild_state env ctx u d.state))

  -- After a GUILD_UPDATE with a context that has a shard group, also when SetGuild panics on the way, the
  -- state holds a guild under the payload's id. If GetGuild found the guild before, it is the payload's
  -- with `large` and `joined_at` of the old one; it has the old one's stage instances, channels, members
  -- and voice states where the payload's are nil, and the old one's member count where the payload's is 0.
  -- If GetGuild did not find it, it is the payload's.
  pub load-on_guild_update :
      (env : Env) (ctx : StateCtx) (msg : Message) (guild : Guild) (d : Daemon)
      → ctx.has_group ≡ true
      → (u : Guild) × (Cache.load same_id
            (state_after (on_guild_update env ctx msg (some guild) d)).state.guilds
            guild.id
          ≡ some u)
        × ((get_guild d.state guild.id).1 ≡ true → IsMerged (get_guild d.state guild.id).0 guild u)
        × ((get_guild d.state guild.id).1 ≡ false → u ≡ guild)
  load-on_guild_update env ctx msg guild d group =
      let before : Guild × Bool = get_guild d.state guild.id in
      (
        updated_guild guild before,
        load-updated_guild env ctx msg guild d group,
        updated_guild-IsMerged guild before,
        updated_guild_new guild before,
      )
