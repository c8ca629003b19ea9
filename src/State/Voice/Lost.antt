-- ===== src/State/Voice/Lost.antt =====
-- The voice states of internal/state.go are written through a struct that LoadOrNew returns, and that
-- struct is a copy with no map: UpdateVoiceState never stores anything.
use sandwich_daemon.Base.{◌≡◌, none, some, List, arith, inl, inr, Option-cases, ap, false}
use sandwich_daemon.CsMap.{CsMap}
use sandwich_daemon.Cache
use sandwich_daemon.Cache.Laws
use sandwich_daemon.DoubleCache
use sandwich_daemon.DoubleCache.{DoubleCache, Inner}
use sandwich_daemon.Discord.{Snowflake, Channel, GuildMember, VoiceState, no_voice_state}
use sandwich_daemon.Outcome.{done}
use sandwich_daemon.Outcome.Keeps.{Keeps}
use sandwich_daemon.State.{SandwichState, StateCtx, Env, same_id, new_sandwich_state}
use sandwich_daemon.State.Members.{set_guild_member, put_guild_member}
use sandwich_daemon.State.Channels.{set_guild_channel}
use sandwich_daemon.State.Voice.{get_voice_state}
use sandwich_daemon.State.Voice.Keeps.{IsClosed, update_all, update_all-Keeps}
use sandwich_daemon.State.Frames.{set_guild_channel_frame, put_guild_member_frame}

module _ ⦃lib : CsMap⦄ where
  -- No guild has a map of voice states.
  abbrev pub HasNoVoiceMaps : SandwichState → Type 0
  HasNoVoiceMaps ss =
      (guild_id : Snowflake) (c : Inner)
      → DoubleCache.inner same_id ss.guild_voice_states guild_id ≡ some c
      → c.ref ≡ none

  -- Then no voice state is found.
  pub load_voice_none :
      (ss : SandwichState) (guild_id user_id : Snowflake)
      → HasNoVoiceMaps ss
      → DoubleCache.load same_id same_id ss.guild_voice_states guild_id user_id ≡ none
  unfolding DoubleCache.load DoubleCache.inner
  load_voice_none ss guild_id user_id empty =
      elim (Option-cases (Cache.load same_id ss.guild_voice_states.outer guild_id)) [
        | inl e ↦ rw (e, DoubleCache.load)
        | inr (c, e) ↦ rw (e, DoubleCache.load, empty guild_id c e)
      ]

  -- What changes neither structs nor their keys keeps this.
  same_voice :
      (s t : SandwichState)
      → t.guild_voice_states.outer ≡ s.guild_voice_states.outer
      → HasNoVoiceMaps s
      → HasNoVoiceMaps t
  unfolding DoubleCache.inner
  same_voice s t e empty guild_id c f = empty guild_id c (rw e at f)

  -- GetVoiceState, which finds nothing then.
  get_voice_state_none :
      (env : Env) (guild_id user_id : Snowflake) (ss : SandwichState)
      → HasNoVoiceMaps ss
      → get_voice_state env guild_id user_id ss ≡ done (no_voice_state, false) ss
  unfolding get_voice_state
  get_voice_state_none env guild_id user_id ss empty =
      rw (load_voice_none ss guild_id user_id empty, get_voice_state)

  set_guild_member-Keeps :
      (env : Env) (ctx : StateCtx) (guild_id : Snowflake) (m : GuildMember)
      → Keeps HasNoVoiceMaps (set_guild_member env ctx guild_id m)
  unfolding set_guild_member
  set_guild_member-Keeps env ctx guild_id m s p = elim (Option-cases m.user) [
    | inl e ↦ rw (e, set_guild_member) p
    | inr (u, e) ↦
        rw (e, set_guild_member)
          (ground (
            arith,
            same_voice s (put_guild_member env ctx guild_id m u s)
                (ap (λ t. t.guild_voice_states.outer)
                  (put_guild_member_frame env ctx guild_id m u s))
                p,
          ))
  ]

  set_guild_channel-same :
      (env : Env) (ctx : StateCtx) (guild_id : Snowflake) (c : Channel) (s : SandwichState)
      → HasNoVoiceMaps s
      → HasNoVoiceMaps (set_guild_channel env ctx guild_id c s)
  set_guild_channel-same env ctx guild_id c s p =
      same_voice s (set_guild_channel env ctx guild_id c s)
        (ap (λ t. t.guild_voice_states.outer) (set_guild_channel_frame env ctx guild_id c s)) p

  new_struct-HasNoVoiceMaps :
      (guild_id : Snowflake) (s : SandwichState)
      → HasNoVoiceMaps s
      → HasNoVoiceMaps (record s {
        guild_voice_states = (DoubleCache.load_or_new same_id s.guild_voice_states guild_id).0;
      })
  unfolding DoubleCache.load_or_new DoubleCache.inner
  new_struct-HasNoVoiceMaps guild_id s p =
      elim (Option-cases (Cache.load same_id s.guild_voice_states.outer guild_id)) [
        | inl e ↦ λ other c f.
            let f' = rw (e, DoubleCache.load_or_new) at f in
            let new = DoubleCache.new_inner s.guild_voice_states.size_inner in
            ground (
              arith,
              p other c,
              Cache.Laws.load-store same_id s.guild_voice_states.outer guild_id new other,
              f',
            )
        | inr (c, e) ↦ rw (e, DoubleCache.load_or_new) p
      ]

  voice-IsClosed : IsClosed HasNoVoiceMaps
  unfolding DoubleCache.inner DoubleCache.load_or_new
  voice-IsClosed = record {
    channel = set_guild_channel-same;
    member = set_guild_member-Keeps;
    dm_channels = λ dms s p. p;
    new_struct = new_struct-HasNoVoiceMaps;
    cells = λ l s h p. p;
  }

  new_sandwich_state-HasNoVoiceMaps : HasNoVoiceMaps new_sandwich_state
  unfolding new_sandwich_state DoubleCache.new_double_cache DoubleCache.inner
  new_sandwich_state-HasNoVoiceMaps guild_id c e =
      absurd (ground (arith, Cache.Laws.load-new_cache {V = Inner} same_id 0 guild_id))

  -- In the state that NewSandwichState makes, whatever voice states UpdateVoiceState is then called
  -- with, GetVoiceState finds no voice state of any user, and reports that it found none.
  pub get_voice_state-update_all :
      (env : Env) (ctx : StateCtx) (vss : List VoiceState) (guild_id user_id : Snowflake)
      → get_voice_state env guild_id user_id (update_all env ctx vss new_sandwich_state)
        ≡ done (no_voice_state, false) (update_all env ctx vss new_sandwich_state)
  get_voice_state-update_all env ctx vss guild_id user_id =
      get_voice_state_none env guild_id user_id _ (
        update_all-Keeps HasNoVoiceMaps voice-IsClosed env ctx vss new_sandwich_state
          new_sandwich_state-HasNoVoiceMaps)
