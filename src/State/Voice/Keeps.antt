-- ===== src/State/Voice/Keeps.antt =====
-- The predicates on the shared state that UpdateVoiceState of internal/state.go keeps, whether it
-- returns or panics: those that its writes keep one by one.
use sandwich_daemon.Base.{
  ◌≤◌, Option, none, some, List, [], ◌∷◌, arith, inl, inr, Option-cases, Bool, true, ite-elim,
  length,
}
use sandwich_daemon.CsMap.{CsMap}
use sandwich_daemon.Cache.{Cache}
use sandwich_daemon.DoubleCache
use sandwich_daemon.DoubleCache.{DoubleCache, Inner}
use sandwich_daemon.DoubleCache.Writes.{length-inner_write}
use sandwich_daemon.DoubleCache.Cells.{length-modify}
use sandwich_daemon.Discord.{Snowflake, User, Channel, GuildMember, VoiceState, nil_id}
use sandwich_daemon.Outcome.{Action, pure, state_after, ◌>>=◌, ◌>>◌}
use sandwich_daemon.Outcome.Keeps.{Keeps, >>=-Keeps, >>-Keeps}
use sandwich_daemon.State.{SandwichState, StateDmChannel, StateCtx, Env, same_id}
use sandwich_daemon.State.Members.{get_guild_member, found_member, with_user, set_guild_member}
use sandwich_daemon.State.Channels.{
  set_guild_channel, update_dm_channel_by_channel_id, get_guild_channel,
}
use sandwich_daemon.State.Voice.{
  parse_voice_state, voice_member, get_voice_state, put_counted, count_channel, write_voice_state,
  set_voice_member, voice_states_of, put_voice_state, update_voice_state,
}

module _ ⦃lib : CsMap⦄ where
  -- What a predicate has to be closed under.
  pub record IsClosed (P : SandwichState → Type 0) : Type 0 where
    pub channel :
        (env : Env) (ctx : StateCtx) (guild_id : Snowflake) (c : Channel) (s : SandwichState)
        → P s
        → P (set_guild_channel env ctx guild_id c s)
    pub member :
        (env : Env) (ctx : StateCtx) (guild_id : Snowflake) (m : GuildMember)
        → Keeps P (set_guild_member env ctx guild_id m)
    pub dm_channels :
        (dms : Cache Snowflake StateDmChannel) (s : SandwichState)
        → P s
        → P (record s { dm_channels = dms })
    pub new_struct :
        (guild_id : Snowflake) (s : SandwichState)
        → P s
        → P (record s {
          guild_voice_states = (DoubleCache.load_or_new same_id s.guild_voice_states guild_id).0;
        })
    pub cells :
        (l : List (lib.Map Snowflake VoiceState)) (s : SandwichState)
        → length s.guild_voice_states.cells ≤ length l
        → P s
        → P (record s { guild_voice_states = record (s.guild_voice_states) { cells = l } })

module _ ⦃lib : CsMap⦄ where
  -- The state after a list of voice state updates, each of them recovered from if it panics.
  unfoldable pub update_all : Env → StateCtx → List VoiceState → SandwichState → SandwichState
  update_all env ctx [] ss = ss
  update_all env ctx (vs ∷ rest) ss =
      update_all env ctx rest (state_after (update_voice_state env ctx vs ss))

module _ ⦃lib : CsMap⦄ (P : SandwichState → Type 0) (closed : IsClosed P) where
  with_user-Keeps : (m : GuildMember) (o : Option User) → Keeps P (with_user m o)
  unfolding with_user
  with_user-Keeps m none s p = p
  with_user-Keeps m (some u) s p = p

  found_member-Keeps :
      (env : Env) (m : GuildMember) (o : Option User) → Keeps P (found_member env m o)
  unfolding found_member
  found_member-Keeps env m none s p = p
  found_member-Keeps env m (some u) s p = with_user-Keeps _ _ s p

  pub get_guild_member-Keeps :
      (env : Env) (guild_id user_id : Snowflake) → Keeps P (get_guild_member env guild_id user_id)
  unfolding get_guild_member
  get_guild_member-Keeps env guild_id user_id s p =
      elim (Option-cases (DoubleCache.load same_id same_id s.guild_members guild_id user_id)) [
        | inl e ↦ rw (e, get_guild_member) p
        | inr (m, e) ↦ rw (e, get_guild_member) (found_member-Keeps env m m.user s p)
      ]

  voice_member-Keeps :
      (env : Env) (guild_id user_id : Snowflake) (o : Option GuildMember)
      → Keeps P (voice_member env guild_id user_id o)
  unfolding voice_member
  voice_member-Keeps env guild_id user_id (some m) s p = p
  voice_member-Keeps env guild_id user_id none s p =
      >>=-Keeps P (get_guild_member env guild_id user_id) (λ r. pure r.0)
        (get_guild_member-Keeps env guild_id user_id) (λ r t q. q) s p

  parse_voice_state-Keeps :
      (env : Env) (guild_id user_id : Snowflake) (vs : VoiceState)
      → Keeps P (parse_voice_state env guild_id user_id vs)
  unfolding parse_voice_state
  parse_voice_state-Keeps env guild_id user_id vs =
      >>=-Keeps P (voice_member env guild_id user_id vs.member)
        (λ m. pure (record vs { member = some m; user_id = user_id }))
        (voice_member-Keeps env guild_id user_id vs.member) (λ m s p. p)

  pub get_voice_state-Keeps :
      (env : Env) (guild_id user_id : Snowflake) → Keeps P (get_voice_state env guild_id user_id)
  unfolding get_voice_state
  get_voice_state-Keeps env guild_id user_id s p =
      elim (Option-cases (DoubleCache.load same_id same_id s.guild_voice_states guild_id user_id)) [
        | inl e ↦ rw (e, get_voice_state) p
        | inr (vs, e) ↦
            rw (e, get_voice_state)
              (>>=-Keeps P (parse_voice_state env guild_id user_id vs) (λ v. pure (v, true))
                (parse_voice_state-Keeps env guild_id user_id vs) (λ v t q. q) s p)
      ]

  put_counted-same :
      (env : Env) (ctx : StateCtx) (guild_id : Snowflake) (c : Channel) (s : SandwichState)
      → P s
      → P (put_counted env ctx guild_id c s)
  unfolding put_counted update_dm_channel_by_channel_id
  put_counted-same env ctx guild_id c s p =
      ite-elim P (same_id guild_id nil_id) _ _ (closed.channel env ctx guild_id _ s p)
        (closed.dm_channels _ s p)

  count_channel-Keeps :
      (env : Env) (ctx : StateCtx) (guild : Option Snowflake) (channel_id : Snowflake)
      → Keeps P (count_channel env ctx guild channel_id)
  unfolding count_channel
  count_channel-Keeps env ctx none channel_id s p =
      ite-elim (λ o. P (state_after {A = Unit {0}} o)) (same_id channel_id nil_id) _ _ p p
  count_channel-Keeps env ctx (some guild_id) channel_id s p =
      elim (Option-cases (get_guild_channel s guild_id channel_id)) [
        | inl e ↦ rw e (ground arith)
        | inr (c, e) ↦ rw e (
            ite-elim (λ o. P (state_after {A = Unit {0}} o)) (same_id channel_id nil_id) _ _ p
              (put_counted-same env ctx guild_id c s p))
      ]

  voice_states_of-Keeps : (guild_id : Snowflake) → Keeps P (voice_states_of guild_id)
  unfolding voice_states_of
  voice_states_of-Keeps guild_id s p = closed.new_struct guild_id s p

  length-inner_delete :
      (cells : List (lib.Map Snowflake VoiceState)) (c : Inner) (key : Snowflake)
      → length cells ≤ length (DoubleCache.inner_delete same_id cells c key)
  unfolding DoubleCache.inner_delete
  length-inner_delete cells c key = elim (Option-cases c.ref) [
    | inl e ↦ rw e (omega arith)
    | inr (r, e) ↦ rw e (omega (arith, length-modify cells r (λ m. lib.delete same_id m key)))
  ]

  write_voice_state-Keeps :
      (env : Env) (guild_id : Snowflake) (c : Inner) (vs : VoiceState)
      → Keeps P (write_voice_state env guild_id c vs)
  unfolding write_voice_state
  write_voice_state-Keeps env guild_id c vs =
      ite-elim {A = Action SandwichState (Unit {0})} (λ m. Keeps P {A = Unit {0}} m)
        (same_id vs.channel_id nil_id) _ _
        (λ t q. closed.cells _ t (length-inner_delete t.guild_voice_states.cells c vs.user_id) q)
        (>>=-Keeps P (parse_voice_state env guild_id vs.user_id vs) _
          (parse_voice_state-Keeps env guild_id vs.user_id vs)
          (λ v t q.
            closed.cells _ t
              (length-inner_write (λ m. lib.store same_id m vs.user_id v) t.guild_voice_states.cells
                c)
              q))

  set_voice_member-Keeps :
      (env : Env) (ctx : StateCtx) (guild_id : Snowflake) (o : Option GuildMember)
      → Keeps P (set_voice_member env ctx guild_id o)
  unfolding set_voice_member
  set_voice_member-Keeps env ctx guild_id none s p = p
  set_voice_member-Keeps env ctx guild_id (some m) s p = closed.member env ctx guild_id m s p

  put_voice_state-Keeps :
      (env : Env) (ctx : StateCtx) (guild_id : Snowflake) (vs : VoiceState) (c : Inner)
      (before : VoiceState)
      → Keeps P (put_voice_state env ctx guild_id vs c before)
  unfolding put_voice_state
  put_voice_state-Keeps env ctx guild_id vs c before =
      let left = count_channel env ctx before.guild_id before.channel_id in
      let joined = count_channel env ctx (some guild_id) vs.channel_id in
      let member = set_voice_member env ctx guild_id vs.member in
      >>-Keeps P (write_voice_state env guild_id c vs) (member >> (left >> joined))
        (write_voice_state-Keeps env guild_id c vs)
        (>>-Keeps P member (left >> joined) (set_voice_member-Keeps env ctx guild_id vs.member) (
          >>-Keeps P left joined (count_channel-Keeps env ctx before.guild_id before.channel_id)
            (count_channel-Keeps env ctx (some guild_id) vs.channel_id)))

  pub update_voice_state-Keeps :
      (env : Env) (ctx : StateCtx) (vs : VoiceState) → Keeps P (update_voice_state env ctx vs)
  unfolding update_voice_state
  update_voice_state-Keeps env ctx vs s p = elim (Option-cases vs.guild_id) [
    | inl e ↦ rw (e, update_voice_state) p
    | inr (g, e) ↦
        let put = λ (c : Inner) (b : VoiceState × Bool). put_voice_state env ctx g vs c b.0 in
        let read = get_voice_state env g vs.user_id in
        rw (e, update_voice_state)
          (>>=-Keeps P (voice_states_of g) (λ c. read >>= put c) (voice_states_of-Keeps g)
            (λ c.
              >>=-Keeps P read (put c) (get_voice_state-Keeps env g vs.user_id)
                (λ b. put_voice_state-Keeps env ctx g vs c b.0))
            s p)
  ]

  pub update_all-Keeps :
      (env : Env) (ctx : StateCtx) (vss : List VoiceState) (ss : SandwichState)
      → P ss
      → P (update_all env ctx vss ss)
  unfolding update_all
  update_all-Keeps env ctx [] ss p = p
  update_all-Keeps env ctx (vs ∷ rest) ss p =
      update_all-Keeps env ctx rest _ (update_voice_state-Keeps env ctx vs ss p)
