-- ===== src/State/Voice.antt =====
-- internal/state.go, the voice states of guilds.
pub mod Keeps
pub mod Lost
use sandwich_daemon.Base.{
  Option, none, some, List, [], ◌∷◌, Bool, true, false, ite, ℤ, pos, inc_int32,
}
use sandwich_daemon.CsMap.{CsMap, mapped, or_value}
use sandwich_daemon.DoubleCache
use sandwich_daemon.Discord.{Snowflake, GuildMember, VoiceState, Channel, nil_id, no_voice_state}
use sandwich_daemon.Outcome.{Action, pure, panic, changes, after, ◌>>=◌, ◌>>◌}
use sandwich_daemon.State.{SandwichState, StateDmChannel, StateCtx, Env, same_id}
use sandwich_daemon.State.Members.{get_guild_member, set_guild_member}
use sandwich_daemon.State.Channels.{
  get_guild_channel, set_guild_channel, update_dm_channel_by_channel_id,
}

-- The loop of CountMembersForVoiceChannel, over an int32 counter.
unfoldable pub count_in_channel : Snowflake → ℤ → List (Snowflake × VoiceState) → ℤ
unfolding inc_int32
count_in_channel channel_id count [] = count
count_in_channel channel_id count ((_, vs) ∷ rest) =
    count_in_channel channel_id (ite (same_id vs.channel_id channel_id) (inc_int32 count) count)
      rest

module _ ⦃lib : CsMap⦄ where
  unfoldable pub count_members_for_voice_channel : SandwichState → Snowflake → Snowflake → ℤ
  unfolding count_in_channel
  count_members_for_voice_channel ss guild_id channel_id =
      elim (DoubleCache.inner same_id ss.guild_voice_states guild_id) [
        | none ↦ pos 0
        | some c ↦
            count_in_channel channel_id (pos 0)
              (DoubleCache.inner_range ss.guild_voice_states.cells c)
      ]

  -- The member of ParseVoiceState: the cache's, if the voice state has none.
  unfoldable pub voice_member :
      Env → Snowflake → Snowflake → Option GuildMember → Action SandwichState GuildMember
  voice_member env guild_id user_id (some m) = pure m
  voice_member env guild_id user_id none = get_guild_member env guild_id user_id >>= λ r. pure r.0

  unfoldable pub parse_voice_state :
      Env → Snowflake → Snowflake → VoiceState → Action SandwichState VoiceState
  unfolding voice_member
  parse_voice_state env guild_id user_id vs = voice_member env guild_id user_id vs.member >>= λ m.
      pure (record vs { member = some m; user_id = user_id })

  unfoldable pub get_voice_state :
      Env → Snowflake → Snowflake → Action SandwichState (VoiceState × Bool)
  unfolding parse_voice_state
  get_voice_state env guild_id user_id ss =
      elim (DoubleCache.load same_id same_id ss.guild_voice_states guild_id user_id) [
        | none ↦ pure (no_voice_state, false) ss
        | some vs ↦ (parse_voice_state env guild_id user_id vs >>= λ v. pure (v, true)) ss
      ]

  -- The end of both channel counts of UpdateVoiceState: a channel that is in the guild's cache is
  -- counted again, and written to the guild's channels only if the guild's id is nil.
  unfoldable pub put_counted : Env → StateCtx → Snowflake → Channel → SandwichState → SandwichState
  put_counted env ctx guild_id channel ss =
      let counted = record channel {
        member_count = count_members_for_voice_channel ss guild_id channel.id;
      } in
      ite (same_id guild_id nil_id) (set_guild_channel env ctx guild_id counted ss)
        (update_dm_channel_by_channel_id channel.id (λ old. record old { channel = counted }) ss).0

  unfoldable pub count_channel :
      Env → StateCtx → Option Snowflake → Snowflake → Action SandwichState (Unit {0})
  unfolding put_counted
  count_channel env ctx guild channel_id ss =
      ite (same_id channel_id nil_id) (pure tt ss) (elim guild [
        | none ↦ panic ss
        | some guild_id ↦ elim (get_guild_channel ss guild_id channel_id) [
          | none ↦ pure tt ss
          | some channel ↦ changes (put_counted env ctx guild_id channel) ss
        ]
      ])

  -- The write of UpdateVoiceState, through the struct that LoadOrNew returned before.
  unfoldable pub write_voice_state :
      Env → Snowflake → DoubleCache.Inner → VoiceState → Action SandwichState (Unit {0})
  write_voice_state env guild_id voice_states vs =
      ite (same_id vs.channel_id nil_id)
        (changes (λ ss. record ss {
          guild_voice_states = record (ss.guild_voice_states) {
            cells =
                DoubleCache.inner_delete same_id ss.guild_voice_states.cells voice_states
                  vs.user_id;
          };
        }))
        (parse_voice_state env guild_id vs.user_id vs >>= λ v. changes (λ ss. record ss {
          guild_voice_states = record (ss.guild_voice_states) {
            cells =
                (DoubleCache.inner_write (λ m. lib.store same_id m vs.user_id v)
                  ss.guild_voice_states.cells voice_states).0;
          };
        }))

  unfoldable pub set_voice_member :
      Env → StateCtx → Snowflake → Option GuildMember → Action SandwichState (Unit {0})
  set_voice_member env ctx guild_id none = pure tt
  set_voice_member env ctx guild_id (some m) = set_guild_member env ctx guild_id m

  -- `LoadOrNew` of UpdateVoiceState, with its change to the state.
  unfoldable pub voice_states_of : Snowflake → Action SandwichState DoubleCache.Inner
  voice_states_of guild_id ss =
      let r = DoubleCache.load_or_new same_id ss.guild_voice_states guild_id in
      pure r.1 (record ss { guild_voice_states = r.0 })

  -- UpdateVoiceState after its two reads: the write, the member, the count of the channel left and
  -- that of the channel joined.
  unfoldable pub put_voice_state :
      Env
      → StateCtx
      → Snowflake
      → VoiceState
      → DoubleCache.Inner
      → VoiceState
      → Action SandwichState (Unit {0})
  unfolding write_voice_state set_voice_member count_channel
  put_voice_state env ctx guild_id vs voice_states before = do
    write_voice_state env guild_id voice_states vs
    set_voice_member env ctx guild_id vs.member
    count_channel env ctx before.guild_id before.channel_id
    count_channel env ctx (some guild_id) vs.channel_id

  unfoldable pub update_voice_state : Env → StateCtx → VoiceState → Action SandwichState (Unit {0})
  unfolding voice_states_of put_voice_state
  update_voice_state env ctx vs = elim vs.guild_id [
    | none ↦ pure tt
    | some guild_id ↦ do
      voice_states ← voice_states_of guild_id
      before ← get_voice_state env guild_id vs.user_id
      put_voice_state env ctx guild_id vs voice_states before.0
  ]

  -- RemoveVoiceState after the delete: the channel is counted again in the guild's cache.
  unfoldable pub count_left_channel :
      Env → StateCtx → Snowflake → Option Channel → SandwichState → SandwichState
  count_left_channel env ctx guild_id none ss = ss
  count_left_channel env ctx guild_id (some channel) ss =
      set_guild_channel env ctx guild_id
        (record channel { member_count = count_members_for_voice_channel ss guild_id channel.id })
        ss

  unfoldable pub remove_voice_state :
      Env → StateCtx → Snowflake → Snowflake → SandwichState → SandwichState
  unfolding count_left_channel
  remove_voice_state env ctx guild_id user_id ss =
      elim (DoubleCache.load same_id same_id ss.guild_voice_states guild_id user_id) [
        | none ↦ ss
        | some svs ↦
            let removed = record ss {
              guild_voice_states =
                  DoubleCache.delete same_id same_id ss.guild_voice_states guild_id user_id;
            } in
            count_left_channel env ctx guild_id (get_guild_channel removed guild_id svs.channel_id)
              removed
      ]
