-- ===== src/State/DmChannels.antt =====
-- The DM channels of internal/state.go: their expiry, its renewal, and the removal by user.
use sandwich_daemon.Base.{
  ◌≡◌, ◌≢◌, refl, none, some, arith, if◌then◌else◌, List, [], ◌∷◌, ◌+ℤ◌, ltb_ℤ, lookup, ◌⊎◌, inl,
  inr, Distinct, Option-cases, lookup-Absent,
}
use sandwich_daemon.CsMap.{CsMap}
use sandwich_daemon.Cache
use sandwich_daemon.Cache.Laws
use sandwich_daemon.Discord.{Snowflake, Channel, nil_id}
use sandwich_daemon.State.{SandwichState, StateDmChannel, Env, same_id}
use sandwich_daemon.State.Channels.{
  member_dm_expiration, get_dm_channel, add_dm_channel, dm_channel_of,
  remove_dm_channel_by_channel_id, remove_dm_channel_by_user_id,
}

module _ ⦃lib : CsMap⦄ (ss : SandwichState) where
  -- AddDMChannel, then GetDMChannel: the channel is found until the clock is past half an hour after
  -- the call, and not from then on.
  pub get_dm_channel-add_dm_channel :
      (env later : Env) (user_id : Snowflake) (c : Channel)
      → (get_dm_channel later c.id (add_dm_channel env user_id c ss)).1
        ≡ (if ltb_ℤ (env.now +ℤ member_dm_expiration) later.now then none else some c)
  unfolding get_dm_channel add_dm_channel
  get_dm_channel-add_dm_channel env later user_id c = ground (
    arith,
    Cache.Laws.load-store same_id ss.dm_channels c.id
        (record { channel = c; user_id = user_id; expires_at = env.now +ℤ member_dm_expiration })
        c.id,
  )

  -- A GetDMChannel that finds the channel renews it: the next GetDMChannel finds it until half an hour
  -- after this one, whenever the channel was added.
  pub get_dm_channel-renewed :
      (env later : Env) (id : Snowflake) (c : Channel)
      → (get_dm_channel env id ss).1 ≡ some c
      → (get_dm_channel later id (get_dm_channel env id ss).0).1
        ≡ (if ltb_ℤ (env.now +ℤ member_dm_expiration) later.now then none else some c)
  unfolding get_dm_channel
  get_dm_channel-renewed env later id c found =
      elim (Option-cases (Cache.load same_id ss.dm_channels id)) [
        | inl e ↦ absurd (ground arith)
        | inr (dm, e) ↦ ground (
          arith,
          Cache.Laws.load-store same_id ss.dm_channels id
              (record dm { expires_at = env.now +ℤ member_dm_expiration }) id,
        )
      ]

module _ ⦃lib : CsMap⦄ (user_id : Snowflake) where
  abbrev IsOf : StateDmChannel → Type 0
  IsOf dm = dm.user_id ≡ user_id

  -- The loop of RemoveDMChannelByUserID gives the key of an entry of the user, or 0 if there is none.
  dm_channel_of-cases :
      (l : List (Snowflake × StateDmChannel))
      → Distinct l
      → ((dm : StateDmChannel) × (lookup same_id (dm_channel_of user_id l) l ≡ some dm) × IsOf dm)
        ⊎ ((dm_channel_of user_id l ≡ nil_id)
            × ((id : Snowflake) (dm : StateDmChannel) → lookup same_id id l ≡ some dm → ¬ IsOf dm))
  unfolding dm_channel_of lookup
  dm_channel_of-cases [] d = inr (refl, λ id dm e. absurd (ground arith))
  dm_channel_of-cases ((id, dm) ∷ l) d = elim (same_id dm.user_id user_id) [
    | yes p ↦ inl (dm, ground arith, p)
    | no h ↦ elim (dm_channel_of-cases l d.1) [
      | inl (dm', e, q) ↦ inl (dm', ground (arith, e, lookup-Absent same_id id l d.0), q)
      | inr (e, f) ↦ inr (ground arith, λ j dm' g q. ground (arith, f j dm'))
    ]
  ]

  -- RemoveDMChannelByUserID: if the user has at most one DM channel, and no channel is cached under the
  -- id 0, then afterwards no cached DM channel is the user's.
  pub remove_dm_channel_by_user_id-gone :
      (ss : SandwichState)
      → ((i j : Snowflake) (a b : StateDmChannel)
          → Cache.load same_id ss.dm_channels i ≡ some a
          → Cache.load same_id ss.dm_channels j ≡ some b
          → IsOf a
          → IsOf b
          → i ≡ j)
      → Cache.load same_id ss.dm_channels nil_id ≡ none
      → (id : Snowflake) (dm : StateDmChannel)
      → Cache.load same_id (remove_dm_channel_by_user_id user_id ss).dm_channels id ≡ some dm
      → dm.user_id ≢ user_id
  unfolding remove_dm_channel_by_user_id remove_dm_channel_by_channel_id
  remove_dm_channel_by_user_id-gone ss single no_nil id dm found of =
      let l = Cache.range ss.dm_channels in
      let first = dm_channel_of user_id l in
      let read = Cache.Laws.lookup-range same_id ss.dm_channels in
      elim (dm_channel_of-cases l (Cache.Laws.range-Distinct ss.dm_channels)) [
        | inl (a, e, q) ↦ ground (
          arith,
          read first,
          no_nil,
          Cache.Laws.load-delete same_id ss.dm_channels first id,
          single first id a dm,
        )
        | inr (e, f) ↦ ground (arith, read id, f id dm)
      ]
