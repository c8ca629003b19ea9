-- ===== src/Websocket/Announced.antt =====
-- internal/msg_websocket.go, dispatchInitial: the guilds that READY lists.
use sandwich_daemon.Base.{
  map, lookup, some, arith, List, [], ◌∷◌, ℤ, ℤ_discrete, ◌≡◌, ◌≢◌, ◌∙◌, ◌⊎◌, ◌↔◌, refl, sym, ap,
  if_pos, if_neg, inl, inr,
}
use sandwich_daemon.Discord.{Snowflake}
use sandwich_daemon.Routing.{get_shard_id_of_guild}
use sandwich_daemon.Websocket.{ShardPair}
use sandwich_daemon.Websocket.Initial.{is_of_shard, unavailable_guilds}
use sandwich_daemon.State.{same_id}

-- An id stands in a list.
abbrev pub Has : Snowflake → List Snowflake → Type 0
Has id [] = ⊥
Has id (j ∷ ids) = (id ≡ j) ⊎ Has id ids

-- A guild of a list whose shard is the subscriber's.
abbrev pub IsAnnounced : ℤ → ShardPair → List Snowflake → Snowflake → Type 0
IsAnnounced csc shard ids id = Has id ids × (get_shard_id_of_guild id csc ≡ shard.0)

unavailable_guilds-own :
    (csc : ℤ) (shard : ShardPair) (j : Snowflake) (ids : List Snowflake)
    → get_shard_id_of_guild j csc ≡ shard.0
    → unavailable_guilds csc shard (j ∷ ids) ≡ j ∷ unavailable_guilds csc shard ids
unfolding unavailable_guilds is_of_shard
unavailable_guilds-own csc shard j ids e =
    rw (if_pos (ℤ_discrete (get_shard_id_of_guild j csc) shard.0) e) refl

unavailable_guilds-other :
    (csc : ℤ) (shard : ShardPair) (j : Snowflake) (ids : List Snowflake)
    → get_shard_id_of_guild j csc ≢ shard.0
    → unavailable_guilds csc shard (j ∷ ids) ≡ unavailable_guilds csc shard ids
unfolding unavailable_guilds is_of_shard
unavailable_guilds-other csc shard j ids h =
    rw (if_neg (ℤ_discrete (get_shard_id_of_guild j csc) shard.0) h) refl

own-IsAnnounced :
    (csc : ℤ) (shard : ShardPair) (j : Snowflake) (ids : List Snowflake) (id : Snowflake)
    → get_shard_id_of_guild j csc ≡ shard.0
    → (Has id (unavailable_guilds csc shard ids) ↔ IsAnnounced csc shard ids id)
    → ((id ≡ j) ⊎ Has id (unavailable_guilds csc shard ids)) ↔ IsAnnounced csc shard (j ∷ ids) id
own-IsAnnounced csc shard j ids id e (f, g) = (to, from)
  where
    to : (id ≡ j) ⊎ Has id (unavailable_guilds csc shard ids) → IsAnnounced csc shard (j ∷ ids) id
    to (inl h) = (inl h, ap (λ x. get_shard_id_of_guild x csc) h ∙ e)
    to (inr h) = let r : IsAnnounced csc shard ids id = f h in (inr r.0, r.1)

    from : IsAnnounced csc shard (j ∷ ids) id → (id ≡ j) ⊎ Has id (unavailable_guilds csc shard ids)
    from (inl h, k) = inl h
    from (inr h, k) = inr (g (h, k))

other-IsAnnounced :
    (csc : ℤ) (shard : ShardPair) (j : Snowflake) (ids : List Snowflake) (id : Snowflake)
    → get_shard_id_of_guild j csc ≢ shard.0
    → (Has id (unavailable_guilds csc shard ids) ↔ IsAnnounced csc shard ids id)
    → Has id (unavailable_guilds csc shard ids) ↔ IsAnnounced csc shard (j ∷ ids) id
other-IsAnnounced csc shard j ids id n (f, g) = (to, from)
  where
    to : Has id (unavailable_guilds csc shard ids) → IsAnnounced csc shard (j ∷ ids) id
    to h = let r : IsAnnounced csc shard ids id = f h in (inr r.0, r.1)

    from : IsAnnounced csc shard (j ∷ ids) id → Has id (unavailable_guilds csc shard ids)
    from (inl h, k) = absurd (n (sym (ap (λ x. get_shard_id_of_guild x csc) h) ∙ k))
    from (inr h, k) = g (h, k)

pub unavailable_guilds_iff :
    (csc : ℤ) (shard : ShardPair) (ids : List Snowflake) (id : Snowflake)
    → Has id (unavailable_guilds csc shard ids) ↔ IsAnnounced csc shard ids id
unfolding unavailable_guilds
unavailable_guilds_iff csc shard [] id = (λ h. absurd h, λ h. h.0)
unavailable_guilds_iff csc shard (j ∷ ids) id =
    let rest : Has id (unavailable_guilds csc shard ids) ↔ IsAnnounced csc shard ids id =
      unavailable_guilds_iff csc shard ids id in
    elim (ℤ_discrete (get_shard_id_of_guild j csc) shard.0) [
      | yes e ↦
          rw (unavailable_guilds-own csc shard j ids e) (own-IsAnnounced csc shard j ids id e rest)
      | no n ↦
          rw (unavailable_guilds-other csc shard j ids n)
            (other-IsAnnounced csc shard j ids id n rest)
    ]

pub listed_iff :
    {V : Type 0} (l : List (Snowflake × V)) (id : Snowflake)
    → Has id (map (λ e. e.0) l) ↔ ((v : V) × (lookup same_id id l ≡ some v))
unfolding lookup
listed_iff [] id = ((λ h. absurd h), λ (v, e). absurd (ground (arith, e)))
listed_iff {V} ((i, x) ∷ l) id = (to (listed_iff l id).0, from (listed_iff l id).1)
  where
    other : i ≢ id → lookup same_id id ((i, x) ∷ l) ≡ lookup same_id id l
    other n = ground (arith, n)

    own : i ≡ id → lookup same_id id ((i, x) ∷ l) ≡ some x
    own e = ground (arith, e)

    to :
        (Has id (map (λ e. e.0) l) → (v : V) × (lookup same_id id l ≡ some v))
        → (id ≡ i) ⊎ Has id (map (λ e. e.0) l)
        → (v : V) × (lookup same_id id ((i, x) ∷ l) ≡ some v)
    to rest (inl e) = (x, own (sym e))
    to rest (inr h) = elim (same_id i id) [
      | yes e ↦ (x, own e)
      | no n ↦ ((rest h).0, other n ∙ (rest h).1)
    ]

    from :
        ((v : V) × (lookup same_id id l ≡ some v) → Has id (map (λ e. e.0) l))
        → (v : V) × (lookup same_id id ((i, x) ∷ l) ≡ some v)
        → (id ≡ i) ⊎ Has id (map (λ e. e.0) l)
    from rest (v, f) = elim (same_id i id) [
      | yes e ↦ inl (sym e)
      | no n ↦ inr (rest (v, sym (other n) ∙ f))
    ]
