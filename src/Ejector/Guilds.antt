-- ===== src/Ejector/Guilds.antt =====
-- internal/sandwich.go, cacheEjector, on the shared state: the guilds that it removes.
use sandwich_daemon.Base.{◌≡◌, ◌≢◌, refl, ◌∙◌, subst, inl, inr, none, List, [], ◌∷◌, arith}
use sandwich_daemon.CsMap.{CsMap}
use sandwich_daemon.Cache
use sandwich_daemon.Cache.Laws
use sandwich_daemon.DoubleCache
use sandwich_daemon.Discord.{Snowflake}
use sandwich_daemon.Outcome.{done, each}
use sandwich_daemon.State.{SandwichState, same_id}
use sandwich_daemon.State.Roles.{get_guild_role, remove_all_guild_roles}
use sandwich_daemon.State.Emojis.{get_all_guild_emojis, remove_all_guild_emojis}
use sandwich_daemon.State.Channels.{remove_all_guild_channels}
use sandwich_daemon.State.Members.{remove_all_guild_members}
use sandwich_daemon.DoubleCache.Edits
use sandwich_daemon.State.Guilds.{Shard, remove_guild, remove_guild_state}
use sandwich_daemon.State.Guilds.Removed.{remove_guild_state-others}
use sandwich_daemon.Ejector.{cache_ejector_state_ctx}
use sandwich_daemon.Ejector.Held.{Has}

module _ ⦃lib : CsMap⦄ where
  -- RemoveGuild of each guild of a list.
  unfoldable pub removed : List Snowflake → SandwichState → SandwichState
  removed [] ss = ss
  removed (id ∷ ids) ss = removed ids (remove_guild_state id ss)

  pub each-removed :
      (sh : Shard) (ids : List Snowflake) (ss : SandwichState)
      → each ids (λ id s. (remove_guild cache_ejector_state_ctx id sh s).1) ss
        ≡ done tt (removed ids ss)
  unfolding each remove_guild removed
  each-removed sh [] ss = refl
  each-removed sh (id ∷ ids) ss = each-removed sh ids (remove_guild_state id ss)

  -- What two states have of a guild.
  pub record HaveSame (j : Snowflake) (s t : SandwichState) : Type 0 where
    pub guild : Cache.load same_id t.guilds j ≡ Cache.load same_id s.guilds j
    pub role : (id : Snowflake) → get_guild_role t j id ≡ get_guild_role s j id
    pub channel :
        (id : Snowflake)
        → DoubleCache.load same_id same_id t.guild_channels j id
          ≡ DoubleCache.load same_id same_id s.guild_channels j id
    pub emojis : get_all_guild_emojis t j ≡ get_all_guild_emojis s j
    pub member :
        (id : Snowflake)
        → DoubleCache.load same_id same_id t.guild_members j id
          ≡ DoubleCache.load same_id same_id s.guild_members j id
    pub voice : t.guild_voice_states ≡ s.guild_voice_states

  HaveSame-trans :
      (j : Snowflake) (r s t : SandwichState) → HaveSame j r s → HaveSame j s t → HaveSame j r t
  HaveSame-trans j r s t a b = record {
    guild = b.guild ∙ a.guild;
    role = λ id. b.role id ∙ a.role id;
    channel = λ id. b.channel id ∙ a.channel id;
    emojis = b.emojis ∙ a.emojis;
    member = λ id. b.member id ∙ a.member id;
    voice = b.voice ∙ a.voice;
  }

  remove_guild_state-HaveSame :
      (i j : Snowflake) (ss : SandwichState) → i ≢ j → HaveSame j ss (remove_guild_state i ss)
  remove_guild_state-HaveSame i j ss n = record {
    guild = (remove_guild_state-others i ss j j n).0;
    role = λ id. (remove_guild_state-others i ss id j n).1;
    channel = λ id. (remove_guild_state-others i ss id j n).2;
    emojis = (remove_guild_state-others i ss j j n).3;
    member = λ id. (remove_guild_state-others i ss id j n).4;
    voice = (remove_guild_state-others i ss j j n).5;
  }

  -- A state that has nothing of a guild.
  pub record IsGone (j : Snowflake) (t : SandwichState) : Type 0 where
    pub guild : Cache.load same_id t.guilds j ≡ none
    pub role : (id : Snowflake) → get_guild_role t j id ≡ none
    pub channel : (id : Snowflake) → DoubleCache.load same_id same_id t.guild_channels j id ≡ none
    pub emojis : get_all_guild_emojis t j ≡ none
    pub member : (id : Snowflake) → DoubleCache.load same_id same_id t.guild_members j id ≡ none

  remove_guild_state-IsGone :
      (j : Snowflake) (ss : SandwichState) → IsGone j (remove_guild_state j ss)
  unfolding get_guild_role get_all_guild_emojis remove_guild_state remove_all_guild_members
      remove_all_guild_channels remove_all_guild_roles remove_all_guild_emojis
  remove_guild_state-IsGone j ss = record {
    guild = ground (arith, Cache.Laws.load-delete same_id ss.guilds j j);
    role = λ id. ground (arith, Edits.load-clear_key same_id same_id ss.guild_roles j j id);
    channel = λ id. ground (arith, Edits.load-clear_key same_id same_id ss.guild_channels j j id);
    emojis = ground (arith, Cache.Laws.load-delete same_id ss.guild_emojis j j);
    member = λ id. ground (arith, Edits.load-clear_key same_id same_id ss.guild_members j j id);
  }

  HaveSame-IsGone : (j : Snowflake) (s t : SandwichState) → HaveSame j s t → IsGone j s → IsGone j t
  HaveSame-IsGone j s t h g = record {
    guild = h.guild ∙ g.guild;
    role = λ id. h.role id ∙ g.role id;
    channel = λ id. h.channel id ∙ g.channel id;
    emojis = h.emojis ∙ g.emojis;
    member = λ id. h.member id ∙ g.member id;
  }

  pub removed-HaveSame :
      (ids : List Snowflake) (j : Snowflake) (ss : SandwichState)
      → ¬ Has j ids
      → HaveSame j ss (removed ids ss)
  unfolding removed
  removed-HaveSame [] j ss n = record {
    guild = refl;
    role = λ id. refl;
    channel = λ id. refl;
    emojis = refl;
    member = λ id. refl;
    voice = refl;
  }
  removed-HaveSame (i ∷ ids) j ss n =
      HaveSame-trans j ss (remove_guild_state i ss) (removed ids (remove_guild_state i ss))
        (remove_guild_state-HaveSame i j ss (λ e. n (inl e)))
        (removed-HaveSame ids j (remove_guild_state i ss) (λ h. n (inr h)))

  still_IsGone :
      (ids : List Snowflake) (j : Snowflake) (ss : SandwichState)
      → IsGone j ss
      → IsGone j (removed ids ss)
  unfolding removed
  still_IsGone [] j ss g = g
  still_IsGone (i ∷ ids) j ss g = still_IsGone ids j (remove_guild_state i ss) (elim (same_id i j) [
    | yes e ↦
        subst (λ (k : Snowflake). IsGone k (remove_guild_state i ss)) e
          (remove_guild_state-IsGone i ss)
    | no n ↦ HaveSame-IsGone j ss (remove_guild_state i ss) (remove_guild_state-HaveSame i j ss n) g
  ])

  pub removed-IsGone :
      (ids : List Snowflake) (j : Snowflake) (ss : SandwichState)
      → Has j ids
      → IsGone j (removed ids ss)
  unfolding removed
  removed-IsGone [] j ss h = absurd h
  removed-IsGone (i ∷ ids) j ss (inl e) = still_IsGone ids j (remove_guild_state i ss) (
      subst (λ (k : Snowflake). IsGone k (remove_guild_state i ss)) e
        (remove_guild_state-IsGone i ss))
  removed-IsGone (i ∷ ids) j ss (inr h) = removed-IsGone ids j (remove_guild_state i ss) h
