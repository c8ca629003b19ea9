-- ===== src/Ejector/Ticks.antt =====
-- internal/sandwich.go, cacheEjector: what a tick leaves of the guilds of the shared state.
use sandwich_daemon.Base.{
  ◌≡◌, ◌≢◌, refl, sym, ap, ◌∙◌, Bool, true, false, inl, inr, some, List, [], ◌∷◌, arith, lookup,
  if◌then◌else◌,
}
use sandwich_daemon.CsMap.{CsMap}
use sandwich_daemon.Cache
use sandwich_daemon.Cache.Laws
use sandwich_daemon.Discord.{Snowflake, Guild}
use sandwich_daemon.Outcome.{done, state_after}
use sandwich_daemon.State.{SandwichState, same_id}
use sandwich_daemon.State.Guilds.{Shard}
use sandwich_daemon.ShardGroup.{Manager}
use sandwich_daemon.Ejector.{GuildIds, note_managers, is_unheld, ejected_guilds, eject_guilds}
use sandwich_daemon.Ejector.Held.{Has, IsHeld, is_unheld-held, is_unheld-unheld}
use sandwich_daemon.Ejector.Guilds.{
  removed, each-removed, HaveSame, IsGone, removed-HaveSame, removed-IsGone,
}

first_kept :
    (ids : GuildIds) (i j : Snowflake) (rest : List Snowflake) (b : Bool)
    → is_unheld ids j ≡ false
    → is_unheld ids i ≡ b
    → ¬ Has j rest
    → ¬ Has j (if b then i ∷ rest else rest)
first_kept ids i j rest true e f n (inl k) =
    absurd (ground (arith, sym e ∙ (ap (is_unheld ids) (sym k) ∙ f)))
first_kept ids i j rest true e f n (inr h) = n h
first_kept ids i j rest false e f n h = n h

kept-ejected_guilds :
    (ids : GuildIds) (l : List (Snowflake × Guild)) (j : Snowflake)
    → is_unheld ids j ≡ false
    → ¬ Has j (ejected_guilds ids l)
unfolding ejected_guilds
kept-ejected_guilds ids [] j e = λ h. h
kept-ejected_guilds ids ((i, g) ∷ l) j e =
    first_kept ids i j (ejected_guilds ids l) (is_unheld ids i) e refl
      (kept-ejected_guilds ids l j e)

later_ejected :
    (i j : Snowflake) (rest : List Snowflake) (b : Bool)
    → Has j rest
    → Has j (if b then i ∷ rest else rest)
later_ejected i j rest true h = inr h
later_ejected i j rest false h = h

first_ejected :
    (i j : Snowflake) (rest : List Snowflake) (b : Bool)
    → i ≡ j
    → b ≡ true
    → Has j (if b then i ∷ rest else rest)
first_ejected i j rest true e f = inl e
first_ejected i j rest false e f = absurd (ground (arith, f))

unheld-ejected_guilds :
    (ids : GuildIds) (l : List (Snowflake × Guild)) (j : Snowflake) (g : Guild)
    → is_unheld ids j ≡ true
    → lookup same_id j l ≡ some g
    → Has j (ejected_guilds ids l)
unfolding ejected_guilds lookup
unheld-ejected_guilds ids [] j g e f = absurd (ground (arith, f))
unheld-ejected_guilds ids ((i, x) ∷ l) j g e f = elim (same_id i j) [
  | yes k ↦ first_ejected i j (ejected_guilds ids l) (is_unheld ids i) k (ap (is_unheld ids) k ∙ e)
  | no n ↦
      later_ejected i j (ejected_guilds ids l) (is_unheld ids i)
        (unheld-ejected_guilds ids l j g e (sym (lookup_other n) ∙ f))
]
  where
    lookup_other : i ≢ j → lookup same_id j ((i, x) ∷ l) ≡ lookup same_id j l
    lookup_other n = ground (arith, n)

module _ ⦃lib : CsMap⦄ where
  eject_guilds-removed :
      (managers : List Manager) (sh : Shard) (ss : SandwichState)
      → eject_guilds managers sh ss
        ≡ done tt (removed (ejected_guilds (note_managers managers []) (Cache.range ss.guilds)) ss)
  unfolding eject_guilds
  eject_guilds-removed managers sh ss = each-removed sh _ ss

  -- The ejector's loop over the guilds never panics. It leaves a guild that a group of a manager holds
  -- as it was, with its roles, channels, emojis and members; of a guild of the state that no group holds
  -- it leaves none of these.
  pub eject_guilds-Unheld :
      (managers : List Manager) (sh : Shard) (ss : SandwichState) (j : Snowflake)
      → (eject_guilds managers sh ss ≡ done tt (state_after (eject_guilds managers sh ss)))
        × (IsHeld j managers → HaveSame j ss (state_after (eject_guilds managers sh ss)))
        × ((g : Guild)
            → ¬ IsHeld j managers
            → Cache.load same_id ss.guilds j ≡ some g
            → IsGone j (state_after (eject_guilds managers sh ss)))
  eject_guilds-Unheld managers sh ss j =
      let ids : GuildIds = note_managers managers [] in
      let ejected : List Snowflake = ejected_guilds ids (Cache.range ss.guilds) in
      rw (eject_guilds-removed managers sh ss) (
        refl,
        (λ h.
            removed-HaveSame ejected j ss
              (kept-ejected_guilds ids (Cache.range ss.guilds) j (is_unheld-held j managers h))),
        (λ g n e. removed-IsGone ejected j ss (
            unheld-ejected_guilds ids (Cache.range ss.guilds) j g (is_unheld-unheld j managers n)
              (Cache.Laws.lookup-range same_id ss.guilds j ∙ e))),
      )
