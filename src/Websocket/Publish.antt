-- ===== src/Websocket/Publish.antt =====
-- internal/msg_websocket.go, publish: who gets a message.
use sandwich_daemon.Base.{
  ℕ, ◌<◌, length, false, some, List, [], ◌∷◌, map, ℤ, ℤ_discrete, ite, ◌≡◌, ◌≢◌, refl, if_neg,
}
use sandwich_daemon.Discord.{Snowflake}
use sandwich_daemon.Events.{EventDispatchIdentifier}
use sandwich_daemon.Websocket.{
  SandwichPayload, Subscriber, ShardPair, Subscribers, write_to, by_guild, by_identifier, delivery,
}

-- Every subscriber has the shard count.
abbrev pub HaveCount : ℤ → Subscribers → Type 0
HaveCount count [] = Unit {0}
HaveCount count ((k, subs) ∷ rest) = (k.1 ≡ count) × HaveCount count rest

-- The subscribers of a shard get a message, the others nothing.
abbrev pub for_shard : ℤ → SandwichPayload → Subscribers → Subscribers
for_shard shard_id msg [] = []
for_shard shard_id msg ((k, subs) ∷ rest) =
    (k, ite (ℤ_discrete k.0 shard_id) (map (write_to msg) subs) subs) ∷ for_shard shard_id msg rest

-- A subscriber whose channels are open, with room for one more message.
abbrev pub HasRoom : ℕ → Subscriber → Type 0
HasRoom buffer s = (s.closed ≡ false) × (length s.write_normal < buffer)

abbrev pub AllHaveRoom : ℕ → List Subscriber → Type 0
AllHaveRoom buffer [] = Unit {0}
AllHaveRoom buffer (s ∷ subs) = HasRoom buffer s × AllHaveRoom buffer subs

-- The subscribers of a shard have room.
abbrev pub HaveRoom : ℕ → ℤ → Subscribers → Type 0
HaveRoom buffer shard_id [] = Unit {0}
HaveRoom buffer shard_id ((k, subs) ∷ rest) =
    (k.0 ≡ shard_id → AllHaveRoom buffer subs) × HaveRoom buffer shard_id rest

-- A message of a guild reaches the subscribers of a pair whose shard count is not the message's, or not, whatever the shard of that pair is.
pub delivery-any_shard :
    (shard : ShardPair) (id : EventDispatchIdentifier) (guild_id : Snowflake) (i j count : ℤ)
    → id.guild_id ≡ some guild_id
    → count ≢ shard.1
    → delivery shard (some id) (i, count) ≡ delivery shard (some id) (j, count)
unfolding delivery by_identifier by_guild
delivery-any_shard shard id guild_id i j count e h =
    rw (if_neg (ℤ_discrete count shard.1) h, if_neg (ℤ_discrete count shard.1) h, e) refl
