-- ===== src/Routing/Targets.antt =====
-- Where RoutePayloadToConsumer of internal/manager.go sends a payload, with virtual shards.
use sandwich_daemon.Base.{
  ℕ, suc, ◌/◌, ◌%◌, ◌^◌, ◌<◌, ap, if_neg, ◌≡◌, ◌≢◌, arith, true, false, some, pos,
}
use sandwich_daemon.State.{same_id}
use sandwich_daemon.Discord.{nil_id}
use sandwich_daemon.Events.{EventDispatchIdentifier}
use sandwich_daemon.Routing.{
  shift_22, rem, VirtualShards, Target, get_shard_id_of_guild, guild_target,
  route_payload_to_consumer,
}

is_not_nil : (n : ℕ) → 0 < n → pos n ≢ nil_id
is_not_nil n h e = absurd (ground (arith, h, e))

-- With virtual shards, of which there is a positive number, all events for a guild whose id is positive,
-- unless they are routed globally, go to the one consumer shard that is the id without its lowest 22
-- bits, modulo the count, whatever the metadata said before; and that shard is in range.
pub route_payload_to_consumer-guild :
    (v : VirtualShards) (n c : ℕ) (id : EventDispatchIdentifier) (old : Target)
    → v.enabled ≡ true
    → v.count ≡ pos (suc c)
    → 0 < n
    → id.guild_id ≡ some (pos n)
    → id.globally_routed ≡ false
    → (route_payload_to_consumer v (some id) old
        ≡ some (pos 0, pos ((n / 2 ^ 22) % suc c), pos (suc c)))
      × ((n / 2 ^ 22) % suc c < suc c)
unfolding route_payload_to_consumer guild_target get_shard_id_of_guild shift_22 rem
route_payload_to_consumer-guild v n c id old on count h named local = (
  rw (on, named, local, count) (ap some (if_neg (same_id (pos n) nil_id) (is_not_nil n h) _ _)),
  omega arith,
)
