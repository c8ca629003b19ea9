-- ===== src/Tests/Routes.antt =====
-- The theorems on routing, on shard ids and on OnDispatch at concrete inputs, with the texts of
-- internal/utils_test.go.
use sandwich_daemon.Base.{
  ◌≡◌, ◌/◌, ◌%◌, ◌^◌, ◌<◌, pos, none, some, [], ◌∷◌, ◌++◌, refl, arith, true, false, suc, ◌-◌,
}
use sandwich_daemon.CsMap.Assoc.{assoc}
use sandwich_daemon.Outcome.{done}
use sandwich_daemon.State.{same_id}
use sandwich_daemon.Strconv.{Bytes, minus, format_int}
use sandwich_daemon.Events.{EventDispatch, handled, for_guild}
use sandwich_daemon.Events.Simple.{on_guild_event}
use sandwich_daemon.Routing.{VirtualShards, route_payload_to_consumer}
use sandwich_daemon.Routing.Targets.{route_payload_to_consumer-guild}
use sandwich_daemon.Ranges.{return_range_int32}
use sandwich_daemon.Ranges.Intervals.{ids_from, return_range_int32-interval}
use sandwich_daemon.Dispatch.{
  Event, guild_event, state_dispatch, Gate, Packet, published, identified, on_dispatch,
}
use sandwich_daemon.Dispatch.Gates.{on_dispatch-published}
use sandwich_daemon.Tests.{env, ctx, msg, daemon}

-- "0-4,6-7" of 8 shards
abbrev two_intervals : Bytes
two_intervals = 48 ∷ 45 ∷ 52 ∷ 44 ∷ 54 ∷ 45 ∷ 55 ∷ []

two_intervals_read :
    return_range_int32 two_intervals (pos 8)
    ≡ pos 0 ∷ pos 1 ∷ pos 2 ∷ pos 3 ∷ pos 4 ∷ pos 6 ∷ pos 7 ∷ []
unfolding return_range_int32
two_intervals_read = refl

-- "0-4,6-7,8" of 8 shards
beyond_read :
    return_range_int32 (two_intervals ++ 44 ∷ 56 ∷ []) (pos 8)
    ≡ pos 0 ∷ pos 1 ∷ pos 2 ∷ pos 3 ∷ pos 4 ∷ pos 6 ∷ pos 7 ∷ []
unfolding return_range_int32
beyond_read = refl

empty_read : return_range_int32 [] (pos 8) ≡ []
unfolding return_range_int32
empty_read = refl

return_range_int32-interval_example :
    return_range_int32 (format_int (pos 2) ++ minus ∷ format_int (pos 5)) (pos 8)
    ≡ ids_from 2 (suc 5 - 2)
return_range_int32-interval_example =
    return_range_int32-interval 2 5 8 (omega arith) (omega arith) (omega arith)

abbrev virtual : VirtualShards
virtual = record { enabled = true; count = pos 3; dm_shard = pos 1 }

route_payload_to_consumer-guild_example :
    (route_payload_to_consumer virtual (some (for_guild (some (pos 9000000)))) (pos 0, pos 0, pos 1)
      ≡ some (pos 0, pos ((9000000 / 2 ^ 22) % suc 2), pos (suc 2)))
    × ((9000000 / 2 ^ 22) % suc 2 < suc 2)
route_payload_to_consumer-guild_example =
    route_payload_to_consumer-guild virtual 9000000 2 (for_guild (some (pos 9000000)))
      (pos 0, pos 0, pos 1) refl refl (omega arith) refl refl

abbrev open_gate : Gate
open_gate = record {
  has_producer = true;
  event_blacklisted = false;
  produce_blacklisted = false;
  floodgate = true;
  virtual_shards = virtual;
}

abbrev typing : Event
typing = guild_event (some (record { guild_id = some (pos 9000000); user_id = none }))

abbrev typing_dispatch : EventDispatch
typing_dispatch = record {
  payload = "{}";
  extra = none;
  identifier = some (for_guild (some (pos 9000000)));
}

abbrev typing_packet : Packet
typing_packet = record { dispatch = typing_dispatch; shard = (pos 0, pos 2, pos 3) }

typing_published :
    (on_dispatch env ctx open_gate (pos 0, pos 0, pos 1) msg typing daemon).1
    ≡ published typing_packet
unfolding on_dispatch on_guild_event route_payload_to_consumer same_id
typing_published = refl

on_dispatch-published_example :
    (true ≡ true)
    × (false ≡ false)
    × (true ≡ true)
    × (false ≡ false)
    × (r : EventDispatch) × (state_dispatch env ctx msg typing daemon
        ≡ done
            (handled r true)
            (on_dispatch env ctx open_gate (pos 0, pos 0, pos 1) msg typing daemon).0)
    × (typing_dispatch ≡ record r { identifier = some (identified r) })
on_dispatch-published_example =
    on_dispatch-published env ctx open_gate (pos 0, pos 0, pos 1) msg typing daemon typing_packet
      typing_published
