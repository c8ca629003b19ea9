-- ===== src/Dispatch/Gates.antt =====
-- What internal/events.go's OnDispatch lets through.
use sandwich_daemon.Base.{
  ◌≡◌, ◌≢◌, refl, arith, Bool, true, false, some, Bool-cases, inl, inr, Option-cases,
}
use sandwich_daemon.CsMap.{CsMap}
use sandwich_daemon.Outcome.{Outcome, done, panicked}
use sandwich_daemon.State.{StateCtx, Env}
use sandwich_daemon.Events.{Message, Handled, handled, failed, EventDispatch, Daemon}
use sandwich_daemon.Routing.{Target, route_payload_to_consumer}
use sandwich_daemon.Dispatch.{
  Event, state_dispatch, Gate, Packet, errored, published, identified, publish_event, send,
  recovered, on_dispatch,
}

-- A packet leaves only through open gates, from a handler that let it through.
send_published :
    (gate : Gate) (metadata : Target) (h : Handled) (p : Packet)
    → send gate metadata h ≡ published p
    → (gate.floodgate ≡ true)
      × (gate.produce_blacklisted ≡ false)
      × (r : EventDispatch) × (h ≡ handled r true)
      × (p.dispatch ≡ record r { identifier = some (identified r) })
unfolding send publish_event
send_published gate metadata failed p e = absurd (ground arith)
send_published gate metadata (handled r false) p e = absurd (ground arith)
send_published gate metadata (handled r true) p e =
    let id = record r { identifier = some (identified r) } in
    elim (Option-cases
      (route_payload_to_consumer gate.virtual_shards (some (identified r)) metadata)) [
        | inl f ↦ absurd (ground arith)
        | inr (t, f) ↦ (ground arith, ground arith, r, refl, ground arith)
      ]

module _ ⦃lib : CsMap⦄ (env : Env) (ctx : StateCtx) (gate : Gate) (metadata : Target)
    (msg : Message) (event : Event) (d : Daemon) where
  recovered_published :
      (o : Outcome Daemon Handled) (p : Packet)
      → (recovered gate metadata o).1 ≡ published p
      → (gate.floodgate ≡ true)
        × (gate.produce_blacklisted ≡ false)
        × (r : EventDispatch) × (o ≡ done (handled r true) (recovered gate metadata o).0)
        × (p.dispatch ≡ record r { identifier = some (identified r) })
  unfolding recovered
  recovered_published (done h s) p e =
      let (f, b, r, g, k) = send_published gate metadata h p e in (f, b, r, ground arith, k)
  recovered_published (panicked s) p e = absurd (ground arith)

  -- If OnDispatch publishes a packet, there is a producer, neither blacklist has the event, the
  -- floodgate is open, and the event's handler returned, without a panic or an error, a dispatch with
  -- the flag true, which is the packet's up to the identifier, that is filled in where it is missing.
  pub on_dispatch-published :
      (p : Packet)
      → (on_dispatch env ctx gate metadata msg event d).1 ≡ published p
      → (gate.has_producer ≡ true)
        × (gate.event_blacklisted ≡ false)
        × (gate.floodgate ≡ true)
        × (gate.produce_blacklisted ≡ false)
        × (r : EventDispatch) × (state_dispatch env ctx msg event d
            ≡ done (handled r true) (on_dispatch env ctx gate metadata msg event d).0)
        × (p.dispatch ≡ record r { identifier = some (identified r) })
  unfolding on_dispatch
  on_dispatch-published p e = elim (Bool-cases gate.has_producer) [
    | inr no_producer ↦ absurd (ground arith)
    | inl producer ↦ elim (Bool-cases gate.event_blacklisted) [
      | inl listed ↦ absurd (ground arith)
      | inr unlisted ↦
          let (f, b, r, g, k) =
            recovered_published (state_dispatch env ctx msg event d) p (ground arith) in
          (producer, unlisted, f, b, r, ground arith, k)
    ]
  ]

-- RoutePayloadToConsumer's error is never met: an event that a handler let through without an error
-- is published or ignored.
pub send-not-errored :
    (gate : Gate) (metadata : Target) (r : EventDispatch) (continuable : Bool)
    → send gate metadata (handled r continuable) ≢ errored
unfolding send publish_event route_payload_to_consumer
send-not-errored gate metadata r continuable e = ground arith
