-- ===== src/Dispatch/Invariant.antt =====
-- internal/events.go's StateDispatch and OnDispatch, and internal/events_dispatch.go's OnReady, on the
-- invariant of the shared state.
use sandwich_daemon.CsMap.{CsMap}
use sandwich_daemon.Outcome.{Outcome}
use sandwich_daemon.Connection.{Connection}
use sandwich_daemon.Events.Invariant.{Safe}
use sandwich_daemon.Cache.{Cache}
use sandwich_daemon.Dispatch.Ready.{Ready}
