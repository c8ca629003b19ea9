-- ===== src/Dispatch/Ready.antt =====
-- internal/events_dispatch.go, OnReady: the session, the guilds to come, and the messages that it reads
-- itself for some seconds.
use sandwich_daemon.Base.{Bool, true, false, Option, none, some, List, [], ◌∷◌, if◌then◌else◌}
use sandwich_daemon.CsMap.{CsMap}
use sandwich_daemon.Cache
use sandwich_daemon.Discord.{Snowflake, User}
use sandwich_daemon.State.{StateCtx, Env, same_id}
use sandwich_daemon.State.Guilds.{Shard}
use sandwich_daemon.Events.{Message, Daemon}
use sandwich_daemon.Routing.{Target}
use sandwich_daemon.Connection.{Connection}
use sandwich_daemon.Connection.Gateway.{ReadySession, begin_session, mark_ready}
use sandwich_daemon.Dispatch.{Event, Gate, Sent, on_dispatch}

-- discord/events.go's Ready
pub record Ready : Type 0 where
  pub session : ReadySession
  pub user : User
  pub guilds : List Snowflake

-- A round of OnReady's loop: a message, which is not a READY, with the clock and the configuration at its
-- time; an error of readMessage; or the timer, which each GUILD_CREATE starts again.
pub data WindowEvent : Type 0 where
  window_message : Env → StateCtx → Message → Event → Gate → WindowEvent
  window_error : WindowEvent
  window_timeout : WindowEvent

-- What OnReady changes: the daemon's state, the connection, and the user of the group and the manager.
pub data Readied : Type 0 where
  not_decoded : Readied
  readied : Option User → List Sent → Readied
  lazy_loading : Option User → List Sent → Readied

module _ ⦃lib : CsMap⦄ where
  -- The guilds of READY, which are stored twice under two names of the same caches.
  unfoldable pub expect_guilds : List Snowflake → Shard → Shard
  expect_guilds [] sh = sh
  expect_guilds (id ∷ ids) sh = expect_guilds ids (record sh {
    lazy = Cache.store same_id (Cache.store same_id sh.lazy id tt) id tt;
    guilds = Cache.store same_id (Cache.store same_id sh.guilds id tt) id tt;
  })

  -- The loop: whether it ended, the daemon, and what OnDispatch returned for each message. The id of the
  -- bot is that of READY, which Manager.UserID has by then.
  unfoldable pub lazy_load :
      Snowflake → Target → List WindowEvent → Daemon → Bool × Daemon × List Sent
  unfolding on_dispatch
  lazy_load user_id metadata [] d = (false, d, [])
  lazy_load user_id metadata (window_error ∷ events) d = (true, d, [])
  lazy_load user_id metadata (window_timeout ∷ events) d = (true, d, [])
  lazy_load user_id metadata (window_message env ctx msg event gate ∷ events) d =
      let r : Daemon × Sent =
        on_dispatch env (record ctx { user_id = user_id }) gate metadata msg event d in
      let rest : Bool × Daemon × List Sent = lazy_load user_id metadata events r.0 in
      (rest.0, rest.1, r.1 ∷ rest.2)

  -- OnReady, up to the chunking of all guilds at startup. Its result is never published.
  unfoldable pub on_ready :
      Target → Option Ready → List WindowEvent → Daemon → Connection → Daemon × Connection × Readied
  unfolding begin_session mark_ready expect_guilds lazy_load
  on_ready metadata none window d s = (d, s, not_decoded)
  on_ready metadata (some r) window d s =
      let t : Connection = begin_session r.session s in
      let r2 : Bool × Daemon × List Sent =
        lazy_load r.user.id metadata window (record d { shard = expect_guilds r.guilds d.shard }) in
      if r2.0
      then (r2.1, mark_ready t, readied (some r.user) r2.2)
      else (r2.1, t, lazy_loading (some r.user) r2.2)
