-- ===== src/Events.antt =====
-- internal/events_dispatch.go: the handlers of dispatch events. A handler gets the decoded payload,
-- or nothing when decodeContent fails, and returns what OnDispatch publishes. The counters of
-- Prometheus that each handler increments are left out.
pub mod Guilds
pub mod Channels
pub mod Members
pub mod Users
pub mod Simple
pub mod Chunks
pub mod Invariant
use sandwich_daemon.Base.{
  Bool, true, false, if◌then◌else◌, Option, none, some, List, String, ℤ, ite,
}
use sandwich_daemon.CsMap.{CsMap}
use sandwich_daemon.Dedupe.{DedupeMap}
use sandwich_daemon.Discord.{
  Snowflake, Slice, User, GuildMember, VoiceState, Channel, Role, Emoji, Sticker, Guild, nil_id,
}
use sandwich_daemon.Outcome.{Outcome, done, panicked, Action, pure}
use sandwich_daemon.State.{SandwichState, same_id}
use sandwich_daemon.State.Guilds.{Shard}

-- EventDispatchIdentifier, of internal/structs/messaging.go
pub record EventDispatchIdentifier : Type 0 where
  pub guild_id : Option Snowflake
  pub user_id : Option Snowflake
  pub globally_routed : Bool

-- What a handler puts into `extra`, before makeExtra marshals it: the entry "before", or the entries
-- "lazy" and "unavailable", whose values are empty structs.
pub data Extra : Type 0 where
  lazy_unavailable : Unit {0} → Unit {0} → Extra
  before_channel : Option Channel → Extra
  before_guild : Guild → Extra
  before_emojis : Slice Emoji → Extra
  before_stickers : Slice Sticker → Extra
  before_member : GuildMember → Extra
  before_role : Role → Extra
  before_user : User → Extra
  before_voice_state : VoiceState → Extra

pub record EventDispatch : Type 0 where
  pub payload : String
  pub extra : Option Extra
  pub identifier : Option EventDispatchIdentifier

-- The result of a handler: a dispatch with the flag `ok`, or an error.
pub data Handled : Type 0 where
  handled : EventDispatch → Bool → Handled
  failed : Handled

-- The zero EventDispatch.
abbrev pub no_dispatch : EventDispatch
no_dispatch = record { payload = ""; extra = none; identifier = none }

-- A message of the gateway: what the handlers read of it, and whether makeExtra can marshal a value.
pub record Message : Type 0 where
  pub payload : String
  pub marshals : Extra → Bool

abbrev pub for_guild : Option Snowflake → EventDispatchIdentifier
for_guild guild_id = record { guild_id = guild_id; user_id = none; globally_routed = false }

-- The dispatch of a handler without extras.
abbrev pub dispatch : Message → EventDispatchIdentifier → Handled
dispatch msg id =
    handled (record { payload = msg.payload; extra = none; identifier = some id }) true

-- The end of a handler with extras.
abbrev pub dispatch_extra : Message → Extra → EventDispatchIdentifier → Handled
dispatch_extra msg extra id =
    if msg.marshals extra
    then handled (record { payload = msg.payload; extra = some extra; identifier = some id }) true
    else failed

-- A guild id that is there and not 0.
abbrev pub present : Option Snowflake → Option Snowflake
present none = none
present (some id) = ite (same_id id nil_id) none (some id)

module _ ⦃lib : CsMap⦄ where
  -- The part of the daemon that the handlers change: the state that all managers share, the dedupe
  -- table, and the guilds of the shard.
  pub record Daemon : Type 0 where
    pub state : SandwichState
    pub dedupe : DedupeMap
    pub shard : Shard

  -- An operation on the shared state, within a handler.
  abbrev pub in_state : {A : Type 0} → Daemon → Outcome SandwichState A → Outcome Daemon A
  in_state d (done a ss) = done a (record d { state = ss })
  in_state d (panicked ss) = panicked (record d { state = ss })

  abbrev pub on_state : {A : Type 0} → Action SandwichState A → Action Daemon A
  on_state m d = in_state d (m d.state)

  -- An operation on the state that cannot panic.
  abbrev pub edits : (SandwichState → SandwichState) → Action Daemon (Unit {0})
  edits f d = done tt (record d { state = f d.state })

  -- `err = ctx.decodeContent(msg, &payload); if err != nil { return result, false, err }`
  abbrev pub decoding :
      {P : Type 0} → Option P → (P → Action Daemon Handled) → Action Daemon Handled
  decoding none f = pure failed
  decoding (some p) f = f p
