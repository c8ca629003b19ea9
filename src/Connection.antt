-- ===== src/Connection.antt =====
-- internal/shard.go: the connection of a shard to the gateway. The websocket, the producer and the
-- clock are outside: what they answer is an argument, and what the shard tells them is logged in
-- `outputs`, newest first. Times are in milliseconds.
pub mod Connect
pub mod Statuses
pub mod Sessions
pub mod Reconnect
pub mod Retries
pub mod Keeps
pub mod Pauses
pub mod Operations
pub mod Gateway
pub mod Fresh
pub mod Timing
pub mod Consistent
pub mod Steps
pub mod Chunks
pub mod AllChunks
pub mod Collected
use sandwich_daemon.Base.{
  ◌&&◌, not, ℕ, Bool, true, false, Option, none, some, List, [], ◌∷◌, ℤ, pos, if◌then◌else◌,
}
use sandwich_daemon.Discord.{Snowflake}
use sandwich_daemon.Strconv.{Bytes}

-- ShardStatus, of internal/structs/status.go
pub data ShardStatus : Type 0 where
  shard_idle : ShardStatus
  shard_connecting : ShardStatus
  shard_connected : ShardStatus
  shard_ready : ShardStatus
  shard_reconnecting : ShardStatus
  shard_closing : ShardStatus
  shard_closed : ShardStatus
  shard_erroring : ShardStatus

-- MQCloseShardReason, of internal/messaging.go
pub data MqCloseShardReason : Type 0 where
  close_shard_reason_gateway : MqCloseShardReason
  close_shard_reason_other : MqCloseShardReason

-- The close codes that the shard sends.
pub data StatusCode : Type 0 where
  normal_closure : StatusCode
  websocket_reconnect_close_code : StatusCode

-- The payloads that SendEvent writes: the fields that come from the shard's state.
pub data SentPayload : Type 0 where
  heartbeat : ℤ → SentPayload
  identify : ℤ → ℤ → SentPayload
  resume : Bytes → ℤ → SentPayload
  request_guild_members : Snowflake → Bytes → SentPayload
  status_update : Bytes → SentPayload

pub data Output : Type 0 where
  -- SetStatus's event for the consumers
  status_changed : ShardStatus → Output
  -- a message on the websocket
  sent : SentPayload → Output
  ws_closed : StatusCode → Output
  -- the producer's CloseShard
  producer_closed : MqCloseShardReason → Output
  -- `go sh.Heartbeat(sh.ctx)`
  heartbeat_started : Output
  -- `Gateway.SessionStartLimit.Remaining--`, of the manager
  session_start_used : Output

-- The Shard. A websocket has a number, to tell two of them apart; `ready` says whether the channel of
-- that name, whose buffer holds one message, has one; `cancelled` and `manager_done` stand for the
-- contexts of the shard and of the manager; `producer_blocks` says whether a call of the producer's
-- CloseShard, for another reason than the gateway, does not return.
pub record Connection : Type 0 where
  pub shard_id : ℤ
  pub shard_count : ℤ
  pub status : ShardStatus
  pub retries_remaining : ℤ
  pub resume_gateway_url : Bytes
  pub session_id : Bytes
  pub sequence : ℤ
  pub ws_conn : Option ℕ
  pub is_ready : Bool
  pub ready : Bool
  pub context : ℕ
  pub cancelled : Bool
  pub manager_done : Bool
  pub has_producer : Bool
  pub producer_blocks : Bool
  pub start : ℕ
  pub last_heartbeat_ack : ℕ
  pub last_heartbeat_sent : ℕ
  pub heartbeat_interval : ℕ
  pub heartbeat_failure_interval : ℕ
  pub outputs : List Output

abbrev pub shard_connect_retries : ℕ
shard_connect_retries = 10

abbrev pub shard_max_heartbeat_failures : ℕ
shard_max_heartbeat_failures = 50

-- NewShard, for a manager whose context is not cancelled
unfoldable pub new_shard : ℤ → ℤ → Bool → Connection
new_shard shard_id shard_count has_producer = record {
  shard_id = shard_id;
  shard_count = shard_count;
  status = shard_idle;
  retries_remaining = pos shard_connect_retries;
  resume_gateway_url = [];
  session_id = [];
  sequence = pos 0;
  ws_conn = none;
  is_ready = false;
  ready = false;
  context = 0;
  cancelled = false;
  manager_done = false;
  has_producer = has_producer;
  producer_blocks = false;
  start = 0;
  last_heartbeat_ack = 0;
  last_heartbeat_sent = 0;
  heartbeat_interval = 0;
  heartbeat_failure_interval = 0;
  outputs = [];
}

abbrev pub emit : Output → Connection → Connection
emit o s = record s { outputs = o ∷ s.outputs }

unfoldable pub set_status : ShardStatus → Connection → Connection
set_status status s = emit (status_changed status) (record s { status = status })

-- CloseWS, which suppresses the websocket's errors
unfoldable pub close_ws : StatusCode → Connection → Connection
close_ws code s = record s {
  ws_conn = none;
  outputs = elim s.ws_conn [ none ↦ s.outputs | some _ ↦ ws_closed code ∷ s.outputs ];
}

-- The end of Close: the producer's connections for the shard, then the status.
unfoldable pub close_producer : Bool → Connection → Connection
close_producer intermittent_gw_issue s =
    if s.has_producer
    then emit
        (producer_closed
          (if intermittent_gw_issue then close_shard_reason_gateway else close_shard_reason_other))
        s
    else s

-- The start of Close: the status, and `sh.cancel()`.
unfoldable pub start_closing : Connection → Connection
unfolding set_status
start_closing s = set_status shard_closing (record s { is_ready = false; cancelled = true })

-- The call of the producer's CloseShard does not return.
unfoldable pub waits_for_producer : Bool → Connection → Bool
waits_for_producer intermittent_gw_issue s =
    s.has_producer && s.producer_blocks && not intermittent_gw_issue

-- The last statement of Close, which it may not come to.
unfoldable pub end_closing : Bool → Connection → Connection
unfolding set_status
end_closing true s = s
end_closing false s = set_status shard_closed s

-- Close: the state that it leaves, or that it waits in.
unfoldable pub close : StatusCode → Bool → Connection → Connection
unfolding close_ws close_producer start_closing waits_for_producer end_closing
close code intermittent_gw_issue s =
    end_closing (waits_for_producer intermittent_gw_issue s)
      (close_producer intermittent_gw_issue (close_ws code (start_closing s)))
