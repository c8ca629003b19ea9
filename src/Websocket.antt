-- ===== src/Websocket.antt =====
-- internal/msg_websocket.go: the producer that consumers connect to by a websocket as if it were
-- Discord's gateway. A subscriber's channels are lists, the oldest message first, of a bounded length; a
-- send of publish, or of CloseShard, StopSession and Close, to a channel that is full waits, and one to a
-- channel that is closed panics.
pub mod Publish
pub mod Identify
pub mod Tokens
pub mod Writer
pub mod Sequences
pub mod Initial
pub mod Sessions
pub mod Locks
pub mod Announced
pub mod Created
use sandwich_daemon.Base.{
  ℕ, zero, suc, ◌-◌, ltb, Bool, true, false, not, ◌&&◌, ◌||◌, Option, none, some, List, [], ◌∷◌,
  ◌++◌, length, ℤ, pos, negsuc, ltb_ℤ, ℤ_discrete, ite, if◌then◌else◌, ◌≡◌, refl, arith, ap,
}
use sandwich_daemon.Strconv.{Bytes, same_bytes}
use sandwich_daemon.Events.{EventDispatchIdentifier}
use sandwich_daemon.Routing.{get_shard_id_of_guild, Target}

-- subscriberStatusCode
pub data SubscriberStatusCode : Type 0 where
  subscriber_status_init : SubscriberStatusCode
  subscriber_status_ready : SubscriberStatusCode
  subscriber_status_identified : SubscriberStatusCode
  subscriber_status_resuming : SubscriberStatusCode
  subscriber_status_moving : SubscriberStatusCode
  subscriber_status_dead : SubscriberStatusCode

-- The fields of a SandwichPayload that the producer reads; a dispatch has the operation 0.
pub record SandwichPayload : Type 0 where
  pub op : ℕ
  pub sequence : ℤ
  pub kind : Bytes
  pub data_text : Bytes
  pub identifier : Option EventDispatchIdentifier
  pub metadata_shard : Target

-- The texts that go to writeBytes.
pub data RawMessage : Type 0 where
  hello_payload : RawMessage
  resumable_invalid_session : RawMessage
  nonresumable_invalid_session : RawMessage

-- A shard and a shard count.
abbrev pub ShardPair : Type 0
ShardPair = ℤ × ℤ

-- The subscriber; `key` stands for its address, `closing` for its channel of close messages, which all
-- have the code 4000, `closed` says whether close() closed the channels, and `acks` counts the messages in writeHeartbeat.
pub record Subscriber : Type 0 where
  pub key : ℕ
  pub session_id : Bytes
  pub shard : ShardPair
  pub seq : ℤ
  pub status : SubscriberStatusCode
  pub last_heartbeat : ℕ
  pub cancelled : Bool
  pub closed : Bool
  pub write_normal : List SandwichPayload
  pub write_bytes : List RawMessage
  pub closing : List Bytes
  pub acks : ℕ

-- chatServer's map of subscribers, in an order that `range` takes.
abbrev pub Subscribers : Type 0
Subscribers = List (ShardPair × List Subscriber)

pair-first : (p q : ShardPair) → p ≡ q → p.0 ≡ q.0
pair-first p q e = ap (λ (x : ShardPair). x.0) e

pair-second : (p q : ShardPair) → p ≡ q → p.1 ≡ q.1
pair-second p q e = ap (λ (x : ShardPair). x.1) e

pair_eq : (p q : ShardPair) → p.0 ≡ q.0 → p.1 ≡ q.1 → p ≡ q
pair_eq p q e f = cc

unfoldable pub same_shard : Discrete ShardPair
unfolding ℤ_discrete pair-first pair-second pair_eq
same_shard p q = elim (ℤ_discrete p.0 q.0) [
  | yes e ↦ elim (ℤ_discrete p.1 q.1) [
    | yes f ↦ yes (pair_eq p q e f)
    | no h ↦ no (λ g. h (pair-second p q g))
  ]
  | no h ↦ no (λ g. h (pair-first p q g))
]

-- addSubscriber
unfoldable pub add_subscriber : Subscriber → ShardPair → Subscribers → Subscribers
unfolding same_shard
add_subscriber s shard [] = (shard, s ∷ []) ∷ []
add_subscriber s shard ((k, subs) ∷ rest) =
    ite (same_shard k shard) ((k, subs ++ s ∷ []) ∷ rest) ((k, subs) ∷ add_subscriber s shard rest)

-- close
unfoldable pub close_subscriber : Subscriber → Subscriber
close_subscriber s = record s { closed = true; cancelled = true }

-- A message that was put into writeNormal.
unfoldable pub write_to : SandwichPayload → Subscriber → Subscriber
write_to msg s = record s { write_normal = s.write_normal ++ msg ∷ [] }

-- Sends to channels: all done; or waiting at a channel that is full, or a panic at one that is closed,
-- with what the sends before have changed.
pub data Sending (A : Type 0) : Type 0 where
  sent : A → Sending A
  full : A → Sending A
  broken : A → Sending A

abbrev pub onto : {A B : Type 0} → (A → B) → Sending A → Sending B
onto f (sent a) = sent (f a)
onto f (full a) = full (f a)
onto f (broken a) = broken (f a)

-- `s.writeNormal <- *msg`, with the length of the channels.
unfoldable pub send_normal : ℕ → SandwichPayload → Subscriber → Sending Subscriber
unfolding write_to
send_normal buffer msg s =
    if s.closed
    then broken s
    else if ltb (length s.write_normal) buffer
    then sent (write_to msg s)
    else full s

-- A send to each subscriber in turn, up to the first that is not done.
unfoldable pub to_each :
    (Subscriber → Sending Subscriber) → List Subscriber → Sending (List Subscriber)
to_each send [] = sent []
to_each send (s ∷ subs) =
    let rest : Sending (List Subscriber) = to_each send subs in
    elim (send s) [
      | sent t ↦ onto (λ ts. t ∷ ts) rest
      | full t ↦ full (t ∷ subs)
      | broken t ↦ broken (t ∷ subs)
    ]

-- invalidSession
unfoldable pub invalid_session : Bytes → Bool → Subscriber → Subscriber
invalid_session reason resumable s = record s {
  write_bytes =
      s.write_bytes
      ++ (if resumable then resumable_invalid_session else nonresumable_invalid_session) ∷ [];
  closing = s.closing ++ reason ∷ [];
}

-- The same with the channels' length: the text first, then the close message.
unfoldable pub send_invalid : ℕ → Bytes → Bool → Subscriber → Sending Subscriber
unfolding invalid_session
send_invalid buffer reason resumable s =
    if s.closed
    then broken s
    else if not (ltb (length s.write_bytes) buffer)
    then full s
    else if ltb (length s.closing) buffer
    then sent (invalid_session reason resumable s)
    else full (record (invalid_session reason resumable s) { closing = s.closing })

-- "Invalid Shard Count", without the number that follows
abbrev pub invalid_shard_count : Bytes
invalid_shard_count =
    73 ∷ 110 ∷ 118 ∷ 97 ∷ 108 ∷ 105 ∷ 100 ∷ 32 ∷ 83 ∷ 104 ∷ 97 ∷ 114 ∷ 100 ∷ 32 ∷ 67 ∷ 111 ∷ 117
    ∷ 110 ∷ 116 ∷ []

-- `x <= 0`
unfoldable pub is_not_positive : ℤ → Bool
is_not_positive (pos zero) = true
is_not_positive (pos (suc n)) = false
is_not_positive (negsuc n) = true

-- What publish does with the subscribers of one shard pair.
pub data Delivery : Type 0 where
  -- each gets the message
  delivered : Delivery
  skipped : Delivery
  -- the shard count of the pair is not positive: invalidSession
  refused : Delivery
  -- the payload has no identifier, which is dereferenced
  crashed : Delivery

-- `subShard[0] != shard[0]`
unfoldable pub by_shard : ShardPair → ShardPair → Delivery
unfolding ℤ_discrete
by_shard shard sub_shard = ite (ℤ_discrete sub_shard.0 shard.0) delivered skipped

-- The pair's shard count is not the message's, and the message is for a guild.
unfoldable pub by_guild : ShardPair → ShardPair → ℤ → Delivery
unfolding ℤ_discrete is_not_positive get_shard_id_of_guild
by_guild shard sub_shard guild_id =
    if is_not_positive sub_shard.1
    then refused
    else ite (ℤ_discrete (get_shard_id_of_guild guild_id sub_shard.1) shard.0) delivered skipped

unfoldable pub by_identifier : ShardPair → ShardPair → Option EventDispatchIdentifier → Delivery
unfolding by_shard by_guild
by_identifier shard sub_shard none = crashed
by_identifier shard sub_shard (some id) = elim id.guild_id [
  | none ↦ by_shard shard sub_shard
  | some guild_id ↦ by_guild shard sub_shard guild_id
]

unfoldable pub delivery : ShardPair → Option EventDispatchIdentifier → ShardPair → Delivery
unfolding by_shard by_identifier ℤ_discrete
delivery shard identifier sub_shard =
    ite (ℤ_discrete sub_shard.1 shard.1) (by_shard shard sub_shard)
      (by_identifier shard sub_shard identifier)

unfoldable pub deliver :
    ℕ → Delivery → SandwichPayload → List Subscriber → Sending (List Subscriber)
unfolding to_each send_normal send_invalid
deliver buffer delivered msg subs = to_each (send_normal buffer msg) subs
deliver buffer skipped msg subs = sent subs
deliver buffer refused msg subs = to_each (send_invalid buffer invalid_shard_count false) subs
deliver buffer crashed msg subs = broken subs

-- The loop goes on after an entry, or ends there.
unfoldable pub go_on :
    ShardPair → Sending (List Subscriber) → Subscribers → Sending Subscribers → Sending Subscribers
go_on k (sent subs) rest later = onto (λ others. (k, subs) ∷ others) later
go_on k (full subs) rest later = full ((k, subs) ∷ rest)
go_on k (broken subs) rest later = broken ((k, subs) ∷ rest)

-- publish
unfoldable pub publish : ℕ → ShardPair → SandwichPayload → Subscribers → Sending Subscribers
unfolding delivery deliver go_on
publish buffer shard msg [] = sent []
publish buffer shard msg ((k, subs) ∷ rest) =
    go_on k (deliver buffer (delivery shard msg.identifier k) msg subs) rest
      (publish buffer shard msg rest)

-- publishGlobal
unfoldable pub publish_global : ℕ → SandwichPayload → Subscribers → Sending Subscribers
unfolding deliver go_on
publish_global buffer msg [] = sent []
publish_global buffer msg ((k, subs) ∷ rest) =
    go_on k (deliver buffer delivered msg subs) rest (publish_global buffer msg rest)

-- Publish, of the client: a [3]int32 never has fewer than three entries.
unfoldable pub publish_packet : ℕ → SandwichPayload → Subscribers → Sending Subscribers
unfolding publish
publish_packet buffer packet subscribers =
    publish buffer (packet.metadata_shard.1, packet.metadata_shard.2) packet subscribers
