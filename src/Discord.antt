-- ===== src/Discord.antt =====
-- The structures of discord/ that the daemon keeps in its state: guild.go, user.go, channel.go,
-- role.go, emoji.go, sticker.go and types.go. A record holds the fields that the modelled code reads
-- or writes; a pointer that may be nil, and a slice where nil and empty differ, is an `Option`.
use sandwich_daemon.Base.{ℕ, Bool, Option, none, some, List, [], String, ℤ, pos}

-- An int64: GuildID, ChannelID, UserID, RoleID and EmojiID are all Snowflakes.
abbrev pub Snowflake : Type 0
Snowflake = ℤ

-- The value 0, which stands for "no id" (IsNil).
abbrev pub nil_id : Snowflake
nil_id = pos 0

abbrev pub Slice : Type 0 → Type 0
Slice A = Option (List A)

-- What `range` goes through: a nil slice has no elements.
abbrev pub items : {A : Type 0} → Slice A → List A
items none = []
items (some l) = l

pub record User : Type 0 where
  pub id : Snowflake
  pub username : String

pub record GuildMember : Type 0 where
  pub user : Option User
  pub guild_id : Option Snowflake
  pub nick : String
  pub joined_at : String

pub record VoiceState : Type 0 where
  pub guild_id : Option Snowflake
  pub member : Option GuildMember
  pub user_id : Snowflake
  pub channel_id : Snowflake

pub record Channel : Type 0 where
  pub id : Snowflake
  pub guild_id : Option Snowflake
  pub last_pin_timestamp : Option String
  pub recipients : List User
  pub member_count : ℤ
  pub kind : ℕ

pub record Role : Type 0 where
  pub id : Snowflake
  pub name : String

pub record Emoji : Type 0 where
  pub id : Snowflake
  pub user : Option User
  pub name : String

pub record Sticker : Type 0 where
  pub id : Snowflake

pub record StageInstance : Type 0 where
  pub id : Snowflake

pub record Guild : Type 0 where
  pub id : Snowflake
  pub afk_channel_id : Option Snowflake
  pub joined_at : String
  pub stickers : Slice Sticker
  pub stage_instances : Slice StageInstance
  pub roles : Slice Role
  pub emojis : Slice Emoji
  pub voice_states : Slice VoiceState
  pub members : Slice GuildMember
  pub channels : Slice Channel
  pub approximate_member_count : ℤ
  pub member_count : ℤ
  pub large : Bool

-- The zero values that Go returns beside `false`.
abbrev pub no_user : User
no_user = record { id = nil_id; username = "" }

abbrev pub no_member : GuildMember
no_member = record { user = none; guild_id = none; nick = ""; joined_at = "" }

abbrev pub no_voice_state : VoiceState
no_voice_state = record { guild_id = none; member = none; user_id = nil_id; channel_id = nil_id }

abbrev pub no_channel : Channel
no_channel = record {
  id = nil_id;
  guild_id = none;
  last_pin_timestamp = none;
  recipients = [];
  member_count = pos 0;
  kind = 0;
}

abbrev pub no_role : Role
no_role = record { id = nil_id; name = "" }

abbrev pub no_emoji : Emoji
no_emoji = record { id = nil_id; user = none; name = "" }

abbrev pub no_guild : Guild
no_guild = record {
  id = nil_id;
  afk_channel_id = none;
  joined_at = "";
  stickers = none;
  stage_instances = none;
  roles = none;
  emojis = none;
  voice_states = none;
  members = none;
  channels = none;
  approximate_member_count = pos 0;
  member_count = pos 0;
  large = Bool.false;
}
