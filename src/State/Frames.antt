-- ===== src/State/Frames.antt =====
-- What the writes of internal/state.go leave alone: users, channels, emojis and members are kept in
-- caches of their own.
use sandwich_daemon.Base.{◌≡◌, refl, List, [], ◌∷◌, some, none, Option, arith}
use sandwich_daemon.CsMap.{CsMap}
use sandwich_daemon.Cache
use sandwich_daemon.DoubleCache
use sandwich_daemon.Discord.{Snowflake, Slice, User, Channel, Emoji, GuildMember, items}
use sandwich_daemon.State.{SandwichState, StateCtx, Env, same_id}
use sandwich_daemon.State.Users.{set_user}
use sandwich_daemon.State.Members.{put_guild_member}
use sandwich_daemon.State.Channels.{set_users, set_guild_channel}
use sandwich_daemon.State.Emojis.{set_emoji_user, set_emoji_users, set_guild_emojis}

module _ ⦃lib : CsMap⦄ (env : Env) (ctx : StateCtx) where
  pub set_user_frame :
      (u : User) (ss : SandwichState)
      → set_user env ctx u ss ≡ record ss { users = (set_user env ctx u ss).users }
  unfolding set_user
  set_user_frame u ss = ground arith

  pub set_users_frame :
      (us : List User) (ss : SandwichState)
      → set_users env ctx us ss ≡ record ss { users = (set_users env ctx us ss).users }
  unfolding set_users
  set_users_frame [] ss = refl
  set_users_frame (u ∷ us) ss =
      ground (arith, set_users_frame us (set_user env ctx u ss), set_user_frame u ss)

  set_emoji_user_frame :
      (o : Option User) (ss : SandwichState)
      → set_emoji_user env ctx o ss ≡ record ss { users = (set_emoji_user env ctx o ss).users }
  unfolding set_emoji_user
  set_emoji_user_frame none ss = refl
  set_emoji_user_frame (some u) ss = set_user_frame u ss

  set_emoji_users_frame :
      (es : List Emoji) (ss : SandwichState)
      → set_emoji_users env ctx es ss ≡ record ss { users = (set_emoji_users env ctx es ss).users }
  unfolding set_emoji_users
  set_emoji_users_frame [] ss = refl
  set_emoji_users_frame (e ∷ es) ss = ground (
    arith,
    set_emoji_users_frame es (set_emoji_user env ctx e.user ss),
    set_emoji_user_frame e.user ss,
  )

  pub set_guild_channel_frame :
      (guild_id : Snowflake) (c : Channel) (ss : SandwichState)
      → set_guild_channel env ctx guild_id c ss ≡ record ss {
        guild_channels =
            DoubleCache.store same_id same_id ss.guild_channels guild_id c.id
              (record c { guild_id = some guild_id });
        users = (set_guild_channel env ctx guild_id c ss).users;
      }
  unfolding set_guild_channel
  set_guild_channel_frame guild_id c ss = set_users_frame c.recipients _

  pub set_guild_emojis_frame :
      (guild_id : Snowflake) (es : Slice Emoji) (ss : SandwichState)
      → set_guild_emojis env ctx guild_id es ss ≡ record ss {
        guild_emojis = Cache.store same_id ss.guild_emojis guild_id es;
        users = (set_guild_emojis env ctx guild_id es ss).users;
      }
  unfolding set_guild_emojis
  set_guild_emojis_frame guild_id es ss = set_emoji_users_frame (items es) _

  pub put_guild_member_frame :
      (guild_id : Snowflake) (m : GuildMember) (u : User) (ss : SandwichState)
      → put_guild_member env ctx guild_id m u ss ≡ record ss {
        guild_members = DoubleCache.store same_id same_id ss.guild_members guild_id u.id m;
        users = (put_guild_member env ctx guild_id m u ss).users;
      }
  unfolding put_guild_member
  put_guild_member_frame guild_id m u ss = set_user_frame u _
