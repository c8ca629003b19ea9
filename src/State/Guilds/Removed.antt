-- ===== src/State/Guilds/Removed.antt =====
-- RemoveGuild of internal/state.go: what is gone, and what stays.
use sandwich_daemon.Base.{◌≡◌, ◌≢◌, refl, none, false, arith}
use sandwich_daemon.CsMap.{CsMap}
use sandwich_daemon.Cache
use sandwich_daemon.Cache.Laws
use sandwich_daemon.DoubleCache
use sandwich_daemon.DoubleCache.Edits
use sandwich_daemon.Discord.{Snowflake, no_guild}
use sandwich_daemon.State.{SandwichState, same_id}
use sandwich_daemon.State.Members.{remove_all_guild_members}
use sandwich_daemon.State.Roles.{get_guild_role, remove_all_guild_roles}
use sandwich_daemon.State.Emojis.{get_all_guild_emojis, remove_all_guild_emojis}
use sandwich_daemon.State.Channels.{get_guild_channel, remove_all_guild_channels}
use sandwich_daemon.State.Guilds.{get_guild, remove_guild_state}

module _ ⦃lib : CsMap⦄ (guild_id : Snowflake) (ss : SandwichState) where
  module _ (id : Snowflake) where
    -- After RemoveGuild nothing of the guild is found: not the guild, and no role, channel, emoji list
    -- or member of it.
    pub remove_guild_state-gone :
        (get_guild (remove_guild_state guild_id ss) guild_id ≡ (no_guild, false))
        × (get_guild_role (remove_guild_state guild_id ss) guild_id id ≡ none)
        × (get_guild_channel (remove_guild_state guild_id ss) guild_id id ≡ none)
        × (get_all_guild_emojis (remove_guild_state guild_id ss) guild_id ≡ none)
        × (DoubleCache.load same_id same_id
              (remove_guild_state guild_id ss).guild_members
              guild_id
              id
            ≡ none)
    unfolding get_guild get_guild_role get_guild_channel get_all_guild_emojis remove_guild_state
        remove_all_guild_members remove_all_guild_channels remove_all_guild_roles
        remove_all_guild_emojis
    remove_guild_state-gone = (
      ground (arith, Cache.Laws.load-delete same_id ss.guilds guild_id guild_id),
      ground (arith, Edits.load-clear_key same_id same_id ss.guild_roles guild_id guild_id id),
      ground (arith, Edits.load-clear_key same_id same_id ss.guild_channels guild_id guild_id id),
      ground (arith, Cache.Laws.load-delete same_id ss.guild_emojis guild_id guild_id),
      ground (arith, Edits.load-clear_key same_id same_id ss.guild_members guild_id guild_id id),
    )

    -- RemoveGuild leaves every other guild's entry, roles, channels, emojis and members as they were,
    -- and the voice states of all guilds, the removed one's included, as they were.
    pub remove_guild_state-others :
        (other : Snowflake)
        → guild_id ≢ other
        → (Cache.load same_id (remove_guild_state guild_id ss).guilds other
            ≡ Cache.load same_id ss.guilds other)
          × (get_guild_role (remove_guild_state guild_id ss) other id ≡ get_guild_role ss other id)
          × (DoubleCache.load same_id same_id
                (remove_guild_state guild_id ss).guild_channels
                other
                id
              ≡ DoubleCache.load same_id same_id ss.guild_channels other id)
          × (get_all_guild_emojis (remove_guild_state guild_id ss) other
              ≡ get_all_guild_emojis ss other)
          × (DoubleCache.load same_id same_id
                (remove_guild_state guild_id ss).guild_members
                other
                id
              ≡ DoubleCache.load same_id same_id ss.guild_members other id)
          × ((remove_guild_state guild_id ss).guild_voice_states ≡ ss.guild_voice_states)
    unfolding get_guild_role get_all_guild_emojis remove_guild_state remove_all_guild_members
        remove_all_guild_channels remove_all_guild_roles remove_all_guild_emojis
    remove_guild_state-others other h = (
      ground (arith, Cache.Laws.load-delete same_id ss.guilds guild_id other),
      ground (arith, Edits.load-clear_key same_id same_id ss.guild_roles guild_id other id),
      ground (arith, Edits.load-clear_key same_id same_id ss.guild_channels guild_id other id),
      ground (arith, Cache.Laws.load-delete same_id ss.guild_emojis guild_id other),
      ground (arith, Edits.load-clear_key same_id same_id ss.guild_members guild_id other id),
      refl,
    )
