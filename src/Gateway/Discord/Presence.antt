-- ===== src/Gateway/Discord/Presence.antt =====
-- gateway/discord/discord.go: who is online, and the joins and leaves that are fired for the channels.
pub mod Tracking
use goop.Base.{
  ℕ, Bool, true, false, not, ◌&&◌, ◌||◌, List, [], ◌∷◌, ◌++◌, Option, none, some, Str, codes,
  str_eq, if◌then◌else◌, Error, invalid_guild, Result, ok, err,
}
use goop.Gateway.Access.{access_min}
use goop.Gateway.Common.{User}
use goop.Gateway.Events.{
  Event, connected, disconnected, clear, async_error, channel_event, join_event, leave_event,
  user_event,
}
use goop.Gateway.Bnet.{delete, insert}
use goop.Gateway.Discord.Users.{Account, Session, DiscordChannel, channel_user, discord_channel}

-- The fields `users`, `guilds` and `Channels` of the gateway.
pub record Tracked : Type 0 where
  pub users : List Str
  pub guilds : List (Str × List Str)
  pub channels : List (Str × DiscordChannel)

-- discordgo.Presence: whether the status is offline.
pub record Presence : Type 0 where
  pub account : Account
  pub offline : Bool

-- An event fired on the gateway, or on a channel by its ID.
pub data Fired : Type 0 where
  here : Event → Fired
  on_channel : Str → Event → Fired

-- A set of IDs.
unfoldable pub has_user : Str → List Str → Bool
has_user k [] = false
has_user k (j ∷ l) = str_eq j k || has_user k l

unfoldable pub drop_user : Str → List Str → List Str
drop_user k [] = []
drop_user k (j ∷ l) = if str_eq j k then drop_user k l else j ∷ drop_user k l

unfoldable pub find_channel : Str → List (Str × DiscordChannel) → Option DiscordChannel
find_channel k [] = none
find_channel k ((j, c) ∷ m) = if str_eq j k then some c else find_channel k m

-- `d.guilds[id]`
unfoldable pub channels_of : Str → List (Str × List Str) → List Str
channels_of k [] = []
channels_of k ((j, ids) ∷ m) = if str_eq j k then ids else channels_of k m

abbrev report : Str → Error → Fired
report src e = here (async_error src e)

module _ (d : Session) (p : Presence) where
  abbrev announce : Str → User → Fired
  announce cid u = on_channel cid (if p.offline then leave_event u else join_event u)

  -- A user who is online and is not found is taken to have left the guild.
  abbrev departed : User
  departed = record {
    id = p.account.id;
    name = p.account.username;
    access = access_min;
    avatar_url = [];
  }

  abbrev announce_found : Bool → Str → Result (Option User) → Bool × List Fired
  announce_found online cid (ok none) = (false, [])
  announce_found online cid (ok (some u)) = (true, announce cid u ∷ [])
  announce_found true cid (err e) = (true, announce cid departed ∷ [])
  announce_found false cid (err e) = (false, report (codes "updatePresence[user]") e ∷ [])

  abbrev check_view : Bool → Str → DiscordChannel → Result Bool → Bool × List Fired
  check_view true cid c view = announce_found true cid (channel_user d c p.account.id)
  check_view false cid c (err e) = (false, report (codes "updatePresence[permissions]") e ∷ [])
  check_view false cid c (ok false) = (false, [])
  check_view false cid c (ok true) = announce_found false cid (channel_user d c p.account.id)

  -- The body of the loop, for a channel that the gateway knows: `guilds` names no other.
  abbrev visit : Bool → Str → Option DiscordChannel → Bool × List Fired
  visit online cid none = (false, [])
  visit online cid (some c) = check_view online cid c (d.may_view p.account.id cid)

  -- The loop over the channels of the guild: `track`, and what is fired.
  unfoldable pub visit_all : List (Str × DiscordChannel) → Bool → List Str → Bool × List Fired
  unfolding find_channel channel_user
  visit_all channels online [] = (false, [])
  visit_all channels online (cid ∷ cids) =
      let first = visit online cid (find_channel cid channels) in
      let rest = visit_all channels online cids in (first.0 || rest.0, first.1 ++ rest.1)

  abbrev tracked_after : List Str → Bool → List Str
  tracked_after users track =
      if p.offline
      then drop_user p.account.id users
      else if track
      then p.account.id ∷ users
      else users

  -- updatePresence
  unfoldable pub update_presence : Str → Tracked → Tracked × List Fired
  unfolding has_user channels_of visit_all
  update_presence guild s =
      let online = has_user p.account.id s.users in
      let seen = visit_all s.channels online (channels_of guild s.guilds) in
      if p.account.bot
      then (s, [])
      else if (if p.offline then not online else online)
      then (s, [])
      else (record s { users = tracked_after s.users seen.0 }, seen.1)

-- The loops over presences.
unfoldable pub update_presences : Session → Str → List Presence → Tracked → Tracked × List Fired
unfolding update_presence
update_presences d guild [] s = (s, [])
update_presences d guild (p ∷ ps) s =
    let first = update_presence d p guild s in
    let rest = update_presences d guild ps first.0 in (rest.0, first.1 ++ rest.1)

-- clear
abbrev clear_each : List (Str × DiscordChannel) → List Fired
clear_each [] = []
clear_each ((cid, c) ∷ m) = on_channel cid clear ∷ clear_each m

unfoldable pub clear_tracked : Tracked → Tracked × List Fired
clear_tracked s = (record s { users = [] }, here clear ∷ clear_each s.channels)

-- onConnect
abbrev pub on_connect : List Fired
on_connect = here connected ∷ []

-- onDisconnect
unfoldable pub on_disconnect : Tracked → Tracked × List Fired
unfolding clear_tracked
on_disconnect s = let (s', evs) = clear_tracked s in (s', here disconnected ∷ evs)

-- discordgo.Guild: channels with the ID of their guild, and presences.
pub record Guild : Type 0 where
  pub id : Str
  pub channels : List (Str × Str)
  pub presences : List Presence

abbrev put_channel :
    Str → DiscordChannel → List (Str × DiscordChannel) → List (Str × DiscordChannel)
put_channel k c m = insert k c m

-- The body of the loop of onGuildCreate, for a channel with the ID `cid` of the guild `gid`.
abbrev enter_channel : Session → Str → Str → Option DiscordChannel → Tracked → Tracked × List Fired
enter_channel d cid gid none s = (s, [])
enter_channel d cid gid (some c) s =
    let c' = record c { guild_id = gid } in
    (
      record s {
        guilds = insert gid (channels_of gid s.guilds ++ cid ∷ []) s.guilds;
        channels = put_channel cid c' s.channels;
      },
      (if str_eq c.guild_id gid then [] else report (codes "onGuildCreate") invalid_guild ∷ [])
          ++ on_channel cid (channel_event (discord_channel d c')) ∷ [],
    )

unfoldable pub enter_channels : Session → List (Str × Str) → Tracked → Tracked × List Fired
unfolding insert channels_of find_channel discord_channel
enter_channels d [] s = (s, [])
enter_channels d ((cid, gid) ∷ chs) s =
    let first = enter_channel d cid gid (find_channel cid s.channels) s in
    let rest = enter_channels d chs first.0 in (rest.0, first.1 ++ rest.1)

-- onGuildCreate
unfoldable pub on_guild_create : Session → Guild → Tracked → Tracked × List Fired
unfolding enter_channels update_presences delete
on_guild_create d g s =
    let entered = enter_channels d g.channels (record s { guilds = delete g.id s.guilds }) in
    let updated = update_presences d g.id g.presences entered.0 in
    (updated.0, entered.1 ++ updated.1)

unfoldable pub on_guilds : Session → List Guild → Tracked → Tracked × List Fired
unfolding on_guild_create
on_guilds d [] s = (s, [])
on_guilds d (g ∷ gs) s =
    let first = on_guild_create d g s in
    let rest = on_guilds d gs first.0 in (rest.0, first.1 ++ rest.1)

-- onReady
unfoldable pub on_ready : Session → List Guild → Tracked → Tracked × List Fired
unfolding clear_tracked on_guilds
on_ready d gs s =
    let cleared = clear_tracked s in
    let entered = on_guilds d gs cleared.0 in (entered.0, cleared.1 ++ entered.1)

-- onGuildUpdate
unfoldable pub on_guild_update : Session → Guild → Tracked → Tracked × List Fired
unfolding update_presences
on_guild_update d g s = update_presences d g.id g.presences s

abbrev changed : Str → Result (Option User) → List Fired
changed cid (err e) = []
changed cid (ok none) = []
changed cid (ok (some u)) = on_channel cid (user_event u) ∷ []

abbrev changed_on : Session → Str → Str → Option DiscordChannel → List Fired
changed_on d uid cid none = []
changed_on d uid cid (some c) = changed cid (channel_user d c uid)

unfoldable pub change_each : Session → Str → List (Str × DiscordChannel) → List Str → List Fired
unfolding find_channel channel_user
change_each d uid channels [] = []
change_each d uid channels (cid ∷ cids) =
    changed_on d uid cid (find_channel cid channels) ++ change_each d uid channels cids

-- onGuildMemberUpdate
unfoldable pub on_guild_member_update : Session → Str → Str → Tracked → List Fired
unfolding has_user change_each channels_of
on_guild_member_update d guild uid s =
    if has_user uid s.users then change_each d uid s.channels (channels_of guild s.guilds) else []

-- onGuildMemberRemove
unfoldable pub on_guild_member_remove : Session → Str → Account → Tracked → Tracked × List Fired
unfolding update_presence
on_guild_member_remove d guild a s =
    update_presence d (record { account = a; offline = true }) guild s

-- onPresenceUpdate
unfoldable pub on_presence_update : Session → Str → Presence → Tracked → Tracked × List Fired
unfolding update_presence
on_presence_update d guild p s = update_presence d p guild s
