-- ===== src/Gateway/Discord/Users.antt =====
-- gateway/discord/discord.go and gateway/discord/channel.go: users and their access, in a channel and in
-- direct messages. The session is a library: `Session` has what it answers.
pub mod Access
use goop.Base.{
  ℕ, ◌≡◌, refl, Bool, true, false, not, ◌&&◌, List, [], ◌∷◌, ◌++◌, Option, none, some, Str, codes,
  str_eq, if◌then◌else◌, ◌==◌, Error, no_user, Result, ok, err,
}
use goop.Base.Int.{eq_ℤ}
use goop.Golang.Strings.{to_lower, strip_prefix}
use goop.Golang.Strconv.{parse_uint10}
use goop.Gateway.Access.{AccessLevel, access_default}
use goop.Gateway.Common.{User, Channel, TriggerConfig}
use goop.Gateway.Find.{access_of}
use goop.Gateway.Events.{Event, config_update, user_event}
use goop.Gateway.Bnet.{override, with_access}
use goop.Gateway.Discord.JoinMode.{JoinMode}

-- discordgo.User, with its picture.
pub record Account : Type 0 where
  pub id : Str
  pub username : Str
  pub avatar_url : Str
  pub bot : Bool

-- discordgo.Member: the roles are their IDs.
pub record Member : Type 0 where
  pub account : Account
  pub nick : Str
  pub roles : List Str

-- What the session answers: the bot's own account, which is nil before the session is ready; by guild
-- and user ID a member, and whether that user is present and not offline; by guild and role ID the
-- name of a role; by user and channel ID whether the user may view the channel; the users present in a
-- guild; an account by its ID; and by channel ID the name that Channel gives.
pub record Session : Type 0 where
  pub self : Option Account
  pub member : Str → Str → Result Member
  pub is_present : Str → Str → Bool
  pub role : Str → Str → Result Str
  pub may_view : Str → Str → Result Bool
  pub presences : Str → Result (List Str)
  pub account : Str → Result Account
  pub channel_name : Str → Str

-- ChannelConfig, and the channel's `guildID`.
pub record DiscordChannel : Type 0 where
  pub guild_id : Str
  pub commands : TriggerConfig
  pub channel_id : Str
  pub webhook : Str
  pub relay_joins : JoinMode
  pub access_mentions : AccessLevel
  pub access_talk : AccessLevel
  pub access_role : List (Str × AccessLevel)
  pub access_user : List (Str × AccessLevel)

-- Config
pub record DiscordConfig : Type 0 where
  pub commands : TriggerConfig
  pub access_dm : AccessLevel
  pub access_user : List (Str × AccessLevel)

-- TrimPrefix with `<@`
abbrev or_whole : Str → Option Str → Str
or_whole s none = s
or_whole s (some rest) = rest

-- TrimSuffix with `>`
unfoldable pub trim_angle : Str → Str
trim_angle [] = []
trim_angle (c ∷ []) = if c == b'>' then [] else c ∷ []
trim_angle (c ∷ d ∷ s) = c ∷ trim_angle (d ∷ s)

unfoldable pub trim_mention : Str → Str
unfolding strip_prefix trim_angle
trim_mention uid = trim_angle (or_whole uid (strip_prefix (codes "<@") uid))

-- validateUID
abbrev no_error : Result ℕ → Option Error
no_error (ok n) = none
no_error (err e) = some no_user

unfoldable pub validate_uid : Str → Option Error
unfolding parse_uint10
validate_uid uid = no_error (parse_uint10 64 uid)

abbrev after_role : List (Str × AccessLevel) → Result Str → AccessLevel → AccessLevel
after_role levels (err e) res = res
after_role levels (ok name) res = override (access_of levels (to_lower name)) res

-- The loop over the roles of a member.
unfoldable pub role_access :
    Session → Str → List (Str × AccessLevel) → List Str → AccessLevel → AccessLevel
unfolding override
role_access d guild levels [] res = res
role_access d guild levels (rid ∷ rids) res =
    role_access d guild levels rids (after_role levels (d.role guild rid) res)

module _ (d : Session) (c : DiscordChannel) where
  abbrev nick_or : Str → Str → Str
  nick_or [] name = name
  nick_or (n ∷ nick) name = n ∷ nick

  unfoldable pub user_of_member : Member → User
  unfolding role_access
  user_of_member m = record {
    id = m.account.id;
    name = nick_or m.nick m.account.username;
    access =
        override (access_of c.access_user m.account.id)
          (role_access d c.guild_id c.access_role m.roles c.access_talk);
    avatar_url = m.account.avatar_url;
  }

  abbrev found_member : Result Member → Result (Option User)
  found_member (err e) = err e
  found_member (ok m) = if m.account.bot then ok none else ok (some (user_of_member m))

  -- User of a channel: a bot is nil.
  unfoldable pub channel_user : Str → Result (Option User)
  unfolding trim_mention user_of_member
  channel_user uid = found_member (d.member c.guild_id (trim_mention uid))

  abbrev add_found : Result (Option User) → List User → List User
  add_found (err e) us = us
  add_found (ok none) us = us
  add_found (ok (some u)) us = u ∷ us

  abbrev add_viewer : Str → Result Bool → List User → List User
  add_viewer uid (err e) us = us
  add_viewer uid (ok false) us = us
  add_viewer uid (ok true) us = add_found (channel_user uid) us

  -- The loop of ChannelUsers.
  unfoldable pub viewers : List Str → List User
  unfolding channel_user
  viewers [] = []
  viewers (uid ∷ uids) = add_viewer uid (d.may_view uid c.channel_id) (viewers uids)

  abbrev viewers_or_none : Result (List Str) → List User
  viewers_or_none (err e) = []
  viewers_or_none (ok uids) = viewers uids

  -- ChannelUsers
  unfoldable pub discord_users : List User
  unfolding viewers
  discord_users = viewers_or_none (d.presences c.guild_id)

  -- Channel
  unfoldable pub discord_channel : Channel
  discord_channel = record { id = c.channel_id; name = d.channel_name c.channel_id }

abbrev updated_user : Result (Option User) → List Event
updated_user (err e) = []
updated_user (ok none) = []
updated_user (ok (some u)) = user_event u ∷ []

abbrev set_valid :
    Session
    → DiscordChannel
    → Str
    → AccessLevel
    → Option Error
    → Result AccessLevel × DiscordChannel × List Event
set_valid d c uid a (some e) = (err e, c, [])
set_valid d c uid a none =
    let c' = record c { access_user = with_access uid a c.access_user } in
    (
      ok (access_of c.access_user uid),
      c',
      config_update
          ∷ (if d.is_present c.guild_id uid then updated_user (channel_user d c' uid) else []),
    )

-- SetUserAccess of a channel: the answer, the channel, and the events fired.
unfoldable pub set_channel_access :
    Session → DiscordChannel → Str → AccessLevel → Result AccessLevel × DiscordChannel × List Event
unfolding with_access validate_uid channel_user
set_channel_access d c uid a = set_valid d c uid a (validate_uid uid)

module _ (d : Session) (g : DiscordConfig) where
  -- The user of an account, in direct messages.
  unfoldable pub user_of_account : Account → User
  unfolding override
  user_of_account a = record {
    id = a.id;
    name = a.username;
    access = override (access_of g.access_user a.id) g.access_dm;
    avatar_url = a.avatar_url;
  }

  abbrev found_account : Result Account → Result User
  found_account (err e) = err e
  found_account (ok a) = ok (user_of_account a)

  abbrev valid_account : Str → Option Error → Result User
  valid_account uid (some e) = err e
  valid_account uid none = found_account (d.account uid)

  -- User of the gateway.
  unfoldable pub direct_user : Str → Result User
  unfolding trim_mention validate_uid user_of_account
  direct_user uid = valid_account (trim_mention uid) (validate_uid (trim_mention uid))

  abbrev set_direct :
      Str → AccessLevel → Option Error → Result AccessLevel × DiscordConfig × List Event
  set_direct uid a (some e) = (err e, g, [])
  set_direct uid a none = (
    ok (access_of g.access_user uid),
    record g { access_user = with_access uid a g.access_user },
    config_update ∷ [],
  )

  -- SetUserAccess of the gateway.
  unfoldable pub set_direct_access :
      Str → AccessLevel → Result AccessLevel × DiscordConfig × List Event
  unfolding with_access validate_uid
  set_direct_access uid a = set_direct uid a (validate_uid uid)
