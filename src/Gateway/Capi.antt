-- ===== src/Gateway/Capi.antt =====
-- gateway/capi/capi.go: the Chat API gateway. The bot that speaks the protocol is a library: `Bot` has
-- what it answers. Where capi.go repeats bnet.go, the functions of Gateway/Bnet are used.
pub mod Handlers
pub mod Messages
pub mod Present
pub mod Entitled
use goop.Base.{
  ℕ, Bool, true, false, not, ◌&&◌, ◌||◌, List, [], ◌∷◌, ◌++◌, Option, none, some, Str, codes,
  str_eq, if◌then◌else◌, Error, no_user, no_permission, Result, ok, err,
}
use goop.Base.Int.{ℤ, pos, eq_ℤ}
use goop.Golang.Strings.{to_lower}
use goop.Gateway.Access.{AccessLevel, access_default}
use goop.Gateway.Common.{User, Channel, TriggerConfig}
use goop.Gateway.Find.{access_of}
use goop.Gateway.Events.{Event, config_update, user_event}
use goop.Gateway.Bnet.{override, with_access}

-- A user of the bot, with the answer of `Operator`.
pub record BotUser : Type 0 where
  pub user_id : ℤ
  pub username : Str
  pub operator : Bool

pub record Bot : Type 0 where
  pub channel : Str
  pub users : List (ℤ × BotUser)
  pub user : ℤ → Option BotUser

-- GatewayConfig
pub record CapiConfig : Type 0 where
  pub commands : TriggerConfig
  pub avatar_default_url : Str
  pub access_whisper : AccessLevel
  pub access_talk : AccessLevel
  pub access_operator : AccessLevel
  pub access_user : List (Str × AccessLevel)

-- Gateway: `users` and `name`, with the configuration.
pub record Capi : Type 0 where
  pub config : CapiConfig
  pub users : List (Str × ℤ)
  pub name : Str

-- The bot's own ID.
abbrev pub is_self : ℤ → Bool
is_self id = eq_ℤ id (pos 1)

-- `b.users[k]`
unfoldable pub find_id : Str → List (Str × ℤ) → Option ℤ
find_id k [] = none
find_id k ((j, id) ∷ m) = if str_eq j k then some id else find_id k m

module _ (c : CapiConfig) where
  -- userFromCapi
  unfoldable pub user_from_capi : BotUser → User
  unfolding override
  user_from_capi u =
      let id = to_lower u.username in
      let talk = if u.operator then override c.access_operator c.access_talk else c.access_talk in
      record {
        id = id;
        name = u.username;
        access = override (access_of c.access_user id) talk;
        avatar_url = c.avatar_default_url;
      }

  abbrev pub unknown_user : User
  unknown_user = record {
    id = [];
    name = [];
    access = c.access_talk;
    avatar_url = c.avatar_default_url;
  }

  -- userFromID
  unfoldable pub user_from_id : Bot → ℤ → User
  unfolding user_from_capi
  user_from_id bot id = elim (bot.user id) [ none ↦ unknown_user | some u ↦ user_from_capi u ]

  -- ChannelUsers, which passes the bot itself over.
  unfoldable pub channel_users : List (ℤ × BotUser) → List User
  unfolding user_from_capi
  channel_users [] = []
  channel_users ((k, u) ∷ us) =
      if is_self k then channel_users us else user_from_capi u ∷ channel_users us

  unfoldable pub offline_user : Str → AccessLevel → Result User
  offline_user uid access =
      if eq_ℤ access access_default
      then err no_user
      else ok (record {
        id = to_lower uid;
        name = uid;
        access = access;
        avatar_url = c.avatar_default_url;
      })

-- Operator
unfoldable pub is_operator : Bot → Bool
is_operator bot = elim (bot.user (pos 1)) [ none ↦ false | some u ↦ u.operator ]

-- Channel
abbrev named_channel : Str → Option Channel
named_channel [] = none
named_channel (d ∷ s) = some (record { id = d ∷ s; name = d ∷ s })

unfoldable pub channel : Bot → Option Channel
channel bot = named_channel bot.channel

-- User
unfoldable pub user_by_uid : Bot → Capi → Str → Result User
unfolding find_id user_from_id offline_user
user_by_uid bot b uid = elim (find_id uid b.users) [
  | some id ↦ ok (user_from_id b.config bot id)
  | none ↦ offline_user b.config uid (access_of b.config.access_user (to_lower uid))
]

abbrev update_of : Bot → CapiConfig → Option ℤ → List Event
update_of bot c none = []
update_of bot c (some id) = user_event (user_from_id c bot id) ∷ []

abbrev pub with_levels : List (Str × AccessLevel) → Capi → Capi
with_levels m b = record b { config = record b.config { access_user = m } }

-- What a call leaves behind: the gateway, and the events fired, the first one first.
abbrev set_level : Bot → Capi → Str → AccessLevel → Result AccessLevel × Capi × List Event
set_level bot b [] a = (err no_user, b, [])
set_level bot b (d ∷ s) a =
    let uid = d ∷ s in
    let b' = with_levels (with_access uid a b.config.access_user) b in
    (
      ok (access_of b.config.access_user uid),
      b',
      config_update ∷ update_of bot b'.config (find_id uid b.users),
    )

-- SetUserAccess
unfoldable pub set_user_access :
    Bot → Capi → Str → AccessLevel → Result AccessLevel × Capi × List Event
unfolding with_access find_id user_from_id
set_user_access bot b uid a = set_level bot b (to_lower uid) a

-- What a goroutine asks the bot for.
pub data Request : Type 0 where
  send_whisper : ℤ → Str → Request
  kick_user ban_user : ℤ → Request
  unban_user : Str → Request

abbrev request_for : (ℤ → Request) → Option ℤ → Result Request
request_for f none = err no_user
request_for f (some id) = ok (f id)

-- SayPrivate
unfoldable pub say_private : Capi → Str → Str → Result Request
unfolding find_id
say_private b uid s = request_for (λ id. send_whisper id s) (find_id uid b.users)

-- Kick
unfoldable pub kick : Bot → Capi → Str → Result Request
unfolding is_operator find_id
kick bot b uid =
    if is_operator bot then request_for kick_user (find_id uid b.users) else err no_permission

-- Ban
unfoldable pub ban : Bot → Capi → Str → Result Request
unfolding is_operator find_id
ban bot b uid =
    if is_operator bot then request_for ban_user (find_id uid b.users) else err no_permission

-- Unban
unfoldable pub unban : Bot → Str → Result Request
unfolding is_operator
unban bot uid = if is_operator bot then ok (unban_user uid) else err no_permission
