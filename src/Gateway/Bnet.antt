-- ===== src/Gateway/Bnet.antt =====
-- gateway/bnet/bnet.go: the Battle.net gateway. The protocol's client is a library: `Client` has what
-- it answers.
pub mod Users
pub mod Levels
pub mod Bans
pub mod Persist
pub mod Queue
pub mod Address
pub mod Injection
pub mod Handlers
use goop.Base.{
  ℕ, zero, suc, ◌+◌, ◌≡◌, refl, Bool, true, false, not, ◌&&◌, ◌||◌, List, [], ◌∷◌, ◌++◌, map,
  Option, none, some, Str, codes, str_eq, length, drop, ltb, leb, ◌==◌, if◌then◌else◌, Error,
  no_user, no_permission, say_buffer_full, say_command, unknown_event, Result, ok, err,
}
use goop.Base.Int.{ℤ, pos, ltb_ℤ, leb_ℤ, eq_ℤ}
use goop.Golang.Strings.{to_lower, equal_fold, has_prefix, strip_prefix, replace_all}
use goop.Golang.Glob.{glob}
use goop.Gateway.Access.{AccessLevel, access_default, access_ban, access_whitelist}
use goop.Gateway.Common.{User, Channel, TriggerConfig}
use goop.Gateway.Trigger.{
  Parsed, Extracted, extracted, no_trigger, panics, extract_trigger, find_trigger, span,
}
use goop.Gateway.Find.{access_of}
use goop.Gateway.Api.{Trigger}
use goop.Gateway.Events.{
  Event, config_update, connected, disconnected, clear, async_error, system_message, channel_event,
  chat_event, private_chat_event, say_event, join_event, leave_event, user_event, trigger_event,
}

-- The first answer of `Stat`: no product, one of the three of Warcraft III, or another.
pub data Product : Type 0 where
  no_product warcraft other_product : Product

-- A user of the client, with the answers of `Stat` and `Operator`.
pub record ClientUser : Type 0 where
  pub name : Str
  pub product : Product
  pub icon : Str
  pub level : ℤ
  pub tag : Str
  pub operator : Bool

pub record Client : Type 0 where
  pub unique_name : Str
  pub channel : Str
  pub users : List ClientUser
  pub user : Str → Option ClientUser

-- GatewayConfig
pub record BnetConfig : Type 0 where
  pub commands : TriggerConfig
  pub avatar_icon_url : Str
  pub avatar_default_url : Str
  pub access_whisper : AccessLevel
  pub access_talk : AccessLevel
  pub access_no_warcraft : AccessLevel
  pub access_operator : AccessLevel
  pub access_level : List (ℤ × AccessLevel)
  pub access_clan_tag : List (Str × AccessLevel)
  pub access_user : List (Str × AccessLevel)

-- `if a != AccessDefault { res = a }`
unfoldable pub override : AccessLevel → AccessLevel → AccessLevel
override a res = if eq_ℤ a access_default then res else a

-- The loop over `AccessLevel`.
unfoldable pub level_access : List (ℤ × AccessLevel) → ℤ → ℤ → AccessLevel → AccessLevel
level_access [] lvl max res = res
level_access ((l, a) ∷ m) lvl max res =
    if leb_ℤ max l && leb_ℤ l lvl then level_access m lvl l a else level_access m lvl max res

module _ (b : BnetConfig) where
  unfoldable pub stat_access : ClientUser → Product → AccessLevel
  unfolding override level_access
  stat_access u no_product = b.access_talk
  stat_access u warcraft =
      override (access_of b.access_clan_tag u.tag)
        (level_access b.access_level u.level (pos 0) b.access_talk)
  stat_access u other_product = override b.access_no_warcraft b.access_talk

  unfoldable pub avatar_url : ClientUser → Product → Str
  avatar_url u warcraft =
      if str_eq b.avatar_icon_url []
      then b.avatar_default_url
      else replace_all (codes "${ICON}") u.icon b.avatar_icon_url
  avatar_url u _ = b.avatar_default_url

  -- user
  unfoldable pub user_of : ClientUser → User
  unfolding stat_access avatar_url
  user_of u =
      let id = to_lower u.name in
      let operator_access =
        if u.operator
        then override b.access_operator (stat_access u u.product)
        else stat_access u u.product in
      record {
        id = id;
        name = u.name;
        access = override (access_of b.access_user id) operator_access;
        avatar_url = avatar_url u u.product;
      }

module _ (c : Client) where
  -- Operator
  unfoldable pub is_operator : Bool
  is_operator = elim (c.user c.unique_name) [ none ↦ false | some u ↦ u.operator ]

  -- Channel
  unfoldable pub channel : Option Channel
  channel = elim c.channel [ [] ↦ none | d ∷ s ↦ some (record { id = d ∷ s; name = d ∷ s }) ]

  -- ChannelUsers
  unfoldable pub channel_users : BnetConfig → List User
  unfolding user_of
  channel_users b = map (user_of b) c.users

  unfoldable pub offline_user : BnetConfig → Str → AccessLevel → Result User
  offline_user b uid access =
      if eq_ℤ access access_default
      then err no_user
      else ok (record {
        id = to_lower uid;
        name = uid;
        access = access;
        avatar_url = b.avatar_default_url;
      })

  -- User
  unfoldable pub user_by_id : BnetConfig → Str → Result User
  unfolding user_of offline_user
  user_by_id b uid = elim (c.user uid) [
    | some u ↦ ok (user_of b u)
    | none ↦ offline_user b uid (access_of b.access_user (to_lower uid))
  ]

-- delete, and an assignment to a key, of a map.
unfoldable pub delete {ℓ} : {A : Type ℓ} → Str → List (Str × A) → List (Str × A)
delete k [] = []
delete k ((j, a) ∷ m) = if str_eq j k then delete k m else (j, a) ∷ delete k m

unfoldable pub insert {ℓ} : {A : Type ℓ} → Str → A → List (Str × A) → List (Str × A)
unfolding delete
insert k a m = (k, a) ∷ delete k m

unfoldable pub with_access : Str → AccessLevel → List (Str × AccessLevel) → List (Str × AccessLevel)
unfolding insert
with_access uid a m = if eq_ℤ a access_default then delete uid m else insert uid a m

-- What a call leaves behind: the configuration, and the events fired, the first one first.
abbrev update_event : BnetConfig → Option ClientUser → List Event
update_event b none = []
update_event b (some u) = user_event (user_of b u) ∷ []

abbrev set_known :
    Client → BnetConfig → Str → AccessLevel → Result AccessLevel × BnetConfig × List Event
set_known c b [] a = (err no_user, b, [])
set_known c b (d ∷ s) a =
    let b' = record b { access_user = with_access (d ∷ s) a b.access_user } in
    (ok (access_of b.access_user (d ∷ s)), b', config_update ∷ update_event b' (c.user (d ∷ s)))

-- SetUserAccess
unfoldable pub set_user_access :
    Client → BnetConfig → Str → AccessLevel → Result AccessLevel × BnetConfig × List Event
unfolding with_access user_of
set_user_access c b uid a = set_known c b (to_lower uid) a
