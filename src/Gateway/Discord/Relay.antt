-- ===== src/Gateway/Discord/Relay.antt =====
-- gateway/discord/channel.go: what a relayed event says in a Discord channel. A text is a list of code
-- points, until it is sent: then it is the list of its bytes in UTF-8, whose number Go's `len` gives.
pub mod Length
use goop.Base.{
  ℕ, zero, suc, ◌+◌, ◌-◌, ◌*◌, ◌/◌, ◌%◌, ◌≡◌, refl, Bool, true, false, not, ◌&&◌, ◌||◌, List, [],
  ◌∷◌, ◌++◌, Option, none, some, Str, codes, length, take, str_eq, ltb, leb, if◌then◌else◌, ◌==◌,
  Error, unknown_event, say_buffer_full, Result, ok, err,
}
use goop.Golang.Strings.{has_prefix}
use goop.Golang.Strconv.{itoa}
use goop.Gateway.Access.{AccessLevel, access_default}
use goop.Gateway.Common.{User, delimiter}
use goop.Gateway.Api.{Gateway}
use goop.Gateway.Events.{
  Event, config_update, connected, disconnected, clear, async_error, system_message, channel_event,
  chat_event, private_chat_event, say_event, join_event, leave_event, user_event, trigger_event,
}
use goop.Gateway.Discord.JoinMode.{JoinMode}
use goop.Gateway.Discord.Online.{
  Online, Badge, swords, star, speaker, muted, poo, badge, relay_online, lists_joins,
}
use goop.Gateway.Discord.Users.{Account, Session, DiscordChannel}
use goop.Gateway.Discord.Mentions.{GuildNames, parse, zero_width}

-- The bytes of a code point in UTF-8.
abbrev utf8_char : ℕ → List ℕ
utf8_char c =
    if ltb c 0x80
    then c ∷ []
    else if ltb c 0x800
    then (0xC0 + c / 64) ∷ (0x80 + c % 64) ∷ []
    else if ltb c 0x10000
    then (0xE0 + c / 4096) ∷ (0x80 + c / 64 % 64) ∷ (0x80 + c % 64) ∷ []
    else (0xF0 + c / 262144) ∷ (0x80 + c / 4096 % 64) ∷ (0x80 + c / 64 % 64) ∷ (0x80 + c % 64) ∷ []

unfoldable pub utf8 : Str → List ℕ
utf8 [] = []
utf8 (c ∷ s) = utf8_char c ++ utf8 s

-- `if len(s) > 2000 { s = s[:1997] + "..." }`, on bytes.
unfoldable pub truncate : List ℕ → List ℕ
truncate s = if ltb 2000 (length s) then take 1997 s ++ codes "..." else s

-- discordgo.WebhookParams; the content is bytes.
pub record WebhookParams : Type 0 where
  pub content : List ℕ
  pub username : Str
  pub avatar_url : Str

-- What goes into a buffer: that of `say`, or that of the webhook.
pub data Post : Type 0 where
  text : List ℕ → Post
  hook : WebhookParams → Post

abbrev with_name : Str → List ℕ → List ℕ
with_name [] s = s
with_name (c ∷ name) s = codes "**<" ++ utf8 (c ∷ name) ++ codes ">** " ++ s

abbrev post_to : Str → WebhookParams → Post
post_to [] p = text (with_name p.username p.content)
post_to (c ∷ webhook) p = hook p

-- WebhookOrSay: what it puts into which buffer.
unfoldable pub webhook_or_say : Str → WebhookParams → Post
unfolding truncate utf8
webhook_or_say webhook p = post_to webhook (record p { content = truncate p.content })

-- What the readers of the buffers send: that of `say` cuts a text that is too long.
unfoldable pub sent_content : Post → List ℕ
unfolding truncate
sent_content (text s) = truncate s
sent_content (hook p) = p.content

-- `RelayJoins == 0 || RelayJoins & RelayJoinsSay != 0`
unfoldable pub says_joins : JoinMode → Bool
says_joins mode = mode == 0 || mode % 2 == 1

abbrev say_out : Str → Result (Option Post)
say_out s = ok (some (text (utf8 s)))

abbrev avatar_of : Option Account → Str
avatar_of none = []
avatar_of (some a) = a.avatar_url

-- Relay, but for the list of users online; `own_id` is the ID of the channel's gateway, and
-- `error_text` is the method Error of AsyncError.
module _ (error_text : Str → Error → Str) (d : Session) (c : DiscordChannel) (own_id : Str)
    (guild : Option GuildNames) (from : Gateway) where
  abbrev unless_parent : Str → Result (Option Post)
  unless_parent s = if has_prefix (from.id ++ delimiter ∷ []) own_id then ok none else say_out s

  abbrev if_joins_said : Str → Result (Option Post)
  if_joins_said s = if says_joins c.relay_joins then say_out s else ok none

  abbrev at_discriminator : Str → Str
  at_discriminator name = name ++ codes "@" ++ from.discriminator

  abbrev hooked : Str → AccessLevel → Str → Str → Result (Option Post)
  hooked content access username avatar = ok (
      some (
        webhook_or_say c.webhook (record {
          content = utf8 (parse c.access_mentions guild content access);
          username = username;
          avatar_url = avatar;
        })))

  unfoldable pub relay_post : Event → Result (Option Post)
  unfolding utf8 says_joins webhook_or_say parse
  relay_post connected =
      unless_parent (codes "🔗 *Established connection to `" ++ from.id ++ codes "`*")
  relay_post disconnected =
      unless_parent (codes "🔗 *Connection to `" ++ from.id ++ codes "` closed*")
  relay_post (async_error src e) =
      say_out (codes "❗ **" ++ from.discriminator ++ codes "** `ERROR` " ++ error_text src e)
  relay_post (system_message kind s) =
      say_out (codes "📢 **" ++ from.discriminator ++ codes "** `" ++ kind ++ codes "` " ++ s)
  relay_post (channel_event ch) =
      say_out (codes "💬 *Joined channel `" ++ at_discriminator ch.name ++ codes "`*")
  relay_post clear = ok none
  relay_post (join_event u) = if_joins_said (
      0x27A1 ∷ 0xFE0F ∷ codes " **" ++ at_discriminator u.name ++ codes "** has joined the channel")
  relay_post (user_event u) = ok none
  relay_post (leave_event u) =
      if_joins_said (
        0x2B05 ∷ 0xFE0F ∷ codes " **" ++ at_discriminator u.name ++ codes "** has left the channel")
  relay_post (private_chat_event u s) =
      hooked s u.access (at_discriminator u.name ++ codes " (Direct Message)") u.avatar_url
  relay_post (chat_event u s) = hooked s u.access (at_discriminator u.name) u.avatar_url
  relay_post (say_event s) = hooked s access_default from.discriminator (avatar_of d.self)
  relay_post config_update = err unknown_event
  relay_post (trigger_event t) = err unknown_event

-- fmtDuration, for a time that is not negative, in nanoseconds; Round takes half a second up.
unfoldable pub fmt_duration : ℕ → Str
fmt_duration ns =
    let s = (ns + 500000000) / 1000000000 in
    let m = s / 60 in
    let h = m / 60 in
    if ltb 0 h
    then itoa h ++ codes "h" ++ itoa (m - h * 60) ++ codes "m"
    else if ltb 0 m
    then itoa m ++ codes "m" ++ itoa (s - m * 60) ++ codes "s"
    else itoa s ++ codes "s"

-- The verb `%-15s`: blanks up to a number of code points.
unfoldable pub pad_right : ℕ → Str → Str
pad_right zero s = s
pad_right (suc n) [] = b' ' ∷ pad_right n []
pad_right (suc n) (c ∷ s) = c ∷ pad_right n s

abbrev badge_text : Badge → Str
badge_text swords = codes "⚔"
badge_text star = codes "⭐"
badge_text speaker = codes "🔈"
badge_text muted = codes "🔇"
badge_text poo = codes "💩"

unfoldable pub online_line : ℕ → Online → Str
unfolding badge pad_right fmt_duration
online_line now o =
    badge_text (badge o.user.access)
    ++ codes " `"
    ++ pad_right 15 o.user.name
    ++ codes "@"
    ++ pad_right 7 o.discr
    ++ zero_width ∷ codes "` *"
    ++ fmt_duration (now - o.since)
    ++ codes "*\n"

-- The loop over the list, which ends before the text is too long.
unfoldable pub online_lines : ℕ → List Online → List ℕ → List ℕ
unfolding online_line utf8
online_lines now [] content = content
online_lines now (o ∷ os) content =
    let line = utf8 (online_line now o) in
    let rest = online_lines now os (content ++ line) in
    if leb 2000 (length content + length line) then content else rest

-- The message of updateOnline.
unfoldable pub online_content : ℕ → List Online → List ℕ
unfolding online_lines utf8
online_content now os =
    let n = length os in
    let head =
      codes "__💬 **Online**: "
      ++ itoa n
      ++ codes " user"
      ++ (if n == 1 then [] else codes "s")
      ++ codes "__\n\n" in
    online_lines now os (utf8 head) ++ utf8 (zero_width ∷ [])

-- The events on which Relay calls updateOnline.
abbrev changes_online : Event → Bool
changes_online clear = true
changes_online (join_event u) = true
changes_online (user_event u) = true
changes_online (leave_event u) = true
changes_online ev = false

-- The list that is sent, or put in the place of the one sent before, for a relayed event.
unfoldable pub online_post :
    (List Online → List Online) → JoinMode → Gateway → ℕ → Event → List Online → Option (List ℕ)
unfolding online_content relay_online lists_joins
online_post sort mode from now ev os =
    if lists_joins mode && changes_online ev
    then some (online_content now (relay_online sort mode from.id from.discriminator now ev os))
    else none

fmt_duration_runs :
    (fmt_duration 59499999999 ≡ codes "59s")
    × (fmt_duration 59500000000 ≡ codes "1m0s")
    × (fmt_duration 7384000000000 ≡ codes "2h3m")
unfolding fmt_duration itoa
fmt_duration_runs = (refl, refl, refl)
