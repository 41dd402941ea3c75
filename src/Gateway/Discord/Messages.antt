-- ===== src/Gateway/Discord/Messages.antt =====
-- gateway/discord/discord.go: onMessageCreate. A message holds code points here.
pub mod Entitled
use goop.Base.{
  ℕ, zero, suc, Bool, true, false, not, ◌&&◌, ◌||◌, List, [], ◌∷◌, ◌++◌, Option, none, some, Str,
  codes, length, if◌then◌else◌, ◌==◌, Error, Result, ok, err,
}
use goop.Base.Int.{ltb_ℤ}
use goop.Golang.Strings.{strip_prefix}
use goop.Gateway.Common.{User, Responder, public, responder}
use goop.Gateway.Trigger.{Extracted, extracted, no_trigger, panics, find_trigger, span}
use goop.Gateway.Api.{Trigger}
use goop.Gateway.Events.{Event, async_error, chat_event, private_chat_event}
use goop.Gateway.Discord.Users.{
  Account, Session, DiscordChannel, DiscordConfig, channel_user, user_of_account,
}

-- `<a?:([^:]*):[^>]*>`: the first group, and what follows the match.
abbrev cut_first : Str × Str → Option (Str × Str)
cut_first (front, []) = none
cut_first (front, d ∷ rest) = some (front, rest)

abbrev until : ℕ → Str → Option (Str × Str)
until c s = cut_first (span (λ d. not (d == c)) s)

abbrev emoji_end : Option (Str × Str) → Option (Str × Str)
emoji_end none = none
emoji_end (some (name, s)) = elim (until b'>' s) [
  | none ↦ none
  | some (id, rest) ↦ some (name, rest)
]

abbrev emoji_name : Str → Option (Str × Str)
emoji_name [] = none
emoji_name (c ∷ s) = if c == b':' then emoji_end (until b':' s) else none

abbrev emoji_behind : Str → Option (Str × Str)
emoji_behind [] = none
emoji_behind (c ∷ s) = if c == b'a' then emoji_name s else emoji_name (c ∷ s)

unfoldable pub match_emoji : Str → Option (Str × Str)
unfolding span
match_emoji [] = none
match_emoji (c ∷ s) = if c == b'<' then emoji_behind s else none

-- ReplaceAllString with `:$1:`; a match takes at least one character, so the length is fuel enough.
unfoldable pub replace_emojis_from : ℕ → Str → Str
unfolding match_emoji
replace_emojis_from zero s = s
replace_emojis_from (suc fuel) [] = []
replace_emojis_from (suc fuel) (c ∷ s) = elim (match_emoji (c ∷ s)) [
  | none ↦ c ∷ replace_emojis_from fuel s
  | some (name, rest) ↦ b':' ∷ name ++ b':' ∷ replace_emojis_from fuel rest
]

unfoldable pub replace_emojis : Str → Str
unfolding replace_emojis_from
replace_emojis s = replace_emojis_from (length s) s

-- discordgo.Message; `with_names` is what ContentWithMoreMentionsReplaced gives, or its error.
pub record Message : Type 0 where
  pub content : Str
  pub author : Account
  pub channel_id : Str
  pub with_names : Result Str

abbrev or_content : Str → Result Str → Str
or_content s (err e) = s
or_content s (ok t) = t

-- replaceContentReferences
unfoldable pub replace_references : Message → Str
unfolding replace_emojis
replace_references msg = replace_emojis (or_content msg.content msg.with_names)

-- FindTrigger of a channel: `<@id> ` with the bot's own ID; its account is nil before it is ready.
abbrev find_addressed : Option Account → Str → Extracted → Extracted
find_addressed none s no_trigger = panics
find_addressed (some a) s no_trigger = find_trigger (codes "<@" ++ a.id ++ codes "> ") s
find_addressed self s found = found

unfoldable pub find_channel_trigger : Session → DiscordChannel → Str → Extracted
unfolding find_trigger
find_channel_trigger d c s = find_addressed d.self s (find_trigger c.commands.trigger s)

-- What is fired, on the gateway or on a channel, with where a trigger's answers go: to the channel of
-- the message itself, or by the Responder of the channel.
pub data Sent : Type 0 where
  event : Event → Sent
  direct_trigger : Trigger → Str → Sent
  channel_trigger : Trigger → Responder → Sent

pub data Place : Type 0 where
  gateway : Place
  channel : Str → Place

-- The kind of a channel that the gateway does not manage, or the error of looking it up.
abbrev report : Str → Error → Place × Sent
report src e = (gateway, event (async_error src e))

module _ (d : Session) (g : DiscordConfig) where
  abbrev pub direct_found : User → Str → Extracted → List (Place × Sent)
  direct_found u cid no_trigger = []
  direct_found u cid panics = []
  direct_found u cid (extracted p) =
      (gateway, direct_trigger (record { user = u; cmd = p.cmd; raw = p.raw; arg = p.arg }) cid)
      ∷ []

  -- A direct message.
  unfoldable pub on_direct : Message → List (Place × Sent)
  unfolding user_of_account replace_references
  on_direct msg =
      let u = user_of_account d g msg.author in
      (gateway, event (private_chat_event u (replace_references msg)))
      ∷ (if ltb_ℤ u.access g.commands.access
          then []
          else direct_found u msg.channel_id (find_trigger g.commands.trigger msg.content))

  abbrev on_unmanaged : Message → Result Bool → List (Place × Sent)
  on_unmanaged msg (err e) = report (codes "onMessageCreate[Channel]") e ∷ []
  on_unmanaged msg (ok false) = []
  on_unmanaged msg (ok true) = on_direct msg

  abbrev pub channel_found : DiscordChannel → User → Extracted → List (Place × Sent)
  channel_found c u no_trigger = []
  channel_found c u panics = []
  channel_found c u (extracted p) =
      (
        channel c.channel_id,
        channel_trigger (record { user = u; cmd = p.cmd; raw = p.raw; arg = p.arg })
            (responder c.commands u.id false),
      )
      ∷ []

  -- A message of a user in a channel.
  unfoldable pub on_channel_chat : DiscordChannel → Message → User → List (Place × Sent)
  unfolding replace_references find_channel_trigger responder
  on_channel_chat c msg u =
      (channel c.channel_id, event (chat_event u (replace_references msg)))
      ∷ (if ltb_ℤ u.access c.commands.access
          then []
          else channel_found c u (find_channel_trigger d c msg.content))

  abbrev on_managed : DiscordChannel → Message → Result (Option User) → List (Place × Sent)
  on_managed c msg (err e) = report (codes "onMessageCreate[user]") e ∷ []
  on_managed c msg (ok none) = []
  on_managed c msg (ok (some u)) = on_channel_chat c msg u

  abbrev on_message_in : Message → Option DiscordChannel → Result Bool → List (Place × Sent)
  on_message_in msg none direct = on_unmanaged msg direct
  on_message_in msg (some c) direct = on_managed c msg (channel_user d c msg.author.id)

  -- The handler, for a message in a channel that the gateway manages or in another one; `direct` says
  -- whether that one is for direct messages.
  unfoldable pub on_message_create :
      Message → Option DiscordChannel → Result Bool → List (Place × Sent)
  unfolding on_direct on_channel_chat channel_user
  on_message_create msg place direct = elim msg.content [
    | [] ↦ []
    | c ∷ s ↦ if msg.author.bot then [] else on_message_in msg place direct
  ]
