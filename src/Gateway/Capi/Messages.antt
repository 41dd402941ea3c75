-- ===== src/Gateway/Capi/Messages.antt =====
-- gateway/capi/capi.go: FindTrigger, and the handler of messages.
use goop.Base.{
  Bool, true, false, not, ◌&&◌, ◌||◌, List, [], ◌∷◌, ◌++◌, Option, none, some, Str, codes, str_eq,
  if◌then◌else◌, Error, Result,
}
use goop.Base.Int.{ℤ, ltb_ℤ}
use goop.Golang.Strings.{to_lower, equal_fold}
use goop.Golang.Glob.{glob}
use goop.Gateway.Access.{AccessLevel, access_default, access_ban, access_whitelist}
use goop.Gateway.Common.{User, Responder, responder}
use goop.Gateway.Trigger.{Extracted, extracted, no_trigger, panics, extract_trigger, find_trigger}
use goop.Gateway.Find.{access_of}
use goop.Gateway.Api.{Gateway, Trigger}
use goop.Gateway.Events.{Event, system_message, chat_event, private_chat_event}
use goop.Gateway.Bnet.Address.{cut_any, address}
use goop.Gateway.Bnet.Injection.{relay_text}
use goop.Gateway.Bnet.Bans.{find_banned, ban_verb, unban_verb}
use goop.Gateway.Capi.{Bot, Capi, is_operator, user_from_id, set_user_access}

-- The guard of FindTrigger on the name in front of the separator.
unfoldable pub is_named : Bot → Str → Str → Bool
is_named bot name pat =
    if not (equal_fold pat (codes "goop"))
      || equal_fold pat (codes "all")
      || (equal_fold pat (codes "ops") && is_operator bot)
    then glob pat name && not (str_eq name [])
    else true

unfoldable pub named_trigger : Bot → Str → Option (Str × Str) → Extracted
unfolding is_named
named_trigger bot name none = no_trigger
named_trigger bot name (some (pat, rest)) =
    if is_named bot name pat then extract_trigger rest else no_trigger

-- FindTrigger
unfoldable pub find_capi_trigger : Bot → Str → Str → Str → Extracted
unfolding named_trigger cut_any address
find_capi_trigger bot name trigger s = elim (find_trigger trigger s) [
  | no_trigger ↦ named_trigger bot name (address (cut_any s))
  | found ↦ found
]

-- MessageEventType, for the types that onMessageEvent tells apart; the others carry their name in
-- capitals, as MessageServerInfo does.
pub data MessageType : Type 0 where
  emote channel whisper : MessageType
  server_info other : Str → MessageType

-- What is fired: an event, or a trigger with the place that its answer goes to.
pub data Fired : Type 0 where
  event : Event → Fired
  trigger : Trigger → Responder → Fired

abbrev pub is_whisper : MessageType → Bool
is_whisper whisper = true
is_whisper _ = false

abbrev pub message_event : MessageType → User → Str → Event
message_event whisper u s = private_chat_event u s
message_event emote u s = chat_event u (u.name ++ codes " " ++ s)
message_event _ u s = chat_event u s

module _ (bot : Bot) where
  abbrev pub fire_found : Capi → User → Bool → Extracted → List Fired
  fire_found b u private no_trigger = []
  fire_found b u private panics = []
  fire_found b u private (extracted p) =
      trigger (record { user = u; cmd = p.cmd; raw = p.raw; arg = p.arg })
        (responder b.config.commands u.id private)
      ∷ []

  -- The first case, for a message of a user.
  unfoldable pub on_talk : Capi → MessageType → User → Str → List Fired
  unfolding responder
  on_talk b kind u s =
      event (message_event kind u s)
      ∷ (if ltb_ℤ u.access b.config.commands.access
          then []
          else fire_found b u (is_whisper kind)
              (find_capi_trigger bot b.name b.config.commands.trigger s))

  unfoldable pub set_silently : Capi → Str → AccessLevel → Capi × List Event
  unfolding set_user_access
  set_silently b u a = let (old, b', evs) = set_user_access bot b u a in (b', evs)

  unfoldable pub keep_ban : Capi → Str → Capi × List Event
  unfolding set_silently
  keep_ban b u =
      let access = access_of b.config.access_user u in
      if ltb_ℤ access_ban access && ltb_ℤ access access_whitelist
      then set_silently b u access_ban
      else (b, [])

  unfoldable pub keep_unban : Capi → Str → Capi × List Event
  unfolding set_silently
  keep_unban b u =
      if ltb_ℤ (access_of b.config.access_user u) access_default
      then set_silently b u access_default
      else (b, [])

  unfoldable pub keep : Capi → Option Str → Option Str → Capi × List Event
  unfolding keep_ban keep_unban
  keep b (some u) unbanned = keep_ban b (to_lower u)
  keep b none (some u) = keep_unban b (to_lower u)
  keep b none none = (b, [])

  abbrev pub events : List Event → List Fired
  events [] = []
  events (e ∷ es) = event e ∷ events es

  -- The second case, for what the server says, with the fallthrough to the third.
  unfoldable pub on_server_info : Capi → Str → Str → Capi × List Fired
  unfolding keep find_banned
  on_server_info b name s =
      if str_eq s (codes "No one hears you.")
      then (b, [])
      else (let (b', evs) = keep b (find_banned ban_verb s) (find_banned unban_verb s) in
          (b', events evs ++ event (system_message name s) ∷ []))

  -- onMessageEvent
  unfoldable pub on_message_event : Capi → MessageType → ℤ → Str → Capi × List Fired
  unfolding on_talk on_server_info user_from_id
  on_message_event b kind id [] = (b, [])
  on_message_event b (server_info name) id (d ∷ s) = on_server_info b name (d ∷ s)
  on_message_event b (other name) id (d ∷ s) = (b, event (system_message name (d ∷ s)) ∷ [])
  on_message_event b emote id (d ∷ s) = (b, on_talk b emote (user_from_id b.config bot id) (d ∷ s))
  on_message_event b channel id (d ∷ s) =
      (b, on_talk b channel (user_from_id b.config bot id) (d ∷ s))
  on_message_event b whisper id (d ∷ s) =
      (b, on_talk b whisper (user_from_id b.config bot id) (d ∷ s))

-- Relay: the text for `b.say`, or nothing to say; the cases are those of bnet.go.
abbrev pub relay_message : (Str → Error → Str) → Gateway → Event → Result (Option Str)
relay_message error_text from ev = relay_text error_text from ev
