-- ===== src/Gateway/Bnet/Handlers.antt =====
-- gateway/bnet/bnet.go: what the gateway fires for each event of its client.
use goop.Base.{
  ◌≡◌, refl, inl, inr, Bool, List, [], ◌∷◌, ◌++◌, Option, none, some, Str, codes, str_eq, arith,
  All, Bool-cases, if◌then◌else◌, ◌==◌,
}
use goop.Base.Int.{◌≤ℤ◌, ltb_ℤ}
use goop.Golang.Strings.{to_lower}
use goop.Gateway.Common.{User}
use goop.Gateway.Trigger.{Extracted, extracted, no_trigger, panics}
use goop.Gateway.Find.{access_of}
use goop.Gateway.Events.{
  Event, clear, system_message, channel_event, chat_event, private_chat_event, join_event,
  leave_event, user_event, trigger_event,
}
use goop.Gateway.Bnet.{ClientUser, Client, BnetConfig, override, user_of}
use goop.Gateway.Bnet.Address.{find_bnet_trigger}

module _ (c : Client) (b : BnetConfig) where
  -- Events about the bot itself are passed over.
  unfoldable pub unless_self : ClientUser → Event → List Event
  unless_self u ev = if str_eq u.name c.unique_name then [] else ev ∷ []

  unfoldable pub on_user_joined : ClientUser → List Event
  unfolding unless_self
  on_user_joined u = unless_self u (join_event (user_of b u))

  unfoldable pub on_user_update : ClientUser → List Event
  unfolding unless_self
  on_user_update u = unless_self u (user_event (user_of b u))

  unfoldable pub on_user_left : ClientUser → List Event
  unfolding unless_self
  on_user_left u = unless_self u (leave_event (user_of b u))

  abbrev as_trigger : User → Extracted → List Event
  as_trigger u no_trigger = []
  as_trigger u panics = []
  as_trigger u (extracted p) =
      trigger_event (record { user = u; cmd = p.cmd; raw = p.raw; arg = p.arg }) ∷ []

  -- The part that onChat and onWhisper share, behind the first event.
  unfoldable pub command_of : User → Str → List Event
  command_of u content =
      if ltb_ℤ u.access b.commands.access
      then []
      else as_trigger u (find_bnet_trigger c b.commands.trigger content)

  -- onChat
  unfoldable pub on_chat : ClientUser → Bool → Str → List Event
  unfolding command_of
  on_chat u emote [] = []
  on_chat u emote (d ∷ s) =
      let content = if emote then u.name ++ codes " " ++ d ∷ s else d ∷ s in
      chat_event (user_of b u) content ∷ command_of (user_of b u) content

  unfoldable pub whisperer : Str → User
  whisperer name = record {
    id = to_lower name;
    name = name;
    access = override (access_of b.access_user (to_lower name)) b.access_whisper;
    avatar_url = b.avatar_default_url;
  }

  -- onWhisper, or nothing where `msg.Username[:1]` is out of range.
  unfoldable pub on_whisper : Str → Str → Option (List Event)
  unfolding command_of whisperer
  on_whisper username [] = some []
  on_whisper [] (d ∷ s) = none
  on_whisper (e ∷ name) (d ∷ s) =
      if e == b'#'
      then some (system_message (e ∷ name) (d ∷ s) ∷ [])
      else some (
          private_chat_event (whisperer (e ∷ name)) (d ∷ s)
          ∷ command_of (whisperer (e ∷ name)) (d ∷ s))

-- onJoinError, for the error's text
unfoldable pub on_join_error : Str → Str → List Event
on_join_error channel error =
    system_message (codes "JOINERROR")
      (codes "Could not join " ++ channel ++ codes " (" ++ error ++ codes ")")
    ∷ []

-- onChannel
unfoldable pub on_channel_joined : Str → List Event
on_channel_joined name = clear ∷ channel_event (record { id = name; name = name }) ∷ []

-- onFloodDetected
abbrev pub on_flood_detected : List Event
on_flood_detected = system_message (codes "FLOOD") (codes "Flood detected") ∷ []

-- A trigger is of the given user, who has the access that commands need.
abbrev pub IsEntitled : BnetConfig → User → Event → Type 0
IsEntitled b u (trigger_event t) = (t.user ≡ u) × (b.commands.access ≤ℤ u.access)
IsEntitled b u _ = Unit

module _ (c : Client) (b : BnetConfig) where
  command_of-IsEntitled :
      (u : User) (content : Str) → All (IsEntitled b u) (command_of c b u content)
  unfolding command_of
  command_of-IsEntitled u content = elim (Bool-cases (ltb_ℤ u.access b.commands.access)) [
    | inl e ↦ rw (e, command_of) tt
    | inr e ↦
        rw (e, command_of) (go (find_bnet_trigger c b.commands.trigger content) (ground arith))
  ]
    where
      go :
          (x : Extracted)
          → b.commands.access ≤ℤ u.access
          → All (IsEntitled b u) (as_trigger c b u x)
      go no_trigger h = tt
      go panics h = tt
      go (extracted p) h = ((refl, h), tt)

  -- The events of a handler, where it does not panic.
  abbrev pub EachEntitled : User → Option (List Event) → Type 0
  EachEntitled u none = Unit
  EachEntitled u (some evs) = All (IsEntitled b u) evs

  on_whisper-EachEntitled :
      (name content : Str) → EachEntitled (whisperer c b name) (on_whisper c b name content)
  unfolding on_whisper
  on_whisper-EachEntitled name [] = tt
  on_whisper-EachEntitled [] (d ∷ s) = tt
  on_whisper-EachEntitled (e ∷ name) (d ∷ s) = elim (Bool-cases (e == b'#')) [
    | inl y ↦ rw (y, on_whisper) (tt, tt)
    | inr n ↦ rw (n, on_whisper) (tt, command_of-IsEntitled (whisperer c b (e ∷ name)) (d ∷ s))
  ]

  on_chat-IsEntitled :
      (u : ClientUser) (emote : Bool) (content : Str)
      → All (IsEntitled b (user_of b u)) (on_chat c b u emote content)
  unfolding on_chat
  on_chat-IsEntitled u emote [] = tt
  on_chat-IsEntitled u emote (d ∷ s) = (tt, command_of-IsEntitled (user_of b u) _)

  -- Whatever is said in the channel or whispered, the gateway fires a trigger only for a user with at
  -- least the access that commands need: in the channel, the access that the configuration gives to
  -- the user, and in a whisper, the access by name or else that of whispers.
  pub messages-IsEntitled :
      ((u : ClientUser) (emote : Bool) (content : Str)
        → All (IsEntitled b (user_of b u)) (on_chat c b u emote content))
      × ((name content : Str) → EachEntitled (whisperer c b name) (on_whisper c b name content))
  messages-IsEntitled = (on_chat-IsEntitled, on_whisper-EachEntitled)
