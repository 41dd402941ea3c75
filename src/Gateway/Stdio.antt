-- ===== src/Gateway/Stdio.antt =====
-- gateway/stdio/stdio.go: the console gateway.
pub mod Lines
use goop.Base.{
  ℕ, ◌≡◌, Bool, true, false, not, List, [], ◌∷◌, ◌++◌, Option, none, some, Str, codes, str_eq, ◌==◌,
  if◌then◌else◌, Error, no_channel, not_implemented, unknown_event, Result, ok, err,
}
use goop.Base.Int.{ltb_ℤ}
use goop.Gateway.Access.{AccessLevel}
use goop.Gateway.Common.{User, TriggerConfig}
use goop.Gateway.Trigger.{Extracted, extracted, no_trigger, panics, find_trigger, is_space}
use goop.Gateway.Api.{Gateway}
use goop.Gateway.Events.{
  Event, config_update, connected, disconnected, clear, async_error, system_message, channel_event,
  chat_event, private_chat_event, say_event, join_event, leave_event, user_event, trigger_event,
}

-- Config, without Read, which only Run looks at.
pub record StdioConfig : Type 0 where
  pub commands : TriggerConfig
  pub access : AccessLevel
  pub avatar_url : Str

abbrev pub stdio_uid : Str
stdio_uid = codes "stdio"

abbrev pub stdin_user : StdioConfig → User
stdin_user o = record {
  id = stdio_uid;
  name = codes "stdin";
  access = o.access;
  avatar_url = o.avatar_url;
}

-- A character in front of a text whose blanks at the end are trimmed.
abbrev trim_step : ℕ → Str → Str
trim_step c [] = if is_space c then [] else c ∷ []
trim_step c (d ∷ s) = c ∷ d ∷ s

-- TrimRightFunc with unicode.IsSpace
unfoldable pub trim_right : Str → Str
trim_right [] = []
trim_right (c ∷ s) = trim_step c (trim_right s)

abbrev fire_trigger : StdioConfig → Extracted → List Event
fire_trigger o no_trigger = []
fire_trigger o panics = []
fire_trigger o (extracted p) =
    trigger_event (record { user = stdin_user o; cmd = p.cmd; raw = p.raw; arg = p.arg }) ∷ []

unfoldable pub trimmed_events : StdioConfig → Str → List Event
trimmed_events o [] = []
trimmed_events o (c ∷ s) =
    private_chat_event (stdin_user o) (c ∷ s)
    ∷ (if ltb_ℤ o.access o.commands.access
        then []
        else fire_trigger o (find_trigger o.commands.trigger (c ∷ s)))

-- The body of the loop, for a line.
unfoldable pub line_events : StdioConfig → Str → List Event
unfolding trim_right trimmed_events
line_events o line = trimmed_events o (trim_right line)

-- The loop, for what is read of the line and what is to be read; ReadString fails at the end of the
-- input, and with it ends the loop.
unfoldable pub read_from : StdioConfig → Str → Str → List Event
unfolding line_events
read_from o line [] = []
read_from o line (c ∷ s) = elim (c == b'\n') [
  | true ↦ line_events o (line ++ c ∷ []) ++ read_from o [] s
  | false ↦ read_from o (line ++ c ∷ []) s
]

-- read: what is fired for an input.
unfoldable pub read : StdioConfig → Str → List Event
unfolding read_from
read o input = read_from o [] input

-- What is printed; the colours are left out.
abbrev tagged : Str → Str → Str → Str
tagged id tag s = codes "[" ++ id ++ codes "][" ++ tag ++ codes "] " ++ s

-- Say: the line printed, and the event fired.
unfoldable pub say : Str → Str → Str × Event
say id s = (tagged id (codes "SAY") s, say_event s)

-- SayPrivate: the line printed.
unfoldable pub say_private : Str → Str → Str → Result Str
say_private id uid s =
    if str_eq uid stdio_uid then ok (tagged id (codes "SAYP") s) else err no_channel

-- Relay: the line printed; `error_text` is the method Error of AsyncError.
module _ (error_text : Str → Error → Str) (from : Gateway) where
  abbrev at_gateway : Str → Str
  at_gateway name = name ++ codes "@" ++ from.discriminator

  abbrev plain : Str → Str
  plain s = codes "[" ++ from.id ++ codes "] " ++ s

  unfoldable pub relay_line : Event → Result Str
  relay_line connected = ok (plain (codes "Established connection"))
  relay_line disconnected = ok (plain (codes "Connection closed"))
  relay_line clear = ok (plain (codes "Cleared"))
  relay_line (async_error src e) = ok (tagged from.id (codes "ERR") (error_text src e))
  relay_line (system_message kind s) = ok (tagged from.id kind s)
  relay_line (channel_event ch) = ok (plain (codes "Joined " ++ at_gateway ch.name))
  relay_line (join_event u) =
      ok (tagged from.id (codes "CHAT") (at_gateway u.name ++ codes " has joined the channel"))
  relay_line (leave_event u) =
      ok (tagged from.id (codes "CHAT") (at_gateway u.name ++ codes " has left the channel"))
  relay_line (user_event u) =
      ok (tagged from.id (codes "CHAT") (at_gateway u.name ++ codes " updated"))
  relay_line (private_chat_event u s) =
      ok (tagged from.id (codes "PRIV") (codes "<" ++ at_gateway u.name ++ codes "> " ++ s))
  relay_line (chat_event u s) =
      ok (tagged from.id (codes "CHAT") (codes "<" ++ at_gateway u.name ++ codes "> " ++ s))
  relay_line (say_event s) =
      ok (tagged from.id (codes "CHAT") (codes "<" ++ from.discriminator ++ codes "> " ++ s))
  relay_line config_update = err unknown_event
  relay_line (trigger_event t) = err unknown_event
