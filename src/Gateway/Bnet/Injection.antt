-- ===== src/Gateway/Bnet/Injection.antt =====
-- gateway/bnet/bnet.go: Relay, the text that is said for an event of another gateway.
use goop.Base.{
  ◌≡◌, ◌↔◌, true, [], ◌∷◌, ◌++◌, Option, none, some, Str, codes, arith, Error, unknown_event,
  Result, ok, err,
}
use goop.Golang.Strings.{has_prefix}
use goop.Gateway.Api.{Gateway}
use goop.Gateway.Events.{
  Event, config_update, connected, disconnected, clear, async_error, system_message, channel_event,
  chat_event, private_chat_event, say_event, join_event, leave_event, user_event, trigger_event,
}

-- The text for `b.say`, or nothing to say; `error_text` is the method Error of AsyncError.
module _ (error_text : Str → Error → Str) (from : Gateway) where
  unfoldable pub relay_text : Event → Result (Option Str)
  relay_text clear = ok none
  relay_text (user_event u) = ok none
  relay_text connected = ok (some (codes "Established connection to " ++ from.id))
  relay_text disconnected = ok (some (codes "Connection to " ++ from.id ++ codes " closed"))
  relay_text (async_error src e) =
      ok (some (codes "[" ++ from.discriminator ++ codes "] [ERROR] " ++ error_text src e))
  relay_text (system_message kind s) =
      ok (some (codes "[" ++ from.discriminator ++ codes "] [" ++ kind ++ codes "] " ++ s))
  relay_text (channel_event ch) =
      ok (some (codes "Joined channel " ++ ch.name ++ codes "@" ++ from.discriminator))
  relay_text (join_event u) =
      ok (some (u.name ++ codes "@" ++ from.discriminator ++ codes " has joined the channel"))
  relay_text (leave_event u) =
      ok (some (u.name ++ codes "@" ++ from.discriminator ++ codes " has left the channel"))
  relay_text (private_chat_event u s) =
      ok (some (codes "[DM] <" ++ u.name ++ codes "@" ++ from.discriminator ++ codes "> " ++ s))
  relay_text (chat_event u s) =
      ok (some (codes "<" ++ u.name ++ codes "@" ++ from.discriminator ++ codes "> " ++ s))
  relay_text (say_event s) = ok (some (codes "<" ++ from.discriminator ++ codes "> " ++ s))
  relay_text config_update = err unknown_event
  relay_text (trigger_event t) = err unknown_event

  -- The server would take the text for one of its commands.
  abbrev pub IsServerCommand : Result (Option Str) → Type 0
  IsServerCommand (ok (some (c ∷ s))) = c ≡ b'/'
  IsServerCommand _ = ⊥

  -- The event is a user with a name that begins with a slash joining or leaving.
  abbrev pub NamesCommand : Event → Type 0
  NamesCommand (join_event u) = has_prefix (codes "/") u.name ≡ true
  NamesCommand (leave_event u) = has_prefix (codes "/") u.name ≡ true
  NamesCommand _ = ⊥

  named-IsServerCommand :
      (name a b : Str)
      → IsServerCommand (ok (some (name ++ codes "@" ++ a ++ b)))
        ↔ (has_prefix (codes "/") name ≡ true)
  unfolding has_prefix
  named-IsServerCommand [] a b = (λ h. ground arith, λ h. ground arith)
  named-IsServerCommand (c ∷ name) a b = (λ h. ground arith, λ h. ground arith)

  -- The text said for a relayed event is taken by the server for one of its own commands just if the
  -- event is a join or a leave of a user whose name begins with a slash.
  pub relay_text-IsServerCommand : (ev : Event) → IsServerCommand (relay_text ev) ↔ NamesCommand ev
  unfolding relay_text
  relay_text-IsServerCommand (join_event u) =
      named-IsServerCommand u.name from.discriminator (codes " has joined the channel")
  relay_text-IsServerCommand (leave_event u) =
      named-IsServerCommand u.name from.discriminator (codes " has left the channel")
  relay_text-IsServerCommand clear = (λ h. h, λ h. h)
  relay_text-IsServerCommand config_update = (λ h. h, λ h. h)
  relay_text-IsServerCommand (user_event u) = (λ h. h, λ h. h)
  relay_text-IsServerCommand (trigger_event t) = (λ h. h, λ h. h)
  relay_text-IsServerCommand ev = (λ h. ground arith, λ h. absurd h)
