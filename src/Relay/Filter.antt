-- ===== src/Relay/Filter.antt =====
-- Which events a relay passes on.
use goop.Base.{
  ◌≡◌, refl, Bool, true, false, not, ◌||◌, List, [], Str, Error, arith, inl, inr, Bool-cases, ◌⊎◌,
  ◌≢◌, ◌↔◌, if◌then◌else◌,
}
use goop.Base.Int.{◌≤ℤ◌, ltb_ℤ}
use goop.Gateway.Access.{AccessLevel}
use goop.Gateway.Common.{User, Channel}
use goop.Gateway.Events.{
  Event, config_update, connected, disconnected, clear, async_error, system_message, channel_event,
  chat_event, private_chat_event, say_event, join_event, leave_event, user_event, trigger_event,
}
use goop.Relay.{
  RelayConfig, Target, Step, relay, on_log, on_clear, on_system_message, on_channel, on_join,
  on_user, on_leave, on_chat, on_private_chat, on_say, handle,
}

-- The configuration asks for the event.
pub data Wanted (c : RelayConfig) : Event → Type 0 where
  log_error : (src : Str) (e : Error) → c.log ≡ true → Wanted c (async_error src e)
  log_connected : c.log ≡ true → Wanted c connected
  log_disconnected : c.log ≡ true → Wanted c disconnected
  clear_log : c.log ≡ true → Wanted c clear
  clear_joins : c.joins ≡ true → Wanted c clear
  system_on : (kind s : Str) → c.system ≡ true → Wanted c (system_message kind s)
  channel_on : (ch : Channel) → c.channel ≡ true → Wanted c (channel_event ch)
  say_on : (s : Str) → c.say ≡ true → Wanted c (say_event s)
  join_on : (u : User) → c.joins ≡ true → c.join_access ≤ℤ u.access → Wanted c (join_event u)
  leave_on : (u : User) → c.joins ≡ true → c.join_access ≤ℤ u.access → Wanted c (leave_event u)
  user_on : (u : User) → c.joins ≡ true → c.join_access ≤ℤ u.access → Wanted c (user_event u)
  chat_on :
      (u : User) (s : Str) → c.chat ≡ true → c.chat_access ≤ℤ u.access → Wanted c (chat_event u s)
  private_chat_on :
      (u : User) (s : Str)
      → c.private_chat ≡ true
      → c.private_chat_access ≤ℤ u.access
      → Wanted c (private_chat_event u s)

-- The two shapes of guard: the event is wanted, or the handler does nothing.
by_flag :
    {W : Type 0} (b : Bool) (steps : List Step)
    → (b ≡ true → W)
    → W ⊎ ((if not b then [] else steps) ≡ [])
by_flag true steps w = inl (w refl)
by_flag false steps w = inr refl

by_access :
    {W : Type 0} (b : Bool) (a level : AccessLevel) (steps : List Step)
    → (b ≡ true → level ≤ℤ a → W)
    → W ⊎ ((if not b || ltb_ℤ a level then [] else steps) ≡ [])
by_access false a level steps w = inr refl
by_access true a level steps w = elim (Bool-cases (ltb_ℤ a level)) [
  | inl low ↦ inr (rw low refl)
  | inr high ↦ inl (w refl (ground arith))
]

module _ (to : Target) (c : RelayConfig) where
  -- Every event that the configuration asks for is relayed.
  pub handle-Wanted : (ev : Event) → Wanted c ev → handle to c ev ≡ relay to ev
  unfolding handle on_log on_clear on_system_message on_channel on_join on_user on_leave on_chat
      on_private_chat on_say
  handle-Wanted ev (Wanted.log_error src e h) = rw h refl
  handle-Wanted ev (Wanted.log_connected h) = rw h refl
  handle-Wanted ev (Wanted.log_disconnected h) = rw h refl
  handle-Wanted ev (Wanted.clear_log h) = rw h refl
  handle-Wanted ev (Wanted.clear_joins h) = ground arith
  handle-Wanted ev (Wanted.system_on kind s h) = rw h refl
  handle-Wanted ev (Wanted.channel_on ch h) = rw h refl
  handle-Wanted ev (Wanted.say_on s h) = rw h refl
  handle-Wanted ev (Wanted.join_on u h a) = ground arith
  handle-Wanted ev (Wanted.leave_on u h a) = ground arith
  handle-Wanted ev (Wanted.user_on u h a) = ground arith
  handle-Wanted ev (Wanted.chat_on u s h a) = ground arith
  handle-Wanted ev (Wanted.private_chat_on u s h a) = ground arith

  pub Wanted-or_nothing : (ev : Event) → Wanted c ev ⊎ (handle to c ev ≡ [])
  unfolding handle on_log on_clear on_system_message on_channel on_join on_user on_leave on_chat
      on_private_chat on_say
  Wanted-or_nothing (async_error src e) = by_flag c.log _ (Wanted.log_error src e)
  Wanted-or_nothing connected = by_flag c.log _ Wanted.log_connected
  Wanted-or_nothing disconnected = by_flag c.log _ Wanted.log_disconnected
  Wanted-or_nothing clear = elim (Bool-cases c.log) [
    | inl h ↦ inl (Wanted.clear_log h)
    | inr h ↦ rw h (by_flag c.joins (relay to clear) Wanted.clear_joins)
  ]
  Wanted-or_nothing (system_message kind s) = by_flag c.system _ (Wanted.system_on kind s)
  Wanted-or_nothing (channel_event ch) = by_flag c.channel _ (Wanted.channel_on ch)
  Wanted-or_nothing (say_event s) = by_flag c.say _ (Wanted.say_on s)
  Wanted-or_nothing (join_event u) = by_access c.joins u.access c.join_access _ (Wanted.join_on u)
  Wanted-or_nothing (leave_event u) = by_access c.joins u.access c.join_access _ (Wanted.leave_on u)
  Wanted-or_nothing (user_event u) = by_access c.joins u.access c.join_access _ (Wanted.user_on u)
  Wanted-or_nothing (chat_event u s) =
      by_access c.chat u.access c.chat_access _ (Wanted.chat_on u s)
  Wanted-or_nothing (private_chat_event u s) =
      by_access c.private_chat u.access c.private_chat_access _ (Wanted.private_chat_on u s)
  Wanted-or_nothing config_update = inr refl
  Wanted-or_nothing (trigger_event t) = inr refl

  -- A relay acts on exactly the events that its configuration asks for: errors and connections by
  -- Log; Clear by Log or Joins; messages of the system, the channel and the bot itself by their
  -- switches; joins, leaves, updates and chat by their switches and the user's access.
  pub handle_iff : (ev : Event) → (handle to c ev ≢ []) ↔ Wanted c ev
  unfolding relay
  handle_iff ev = (
    λ acts. elim (Wanted-or_nothing ev) [ inl w ↦ w | inr nothing ↦ absurd (acts nothing) ],
    λ w nothing. let acts = handle-Wanted ev w in cc,
  )
