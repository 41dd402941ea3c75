-- ===== src/Relay.antt =====
-- goop/relay.go
pub mod Filter
pub mod Storm
use goop.Base.{
  ℕ, zero, suc, Bool, true, false, not, ◌&&◌, ◌||◌, List, [], ◌∷◌, ◌++◌, Option, none, some, Str,
  codes, Error, if◌then◌else◌,
}
use goop.Base.Int.{ltb_ℤ}
use goop.Gateway.Access.{AccessLevel}
use goop.Gateway.Common.{User, Channel}
use goop.Gateway.Events.{
  Event, config_update, connected, disconnected, clear, async_error, system_message, channel_event,
  chat_event, private_chat_event, say_event, join_event, leave_event, user_event, trigger_event,
}

pub record RelayConfig : Type 0 where
  pub log : Bool
  pub system : Bool
  pub channel : Bool
  pub joins : Bool
  pub chat : Bool
  pub private_chat : Bool
  pub say : Bool
  pub join_access : AccessLevel
  pub chat_access : AccessLevel
  pub private_chat_access : AccessLevel

-- The gateway that a relay leads to: what its `Relay` answers, and `network.IsCloseError`.
pub record Target : Type 0 where
  pub relay_result : Event → Option Error
  pub is_close_error : Error → Bool

-- What a relay does to its target.
pub data Step : Type 0 where
  relayed fired : Event → Step

module _ (to : Target) where
  unfoldable pub after_relay : Option Error → List Step
  after_relay none = []
  after_relay (some e) =
      if to.is_close_error e then [] else fired (async_error (codes "Relay") e) ∷ []

  -- relay
  unfoldable pub relay : Event → List Step
  unfolding after_relay
  relay ev = relayed ev ∷ after_relay (to.relay_result ev)

  module _ (c : RelayConfig) where
    unfoldable pub on_log : Event → List Step
    unfolding relay
    on_log ev = if not c.log then [] else relay ev

    unfoldable pub on_clear : Event → List Step
    unfolding relay
    on_clear ev = if not c.log && not c.joins then [] else relay ev

    unfoldable pub on_system_message : Event → List Step
    unfolding relay
    on_system_message ev = if not c.system then [] else relay ev

    unfoldable pub on_channel : Event → List Step
    unfolding relay
    on_channel ev = if not c.channel then [] else relay ev

    unfoldable pub on_join : User → Event → List Step
    unfolding relay
    on_join u ev = if not c.joins || ltb_ℤ u.access c.join_access then [] else relay ev

    unfoldable pub on_user : User → Event → List Step
    unfolding relay
    on_user u ev = if not c.joins || ltb_ℤ u.access c.join_access then [] else relay ev

    unfoldable pub on_leave : User → Event → List Step
    unfolding relay
    on_leave u ev = if not c.joins || ltb_ℤ u.access c.join_access then [] else relay ev

    unfoldable pub on_chat : User → Event → List Step
    unfolding relay
    on_chat u ev = if not c.chat || ltb_ℤ u.access c.chat_access then [] else relay ev

    unfoldable pub on_private_chat : User → Event → List Step
    unfolding relay
    on_private_chat u ev =
        if not c.private_chat || ltb_ℤ u.access c.private_chat_access then [] else relay ev

    unfoldable pub on_say : Event → List Step
    unfolding relay
    on_say ev = if not c.say then [] else relay ev

    -- InitDefaultHandlers: which handler an event of the source gateway comes to.
    unfoldable pub handle : Event → List Step
    unfolding on_log on_clear on_system_message on_channel on_join on_user on_leave on_chat
        on_private_chat on_say
    handle (async_error src e) = on_log (async_error src e)
    handle connected = on_log connected
    handle disconnected = on_log disconnected
    handle (channel_event ch) = on_channel (channel_event ch)
    handle (system_message kind s) = on_system_message (system_message kind s)
    handle clear = on_clear clear
    handle (join_event u) = on_join u (join_event u)
    handle (user_event u) = on_user u (user_event u)
    handle (leave_event u) = on_leave u (leave_event u)
    handle (chat_event u s) = on_chat u (chat_event u s)
    handle (private_chat_event u s) = on_private_chat u (private_chat_event u s)
    handle (say_event s) = on_say (say_event s)
    handle config_update = []
    handle (trigger_event t) = []
