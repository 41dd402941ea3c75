-- ===== src/Gateway/Events.antt =====
-- gateway/events.go, and the two events of the network library that the program handles.
use goop.Base.{Str, Error}
use goop.Gateway.Common.{User, Channel}
use goop.Gateway.Api.{Trigger}

-- `async_error` carries the source of the error.
pub data Event : Type 0 where
  config_update connected disconnected clear : Event
  async_error : Str → Error → Event
  system_message : Str → Str → Event
  channel_event : Channel → Event
  chat_event private_chat_event : User → Str → Event
  say_event : Str → Event
  join_event leave_event user_event : User → Event
  trigger_event : Trigger → Event
