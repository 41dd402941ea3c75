-- ===== src/Examples.antt =====
-- A small world for the examples: one channel with an operator, a bot's friend and two guests.
mod Access
mod Trigger
mod Commands
mod Alias
mod Relay
mod Goop
mod Start
mod Bnet
mod Discord
mod Nested
mod Stdio
mod Capi
mod Reconnect
mod Settings
mod Config
mod Merge
mod DiscordGateway
use goop.Base.{List, [], ◌∷◌, Option, none, some, Str, codes, Error, no_user, ok, err}
use goop.Base.Int.{pos, negsuc}
use goop.Gateway.Access.{AccessLevel}
use goop.Gateway.Common.{User, Channel}
use goop.Gateway.Api.{Gateway, History}
use goop.Gateway.Api as Api

abbrev pub user_named : Str → AccessLevel → User
user_named name access = record { id = name; name = name; access = access; avatar_url = [] }

abbrev pub operator : User
operator = user_named (codes "op") (pos 200)

abbrev pub friend : User
friend = user_named (codes "moon") (pos 100)

abbrev pub guest : User
guest = user_named (codes "grubby") (pos 0)

-- No user is known by ID; every call is granted.
abbrev pub world : Gateway
world = record {
  id = codes "bnet:azeroth";
  discriminator = codes "azeroth";
  trigger = codes ".";
  channel = λ h. some (record { id = codes "w3"; name = codes "clan" });
  channel_users = λ h. operator ∷ friend ∷ guest ∷ [];
  user = λ h uid. err no_user;
  users = λ h. (codes "moon", pos 100) ∷ [];
  access_result = λ h uid a. ok (pos 0);
  say_result = λ h s. none;
  private_result = λ h uid s. none;
  kick_result = λ h uid. none;
  ban_result = λ h uid. none;
  unban_result = λ h uid. none;
  ping_result = λ h uid. err no_user;
  respond_result = λ h s. none;
}

-- The operator sends a command.
abbrev pub sent : Str → List Str → Api.Trigger
sent name args = record { user = operator; cmd = name; raw = args; arg = args }
