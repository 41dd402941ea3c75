-- ===== src/Examples/Bnet.antt =====
-- The Battle.net gateway, on concrete inputs.
use goop.Base.{
  inl, say_buffer_full, ◌≡◌, ◌≢◌, ◌↔◌, refl, Bool, true, false, [], ◌∷◌, none, some, Str, codes,
  str_eq, All, arith, Error, ok,
}
use goop.Base.Int.{pos, negsuc}
use goop.Golang.Strings.{to_lower, equal_fold}
use goop.Gateway.Access.{access_default}
use goop.Gateway.Find.{access_of}
use goop.Gateway.Events.{join_event}
use goop.Gateway.Bnet.{ClientUser, Client, BnetConfig, warcraft, set_user_access, user_of}
use goop.Gateway.Bnet.Users.{set_user_access-user_of}
use goop.Gateway.Bnet.Queue.{Buffer, holds}
use goop.Gateway.Bnet.Address.{IsAddressing}
use goop.Gateway.Bnet.Injection.{
  relay_text, IsServerCommand, NamesCommand, relay_text-IsServerCommand,
}
use goop.Gateway.Bnet.Handlers.{
  on_chat, on_whisper, whisperer, IsEntitled, EachEntitled, messages-IsEntitled,
}
use goop.Gateway.Bnet.Bans.{Kept, on_system_message}
use goop.Gateway.Bnet.Persist.{on_system_message-IsKept}
use goop.Examples.{world, user_named}

abbrev moon : ClientUser
moon = record {
  name = codes "Moon";
  product = warcraft;
  icon = codes "W3H1";
  level = pos 20;
  tag = codes "4K";
  operator = false;
}

abbrev client : Client
client = record {
  unique_name = codes "bot";
  channel = codes "w3";
  users = moon ∷ [];
  user = λ s. none;
}

abbrev config : BnetConfig
config = record {
  commands = record { trigger = codes "."; access = pos 1; respond_private = false };
  avatar_icon_url = [];
  avatar_default_url = [];
  access_whisper = negsuc 0;
  access_talk = pos 1;
  access_no_warcraft = pos 0;
  access_operator = pos 200;
  access_level = (pos 1, pos 0) ∷ (pos 25, pos 100) ∷ (pos 10, pos 1) ∷ [];
  access_clan_tag = [];
  access_user = (codes "grubby", pos 0) ∷ [];
}

moon-known : to_lower (codes "MOON") ≢ []
unfolding to_lower
moon-known e = cc

set_user_access-user_of_example :
    let r = set_user_access client config (codes "MOON") (pos 300) in
    (r.0 ≡ ok (access_of config.access_user (to_lower (codes "MOON"))))
    × ((u : ClientUser)
        → to_lower u.name ≡ to_lower (codes "MOON")
        → pos 300 ≢ access_default
        → (user_of r.1 u).access ≡ pos 300)
    × ((u : ClientUser)
        → str_eq (to_lower (codes "MOON")) (to_lower u.name) ≡ false
        → user_of r.1 u ≡ user_of config u)
set_user_access-user_of_example =
    set_user_access-user_of client config (codes "MOON") (pos 300) moon-known

-- One message is taken and received, a second one is taken, and a third one refused.
abbrev after_three : Buffer
after_three = record {
  queue = codes "b" ∷ [];
  reader = holds (codes "a");
  answers = (codes "a", none) ∷ (codes "b", none) ∷ (codes "c", some say_buffer_full) ∷ [];
  handed = [];
}

ping-IsAddressing : IsAddressing client (codes "GOOP: ping") (codes "ping")
unfolding equal_fold
ping-IsAddressing = record {
  pat = codes "GOOP";
  separator = b':';
  whole = refl;
  some_pat = λ e. cc;
  some_rest = λ e. cc;
  is_cut = refl;
  no_cut = ground arith;
  for_bot = inl refl;
}

abbrev no_text : Str → Error → Str
no_text src e = []

relay_text-IsServerCommand_example :
    IsServerCommand no_text world
      (relay_text no_text world (join_event (user_named (codes "/rejoin") (pos 0))))
    ↔ NamesCommand no_text world (join_event (user_named (codes "/rejoin") (pos 0)))
relay_text-IsServerCommand_example =
    relay_text-IsServerCommand no_text world (join_event (user_named (codes "/rejoin") (pos 0)))

messages-IsEntitled_example :
    ((u : ClientUser) (emote : Bool) (content : Str)
      → All (IsEntitled config (user_of config u)) (on_chat client config u emote content))
    × ((name content : Str)
        → EachEntitled client config
            (whisperer client config name)
            (on_whisper client config name content))
messages-IsEntitled_example = messages-IsEntitled client config

on_system_message-IsKept_example : Kept (access_of config.access_user (codes "grubby")) (
    access_of
      (on_system_message client config true
        (codes "INFO")
        (codes "Grubby was banned by Moon.")).0.access_user
      (codes "grubby"))
on_system_message-IsKept_example =
    on_system_message-IsKept client config (codes "grubby") true (codes "INFO")
      (codes "Grubby was banned by Moon.")
