-- ===== src/Examples/Start.antt =====
-- The start of the program, on a concrete configuration.
use goop.Base.{◌≡◌, refl, [], ◌∷◌, ◌++◌, codes, str_eq, Result, ok, err}
use goop.Golang.Strings.{to_lower}
use goop.Goop.{new_goop}
use goop.Goop.Registry.{Reachable, IsRegistry}
use goop.Goop.Start.{
  Commands, command_fields, StartConfig, Started, start, unused_capi, unused_to, unused_from,
}
use goop.Goop.Start.Grown.{keys, onto, command_names, gateway_ids}
use goop.Goop.Start.Registered.{start-IsRegistry}
use goop.Examples.{world}
use goop.Examples.Goop.{configured, echo}

abbrev fields : Commands
fields = record {
  trigger = echo;
  whoami = echo;
  whois = echo;
  settings = echo;
  list = echo;
  echo = echo;
  say = echo;
  say_private = echo;
  set = echo;
  kick = echo;
  ban = echo;
  unban = echo;
  place = echo;
  who = echo;
  ping = echo;
  time = echo;
  uptime = echo;
}

-- A Chat API account without its key, one of each other kind with it, and a Discord channel.
abbrev start_config : StartConfig
start_config = record {
  commands = fields;
  alias = (codes "pingme", echo) ∷ [];
  std_io = world;
  capi = (codes "a", record { secret = []; created = ok world }) ∷ [];
  bnet = (codes "azeroth", record { secret = codes "pass"; created = ok world }) ∷ [];
  discord =
      (
        codes "main",
        record {
          secret = codes "token";
          created = ok (record { gateway = world; channels = (codes "42", world) ∷ [] });
        },
      )
      ∷ [];
  relay = (codes "std:io", codes "capi:a" ∷ []) ∷ (codes "nowhere", []) ∷ [];
}

abbrev plain : Started
plain = record { goop = new_goop; logged = [] }

-- What is returned, if something is.
abbrev or_plain : Result Started → Started
or_plain (err e) = plain
or_plain (ok s) = s

abbrev running : Started
unfolding start
running = or_plain (start configured start_config plain)

first_run : start configured start_config plain ≡ ok running
unfolding start str_eq to_lower
first_run = refl

gateways_of_running :
    keys running.goop.gateways
    ≡ codes "discord:main:42" ∷ codes "discord:main" ∷ codes "bnet:azeroth" ∷ codes "std:io" ∷ []
unfolding keys start str_eq to_lower
gateways_of_running = refl

logged_of_running :
    running.logged
    ≡ unused_to (codes "nowhere")
      ∷ unused_from (codes "std:io") (codes "capi:a")
      ∷ unused_capi (codes "a")
      ∷ []
unfolding start str_eq to_lower
logged_of_running = refl

start-IsRegistry_example :
    Reachable configured running.goop
    × IsRegistry running.goop
    × (keys running.goop.commands
        ≡ onto (command_names (command_fields fields) ++ command_names start_config.alias) [])
    × (keys running.goop.gateways ≡ onto (gateway_ids start_config) [])
unfolding keys
start-IsRegistry_example =
    start-IsRegistry configured start_config plain running Reachable.initial first_run
