-- ===== src/Goop/Start.antt =====
-- main.go, `New`: the main object that is built from the configuration, and goop/cmd/cmd.go, `AddTo`.
pub mod Grown
pub mod Registered
use goop.Base.{
  List, [], ◌∷◌, ◌++◌, Option, none, some, Str, codes, str_eq, Result, ok, err, ◌>>=◌,
  if◌then◌else◌,
}
use goop.Gateway.Common.{delimiter}
use goop.Gateway.Api.{Gateway}
use goop.Relay.{RelayConfig}
use goop.Goop.{Command, Goop, add_gateway, add_command, lookup}

-- The fields of `Commands`; `place` is `Where`.
pub record Commands : Type 0 where
  pub trigger : Command
  pub whoami : Command
  pub whois : Command
  pub settings : Command
  pub list : Command
  pub echo : Command
  pub say : Command
  pub say_private : Command
  pub set : Command
  pub kick : Command
  pub ban : Command
  pub unban : Command
  pub place : Command
  pub who : Command
  pub ping : Command
  pub time : Command
  pub uptime : Command

-- What reflection gives of it: the names and the values of the fields.
unfoldable pub command_fields : Commands → List (Str × Command)
command_fields c =
    (codes "Trigger", c.trigger)
    ∷ (codes "Whoami", c.whoami)
    ∷ (codes "Whois", c.whois)
    ∷ (codes "Settings", c.settings)
    ∷ (codes "List", c.list)
    ∷ (codes "Echo", c.echo)
    ∷ (codes "Say", c.say)
    ∷ (codes "SayPrivate", c.say_private)
    ∷ (codes "Set", c.set)
    ∷ (codes "Kick", c.kick)
    ∷ (codes "Ban", c.ban)
    ∷ (codes "Unban", c.unban)
    ∷ (codes "Where", c.place)
    ∷ (codes "Who", c.who)
    ∷ (codes "Ping", c.ping)
    ∷ (codes "Time", c.time)
    ∷ (codes "Uptime", c.uptime)
    ∷ []

-- A gateway of the configuration: its `APIKey`, `Password` or `AuthToken`, and what the `New` of its
-- package returns for it.
pub record Section (A : Type 0) : Type 0 where
  pub secret : Str
  pub created : Result A

-- A Discord gateway and its `Channels`.
pub record DiscordParts : Type 0 where
  pub gateway : Gateway
  pub channels : List (Str × Gateway)

-- The sections of the configuration that `New` reads after the plugins. A map is a list, in an order
-- that a `range` may take; `relay` has the keys of `To` with those of their `From`.
pub record StartConfig : Type 0 where
  pub commands : Commands
  pub alias : List (Str × Command)
  pub std_io : Gateway
  pub capi : List (Str × Section Gateway)
  pub bnet : List (Str × Section Gateway)
  pub discord : List (Str × Section DiscordParts)
  pub relay : List (Str × List Str)

-- The lines written to `logErr`.
pub data Unused : Type 0 where
  unused_capi unused_bnet unused_discord unused_to : Str → Unused
  unused_from : Str → Str → Unused

-- `logged` has the newest line first.
pub record Started : Type 0 where
  pub goop : Goop
  pub logged : List Unused

-- A loop that returns the first error.
unfoldable pub each {ℓ} :
    {A : Type ℓ} → (A → Started → Result Started) → List A → Started → Result Started
each step [] s = ok s
each step (x ∷ xs) s = step x s >>= each step xs

unfoldable pub step_command : Str × Command → Started → Result Started
unfolding add_command
step_command (name, c) s = add_command name c s.goop >>= λ g. ok (record s { goop = g })

unfoldable pub log_unused : Unused → Started → Started
log_unused u s = record s { logged = u ∷ s.logged }

-- The keys of the channels of a Discord gateway, with its own before them.
unfoldable pub under {ℓ} : {A : Type ℓ} → Str → List (Str × A) → List (Str × A)
under k [] = []
under k ((cid, c) ∷ m) = (k ++ delimiter ∷ cid, c) ∷ under k m

-- `get_relay` is `conf.GetRelay`.
module _ (get_relay : Str → Str → RelayConfig) where
  unfoldable pub step_gateway : Str × Gateway → Started → Result Started
  unfolding add_gateway
  step_gateway (id, gw) s = add_gateway get_relay id gw s.goop >>= λ g. ok (record s { goop = g })

  -- The bodies of the loops over `Capi.Gateways` and `BNet.Gateways`.
  unfoldable pub step_account :
      Str → (Str → Unused) → Str × Section Gateway → Started → Result Started
  unfolding step_gateway log_unused
  step_account kind unused (k, a) s =
      if str_eq a.secret []
      then ok (log_unused (unused k) s)
      else (a.created >>= λ gw. step_gateway (kind ++ delimiter ∷ k, gw) s)

  -- The body of the loop over `Discord.Gateways`.
  unfoldable pub step_discord : Str × Section DiscordParts → Started → Result Started
  unfolding step_gateway log_unused each under
  step_discord (k, a) s =
      if str_eq a.secret []
      then ok (log_unused (unused_discord k) s)
      else (a.created >>= λ d.
          let id = codes "discord" ++ delimiter ∷ k in
          step_gateway (id, d.gateway) s >>= each step_gateway (under id d.channels))

  -- `New`, up to the check of the relays.
  unfoldable pub add_all : StartConfig → Started → Result Started
  unfolding each step_command step_gateway step_account step_discord command_fields
  add_all c s =
      each step_command (command_fields c.commands) s
      >>= each step_command c.alias
      >>= step_gateway (codes "std" ++ delimiter ∷ codes "io", c.std_io)
      >>= each (step_account (codes "capi") unused_capi) c.capi
      >>= each (step_account (codes "bnet") unused_bnet) c.bnet
      >>= each step_discord c.discord

-- The check of the relays.
unfoldable pub check_from : Goop → Str → List Str → List Unused → List Unused
unfolding lookup
check_from g to [] logged = logged
check_from g to (from ∷ froms) logged = elim (lookup from g.gateways) [
  | none ↦ check_from g to froms (unused_from to from ∷ logged)
  | some gw ↦ check_from g to froms logged
]

unfoldable pub check_relays : Goop → List (Str × List Str) → List Unused → List Unused
unfolding check_from lookup
check_relays g [] logged = logged
check_relays g ((to, froms) ∷ tos) logged = elim (lookup to g.gateways) [
  | none ↦ check_relays g tos (unused_to to ∷ logged)
  | some gw ↦ check_relays g tos (check_from g to froms logged)
]

-- New. `s` is what the plugins have made of the new object.
unfoldable pub start : (Str → Str → RelayConfig) → StartConfig → Started → Result Started
unfolding add_all check_relays
start get_relay c s =
    add_all get_relay c s >>= λ t. ok (record t { logged = check_relays t.goop c.relay t.logged })
