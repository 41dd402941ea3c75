-- ===== src/Goop.antt =====
-- goop/goop.go and goop/events.go
pub mod Registry
pub mod Matrix
pub mod Routing
pub mod Permission
pub mod AutoKick
pub mod Start
use goop.Base.{
  ℕ, zero, suc, ◌+◌, ◌≡◌, refl, Bool, true, false, not, ◌&&◌, ◌||◌, List, [], ◌∷◌, ◌++◌, map,
  Option, none, some, Str, codes, str_eq, Error, not_implemented, no_permission, duplicate_gateway,
  duplicate_command, Result, ok, err, if◌then◌else◌,
}
use goop.Base.Int.{leb_ℤ, ltb_ℤ}
use goop.Golang.Strings.{to_lower, equal_fold, join, split}
use goop.Golang.Glob.{glob}
use goop.Gateway.Access.{AccessLevel, access_voice, access_kick, access_ban}
use goop.Gateway.Common.{User, Channel, delimiter}
use goop.Gateway.Api.{Gateway, Trigger, M, ◌>>=◌, ◌>>◌, pure, do_kick, do_ban, History}
use goop.Gateway.Events.{Event, async_error}
use goop.Relay.{RelayConfig}

-- The interface `Command`.
pub record Command : Type 0 where
  pub can_execute : Trigger → Bool
  pub execute : Gateway → Trigger → M (Option Error)

-- One call of `NewRelay`.
pub record Relay : Type 0 where
  pub from : Str
  pub to : Str
  pub config : RelayConfig

-- The events of the main object.
pub data MainEvent : Type 0 where
  start stop : MainEvent
  new_gateway new_command : Str → MainEvent
  main_error : Str → Error → MainEvent

-- The maps are association lists, in an order that a `range` may take; `fired` has the newest event
-- first.
pub record Goop : Type 0 where
  pub commands : List (Str × Command)
  pub gateways : List (Str × Gateway)
  pub relay : List Relay
  pub fired : List MainEvent

unfoldable pub lookup {ℓ} : {A : Type ℓ} → Str → List (Str × A) → Option A
lookup k [] = none
lookup k ((j, a) ∷ m) = if str_eq j k then some a else lookup k m

-- New
abbrev pub new_goop : Goop
new_goop = record { commands = []; gateways = []; relay = []; fired = [] }

-- The loop over the gateways, the new one among them. `get_relay` is `g.Config.GetRelay`.
unfoldable pub connect {ℓ} :
    {A : Type ℓ} → (Str → Str → RelayConfig) → Str → List (Str × A) → List Relay
connect get_relay id [] = []
connect get_relay id ((wid, gw) ∷ gateways) =
    let rest = connect get_relay id gateways in
    record { from = wid; to = id; config = get_relay id wid }
    ∷ (if str_eq id wid
        then rest
        else record { from = id; to = wid; config = get_relay wid id } ∷ rest)

unfoldable pub set_id : Str → Gateway → Gateway
set_id k gw = record gw { id = k }

-- The state with the gateway added; the handlers of `NewRelay` are its relays.
unfoldable pub gateway_added : (Str → Str → RelayConfig) → Str → Gateway → Goop → Goop
unfolding connect set_id
gateway_added get_relay id gw g =
    let gateways = (id, set_id id gw) ∷ g.gateways in
    record g {
      gateways = gateways;
      relay = connect get_relay id gateways ++ g.relay;
      fired = new_gateway id ∷ g.fired;
    }

abbrev add_new : (Str → Str → RelayConfig) → Str → Gateway → Goop → Option Gateway → Result Goop
add_new get_relay id gw g (some old) = err duplicate_gateway
add_new get_relay id gw g none = ok (gateway_added get_relay id gw g)

-- AddGateway
unfoldable pub add_gateway : (Str → Str → RelayConfig) → Str → Gateway → Goop → Result Goop
unfolding lookup gateway_added
add_gateway get_relay id gw g = add_new get_relay id gw g (lookup id g.gateways)

unfoldable pub command_added : Str → Command → Goop → Goop
command_added name c g = record g {
  commands = (name, c) ∷ g.commands;
  fired = new_command name ∷ g.fired;
}

abbrev add_named : Str → Command → Goop → Option Command → Result Goop
add_named name c g (some old) = err duplicate_command
add_named name c g none = ok (command_added name c g)

-- AddCommand
unfoldable pub add_command : Str → Command → Goop → Result Goop
unfolding lookup command_added
add_command name c g = add_named (to_lower name) c g (lookup (to_lower name) g.commands)

-- A command to be executed on a gateway, in a goroutine of its own; `prefix` is put before its
-- answers, which go to where the trigger came from.
pub record Job : Type 0 where
  pub command : Command
  pub gateway : Gateway
  pub trigger : Trigger
  pub prefix : Option Str

-- The parts but the last, and the last.
unfoldable pub split_last : Str → List Str → List Str × Str
split_last s [] = ([], s)
split_last s (t ∷ ts) = let (front, last) = split_last t ts in (s ∷ front, last)

abbrev has_channel : Option Channel → Bool
has_channel none = false
has_channel (some c) = true

-- The pattern for a route, and what it is matched against.
unfoldable pub route_pattern : List Str → Str
route_pattern route =
    to_lower (codes "*" ++ delimiter ∷ join route (delimiter ∷ []) ++ delimiter ∷ codes "*")

unfoldable pub route_name : Str → Str
route_name k = delimiter ∷ to_lower k ++ delimiter ∷ []

unfoldable pub is_routed : History → List Str → Str × Gateway → Bool
unfolding route_pattern route_name
is_routed h route (k, gw) = glob (route_pattern route) (route_name k) && has_channel (gw.channel h)

unfoldable pub route_jobs : History → Command → Trigger → List Str → List (Str × Gateway) → List Job
route_jobs h c t route [] = []
route_jobs h c t route ((k, gw) ∷ gateways) =
    let rest = route_jobs h c t route gateways in
    if is_routed h route (k, gw)
    then record {
      command = c;
      gateway = gw;
      trigger = t;
      prefix = some (codes "[" ++ gw.discriminator ++ codes "] ");
    }
      ∷ rest
    else rest

-- The last part names a command that the sender may execute, or nothing is done.
unfoldable pub route_to : History → Goop → Trigger → List Str × Str → List Job
unfolding lookup route_jobs
route_to h g t (route, name) =
    let t' = record t { cmd = name } in
    elim (lookup name g.commands) [
      | none ↦ []
      | some c ↦ if c.can_execute t' then route_jobs h c t' route g.gateways else []
    ]

unfoldable pub exec_remote : History → Goop → Trigger → List Str → List Job
unfolding route_to split_last
exec_remote h g t [] = []
exec_remote h g t (s ∷ []) = []
exec_remote h g t (s ∷ u ∷ more) = route_to h g t (split_last s (u ∷ more))

-- execTrigger, for a trigger of the gateway `gw`: the executions that it starts.
unfoldable pub exec_trigger : History → Goop → Gateway → Trigger → List Job
unfolding lookup exec_remote
exec_trigger h g gw t =
    let t' = record t { cmd = to_lower t.cmd } in
    elim (lookup (to_lower t'.cmd) g.commands) [
      | some c ↦
          if c.can_execute t'
          then record { command = c; gateway = gw; trigger = t'; prefix = none } ∷ []
          else []
      | none ↦ exec_remote h g t' (split t'.cmd delimiter)
    ]

-- checkTriggerChat and checkTriggerPrivateChat: the trigger that is fired. The answer goes to the
-- channel and to the user, respectively.
unfoldable pub check_trigger : Gateway → User → Str → Option Trigger
check_trigger gw u content =
    if ltb_ℤ u.access access_voice || not (equal_fold content (codes "?trigger"))
    then none
    else if str_eq gw.trigger (codes "?")
    then none
    else some (record { user = u; cmd = codes "trigger"; raw = []; arg = [] })

-- autoKick's `switch err`: whether the user is gone, and the events of the main object.
unfoldable pub kick_outcome : Option Error → Bool × List MainEvent
kick_outcome none = (true, [])
kick_outcome (some not_implemented) = (false, [])
kick_outcome (some no_permission) = (false, [])
kick_outcome (some e) = (false, main_error (codes "autoKick") e ∷ [])

module _ (gw : Gateway) where
  -- autoKick
  unfoldable pub auto_kick : User → M (Bool × List MainEvent)
  unfolding kick_outcome
  auto_kick u = do
    e ← if leb_ℤ u.access access_ban then do_ban gw u.id else do_kick gw u.id
    pure (kick_outcome e)

  -- autoKickChat and autoKickJoin: `true` prevents the handlers behind them.
  unfoldable pub auto_kick_event : User → M (Bool × List MainEvent)
  unfolding auto_kick
  auto_kick_event u = if ltb_ℤ access_kick u.access then pure (false, []) else auto_kick u
