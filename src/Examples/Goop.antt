-- ===== src/Examples/Goop.antt =====
-- The main object, on concrete inputs.
use goop.Base.{
  ◌≡◌, ◌≢◌, ◌↔◌, refl, true, false, ◌&&◌, [], ◌∷◌, none, Str, codes, All, arith, ok, if◌then◌else◌,
}
use goop.Base.Int.{pos}
use goop.Golang.Strings.{to_lower, join}
use goop.Golang.Glob.Laws.{IsPlain}
use goop.Gateway.Common.{delimiter}
use goop.Gateway.Api.{pure}
use goop.Relay.{RelayConfig}
use goop.Goop.{
  Command, Goop, new_goop, gateway_added, command_added, lookup, exec_trigger, is_routed,
  auto_kick_event, add_gateway, add_command,
}
use goop.Goop.Registry.{Reachable}
use goop.Goop.Matrix.{relay_matrix, relay_count, is_found, IsConfigured}
use goop.Goop.Permission.{IsPermitted, exec_trigger-IsPermitted}
use goop.Goop.Routing.{IsNamed, is_routed_iff}
use goop.Goop.AutoKick.{Judged, auto_kick_event-Judged}
use goop.Examples.{world, sent, guest}

abbrev pub silent : RelayConfig
silent = record {
  log = false;
  system = false;
  channel = false;
  joins = false;
  chat = false;
  private_chat = false;
  say = false;
  join_access = pos 0;
  chat_access = pos 0;
  private_chat_access = pos 0;
}

abbrev pub configured : Str → Str → RelayConfig
configured to from = silent

abbrev pub echo : Command
echo = record { can_execute = λ t. true; execute = λ gw t. pure none }

abbrev one_gateway : Goop
one_gateway = gateway_added configured (codes "bnet:azeroth") world new_goop

abbrev small : Goop
small = command_added (codes "echo") echo one_gateway

first_step : add_gateway configured (codes "bnet:azeroth") world new_goop ≡ ok one_gateway
unfolding add_gateway
first_step = refl

second_step : add_command (codes "Echo") echo one_gateway ≡ ok small
unfolding add_command to_lower gateway_added
second_step = refl

small-Reachable : Reachable configured small
small-Reachable =
    Reachable.with_command (codes "Echo") echo
      (Reachable.with_gateway (codes "bnet:azeroth") world Reachable.initial first_step) second_step

relay_matrix_example :
    ((from to : Str)
      → relay_count from to small.relay ≡ (
          if is_found (lookup from small.gateways) && is_found (lookup to small.gateways)
          then 1
          else 0))
    × All (IsConfigured configured) small.relay
relay_matrix_example = relay_matrix configured small small-Reachable

exec_trigger-IsPermitted_example :
    All
      (IsPermitted small (sent (codes "azeroth:echo") []))
      (exec_trigger [] small world (sent (codes "azeroth:echo") []))
exec_trigger-IsPermitted_example =
    exec_trigger-IsPermitted [] small world (sent (codes "azeroth:echo") [])

IsPlain-route : All IsPlain (join (codes "azeroth" ∷ []) (delimiter ∷ []))
unfolding join
IsPlain-route = ground arith

is_routed_iff_example :
    (is_routed [] (codes "azeroth" ∷ []) (codes "bnet:Azeroth", world) ≡ true)
    ↔ (IsNamed (codes "azeroth" ∷ []) (codes "bnet:Azeroth") × (world.channel [] ≢ none))
is_routed_iff_example =
    is_routed_iff [] (codes "azeroth" ∷ []) (codes "bnet:Azeroth") world IsPlain-route
      (ground arith)

auto_kick_event-Judged_example :
    let r = auto_kick_event world guest [] in Judged world guest [] r.0.0 r.0.1 r.1
auto_kick_event-Judged_example = auto_kick_event-Judged world guest []
