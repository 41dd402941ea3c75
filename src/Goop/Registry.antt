-- ===== src/Goop/Registry.antt =====
-- What the maps of the main object look like in every state that the program can come to.
use goop.Base.{
  ℕ, suc, ◌≤◌, ◌≡◌, refl, inl, inr, List, [], ◌∷◌, none, arith, Str, str_eq, str_eq→eq, Bool-cases,
  Option-cases, ok, if◌then◌else◌, All,
}
use mathlib.Core.Path.{subst}
use goop.Golang.Strings.{to_lower}
use goop.Golang.Strings.Laws.{to_lower_idem}
use goop.Gateway.Api.{Gateway}
use goop.Relay.{RelayConfig}
use goop.Goop.{
  Command, Goop, new_goop, lookup, add_gateway, add_command, set_id, gateway_added, command_added,
}

-- The states that the program can come to.
pub data Reachable (get_relay : Str → Str → RelayConfig) : Goop → Type 0 where
  initial : Reachable get_relay new_goop
  with_gateway :
      {g g' : Goop} (id : Str) (gw : Gateway)
      → Reachable get_relay g
      → add_gateway get_relay id gw g ≡ ok g'
      → Reachable get_relay g'
  with_command :
      {g g' : Goop} (name : Str) (c : Command)
      → Reachable get_relay g
      → add_command name c g ≡ ok g'
      → Reachable get_relay g'

-- How often a key occurs.
unfoldable pub key_count {ℓ} : {A : Type ℓ} → Str → List (Str × A) → ℕ
key_count k [] = 0
key_count k ((j, a) ∷ m) = if str_eq j k then suc (key_count k m) else key_count k m

pub key_count_of_none {ℓ} :
    {A : Type ℓ} (k : Str) (m : List (Str × A)) → lookup k m ≡ none → key_count k m ≡ 0
unfolding lookup key_count
key_count_of_none k [] h = refl
key_count_of_none k ((j, a) ∷ m) h = elim (Bool-cases (str_eq j k)) [
  | inl e ↦ let found = rw e at h in cc
  | inr e ↦ rw e (key_count_of_none k m (rw e at h))
]

-- A new key does not make any key occur twice.
key_count-cons {ℓ} :
    {A : Type ℓ} (j : Str) (a : A) (m : List (Str × A))
    → lookup j m ≡ none
    → ((k : Str) → key_count k m ≤ 1)
    → (k : Str) → key_count k ((j, a) ∷ m) ≤ 1
unfolding key_count
key_count-cons j a m new unique k = elim (Bool-cases (str_eq j k)) [
  | inl e ↦
      let same : j ≡ k = str_eq→eq j k e in
      let times : key_count k m ≡ 0 =
        subst (λ x. key_count x m ≡ 0) same (key_count_of_none j m new) in
      rw (e, times) (omega arith)
  | inr e ↦ rw e (unique k)
]

pub add_gateway-ok :
    (get_relay : Str → Str → RelayConfig) (id : Str) (gw : Gateway) (g g' : Goop)
    → add_gateway get_relay id gw g ≡ ok g'
    → (lookup id g.gateways ≡ none) × (gateway_added get_relay id gw g ≡ g')
unfolding add_gateway
add_gateway-ok get_relay id gw g g' h = elim (Option-cases (lookup id g.gateways)) [
  | inl e ↦ let added = rw e at h in (e, cc)
  | inr (old, e) ↦ let added = rw e at h in cc
]

pub add_command-ok :
    (name : Str) (c : Command) (g g' : Goop)
    → add_command name c g ≡ ok g'
    → (lookup (to_lower name) g.commands ≡ none) × (command_added (to_lower name) c g ≡ g')
unfolding add_command
add_command-ok name c g g' h = elim (Option-cases (lookup (to_lower name) g.commands)) [
  | inl e ↦ let added = rw e at h in (e, cc)
  | inr (old, e) ↦ let added = rw e at h in cc
]

-- Every key is there once, and the commands' names are in lower case.
pub record IsRegistry (g : Goop) : Type 0 where
  pub gateways_once : (k : Str) → key_count k g.gateways ≤ 1
  pub commands_once : (k : Str) → key_count k g.commands ≤ 1
  pub names_lower : All (λ p. to_lower p.0 ≡ p.0) g.commands

IsRegistry-gateway_added :
    (get_relay : Str → Str → RelayConfig) (id : Str) (gw : Gateway) (g : Goop)
    → lookup id g.gateways ≡ none
    → IsRegistry g
    → IsRegistry (gateway_added get_relay id gw g)
unfolding gateway_added
IsRegistry-gateway_added get_relay id gw g new r = record {
  gateways_once = key_count-cons id (set_id id gw) g.gateways new r.gateways_once;
  commands_once = r.commands_once;
  names_lower = r.names_lower;
}

IsRegistry-command_added :
    (name : Str) (c : Command) (g : Goop)
    → lookup (to_lower name) g.commands ≡ none
    → IsRegistry g
    → IsRegistry (command_added (to_lower name) c g)
unfolding command_added
IsRegistry-command_added name c g new r = record {
  gateways_once = r.gateways_once;
  commands_once = key_count-cons (to_lower name) c g.commands new r.commands_once;
  names_lower = (to_lower_idem name, r.names_lower);
}

-- In every state that the program can come to, no two gateways have the same ID, no two commands
-- have the same name, and the names of commands are in lower case.
pub Reachable-IsRegistry :
    (get_relay : Str → Str → RelayConfig) (g : Goop) → Reachable get_relay g → IsRegistry g
unfolding key_count
Reachable-IsRegistry get_relay _ Reachable.initial = record {
  gateways_once = λ k. omega arith;
  commands_once = λ k. omega arith;
  names_lower = tt;
}
Reachable-IsRegistry get_relay g' (Reachable.with_gateway {g} id gw r h) =
    let (new, e) = add_gateway-ok get_relay id gw g g' h in
    subst IsRegistry e
      (IsRegistry-gateway_added get_relay id gw g new (Reachable-IsRegistry get_relay g r))
Reachable-IsRegistry get_relay g' (Reachable.with_command {g} name c r h) =
    let (new, e) = add_command-ok name c g g' h in
    subst IsRegistry e (IsRegistry-command_added name c g new (Reachable-IsRegistry get_relay g r))
