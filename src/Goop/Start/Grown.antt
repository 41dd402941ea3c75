-- ===== src/Goop/Start/Grown.antt =====
-- What `New` of main.go has registered.
use goop.Base.{
  ◌≡◌, refl, sym, ap, ◌∙◌, List, [], ◌∷◌, ◌++◌, map, Str, codes, str_eq, Result, ok, err, >>=-eq-ok,
  if◌then◌else◌,
}
use mathlib.Core.Path.{subst}
use goop.Golang.Strings.{to_lower}
use goop.Gateway.Common.{delimiter}
use goop.Gateway.Api.{Gateway}
use goop.Relay.{RelayConfig}
use goop.Goop.{Command, Goop, add_gateway, add_command, gateway_added, command_added}
use goop.Goop.Registry.{Reachable, add_gateway-ok, add_command-ok}
use goop.Goop.Start.{Section, DiscordParts, StartConfig, Started, each, step_command, step_gateway}

unfoldable pub keys {ℓ} : {A : Type ℓ} → List (Str × A) → List Str
keys [] = []
keys ((k, a) ∷ m) = k ∷ keys m

-- The names `xs`, put one after the other in front of `m`.
unfoldable pub onto : List Str → List Str → List Str
onto [] m = m
onto (x ∷ xs) m = onto xs (x ∷ m)

pub onto-append : (xs ys m : List Str) → onto (xs ++ ys) m ≡ onto ys (onto xs m)
unfolding onto
onto-append [] ys m = refl
onto-append (x ∷ xs) ys m = onto-append xs ys (x ∷ m)

unfoldable pub gather {ℓ} : {A : Type ℓ} → (A → List Str) → List A → List Str
gather f [] = []
gather f (x ∷ xs) = f x ++ gather f xs

-- The names of the commands, and the IDs of the gateways, that a configuration asks for.
unfoldable pub command_names : List (Str × Command) → List Str
command_names cs = map to_lower (keys cs)

unfoldable pub account_ids : Str → Str × Section Gateway → List Str
account_ids kind (k, a) = if str_eq a.secret [] then [] else (kind ++ delimiter ∷ k) ∷ []

abbrev pub channel_keys : Result DiscordParts → List Str
channel_keys (err e) = []
channel_keys (ok d) = keys d.channels

unfoldable pub discord_ids : Str × Section DiscordParts → List Str
unfolding keys
discord_ids (k, a) =
    let id = codes "discord:" ++ k in
    if str_eq a.secret []
    then []
    else id ∷ map (λ cid. id ++ delimiter ∷ cid) (channel_keys a.created)

unfoldable pub gateway_ids : StartConfig → List Str
unfolding gather account_ids discord_ids
gateway_ids c =
    codes "std:io" ∷ gather (account_ids (codes "capi")) c.capi
    ++ (gather (account_ids (codes "bnet")) c.bnet ++ gather discord_ids c.discord)

-- What has been added from one state to another.
pub record Grown (get_relay : Str → Str → RelayConfig) (names ids : List Str) (g g' : Goop)
    : Type 0 where
  pub reached : Reachable get_relay g → Reachable get_relay g'
  pub commands : keys g'.commands ≡ onto names (keys g.commands)
  pub gateways : keys g'.gateways ≡ onto ids (keys g.gateways)

module _ (get_relay : Str → Str → RelayConfig) where
  pub Grown-refl : (g : Goop) → Grown get_relay [] [] g g
  unfolding onto
  Grown-refl g = record { reached = λ r. r; commands = refl; gateways = refl }

  pub Grown-trans :
      (names names' ids ids' : List Str) {g g' g'' : Goop}
      → Grown get_relay names ids g g'
      → Grown get_relay names' ids' g' g''
      → Grown get_relay (names ++ names') (ids ++ ids') g g''
  Grown-trans names names' ids ids' {g} p q = record {
    reached = λ r. q.reached (p.reached r);
    commands =
        q.commands ∙ ap (onto names') p.commands ∙ sym (onto-append names names' (keys g.commands));
    gateways =
        q.gateways ∙ ap (onto ids') p.gateways ∙ sym (onto-append ids ids' (keys g.gateways));
  }

  pub each-Grown {ℓ} :
      {A : Type ℓ} (step : A → Started → Result Started) (names ids : A → List Str)
      → ((x : A) (s s' : Started)
          → step x s ≡ ok s'
          → Grown get_relay (names x) (ids x) s.goop s'.goop)
      → (xs : List A) (s s' : Started) → each step xs s ≡ ok s'
      → Grown get_relay (gather names xs) (gather ids xs) s.goop s'.goop
  unfolding each gather
  each-Grown step names ids one [] s s' h =
      let same : s ≡ s' = cc in
      subst (λ t. Grown get_relay [] [] s.goop t.goop) same (Grown-refl s.goop)
  each-Grown step names ids one (x ∷ xs) s s' h =
      let (t, first, rest) = >>=-eq-ok (step x s) (each step xs) h in
      Grown-trans (names x) (gather names xs) (ids x) (gather ids xs) (one x s t first)
        (each-Grown step names ids one xs t s' rest)

  pub step_command-Grown :
      (c : Str × Command) (s s' : Started)
      → step_command c s ≡ ok s'
      → Grown get_relay (to_lower c.0 ∷ []) [] s.goop s'.goop
  unfolding step_command command_added keys onto
  step_command-Grown (name, c) s s' h =
      let (g, added, e) = >>=-eq-ok (add_command name c s.goop) _ h in
      let (new, same) = add_command-ok name c s.goop g added in
      let last : record s { goop = g } ≡ s' = cc in
      subst (λ t. Grown get_relay (to_lower name ∷ []) [] s.goop t.goop) last
        (record {
          reached = λ r. Reachable.with_command name c r added;
          commands = sym (ap (λ x. keys x.commands) same);
          gateways = sym (ap (λ x. keys x.gateways) same);
        })

  pub step_gateway-Grown :
      (p : Str × Gateway) (s s' : Started)
      → step_gateway get_relay p s ≡ ok s'
      → Grown get_relay [] (p.0 ∷ []) s.goop s'.goop
  unfolding step_gateway gateway_added keys onto
  step_gateway-Grown (id, gw) s s' h =
      let (g, added, e) = >>=-eq-ok (add_gateway get_relay id gw s.goop) _ h in
      let (new, same) = add_gateway-ok get_relay id gw s.goop g added in
      let last : record s { goop = g } ≡ s' = cc in
      subst (λ t. Grown get_relay [] (id ∷ []) s.goop t.goop) last
        (record {
          reached = λ r. Reachable.with_gateway id gw r added;
          commands = sym (ap (λ x. keys x.commands) same);
          gateways = sym (ap (λ x. keys x.gateways) same);
        })
