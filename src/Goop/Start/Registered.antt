-- ===== src/Goop/Start/Registered.antt =====
-- The main object that `New` of main.go returns.
use goop.Base.{
  ◌≡◌, refl, ap, inl, inr, List, [], ◌∷◌, ◌++◌, map, append-nil, Str, codes, str_eq, Bool-cases,
  Result, ok, ◌>>=◌, >>=-eq-ok,
}
use mathlib.Core.Path.{subst}
use goop.Golang.Strings.{to_lower}
use goop.Gateway.Common.{delimiter}
use goop.Gateway.Api.{Gateway}
use goop.Relay.{RelayConfig}
use goop.Goop.{Command}
use goop.Goop.Registry.{Reachable, IsRegistry, Reachable-IsRegistry}
use goop.Goop.Start.{
  command_fields, Section, DiscordParts, StartConfig, Unused, Started, each, step_command,
  log_unused, under, step_gateway, step_account, step_discord, add_all, check_relays, start,
  unused_capi, unused_bnet, unused_discord,
}
use goop.Goop.Start.Grown.{
  keys, onto, gather, command_names, account_ids, discord_ids, gateway_ids, Grown, Grown-refl,
  Grown-trans, each-Grown, step_command-Grown, step_gateway-Grown,
}

gather_none {ℓ} : {A : Type ℓ} (xs : List A) → gather (λ x. []) xs ≡ []
unfolding gather
gather_none [] = refl
gather_none (x ∷ xs) = gather_none xs

gather_names : (cs : List (Str × Command)) → gather (λ c. to_lower c.0 ∷ []) cs ≡ command_names cs
unfolding gather command_names keys
gather_names [] = refl
gather_names ((name, c) ∷ cs) = ap (λ m. to_lower name ∷ m) (gather_names cs)

gather-under {ℓ} :
    {A : Type ℓ} (id : Str) (m : List (Str × A))
    → gather (λ p. p.0 ∷ []) (under id m) ≡ map (λ cid. id ++ delimiter ∷ cid) (keys m)
unfolding gather under keys
gather-under id [] = refl
gather-under id ((cid, a) ∷ m) = ap (λ t. (id ++ delimiter ∷ cid) ∷ t) (gather-under id m)

module _ (get_relay : Str → Str → RelayConfig) where
  commands-Grown :
      (cs : List (Str × Command)) (s s' : Started)
      → each step_command cs s ≡ ok s'
      → Grown get_relay (command_names cs) [] s.goop s'.goop
  commands-Grown cs s s' h =
      subst (λ ids. Grown get_relay (command_names cs) ids s.goop s'.goop) (gather_none cs)
        (subst (λ names. Grown get_relay names (gather (λ c. []) cs) s.goop s'.goop)
          (gather_names cs)
          (each-Grown get_relay step_command (λ c. to_lower c.0 ∷ []) (λ c. [])
            (step_command-Grown get_relay) cs s s' h))

  -- A loop that adds no command.
  gateways-Grown {ℓ} :
      {A : Type ℓ} (step : A → Started → Result Started) (ids : A → List Str)
      → ((x : A) (s s' : Started) → step x s ≡ ok s' → Grown get_relay [] (ids x) s.goop s'.goop)
      → (xs : List A) (s s' : Started) → each step xs s ≡ ok s'
      → Grown get_relay [] (gather ids xs) s.goop s'.goop
  gateways-Grown step ids one xs s s' h =
      subst (λ names. Grown get_relay names (gather ids xs) s.goop s'.goop) (gather_none xs)
        (each-Grown get_relay step (λ x. []) ids one xs s s' h)

  skip-Grown :
      (u : Unused) (s s' : Started)
      → ok (log_unused u s) ≡ ok s'
      → Grown get_relay [] [] s.goop s'.goop
  unfolding log_unused
  skip-Grown u s s' h =
      let last : log_unused u s ≡ s' = cc in
      subst (λ t. Grown get_relay [] [] s.goop t.goop) last (Grown-refl get_relay s.goop)

  step_account-Grown :
      (kind : Str) (unused : Str → Unused) (p : Str × Section Gateway) (s s' : Started)
      → step_account get_relay kind unused p s ≡ ok s'
      → Grown get_relay [] (account_ids kind p) s.goop s'.goop
  unfolding step_account account_ids
  step_account-Grown kind unused (k, a) s s' h = elim (Bool-cases (str_eq a.secret [])) [
    | inl e ↦ rw e (skip-Grown (unused k) s s' (rw e at h))
    | inr e ↦
        let (gw, created, added) = >>=-eq-ok a.created _ (rw e at h) in
        rw e (step_gateway-Grown get_relay (kind ++ delimiter ∷ k, gw) s s' added)
  ]

  step_discord-Grown :
      (p : Str × Section DiscordParts) (s s' : Started)
      → step_discord get_relay p s ≡ ok s'
      → Grown get_relay [] (discord_ids p) s.goop s'.goop
  unfolding step_discord discord_ids
  step_discord-Grown (k, a) s s' h = elim (Bool-cases (str_eq a.secret [])) [
    | inl e ↦ rw e (skip-Grown (unused_discord k) s s' (rw e at h))
    | inr e ↦
        let id : Str = codes "discord:" ++ k in
        let (d, created, added) = >>=-eq-ok a.created _ (rw e at h) in
        let (t, first, rest) = >>=-eq-ok (step_gateway get_relay (id, d.gateway) s) _ added in
        let channels =
          gateways-Grown (step_gateway get_relay) (λ q. q.0 ∷ []) (step_gateway-Grown get_relay)
            (under id d.channels) t s' rest in
        let both =
          Grown-trans get_relay [] [] (id ∷ []) (gather (λ q. q.0 ∷ []) (under id d.channels))
            (step_gateway-Grown get_relay (id, d.gateway) s t first) channels in
        rw (e, created)
          (subst (λ ids. Grown get_relay [] (id ∷ ids) s.goop s'.goop) (gather-under id d.channels)
            both)
  ]

  add_all-Grown :
      (c : StartConfig) (s s' : Started)
      → add_all get_relay c s ≡ ok s'
      → Grown get_relay
          (command_names (command_fields c.commands) ++ command_names c.alias)
          (gateway_ids c)
          s.goop
          s'.goop
  unfolding add_all gateway_ids
  add_all-Grown c s s' h =
      let names : List Str = command_names (command_fields c.commands) in
      let capi_ids : List Str = gather (account_ids (codes "capi")) c.capi in
      let bnet_ids : List Str = gather (account_ids (codes "bnet")) c.bnet in
      let more_ids : List Str = gather discord_ids c.discord in
      let r1 = each step_command (command_fields c.commands) s in
      let r2 = r1 >>= each step_command c.alias in
      let r3 = r2 >>= step_gateway get_relay (codes "std:io", c.std_io) in
      let r4 = r3 >>= each (step_account get_relay (codes "capi") unused_capi) c.capi in
      let r5 = r4 >>= each (step_account get_relay (codes "bnet") unused_bnet) c.bnet in
      let (s5, h5, discord) = >>=-eq-ok r5 (each (step_discord get_relay) c.discord) h in
      let (s4, h4, bnet) = >>=-eq-ok r4 _ h5 in
      let (s3, h3, capi) = >>=-eq-ok r3 _ h4 in
      let (s2, h2, std) = >>=-eq-ok r2 _ h3 in
      let (s1, fields, alias) = >>=-eq-ok r1 _ h2 in
      let g6 = gateways-Grown _ discord_ids step_discord-Grown c.discord s5 s' discord in
      let g5 =
        gateways-Grown _ (account_ids (codes "bnet"))
          (step_account-Grown (codes "bnet") unused_bnet) c.bnet s4 s5 bnet in
      let g4 =
        gateways-Grown _ (account_ids (codes "capi"))
          (step_account-Grown (codes "capi") unused_capi) c.capi s3 s4 capi in
      let g3 = step_gateway-Grown get_relay (codes "std:io", c.std_io) s2 s3 std in
      let after_capi : Grown get_relay [] (bnet_ids ++ more_ids) s4.goop s'.goop =
        Grown-trans get_relay [] [] bnet_ids more_ids g5 g6 in
      let after_std : Grown get_relay [] (capi_ids ++ (bnet_ids ++ more_ids)) s3.goop s'.goop =
        Grown-trans get_relay [] [] capi_ids (bnet_ids ++ more_ids) g4 after_capi in
      let gateways : Grown get_relay [] (gateway_ids c) s2.goop s'.goop =
        Grown-trans get_relay [] [] (codes "std:io" ∷ []) (capi_ids ++ (bnet_ids ++ more_ids)) g3
          after_std in
      let after =
        Grown-trans get_relay (command_names c.alias) [] [] (gateway_ids c)
          (commands-Grown c.alias s1 s2 alias) gateways in
      subst (λ m. Grown get_relay (names ++ m) (gateway_ids c) s.goop s'.goop)
        (append-nil (command_names c.alias))
        (Grown-trans get_relay names (command_names c.alias ++ []) [] (gateway_ids c)
          (commands-Grown (command_fields c.commands) s s1 fields) after)

-- If `New` returns a main object, starting from what the plugins made of one that the program can
-- come to, then it is one that the program can come to, its gateway IDs and command names are unique
-- and the names in lower case; the commands added are the fields of `Commands` and the aliases, in
-- lower case, and the gateways added are the console, every Chat API, Battle.net and Discord account
-- that has its key, password or token, and every channel of these Discord gateways, with the IDs of
-- their sections, and no other, the last one added in front.
pub start-IsRegistry :
    (get_relay : Str → Str → RelayConfig) (c : StartConfig) (s s' : Started)
    → Reachable get_relay s.goop
    → start get_relay c s ≡ ok s'
    → Reachable get_relay s'.goop
      × IsRegistry s'.goop
      × (keys s'.goop.commands
          ≡ onto
              (command_names (command_fields c.commands) ++ command_names c.alias)
              (keys s.goop.commands))
      × (keys s'.goop.gateways ≡ onto (gateway_ids c) (keys s.goop.gateways))
unfolding start
start-IsRegistry get_relay c s s' reached h =
    let (t, added, e) = >>=-eq-ok (add_all get_relay c s) _ h in
    let last : record t { logged = check_relays t.goop c.relay t.logged } ≡ s' = cc in
    let grown =
      subst
        (λ x.
          Grown get_relay (command_names (command_fields c.commands) ++ command_names c.alias)
            (gateway_ids c) s.goop x.goop)
        last (add_all-Grown get_relay c s t added) in
    let there = grown.reached reached in
    (there, Reachable-IsRegistry get_relay s'.goop there, grown.commands, grown.gateways)
