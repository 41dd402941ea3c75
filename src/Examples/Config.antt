-- ===== src/Examples/Config.antt =====
-- The configuration, on concrete values.
use goop.Base.{
  ℕ, ◌≡◌, ◌≢◌, ◌⊎◌, refl, inl, inr, true, false, [], ◌∷◌, none, some, Str, codes, str_eq, All, ok,
  arith,
}
use goop.Golang.Strings.{equal_fold}
use goop.Golang.Strings.Laws.{equal_fold_apart}
use goop.Relay.{RelayConfig}
use goop.Goop.{lookup}
use goop.Config.RelayTable.{RelayTo, RelayTable, get_relay}
use goop.Config.Compact.{write_from, zero_config, rewritten}
use goop.Config.Merge.{last_fold}
use goop.Config.Merge.Entries.{IsFoldMap}
use goop.Config.Compact.Answers.{rewritten_answers}
use goop.Config.Reflect.{
  Reflected, Fields, ref, struct, map_of, plain, no_fields, field, no_entries, entry, find,
  flat_map, get,
}
use goop.Config.Reflect.Absent.{Absent, AbsentFields, Unlisted, UnlistedFields}
use goop.Config.Reflect.Tidy.{Tidy}
use goop.Config.Reflect.Found.{IsGot, flat_map-IsGot}
use goop.Examples.Goop.{silent}

abbrev loud : RelayConfig
loud = record silent { log = true }

-- The default of the entry is the general one, and its list has an entry of its own.
abbrev relays : RelayTable
relays = record {
  default_relay = record silent { chat = true };
  default_self = silent;
  to =
      (
        codes "std:io",
        record { default = record silent { chat = true }; from = (codes "bnet:a", loud) ∷ [] },
      )
      ∷ [];
}

relays-IsFoldMap : IsFoldMap relays.to
unfolding IsFoldMap last_fold
relays-IsFoldMap = (refl, tt)

rewritten_answers_example :
    let to = codes "std:io" in
    let from = codes "bnet:b" in
    let kept = (get_relay (rewritten relays) to from).0 ≡ (get_relay relays to from).0 in
    (lookup to relays.to ≡ none → kept)
    × ((e : RelayTo)
        → lookup to relays.to ≡ some e
        → IsFoldMap e.from
        → (str_eq to from ≡ true → kept)
          × (e.default ≢ relays.default_relay → kept)
          × (write_from relays.default_self e.default to e.from ≡ [] → kept)
          × ((get_relay relays to from).0 ≢ e.default → kept)
          × (e.default ≡ relays.default_relay
              → write_from relays.default_self e.default to e.from ≢ []
              → str_eq to from ≡ false
              → (get_relay relays to from).0 ≡ e.default
              → (get_relay (rewritten relays) to from).0 ≡ zero_config))
rewritten_answers_example =
    rewritten_answers relays (codes "std:io") (codes "bnet:b") relays-IsFoldMap

-- A part of a configuration of the Battle.net gateway: two anonymous fields, both of a type `Config`, one
-- of them below the anonymous `GatewayConfig`.
abbrev commands : Fields ℕ
commands = field true false (codes "Commands") (plain 1) no_fields

abbrev users : Reflected ℕ
users = map_of false (entry (codes "moon") (plain 2) no_entries)

abbrev additions : Fields ℕ
additions = field true true (codes "Config") (struct commands) (
    field true false (codes "HomeChannel") (plain 3)
      (field true false (codes "AccessUser") users no_fields))

abbrev client_part : Fields ℕ
client_part = field true false (codes "ServerAddr") (plain 4) no_fields

abbrev config : Reflected ℕ
config = ref (
    struct (
      field true true (codes "GatewayConfig") (struct additions)
        (field true true (codes "Config") (struct client_part) no_fields)))

-- Each of the names differs from the others.
module _ (k : Str) where
  own_GatewayConfig : (equal_fold k (codes "GatewayConfig") ≡ false) ⊎ Unlisted k (struct additions)
  unfolding Unlisted equal_fold
  own_GatewayConfig =
      let a = equal_fold_apart k (codes "GatewayConfig") (codes "Commands") refl in
      let b = equal_fold_apart k (codes "GatewayConfig") (codes "HomeChannel") refl in
      let c = equal_fold_apart k (codes "GatewayConfig") (codes "AccessUser") refl in ground arith

  later_GatewayConfig :
      AbsentFields k (field true true (codes "Config") (struct client_part) no_fields)
      ⊎ Unlisted k (struct additions)
  unfolding Absent Unlisted equal_fold
  later_GatewayConfig =
      let a = equal_fold_apart k (codes "Config") (codes "Commands") refl in
      let b = equal_fold_apart k (codes "Config") (codes "HomeChannel") refl in
      let c = equal_fold_apart k (codes "Config") (codes "AccessUser") refl in
      let d = equal_fold_apart k (codes "ServerAddr") (codes "Commands") refl in
      let e = equal_fold_apart k (codes "ServerAddr") (codes "HomeChannel") refl in
      let f = equal_fold_apart k (codes "ServerAddr") (codes "AccessUser") refl in ground arith

  apart_GatewayConfig :
      ((equal_fold k (codes "GatewayConfig") ≡ false) × Absent k (struct additions))
      ⊎ UnlistedFields k (field true true (codes "Config") (struct client_part) no_fields)
  unfolding Absent Unlisted equal_fold
  apart_GatewayConfig =
      let a = equal_fold_apart k (codes "GatewayConfig") (codes "ServerAddr") refl in
      let b = equal_fold_apart k (codes "Config") (codes "ServerAddr") refl in
      let c = equal_fold_apart k (codes "Commands") (codes "ServerAddr") refl in
      let d = equal_fold_apart k (codes "HomeChannel") (codes "ServerAddr") refl in
      let e = equal_fold_apart k (codes "AccessUser") (codes "ServerAddr") refl in ground arith

  own_Config : (equal_fold k (codes "Config") ≡ false) ⊎ Unlisted k (struct commands)
  unfolding Unlisted equal_fold
  own_Config = let a = equal_fold_apart k (codes "Config") (codes "Commands") refl in ground arith

  abbrev others : Fields ℕ
  others =
      field true false (codes "HomeChannel") (plain 3)
        (field true false (codes "AccessUser") users no_fields)

  later_Config : AbsentFields k others ⊎ Unlisted k (struct commands)
  unfolding Absent Unlisted equal_fold
  later_Config =
      let a = equal_fold_apart k (codes "HomeChannel") (codes "Commands") refl in
      let b = equal_fold_apart k (codes "AccessUser") (codes "Commands") refl in ground arith

  apart_Config :
      ((equal_fold k (codes "Config") ≡ false) × Absent k (struct commands))
      ⊎ UnlistedFields k others
  unfolding Absent Unlisted equal_fold
  apart_Config =
      let a = equal_fold_apart k (codes "Config") (codes "HomeChannel") refl in
      let b = equal_fold_apart k (codes "Config") (codes "AccessUser") refl in
      let c = equal_fold_apart k (codes "Commands") (codes "HomeChannel") refl in
      let d = equal_fold_apart k (codes "Commands") (codes "AccessUser") refl in ground arith

  apart_HomeChannel :
      (equal_fold k (codes "HomeChannel") ≡ false)
      ⊎ UnlistedFields k (field true false (codes "AccessUser") users no_fields)
  unfolding Unlisted equal_fold
  apart_HomeChannel =
      let a = equal_fold_apart k (codes "HomeChannel") (codes "AccessUser") refl in ground arith

  own_client : (equal_fold k (codes "Config") ≡ false) ⊎ Unlisted k (struct client_part)
  unfolding Unlisted equal_fold
  own_client = let a = equal_fold_apart k (codes "Config") (codes "ServerAddr") refl in ground arith

config-Tidy : Tidy config
unfolding Tidy
config-Tidy = (
  tt,
  own_GatewayConfig,
  later_GatewayConfig,
  apart_GatewayConfig,
  (
    tt,
    own_Config,
    later_Config,
    apart_Config,
    (ground arith, λ k. inr tt, tt, tt),
    (
      ground arith,
      apart_HomeChannel,
      tt,
      (ground arith, λ k. inr tt, (ground arith, λ k. inr tt, tt, tt), tt),
    ),
  ),
  (tt, own_client, λ k. inl tt, λ k. inr tt, (ground arith, λ k. inr tt, tt, tt), tt),
)

flat_map-IsGot_example : All (IsGot config) (flat_map [] config)
flat_map-IsGot_example = flat_map-IsGot config config-Tidy

config_runs :
    (flat_map [] config
      ≡ (codes "Commands", plain 1)
        ∷ (codes "HomeChannel", plain 3)
        ∷ (codes "AccessUser", users)
        ∷ (codes "AccessUser/moon", plain 2)
        ∷ (codes "ServerAddr", plain 4)
        ∷ [])
    × (get config (codes "accessuser/MOON") ≡ ok (plain 2))
unfolding flat_map get find equal_fold
config_runs = (refl, refl)
