-- ===== src/Examples/Settings.antt =====
-- The command for settings, on a configuration that is a list of keys with their texts.
use goop.Base.{List, [], ◌∷◌, map, Str, codes, ok}
use goop.Gateway.Bnet.{delete, insert}
use goop.Cmd.Settings.{plain, Configurable, settings_execute}
use goop.Cmd.Settings.Update.{KeepsAll, AllAnnounced, settings_execute-AllAnnounced}
use goop.Examples.{sent}

abbrev Flat : Type 0
Flat = List (Str × Str)

abbrev flat : Configurable Flat
flat = record {
  flat_map = λ c. map (λ p. (p.0, plain p.1)) c;
  unset = λ c k. ok (delete k c);
  set_string = λ c k s. ok (insert k s c);
  error_text = λ e. codes "failed";
}

abbrev unsorted : List Str → List Str
unsorted l = l

unsorted-KeepsAll : KeepsAll unsorted
unsorted-KeepsAll P l h = h

abbrev settings : Flat
settings = (codes "std/read", codes "true") ∷ (codes "default/_x", codes "1") ∷ []

settings_execute-AllAnnounced_example :
    AllAnnounced flat unsorted unsorted-KeepsAll settings
      (codes "set" ∷ codes "std/*" ∷ codes "false" ∷ [])
      (settings_execute flat unsorted settings
        (sent (codes "settings") (codes "set" ∷ codes "std/*" ∷ codes "false" ∷ [])))
settings_execute-AllAnnounced_example =
    settings_execute-AllAnnounced flat unsorted unsorted-KeepsAll settings
      (sent (codes "settings") (codes "set" ∷ codes "std/*" ∷ codes "false" ∷ []))
