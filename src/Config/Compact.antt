-- ===== src/Config/Compact.antt =====
-- config.go: what Map writes of the relay section, and how the section is read again.
pub mod Kept
pub mod Answers
use goop.Base.{
  Bool, true, false, not, ◌&&◌, List, [], ◌∷◌, Option, none, some, Str, str_eq, if◌then◌else◌,
}
use goop.Base.Int.{pos, eq_ℤ}
use goop.Relay.{RelayConfig}
use goop.Config.Merge.{last_fold, is_there}
use goop.Config.RelayTable.{RelayTo, RelayTable}

-- reflect.DeepEqual of two relay configurations.
abbrev pub same_bool : Bool → Bool → Bool
same_bool true b = b
same_bool false b = not b

unfoldable pub same_config : RelayConfig → RelayConfig → Bool
same_config a b =
    same_bool a.log b.log
    && same_bool a.system b.system
    && same_bool a.channel b.channel
    && same_bool a.joins b.joins
    && same_bool a.chat b.chat
    && same_bool a.private_chat b.private_chat
    && same_bool a.say b.say
    && eq_ℤ a.join_access b.join_access
    && eq_ℤ a.chat_access b.chat_access
    && eq_ℤ a.private_chat_access b.private_chat_access

-- An entry of `To` as it is written: the keys `Default` and `From` may be gone. Without `From`, the
-- list is empty.
pub record Written : Type 0 where
  pub default : Option RelayConfig
  pub from : List (Str × RelayConfig)

-- The test on an entry of `From`, for the names of both gateways.
abbrev pub is_implied : RelayConfig → RelayConfig → Str → Str → RelayConfig → Bool
is_implied self default to from cfg =
    if str_eq to from then same_config self cfg else same_config default cfg

-- The inner loop.
unfoldable pub write_from :
    RelayConfig → RelayConfig → Str → List (Str × RelayConfig) → List (Str × RelayConfig)
unfolding same_config
write_from self default to [] = []
write_from self default to ((from, cfg) ∷ m) =
    if is_implied self default to from cfg
    then write_from self default to m
    else (from, cfg) ∷ write_from self default to m

-- The body of the outer loop; nothing is written where both keys are gone.
abbrev pub write_to : RelayTable → Str → RelayTo → Written
write_to c to e = record {
  default = if same_config c.default_relay e.default then none else some e.default;
  from = write_from c.default_self e.default to e.from;
}

abbrev pub is_gone : Written → Bool
is_gone w = elim w.default [ some d ↦ false | none ↦ elim w.from [ [] ↦ true | p ∷ m ↦ false ] ]

unfoldable pub write_each : RelayTable → List (Str × RelayTo) → List (Str × Written)
unfolding same_config write_from
write_each c [] = []
write_each c ((to, e) ∷ m) =
    let w = write_to c to e in
    let rest = write_each c m in if is_gone w then rest else (to, w) ∷ rest

-- The zero value of RelayConfig.
abbrev pub zero_config : RelayConfig
zero_config = record {
  log = false;
  system = false;
  channel = false;
  joins = false;
  chat = false;
  private_chat = false;
  say = false;
  join_access = pos 0;
  chat_access = pos 0;
  private_chat_access = pos 0;
}

-- Reading an entry into a RelayToConfig: a missing key leaves the zero value.
abbrev pub default_or : Option RelayConfig → RelayConfig
default_or none = zero_config
default_or (some d) = d

-- A merge into an empty map has one entry for all keys that are equal but for their case: the last.
unfoldable pub last_keys {ℓ} : {A : Type ℓ} → List (Str × A) → List (Str × A)
unfolding last_fold
last_keys [] = []
last_keys ((k, v) ∷ m) =
    let rest = last_keys m in if is_there (last_fold k m) then rest else (k, v) ∷ rest

unfoldable pub read_each : List (Str × Written) → List (Str × RelayTo)
unfolding last_keys
read_each [] = []
read_each ((to, w) ∷ m) =
    (to, record { default = default_or w.default; from = last_keys w.from }) ∷ read_each m

-- The section written by Map and merged into an empty configuration, as Set, Unset and SetString do.
unfoldable pub rewritten : RelayTable → RelayTable
unfolding write_each read_each last_keys
rewritten c = record c { to = read_each (last_keys (write_each c c.to)) }
