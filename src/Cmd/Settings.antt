-- ===== src/Cmd/Settings.antt =====
-- goop/cmd/settings.go, where the path separator is `/`.
pub mod Update
use goop.Base.{
  ℕ, ◌≡◌, refl, Bool, true, false, not, ◌&&◌, ◌||◌, List, [], ◌∷◌, ◌++◌, map, Option, none, some,
  Str, codes, length, leb, ltb, filter, str_eq, if◌then◌else◌, ◌==◌, drop, get_elem?, Error, Result,
  ok, err,
}
use goop.Golang.Strings.{to_lower, has_prefix, join}
use goop.Golang.Strconv.{itoa}
use goop.Golang.Glob.{glob}
use goop.Gateway.Api.{Trigger}

-- A value of the configuration, as `str` tells values apart; another kind comes with its text.
pub data Setting : Type 0 where
  list_of map_of : ℕ → Setting
  plain : Str → Setting

-- What the command uses of a configuration: its keys and values, and the two changes.
pub record Configurable (C : Type 0) : Type 0 where
  pub flat_map : C → List (Str × Setting)
  pub unset : C → Str → Result C
  pub set_string : C → Str → Str → Result C
  pub error_text : Error → Str

-- str
unfoldable pub setting_text : Setting → Str
setting_text (list_of n) = codes "<list of len " ++ itoa n ++ codes ">"
setting_text (map_of n) = codes "<map of size " ++ itoa n ++ codes ">"
setting_text (plain s) = s

-- strings.Contains
unfoldable pub contains : Str → Str → Bool
contains [] t = has_prefix t []
contains (c ∷ s) t = has_prefix t (c ∷ s) || contains s t

unfoldable pub no_break : Str → Bool
no_break [] = true
no_break (c ∷ s) = not (c == b'\n') && no_break s

-- ignore: `^.*/_.*$`
unfoldable pub is_ignored : Str → Bool
unfolding contains no_break
is_ignored key = contains key (codes "/_") && no_break key

unfoldable pub contains_all : Str → List Str → Bool
unfolding contains to_lower
contains_all l [] = true
contains_all l (p ∷ ps) = contains l (to_lower p) && contains_all l ps

abbrev key_of : Str × Setting → Str
key_of p = p.0

-- findKeys; `sort` is sort.Strings.
unfoldable pub find_keys : (List Str → List Str) → List (Str × Setting) → List Str → List Str
unfolding is_ignored contains_all to_lower
find_keys sort m pats =
    sort (filter (λ k. not (is_ignored k) && contains_all (to_lower k) pats) (map key_of m))

-- matchKeys
unfoldable pub match_keys : (List Str → List Str) → List (Str × Setting) → Str → List Str
unfolding is_ignored to_lower
match_keys sort m pat =
    sort (filter (λ k. not (is_ignored k) && glob (to_lower pat) (to_lower k)) (map key_of m))

-- `str(m[v])`; a missing key gives nil.
unfoldable pub value_text : List (Str × Setting) → Str → Str
unfolding setting_text
value_text [] k = codes "<nil>"
value_text ((j, v) ∷ m) k = if str_eq j k then setting_text v else value_text m k

unfoldable pub setting_line : List (Str × Setting) → Str → Str
unfolding value_text to_lower
setting_line m k = to_lower k ++ codes " = " ++ value_text m k

-- How a loop over keys ends: with the error of the only key, or with the configuration and the lines.
pub data LoopEnd (C : Type 0) : Type 0 where
  only_key_failed : Error → LoopEnd C
  looped : C → List Str → LoopEnd C

-- The loops of unset and set: `change` is what is done for a key, `line` what is said of it.
unfoldable pub change_keys :
    {C : Type 0} → (C → Str → Result C) → (Str → Str) → Bool → List Str → C → List Str → LoopEnd C
change_keys change line single [] c l = looped c l
change_keys change line single (k ∷ ks) c l = elim (change c k) [
  | err e ↦ if single then only_key_failed e else change_keys change line single ks c l
  | ok c' ↦ change_keys change line single ks c' (l ++ line k ∷ [])
]

pub data Action : Type 0 where
  find get unset set unknown : Action

-- The switch on the first argument.
abbrev is_one_of : Str → List Str → Bool
is_one_of s [] = false
is_one_of s (w ∷ ws) = str_eq s w || is_one_of s ws

unfoldable pub action_of : Str → Action
unfolding str_eq
action_of s =
    if is_one_of s (codes "find" ∷ codes "f" ∷ [])
    then find
    else if is_one_of s (codes "get" ∷ codes "g" ∷ [])
    then get
    else if is_one_of s (codes "unset" ∷ codes "u" ∷ codes "us" ∷ [])
    then unset
    else if is_one_of s (codes "set" ∷ codes "s" ∷ [])
    then set
    else unknown

-- What the command leaves behind: the configuration, whether a ConfigUpdate was fired, and the answer,
-- which is always in private.
pub record Executed (C : Type 0) : Type 0 where
  pub config : C
  pub fired : Bool
  pub answer : Str

abbrev msg_no_setting : Str
msg_no_setting = codes "No matching settings found"

module _ {C : Type 0} (api : Configurable C) (sort : List Str → List Str) (c : C) where
  abbrev says : Str → Executed C
  says s = record { config = c; fired = false; answer = s }

  abbrev listed : List Str → Executed C
  listed [] = says msg_no_setting
  listed (l ∷ ls) = says (join (l ∷ ls) (codes "\n"))

  abbrev changed : LoopEnd C → Executed C
  changed (only_key_failed e) = says (api.error_text e)
  changed (looped c' []) = record { config = c'; fired = false; answer = msg_no_setting }
  changed (looped c' (l ∷ ls)) = record {
    config = c';
    fired = true;
    answer = join (l ∷ ls) (codes "\n");
  }

  unfoldable pub find_settings : List Str → Executed C
  unfolding find_keys setting_line
  find_settings pats =
      let m = api.flat_map c in listed (map (setting_line m) (find_keys sort m pats))

  unfoldable pub get_settings : Str → Executed C
  unfolding match_keys setting_line
  get_settings pat = let m = api.flat_map c in listed (map (setting_line m) (match_keys sort m pat))

  unfoldable pub unset_settings : Str → Executed C
  unfolding match_keys setting_line change_keys
  unset_settings pat =
      let m = api.flat_map c in
      let ks = match_keys sort m pat in
      changed
        (change_keys api.unset (λ k. codes "Unset " ++ setting_line m k) (length ks == 1) ks c [])

  -- The key as given, where none matches.
  abbrev or_given : Str → List Str → List Str
  or_given pat [] = pat ∷ []
  or_given pat (k ∷ ks) = k ∷ ks

  unfoldable pub set_settings : Str → Str → Executed C
  unfolding match_keys value_text change_keys to_lower
  set_settings pat s =
      let m = api.flat_map c in
      let ks = or_given pat (match_keys sort m pat) in
      let line = λ (k : Str).
        codes "Changed " ++ to_lower k ++ codes " from " ++ value_text m k ++ codes " to " ++ s in
      changed (change_keys (λ c k. api.set_string c k s) line (length ks == 1) ks c [])

  abbrev set_joined : Str → List Str → List Str → Executed C
  set_joined arg [] raw = says (codes "Expected 3 arguments: set [setting] [value]")
  set_joined arg (a ∷ args) raw = set_settings arg (join (drop 2 raw) [])

  -- The bodies of the cases.
  unfoldable pub settings_action : Action → Str → List Str → List Str → Executed C
  unfolding find_settings get_settings unset_settings set_settings
  settings_action find arg args raw = find_settings (arg ∷ args)
  settings_action get arg args raw = get_settings arg
  settings_action unset arg args raw = unset_settings arg
  settings_action set arg args raw = set_joined arg args raw
  settings_action unknown arg args raw =
      says (codes "Expected action to be one of find|get|set|unset")

  abbrev settings_first : List Str → List Str → Executed C
  settings_first (action ∷ arg ∷ args) raw =
      settings_action (action_of (to_lower action)) arg args raw
  settings_first _ raw = says (codes "Expected 2 arguments: find|get|set|unset [setting]")

  -- Execute
  unfoldable pub settings_execute : Trigger → Executed C
  unfolding settings_action action_of to_lower
  settings_execute t = settings_first t.arg t.raw
