-- ===== src/Cmd/Settings/Update.antt =====
-- What the command changes, and that it says so.
use goop.Base.{
  ◌≡◌, ◌≢◌, ◌⊎◌, refl, sym, ap, inl, inr, Bool, false, not, ◌&&◌, List, [], ◌∷◌, ◌++◌, map, filter,
  some, Str, length, get_elem?, drop, All, Bool-cases, if◌then◌else◌, ◌==◌, Result, ok, err,
}
use goop.Golang.Strings.{to_lower, join}
use goop.Gateway.Api.{Trigger}
use goop.Cmd.Settings.{
  Configurable, is_ignored, match_keys, LoopEnd, only_key_failed, looped, change_keys, Executed,
  listed, changed, or_given, find_settings, get_settings, unset_settings, set_settings,
  settings_action, settings_first, settings_execute, key_of, Action, find, get, unset, set, unknown,
  action_of, find_keys, setting_line,
}

module _ {C : Type 0} (api : Configurable C) where
  -- A change of one key that succeeds.
  pub data Touches (k : Str) (c c' : C) : Type 0 where
    by_unset : api.unset c k ≡ ok c' → Touches k c c'
    by_set : (s : Str) → api.set_string c k s ≡ ok c' → Touches k c c'

  -- Changes of keys with a property, one after the other.
  pub data Changes (P : Str → Type 0) (c : C) : C → Type 0 where
    no_change : Changes P c c
    then_key : {c' c'' : C} (k : Str) → Changes P c c' → P k → Touches k c' c'' → Changes P c c''

  module _ (P : Str → Type 0) (c0 : C) where
    abbrev IsDone : LoopEnd C → Type 0
    IsDone (only_key_failed e) = Unit
    IsDone (looped c' l) = Changes P c0 c' × ((c' ≡ c0) ⊎ (l ≢ []))

    never_empty : (l : List Str) (x : Str) → l ++ x ∷ [] ≢ []
    never_empty [] x e = cc
    never_empty (y ∷ l) x e = cc

    module _ (change : C → Str → Result C) (line : Str → Str) (single : Bool)
        (touches : (c c' : C) (k : Str) → change c k ≡ ok c' → Touches k c c') where
      step-IsDone :
          (k : Str) (c : C) (l : List Str) (r : Result C) (next : C → List Str → LoopEnd C)
          → change c k ≡ r
          → P k
          → Changes P c0 c
          → IsDone (next c l)
          → ((c' : C) → Changes P c0 c' → IsDone (next c' (l ++ line k ∷ [])))
          → IsDone (elim r [
            | err e ↦ if single then only_key_failed e else next c l
            | ok c' ↦ next c' (l ++ line k ∷ [])
          ])
      step-IsDone k c l (err e) next h p ch same more = elim (Bool-cases single) [
        | inl y ↦ rw y tt
        | inr n ↦ rw n same
      ]
      step-IsDone k c l (ok c') next h p ch same more = more c' (then_key k ch p (touches c c' k h))

      change_keys-IsDone :
          (ks : List Str) (c : C) (l : List Str)
          → All P ks
          → Changes P c0 c
          → (c ≡ c0) ⊎ (l ≢ [])
          → IsDone (change_keys change line single ks c l)
      unfolding change_keys
      change_keys-IsDone [] c l h ch said = (ch, said)
      change_keys-IsDone (k ∷ ks) c l h ch said =
          step-IsDone k c l (change c k) (change_keys change line single ks) refl h.0 ch
            (change_keys-IsDone ks c l h.1 ch said)
            (λ c' ch'.
              change_keys-IsDone ks c' (l ++ line k ∷ []) h.1 ch' (inr (never_empty l (line k))))

-- Sorting keeps what holds of every key.
abbrev pub KeepsAll : (List Str → List Str) → Type 1
KeepsAll sort = (P : Str → Type 0) (l : List Str) → All P l → All P (sort l)

abbrev IsShown : Str → Type 0
IsShown k = is_ignored k ≡ false

filter-IsShown :
    (g : Str → Bool) (l : List Str) → All IsShown (filter (λ k. not (is_ignored k) && g k) l)
unfolding filter
filter-IsShown g [] = tt
filter-IsShown g (k ∷ l) = elim (Bool-cases (is_ignored k)) [
  | inl e ↦ rw (e, filter) (filter-IsShown g l)
  | inr e ↦ elim (Bool-cases (g k)) [
    | inl y ↦ rw (e, y, filter) (e, filter-IsShown g l)
    | inr n ↦ rw (e, n, filter) (filter-IsShown g l)
  ]
]

module _ {C : Type 0} (api : Configurable C) (sort : List Str → List Str) (keeps : KeepsAll sort)
    (c : C) where
  -- The key is shown, or it is the one that was asked for.
  abbrev IsNamed : Str → Str → Type 0
  IsNamed arg k = IsShown k ⊎ (k ≡ arg)

  abbrev IsAnnounced : Str → Executed C → Type 0
  IsAnnounced arg r = (r.fired ≡ false → r.config ≡ c) × Changes api (IsNamed arg) c r.config

  changed-IsAnnounced :
      (arg : Str) (e : LoopEnd C)
      → IsDone api (IsNamed arg) c e
      → IsAnnounced arg (changed api sort c e)
  changed-IsAnnounced arg (only_key_failed e) d = (λ h. refl, no_change)
  changed-IsAnnounced arg (looped c' []) (ch, inl e) = (λ h. e, ch)
  changed-IsAnnounced arg (looped c' []) (ch, inr n) = absurd (n refl)
  changed-IsAnnounced arg (looped c' (l ∷ ls)) (ch, said) = (λ h. cc, ch)

  listed-IsAnnounced : (arg : Str) (l : List Str) → IsAnnounced arg (listed api sort c l)
  listed-IsAnnounced arg [] = (λ h. refl, no_change)
  listed-IsAnnounced arg (l ∷ ls) = (λ h. refl, no_change)

  All-IsNamed : (arg : Str) (l : List Str) → All IsShown l → All (IsNamed arg) l
  All-IsNamed arg [] h = tt
  All-IsNamed arg (k ∷ l) h = (inl h.0, All-IsNamed arg l h.1)

  match_keys-IsNamed : (arg : Str) → All (IsNamed arg) (match_keys sort (api.flat_map c) arg)
  unfolding match_keys
  match_keys-IsNamed arg =
      All-IsNamed arg (match_keys sort (api.flat_map c) arg)
        (keeps IsShown _ (filter-IsShown _ (map key_of (api.flat_map c))))

  or_given-IsNamed :
      (arg : Str) (ks : List Str)
      → All (IsNamed arg) ks
      → All (IsNamed arg) (or_given api sort c arg ks)
  or_given-IsNamed arg [] h = (inr refl, tt)
  or_given-IsNamed arg (k ∷ ks) h = h

  unset-IsAnnounced : (arg : Str) → IsAnnounced arg (unset_settings api sort c arg)
  unfolding unset_settings
  unset-IsAnnounced arg =
      let ks = match_keys sort (api.flat_map c) arg in
      changed-IsAnnounced arg _ (
        change_keys-IsDone api (IsNamed arg) c api.unset _ (length ks == 1) (λ c c' k e. by_unset e)
          ks c [] (match_keys-IsNamed arg) no_change (inl refl))

  set-IsAnnounced : (arg s : Str) → IsAnnounced arg (set_settings api sort c arg s)
  unfolding set_settings
  set-IsAnnounced arg s =
      let ks = or_given api sort c arg (match_keys sort (api.flat_map c) arg) in
      changed-IsAnnounced arg _ (
        change_keys-IsDone api (IsNamed arg) c (λ c k. api.set_string c k s) _ (length ks == 1)
          (λ c c' k e. by_set s e) ks c []
          (or_given-IsNamed arg (match_keys sort (api.flat_map c) arg) (match_keys-IsNamed arg))
          no_change (inl refl))

  action-IsAnnounced :
      (action : Action) (arg : Str) (args raw : List Str)
      → IsAnnounced arg (settings_action api sort c action arg args raw)
  unfolding settings_action find_settings get_settings
  action-IsAnnounced find arg args raw =
      listed-IsAnnounced arg
        (map (setting_line (api.flat_map c)) (find_keys sort (api.flat_map c) (arg ∷ args)))
  action-IsAnnounced get arg args raw =
      listed-IsAnnounced arg
        (map (setting_line (api.flat_map c)) (match_keys sort (api.flat_map c) arg))
  action-IsAnnounced unset arg args raw = unset-IsAnnounced arg
  action-IsAnnounced set arg [] raw = (λ h. refl, no_change)
  action-IsAnnounced set arg (a ∷ args) raw = set-IsAnnounced arg (join (drop 2 raw) [])
  action-IsAnnounced unknown arg args raw = (λ h. refl, no_change)

  Changes-map :
      (P Q : Str → Type 0) {c' : C}
      → ((k : Str) → P k → Q k)
      → Changes api P c c'
      → Changes api Q c c'
  Changes-map P Q f no_change = no_change
  Changes-map P Q f (then_key k ch p t) = then_key k (Changes-map P Q f ch) (f k p) t

  -- What the command says for a list of arguments.
  abbrev pub AllAnnounced : List Str → Executed C → Type 0
  AllAnnounced arg r =
      (r.fired ≡ false → r.config ≡ c)
      × Changes api (λ k. (is_ignored k ≡ false) ⊎ (get_elem? arg 1 ≡ some k)) c r.config

  first-AllAnnounced : (arg raw : List Str) → AllAnnounced arg (settings_first api sort c arg raw)
  first-AllAnnounced [] raw = (λ h. refl, no_change)
  first-AllAnnounced (action ∷ []) raw = (λ h. refl, no_change)
  first-AllAnnounced (action ∷ arg ∷ args) raw =
      let r = action-IsAnnounced (action_of (to_lower action)) arg args raw in
      (
        r.0,
        Changes-map _ _
            (λ k p. elim p [ inl shown ↦ inl shown | inr given ↦ inr (ap some (sym given)) ]) r.1,
      )

  -- Where sorting keeps what holds of every key: whatever the arguments, the command changes the
  -- configuration by changing, one after the other, keys that are not hidden or that the second
  -- argument spells, each with success; and where it does not fire that the configuration was updated,
  -- the configuration is as before.
  pub settings_execute-AllAnnounced :
      (t : Trigger) → AllAnnounced t.arg (settings_execute api sort c t)
  unfolding settings_execute
  settings_execute-AllAnnounced t = first-AllAnnounced t.arg t.raw
