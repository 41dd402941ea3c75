-- ===== src/Cmd/Ban/Lifting.antt =====
-- Whom `Unban` changes.
use goop.Base.{
  ℕ, ◌+◌, ◌≡◌, ◌≢◌, ◌⊎◌, refl, inl, inr, List, [], ◌∷◌, ◌++◌, Option, Str, Error, Bool-cases, arith,
}
use goop.Base.Int.{◌<ℤ◌, ◌≤ℤ◌, ltb_ℤ}
use mathlib.Core.List.{Memᴰ}
use goop.Gateway.Access.{access_default}
use goop.Gateway.Common.{User}
use goop.Gateway.Api.{Gateway, Trigger, Call, set_user_access, unban, respond, History, M}
use goop.Gateway.Api.Grows.{Grows-one, Grows-trans, Answers, Emits, Emits-respond}
use goop.Gateway.Find.{find_user}
use goop.Cmd.{Protection, quoted, or_as_given}
use goop.Cmd.Protected.{Passes, Passes-tail, str_eq-false}
use goop.Cmd.Ban.{keeps_ban, reset_access, unban_users, unban_first, unban_execute}
use goop.Cmd.Ban.Safety.{after_access-Emits, after_ban-Emits}

-- The calls that `Unban` may make: answers; the default level for a target that is below it; and an
-- unban of a target.
abbrev pub UnbanAllowed : (User → Type 0) → History → Call → Type 0
UnbanAllowed Target h (set_user_access uid a) =
    (u : User) × Target u × (u.id ≡ uid) × (u.access <ℤ access_default) × (a ≡ access_default)
UnbanAllowed Target h (unban uid) = (u : User) × Target u × (u.id ≡ uid)
UnbanAllowed Target h (respond s) = Unit
UnbanAllowed Target h _ = ⊥

UnbanAllowed-Answers : (P : User → Type 0) → Answers (UnbanAllowed P)
UnbanAllowed-Answers P = record { respond_ok = λ h s. tt }

-- One of the users, other than the sender, and above the protected level unless the sender has the
-- override level.
abbrev pub IsUnbanTarget : Protection → Trigger → List User → User → Type 0
IsUnbanTarget c t us u =
    Memᴰ u us
    × (u.id ≢ t.user.id)
    × ((c.access_protect <ℤ u.access) ⊎ (c.access_override ≤ℤ t.user.access))

IsUnbanTarget-passes :
    (c : Protection) (t : Trigger) (us : List User)
    → Passes (keeps_ban c t) us (IsUnbanTarget c t us)
unfolding keeps_ban
IsUnbanTarget-passes c t us u m e = (m, str_eq-false u.id t.user.id (ground arith), ground arith)

module _ (gw : Gateway) (c : Protection) (t : Trigger) where
  reset_access-Emits :
      (P : User → Type 0) (u : User) (go_on : M (Option Error)) (h : History)
      → P u
      → ((h' : History) → Emits (UnbanAllowed P) go_on h')
      → Emits (UnbanAllowed P) (reset_access gw c t u go_on) h
  unfolding reset_access
  reset_access-Emits P u go_on h target g = elim (Bool-cases (ltb_ℤ u.access access_default)) [
    | inl e ↦
        let set = set_user_access u.id access_default in
        rw (e, reset_access)
          (Grows-trans (Grows-one h set (u, target, refl, ground arith, refl))
            (after_access-Emits gw (UnbanAllowed-Answers P) _ go_on (set ∷ h) (g (set ∷ h))))
    | inr e ↦ rw (e, reset_access) (g h)
  ]

  unban_users-Emits :
      (P : User → Type 0) (us : List User) (p : ℕ) (l : List Str) (h : History)
      → Passes (keeps_ban c t) us P
      → Emits (UnbanAllowed P) (unban_users gw c t us p l) h
  unfolding unban_users
  unban_users-Emits P [] p l h passes = Emits-respond gw (UnbanAllowed-Answers P) _ h
  unban_users-Emits P (u ∷ us) p l h passes =
      let rest = Passes-tail (keeps_ban c t) u us P passes in
      elim (Bool-cases (keeps_ban c t u)) [
        | inl e ↦ rw (e, unban_users) (unban_users-Emits P us (p + 1) l h rest)
        | inr e ↦
            let target = passes u (Memᴰ.head refl) e in
            rw (e, unban_users)
              (reset_access-Emits P u _ h target (λ h'.
                Grows-trans (Grows-one h' (unban u.id) (u, target, refl)) (
                  after_ban-Emits gw (UnbanAllowed-Answers P) _ _ (unban u.id ∷ h')
                    (unban_users-Emits P us p (l ++ quoted u.name ∷ []) (unban u.id ∷ h') rest))))
      ]

  -- The users that the first argument names, or else one with the argument as ID.
  abbrev pub unbanned_by : History → List Str → List User
  unbanned_by h [] = []
  unbanned_by h (pat ∷ rest) = or_as_given pat (find_user gw h pat)

  -- Whatever the gateway answers, the command only answers, sets access to the default level, and
  -- unbans; each user it changes is one that the argument names (or has it as ID where it names
  -- none), is not the sender, and is above the protected level unless the sender has the override
  -- level; and it sets the level only of users below the default one, so nobody is lowered.
  pub unban_execute_safe :
      (h : History)
      → Emits (UnbanAllowed (IsUnbanTarget c t (unbanned_by h t.arg))) (unban_execute gw c t) h
  unfolding unban_execute unban_first
  unban_execute_safe h = go t.arg
    where
      go :
          (args : List Str)
          → Emits
              (UnbanAllowed (IsUnbanTarget c t (unbanned_by h args)))
              (unban_first gw c t args)
              h
      go [] = Emits-respond gw (UnbanAllowed-Answers _) _ h
      go (pat ∷ rest) =
          let us = or_as_given pat (find_user gw h pat) in
          unban_users-Emits (IsUnbanTarget c t us) us 0 [] h (IsUnbanTarget-passes c t us)
