-- ===== src/Cmd/Set/Safety.antt =====
-- Which levels `Set` grants, and to whom.
use goop.Base.{
  ◌≡◌, ◌≢◌, refl, sym, inl, inr, false, List, [], ◌∷◌, ◌++◌, Str, Error, Bool-cases, arith, Result,
  ok, err, Option,
}
use goop.Base.Int.{◌<ℤ◌, leb_ℤ, eq_ℤ, eq_ℤ_refl}
use mathlib.Core.Path.{subst}
use mathlib.Core.List.{Memᴰ}
use goop.Gateway.Access.{AccessLevel}
use goop.Gateway.Common.{User}
use goop.Gateway.Api.{Gateway, Trigger, Call, set_user_access, respond, History, M}
use goop.Gateway.Api.Grows.{
  Grows, Grows-one, Grows-trans, Answers, Emits, Emits-respond, Emits-give_up,
}
use goop.Gateway.Find.{find_user}
use goop.Cmd.{or_as_given, give_up, msg_internal_error}
use goop.Cmd.Protected.{Passes, Passes-tail, str_eq-false}
use goop.Cmd.Set.{
  Set, set_level, skips, change_line, after_set, set_users, set_to, set_first, set_execute,
}

-- The calls that `Set` may make: answers, and the level `a` for the targets, where `Level a`.
abbrev pub SetAllowed : (AccessLevel → Type 0) → (User → Type 0) → History → Call → Type 0
SetAllowed Level Target h (set_user_access uid a) =
    Level a × (u : User) × Target u × (u.id ≡ uid) × (u.access ≢ a)
SetAllowed Level Target h (respond s) = Unit
SetAllowed Level Target h _ = ⊥

SetAllowed-Answers : (L : AccessLevel → Type 0) (P : User → Type 0) → Answers (SetAllowed L P)
SetAllowed-Answers L P = record { respond_ok = λ h s. tt }

-- One of the users, other than the sender, and strictly below the sender's access.
abbrev pub IsSetTarget : Trigger → List User → User → Type 0
IsSetTarget t us u = Memᴰ u us × (u.id ≢ t.user.id) × (u.access <ℤ t.user.access)

-- The level that the arguments ask for, which is strictly below the sender's.
abbrev pub IsGranted : Set → Trigger → List Str → AccessLevel → Type 0
IsGranted c t [] a = ⊥
IsGranted c t (pat ∷ rest) a = (set_level c rest ≡ ok a) × (a <ℤ t.user.access)

eq_ℤ-false : (a b : AccessLevel) → eq_ℤ a b ≡ false → a ≢ b
eq_ℤ-false a b h e =
    let same : eq_ℤ a a ≡ false = subst (λ x. eq_ℤ a x ≡ false) (sym e) h in cc (eq_ℤ_refl a)

IsSetTarget-passes :
    (access : AccessLevel) (t : Trigger) (us : List User)
    → Passes (skips access t) us (λ u. IsSetTarget t us u × (u.access ≢ access))
unfolding skips
IsSetTarget-passes access t us u m e = (
  (m, str_eq-false u.id t.user.id (ground arith), ground arith),
  eq_ℤ-false u.access access (ground arith),
)

module _ (gw : Gateway) (c : Set) (t : Trigger) where
  module _ (L : AccessLevel → Type 0) (P : User → Type 0) where
    after_set-Emits :
        (r : Result AccessLevel) (go_on : AccessLevel → M (Option Error)) (h : History)
        → ((prev : AccessLevel) → Emits (SetAllowed L P) (go_on prev) h)
        → Emits (SetAllowed L P) (after_set gw r go_on) h
    unfolding after_set give_up
    after_set-Emits (ok prev) go_on h g = g prev
    after_set-Emits (err Error.not_implemented) go_on h g = Grows.done
    after_set-Emits (err e) go_on h g =
        Emits-give_up gw (SetAllowed-Answers L P) msg_internal_error e h

    set_users-Emits :
        (access : AccessLevel) (us : List User) (l : List Str) (h : History)
        → L access
        → Passes (skips access t) us (λ u. P u × (u.access ≢ access))
        → Emits (SetAllowed L P) (set_users gw c t access us l) h
    unfolding set_users
    set_users-Emits access [] l h level passes = Emits-respond gw (SetAllowed-Answers L P) _ h
    set_users-Emits access (u ∷ us) l h level passes =
        let rest = Passes-tail (skips access t) u us (λ u. P u × (u.access ≢ access)) passes in
        elim (Bool-cases (skips access t u)) [
          | inl e ↦ rw (e, set_users) (set_users-Emits access us l h level rest)
          | inr e ↦
              let (target, differs) = passes u (Memᴰ.head refl) e in
              let set = set_user_access u.id access in
              rw (e, set_users)
                (Grows-trans (Grows-one h set (level, u, target, refl, differs)) (
                  after_set-Emits _ _ (set ∷ h) (λ prev.
                    set_users-Emits access us (l ++ change_line u prev access ∷ []) (set ∷ h) level
                      rest)))
        ]

  set_to-Emits :
      (r : Result AccessLevel) (us : List User) (h : History)
      → Emits
          (SetAllowed (λ a. (r ≡ ok a) × (a <ℤ t.user.access)) (IsSetTarget t us))
          (set_to gw c t r us)
          h
  unfolding set_to
  set_to-Emits (err e) us h = Emits-respond gw (SetAllowed-Answers _ _) _ h
  set_to-Emits (ok access) us h = elim (Bool-cases (leb_ℤ t.user.access access)) [
    | inl e ↦ rw (e, set_to) (Emits-respond gw (SetAllowed-Answers _ _) _ h)
    | inr e ↦
        rw (e, set_to)
          (set_users-Emits _ (IsSetTarget t us) access us [] h (refl, ground arith)
            (IsSetTarget-passes access t us))
  ]

  -- The users that the first argument names, or else one with the argument as ID.
  abbrev pub named : History → List Str → List User
  named h [] = []
  named h (pat ∷ rest) = or_as_given pat (find_user gw h pat)

  -- Whatever the gateway answers, the command only answers and sets access; the level that it sets is
  -- the one that the arguments ask for and is strictly below the sender's; each user whose level it
  -- sets is one that the first argument names (or has it as ID where it names none), is not the
  -- sender, has another level, and is strictly below the sender's access.
  pub set_execute_safe :
      (h : History)
      → Emits
          (SetAllowed (IsGranted c t t.arg) (IsSetTarget t (named h t.arg)))
          (set_execute gw c t)
          h
  unfolding set_execute set_first
  set_execute_safe h = go t.arg
    where
      go :
          (args : List Str)
          → Emits
              (SetAllowed (IsGranted c t args) (IsSetTarget t (named h args)))
              (set_first gw c t args)
              h
      go [] = Emits-respond gw (SetAllowed-Answers _ _) _ h
      go (pat ∷ rest) = set_to-Emits (set_level c rest) (or_as_given pat (find_user gw h pat)) h
