-- ===== src/Cmd/Ban/Safety.antt =====
-- Whom `Ban` and `Unban` change, and in which order.
use goop.Base.{
  ℕ, ◌+◌, ◌≡◌, refl, inl, inr, List, [], ◌∷◌, ◌++◌, Option, none, some, Str, Error, Bool-cases,
  Result, ok, err,
}
use mathlib.Core.List.{Memᴰ}
use goop.Gateway.Access.{AccessLevel, access_ban}
use goop.Gateway.Common.{User}
use goop.Gateway.Api.{Gateway, Trigger, Call, set_user_access, ban, respond, History, M}
use goop.Gateway.Api.Grows.{
  Grows, Grows-one, Grows-trans, Answers, Emits, Emits-respond, Emits-give_up,
}
use goop.Gateway.Find.{find_user_in_channel}
use goop.Cmd.{
  Protection, is_protected, quoted, give_up, msg_no_user_found, msg_no_permission,
  msg_internal_error, or_as_given,
}
use goop.Cmd.Protected.{MayTarget-of_unprotected, IsTarget, Passes, Passes-tail}
use goop.Cmd.Ban.{after_access, after_ban, ban_users, ban_first, ban_execute}

-- The newest call is the given one.
abbrev pub Follows : Call → History → Type 0
Follows c [] = ⊥
Follows c (d ∷ h) = d ≡ c

-- The calls that `Ban` may make: answers; the ban level for the targets; and a ban of a target whose
-- level has just been set.
abbrev pub BanAllowed : (Str → Type 0) → History → Call → Type 0
BanAllowed Target h (set_user_access uid a) = Target uid × (a ≡ access_ban)
BanAllowed Target h (ban uid) = Target uid × Follows (set_user_access uid access_ban) h
BanAllowed Target h (respond s) = Unit
BanAllowed Target h _ = ⊥

BanAllowed-Answers : (P : Str → Type 0) → Answers (BanAllowed P)
BanAllowed-Answers P = record { respond_ok = λ h s. tt }

module _ (gw : Gateway) where
  module _ {P : History → Call → Type 0} (answers : Answers P) where
    pub after_access-Emits :
        (r : Result AccessLevel) (go_on : M (Option Error)) (h : History)
        → Emits P go_on h
        → Emits P (after_access gw r go_on) h
    unfolding after_access give_up
    after_access-Emits (ok prev) go_on h g = g
    after_access-Emits (err Error.not_implemented) go_on h g = g
    after_access-Emits (err Error.no_user) go_on h g =
        Emits-give_up gw answers msg_no_user_found Error.no_user h
    after_access-Emits (err e) go_on h g = Emits-give_up gw answers msg_internal_error e h

    pub after_ban-Emits :
        (e : Option Error) (go_on : M (Option Error)) (h : History)
        → Emits P go_on h
        → Emits P (after_ban gw e go_on) h
    unfolding after_ban give_up
    after_ban-Emits none go_on h g = g
    after_ban-Emits (some Error.no_user) go_on h g = g
    after_ban-Emits (some Error.not_implemented) go_on h g = Grows.done
    after_ban-Emits (some Error.no_channel) go_on h g = Grows.done
    after_ban-Emits (some Error.no_permission) go_on h g =
        Emits-respond gw answers msg_no_permission h
    after_ban-Emits (some e) go_on h g = Emits-give_up gw answers msg_internal_error e h

  module _ (c : Protection) (t : Trigger) where
    ban_users-Emits :
        (P : Str → Type 0) (us : List User) (p : ℕ) (l : List Str) (h : History)
        → Passes (is_protected c t) us (λ u. P u.id)
        → Emits (BanAllowed P) (ban_users gw c t us p l) h
    unfolding ban_users
    ban_users-Emits P [] p l h passes = Emits-respond gw (BanAllowed-Answers P) _ h
    ban_users-Emits P (u ∷ us) p l h passes =
        let rest = Passes-tail (is_protected c t) u us (λ u. P u.id) passes in
        elim (Bool-cases (is_protected c t u)) [
          | inl e ↦ rw (e, ban_users) (ban_users-Emits P us (p + 1) l h rest)
          | inr e ↦
              let target = passes u (Memᴰ.head refl) e in
              let set = set_user_access u.id access_ban in
              rw (e, ban_users)
                (Grows-trans (Grows-one h set (target, refl)) (
                  after_access-Emits (BanAllowed-Answers P) _ _ (set ∷ h) (
                    Grows-trans (Grows-one (set ∷ h) (ban u.id) (target, refl)) (
                      after_ban-Emits (BanAllowed-Answers P) _ _ (ban u.id ∷ set ∷ h) (
                        ban_users-Emits P us p (l ++ quoted u.name ∷ []) (ban u.id ∷ set ∷ h)
                          rest)))))
        ]

    -- The users that the first argument names, or else one with the argument as ID.
    abbrev pub banned_by : History → List Str → List User
    banned_by h [] = []
    banned_by h (pat ∷ rest) = or_as_given pat (find_user_in_channel gw h pat)

    -- Whatever the gateway answers, the command only answers, sets access to the ban level, and bans,
    -- and bans a user only directly behind setting that user's level; each user it changes is one
    -- that the argument names (or has it as ID where it names none), is not the sender, is strictly
    -- below the sender's access, and is below the protected level unless the sender has the override
    -- level.
    pub ban_execute_safe :
        (h : History) → Emits (BanAllowed (IsTarget c t (banned_by h t.arg))) (ban_execute gw c t) h
    unfolding ban_execute ban_first
    ban_execute_safe h = go t.arg
      where
        go :
            (args : List Str)
            → Emits (BanAllowed (IsTarget c t (banned_by h args))) (ban_first gw c t args) h
        go [] = Emits-respond gw (BanAllowed-Answers _) _ h
        go (pat ∷ rest) =
            let us = or_as_given pat (find_user_in_channel gw h pat) in
            ban_users-Emits (IsTarget c t us) us 0 [] h
              (λ u m e. (u, m, refl, MayTarget-of_unprotected c t u e))
