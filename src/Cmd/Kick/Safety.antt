-- ===== src/Cmd/Kick/Safety.antt =====
-- Whom `Kick` kicks.
use goop.Base.{
  ℕ, ◌+◌, refl, inl, inr, List, [], ◌∷◌, ◌++◌, Option, none, some, Str, Error, Bool-cases,
}
use mathlib.Core.List.{Memᴰ}
use goop.Gateway.Common.{User}
use goop.Gateway.Api.{Gateway, Trigger, Call, kick, respond, History, M, do_kick}
use goop.Gateway.Api.Grows.{
  Grows, Grows-one, Grows-trans, Answers, Emits, Emits-respond, Emits-give_up,
}
use goop.Gateway.Find.{find_user_in_channel}
use goop.Cmd.{Protection, is_protected, quoted, give_up, msg_no_permission, msg_internal_error}
use goop.Cmd.Protected.{MayTarget-of_unprotected, IsTarget, Passes, Passes-tail}
use goop.Cmd.Kick.{after_kick, kick_users, kick_first, kick_execute}

-- The calls that `Kick` may make: answers, and kicks of the given targets.
abbrev pub KickAllowed : (Str → Type 0) → History → Call → Type 0
KickAllowed Target h (kick uid) = Target uid
KickAllowed Target h (respond s) = Unit
KickAllowed Target h _ = ⊥

KickAllowed-Answers : (P : Str → Type 0) → Answers (KickAllowed P)
KickAllowed-Answers P = record { respond_ok = λ h s. tt }

module _ (gw : Gateway) where
  after_kick-Emits :
      (P : Str → Type 0) (e : Option Error) (kicked ignored : M (Option Error)) (h : History)
      → Emits (KickAllowed P) kicked h
      → Emits (KickAllowed P) ignored h
      → Emits (KickAllowed P) (after_kick gw e kicked ignored) h
  unfolding after_kick give_up
  after_kick-Emits P none kicked ignored h k i = k
  after_kick-Emits P (some Error.no_user) kicked ignored h k i = i
  after_kick-Emits P (some Error.not_implemented) kicked ignored h k i = Grows.done
  after_kick-Emits P (some Error.no_channel) kicked ignored h k i = Grows.done
  after_kick-Emits P (some Error.no_permission) kicked ignored h k i =
      Emits-respond gw (KickAllowed-Answers P) msg_no_permission h
  after_kick-Emits P (some e) kicked ignored h k i =
      Emits-give_up gw (KickAllowed-Answers P) msg_internal_error e h

  module _ (c : Protection) (t : Trigger) where
    kick_users-Emits :
        (P : Str → Type 0) (us : List User) (p : ℕ) (l : List Str) (h : History)
        → Passes (is_protected c t) us (λ u. P u.id)
        → Emits (KickAllowed P) (kick_users gw c t us p l) h
    unfolding kick_users
    kick_users-Emits P [] p l h passes = Emits-respond gw (KickAllowed-Answers P) _ h
    kick_users-Emits P (u ∷ us) p l h passes =
        let rest = Passes-tail (is_protected c t) u us (λ u. P u.id) passes in
        elim (Bool-cases (is_protected c t u)) [
          | inl e ↦ rw (e, kick_users) (kick_users-Emits P us (p + 1) l h rest)
          | inr e ↦
              rw (e, kick_users)
                (Grows-trans (Grows-one h (kick u.id) (passes u (Memᴰ.head refl) e)) (
                  after_kick-Emits P (do_kick gw u.id h).0 _ _ (kick u.id ∷ h)
                    (kick_users-Emits P us p (l ++ quoted u.name ∷ []) (kick u.id ∷ h) rest)
                    (kick_users-Emits P us p l (kick u.id ∷ h) rest)))
        ]

    -- The users that the first argument names, at the time of the command.
    abbrev pub named_in_channel : History → List Str → List User
    named_in_channel h [] = []
    named_in_channel h (pat ∷ rest) = find_user_in_channel gw h pat

    -- Whatever the gateway answers, the command only answers and kicks; each user it kicks is one
    -- that the argument names, is not the sender, is strictly below the sender's access, and is
    -- below the protected level unless the sender has the override level.
    pub kick_execute_safe :
        (h : History)
        → Emits (KickAllowed (IsTarget c t (named_in_channel h t.arg))) (kick_execute gw c t) h
    unfolding kick_execute
    kick_execute_safe h = go t.arg
      where
        go :
            (args : List Str)
            → Emits
                (KickAllowed (IsTarget c t (named_in_channel h args)))
                (kick_first gw c t args)
                h
        go [] = Emits-respond gw (KickAllowed-Answers _) _ h
        go (pat ∷ rest) =
            let us = find_user_in_channel gw h pat in
            kick_users-Emits (IsTarget c t us) us 0 [] h
              (λ u m e. (u, m, refl, MayTarget-of_unprotected c t u e))
