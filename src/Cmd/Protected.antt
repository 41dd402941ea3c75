-- ===== src/Cmd/Protected.antt =====
-- Whom the guard of `Kick` and `Ban` lets through.
use goop.Base.{
  ◌≡◌, ◌≢◌, sym, inl, inr, ◌⊎◌, Bool, false, List, ◌∷◌, arith, Str, str_eq, str_eq→eq, str_eq_refl,
  Bool-cases, ℕ, length, filter, not,
}
use mathlib.Core.Path.{subst}
use mathlib.Core.List.{Memᴰ}
use goop.Base.Int.{◌<ℤ◌, ◌≤ℤ◌}
use goop.Gateway.Common.{User}
use goop.Gateway.Api.{Trigger}
use goop.Cmd.{Protection, is_protected}

-- A user other than the sender, strictly below the sender's access, and either below the protected
-- level or outranked by the override level.
abbrev pub MayTarget : Protection → Trigger → User → Type 0
MayTarget c t u =
    (u.id ≢ t.user.id)
    × (u.access <ℤ t.user.access)
    × ((u.access <ℤ c.access_protect) ⊎ (c.access_override ≤ℤ t.user.access))

pub str_eq-false : (s t : Str) → str_eq s t ≡ false → s ≢ t
str_eq-false s t h e =
    let same : str_eq s s ≡ false = subst (λ x. str_eq s x ≡ false) (sym e) h in cc (str_eq_refl s)

pub MayTarget-of_unprotected :
    (c : Protection) (t : Trigger) (u : User) → is_protected c t u ≡ false → MayTarget c t u
unfolding is_protected
MayTarget-of_unprotected c t u h =
    (str_eq-false u.id t.user.id (ground arith), ground arith, ground arith)

pub unprotected_of_MayTarget :
    (c : Protection) (t : Trigger) (u : User) → MayTarget c t u → is_protected c t u ≡ false
unfolding is_protected
unprotected_of_MayTarget c t u (other, below, rank) = elim (Bool-cases (str_eq u.id t.user.id)) [
  | inl e ↦ absurd (other (str_eq→eq u.id t.user.id e))
  | inr e ↦ ground arith
]

-- `uid` is the ID of one of the users, and the guard lets that user through.
abbrev pub IsTarget : Protection → Trigger → List User → Str → Type 0
IsTarget c t users uid = (u : User) × Memᴰ u users × (u.id ≡ uid) × MayTarget c t u

-- `P` holds of each user that the guard lets through.
abbrev pub Passes : (User → Bool) → List User → (User → Type 0) → Type 0
Passes guarded us P = (u : User) → Memᴰ u us → guarded u ≡ false → P u

pub Passes-tail :
    (guarded : User → Bool) (u : User) (us : List User) (P : User → Type 0)
    → Passes guarded (u ∷ us) P
    → Passes guarded us P
Passes-tail guarded u us P passes v m = passes v (Memᴰ.tail m)

-- The users that the guard lets through, and the number of those that it does not.
abbrev pub targets : Protection → Trigger → List User → List User
targets c t us = filter (λ u. not (is_protected c t u)) us

abbrev pub passed_over : Protection → Trigger → List User → ℕ
passed_over c t us = length (filter (is_protected c t) us)
