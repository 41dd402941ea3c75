-- ===== src/Cmd/Set.antt =====
-- goop/cmd/set.go
pub mod Safety
use goop.Base.{
  Bool, true, false, ◌||◌, List, [], ◌∷◌, ◌++◌, Option, none, some, Str, codes, str_eq, Error,
  not_implemented, Result, ok, err, if◌then◌else◌,
}
use goop.Base.Int.{leb_ℤ, ltb_ℤ, eq_ℤ}
use goop.Golang.Strings.{join}
use goop.Gateway.Access.{AccessLevel, to_string, unmarshal_text}
use goop.Gateway.Common.{User}
use goop.Gateway.Api.{Gateway, Trigger, M, ◌>>=◌, ◌>>◌, pure, gets, do_respond, do_set_user_access}
use goop.Gateway.Find.{find_user}
use goop.Cmd.{Cmd, or_as_given, quoted, give_up, msg_no_changes, msg_internal_error}

pub record Set : Type 0 where
  pub base : Cmd
  pub default_access : AccessLevel

-- The level that the arguments behind the user's name ask for.
unfoldable pub set_level : Set → List Str → Result AccessLevel
set_level c [] = ok c.default_access
set_level c (s ∷ rest) = unmarshal_text s

-- `u` is left as it is.
unfoldable pub skips : AccessLevel → Trigger → User → Bool
skips access t u = str_eq u.id t.user.id || eq_ℤ u.access access || leb_ℤ t.user.access u.access

unfoldable pub change_line : User → AccessLevel → AccessLevel → Str
change_line u prev access =
    (if ltb_ℤ access prev then codes "Demoted" else codes "Promoted")
    ++ codes " "
    ++ quoted u.name
    ++ codes " from <"
    ++ to_string prev
    ++ codes "> to <"
    ++ to_string access
    ++ codes ">"

unfoldable pub changes_text : List Str → Str
changes_text [] = msg_no_changes
changes_text (line ∷ l) = join (line ∷ l) (codes "\n")

module _ (gw : Gateway) where
  -- `switch err` behind `gw.SetUserAccess`.
  unfoldable pub after_set :
      Result AccessLevel → (AccessLevel → M (Option Error)) → M (Option Error)
  after_set (ok prev) go_on = go_on prev
  after_set (err not_implemented) go_on = pure none
  after_set (err e) go_on = give_up gw msg_internal_error e

  module _ (c : Set) (t : Trigger) where
    -- The loop over the users; `l` has the lines of the changes made.
    unfoldable pub set_users : AccessLevel → List User → List Str → M (Option Error)
    set_users access [] l = do_respond gw (changes_text l)
    set_users access (u ∷ us) l = elim (skips access t u) [
      | true ↦ set_users access us l
      | false ↦ do_set_user_access gw u.id access >>= λ r.
          after_set r (λ prev. set_users access us (l ++ change_line u prev access ∷ []))
    ]

    unfoldable pub set_to : Result AccessLevel → List User → M (Option Error)
    set_to (err e) users = do_respond gw (codes "Expected 2 arguments: [user] [access]")
    set_to (ok access) users = elim (leb_ℤ t.user.access access) [
      | true ↦ do_respond gw (codes "You cannot grant this access level")
      | false ↦ set_users access users []
    ]

    unfoldable pub set_first : List Str → M (Option Error)
    set_first [] = do_respond gw (codes "Expected 1 argument: [user]")
    set_first (pat ∷ rest) = do
      users ← gets (λ h. or_as_given pat (find_user gw h pat))
      set_to (set_level c rest) users

    -- Execute
    unfoldable pub set_execute : M (Option Error)
    unfolding set_first
    set_execute = set_first t.arg
