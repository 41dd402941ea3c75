-- ===== src/Cmd/Ban.antt =====
-- goop/cmd/ban.go: Ban and Unban.
pub mod Safety
pub mod Lifting
pub mod Complete
use goop.Base.{
  ℕ, zero, suc, ◌+◌, Bool, true, false, ◌&&◌, ◌||◌, List, [], ◌∷◌, ◌++◌, Option, none, some, Str,
  codes, str_eq, Error, no_user, no_channel, no_permission, not_implemented, Result, ok, err,
}
use goop.Base.Int.{leb_ℤ, ltb_ℤ}
use goop.Gateway.Access.{AccessLevel, access_default, access_ban}
use goop.Gateway.Common.{User}
use goop.Gateway.Api.{
  Gateway, Trigger, M, ◌>>=◌, ◌>>◌, pure, gets, do_respond, do_set_user_access, do_ban, do_unban,
}
use goop.Gateway.Find.{find_user_in_channel, find_user}
use goop.Cmd.{
  Protection, is_protected, report, quoted, give_up, msg_no_user_found, msg_no_permission,
  msg_internal_error, or_as_given,
}

-- The guard of `Unban`: the user is passed over.
unfoldable pub keeps_ban : Protection → Trigger → User → Bool
keeps_ban c t u =
    str_eq u.id t.user.id
    || (leb_ℤ u.access c.access_protect && ltb_ℤ t.user.access c.access_override)

module _ (gw : Gateway) where
  -- `switch err` behind `gw.SetUserAccess`.
  unfoldable pub after_access : Result AccessLevel → M (Option Error) → M (Option Error)
  after_access (ok prev) go_on = go_on
  after_access (err not_implemented) go_on = go_on
  after_access (err no_user) go_on = give_up gw msg_no_user_found no_user
  after_access (err e) go_on = give_up gw msg_internal_error e

  -- `switch err` behind `gw.Ban` and `gw.Unban`.
  unfoldable pub after_ban : Option Error → M (Option Error) → M (Option Error)
  after_ban none go_on = go_on
  after_ban (some no_user) go_on = go_on
  after_ban (some not_implemented) go_on = pure none
  after_ban (some no_channel) go_on = pure none
  after_ban (some no_permission) go_on = do_respond gw msg_no_permission
  after_ban (some e) go_on = give_up gw msg_internal_error e

  module _ (c : Protection) (t : Trigger) where
    -- The loop over the users; `p` counts those passed over, `l` has the names of those banned.
    unfoldable pub ban_users : List User → ℕ → List Str → M (Option Error)
    ban_users [] p l = do_respond gw (report (codes "Banned") p l)
    ban_users (u ∷ us) p l = elim (is_protected c t u) [
      | true ↦ ban_users us (p + 1) l
      | false ↦ do_set_user_access gw u.id access_ban >>= λ r.
          after_access r
            (do_ban gw u.id >>= λ e. after_ban e (ban_users us p (l ++ quoted u.name ∷ [])))
    ]

    unfoldable pub ban_first : List Str → M (Option Error)
    ban_first [] = do_respond gw (codes "Expected 1 argument: [user]")
    ban_first (pat ∷ rest) = do
      users ← gets (λ h. or_as_given pat (find_user_in_channel gw h pat))
      ban_users users 0 []

    -- Ban.Execute
    unfoldable pub ban_execute : M (Option Error)
    unfolding ban_first
    ban_execute = ban_first t.arg

    -- The access level is reset where it is below the default.
    unfoldable pub reset_access : User → M (Option Error) → M (Option Error)
    reset_access u go_on = elim (ltb_ℤ u.access access_default) [
      | true ↦ do_set_user_access gw u.id access_default >>= λ r. after_access r go_on
      | false ↦ go_on
    ]

    unfoldable pub unban_users : List User → ℕ → List Str → M (Option Error)
    unban_users [] p l = do_respond gw (report (codes "Unbanned") p l)
    unban_users (u ∷ us) p l = elim (keeps_ban c t u) [
      | true ↦ unban_users us (p + 1) l
      | false ↦
          reset_access u
            (do_unban gw u.id >>= λ e. after_ban e (unban_users us p (l ++ quoted u.name ∷ [])))
    ]

    unfoldable pub unban_first : List Str → M (Option Error)
    unban_first [] = do_respond gw (codes "Expected 1 argument: [user]")
    unban_first (pat ∷ rest) = do
      users ← gets (λ h. or_as_given pat (find_user gw h pat))
      unban_users users 0 []

    -- Unban.Execute
    unfoldable pub unban_execute : M (Option Error)
    unfolding unban_first
    unban_execute = unban_first t.arg
