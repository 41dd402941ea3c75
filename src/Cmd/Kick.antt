-- ===== src/Cmd/Kick.antt =====
-- goop/cmd/kick.go
pub mod Safety
pub mod Complete
use goop.Base.{
  ℕ, zero, suc, ◌+◌, Bool, true, false, List, [], ◌∷◌, ◌++◌, Option, none, some, Str, codes, Error,
  no_user, no_channel, no_permission, not_implemented,
}
use goop.Gateway.Common.{User}
use goop.Gateway.Api.{Gateway, Trigger, M, ◌>>=◌, ◌>>◌, pure, gets, do_respond, do_kick}
use goop.Gateway.Find.{find_user_in_channel}
use goop.Cmd.{
  Protection, is_protected, report, quoted, give_up, msg_no_permission, msg_internal_error,
}

module _ (gw : Gateway) where
  -- `switch err` behind `gw.Kick`: to go on with the name noted, to go on without, or to return.
  unfoldable pub after_kick : Option Error → M (Option Error) → M (Option Error) → M (Option Error)
  after_kick none kicked ignored = kicked
  after_kick (some no_user) kicked ignored = ignored
  after_kick (some not_implemented) kicked ignored = pure none
  after_kick (some no_channel) kicked ignored = pure none
  after_kick (some no_permission) kicked ignored = do_respond gw msg_no_permission
  after_kick (some e) kicked ignored = give_up gw msg_internal_error e

  module _ (c : Protection) (t : Trigger) where
    -- The loop over the users; `p` counts those passed over, `l` has the names of those kicked.
    unfoldable pub kick_users : List User → ℕ → List Str → M (Option Error)
    kick_users [] p l = do_respond gw (report (codes "Kicked") p l)
    kick_users (u ∷ us) p l = elim (is_protected c t u) [
      | true ↦ kick_users us (p + 1) l
      | false ↦ do_kick gw u.id >>= λ e.
          after_kick e (kick_users us p (l ++ quoted u.name ∷ [])) (kick_users us p l)
    ]

    -- The argument is there or not.
    unfoldable pub kick_first : List Str → M (Option Error)
    kick_first [] = do_respond gw (codes "Expected 1 argument: [user]")
    kick_first (pat ∷ rest) = do
      users ← gets (λ h. find_user_in_channel gw h pat)
      kick_users users 0 []

    -- Execute
    unfoldable pub kick_execute : M (Option Error)
    unfolding kick_first
    kick_execute = kick_first t.arg
