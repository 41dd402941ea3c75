-- ===== src/Cmd.antt =====
-- goop/cmd/: the built-in commands.
pub mod Protected
pub mod Kick
pub mod Ban
pub mod Set
pub mod Alias
pub mod Listing
pub mod Say
pub mod Where
pub mod Settings
use goop.Base.{
  ℕ, zero, ◌≡◌, Bool, not, ◌&&◌, ◌||◌, List, [], ◌∷◌, ◌++◌, Option, some, Str, Error, codes, str_eq,
}
use goop.Base.Int.{leb_ℤ, ltb_ℤ}
use goop.Golang.Strings.{join}
use goop.Gateway.Access.{AccessLevel, access_default}
use goop.Gateway.Common.{User}
use goop.Gateway.Api.{Gateway, Trigger, M, ◌>>=◌, ◌>>◌, pure, do_respond}

-- The struct `Cmd`, which every command embeds.
pub record Cmd : Type 0 where
  pub disabled : Bool
  pub priviledge : AccessLevel

-- CanExecute
unfoldable pub can_execute : Cmd → User → Bool
can_execute c u = not c.disabled && leb_ℤ c.priviledge u.access

abbrev pub msg_no_user_found : Str
msg_no_user_found = codes "No user found with that name"

abbrev pub msg_more_user_found : Str
msg_more_user_found = codes "Found more than one user with that name"

abbrev pub msg_no_changes : Str
msg_no_changes = codes "No changes made"

abbrev pub msg_no_permission : Str
msg_no_permission = codes "No permission to perform action"

abbrev pub msg_internal_error : Str
msg_internal_error = codes "Internal error prevented correct execution"

-- The fields that `Kick`, `Ban` and `Unban` share.
pub record Protection : Type 0 where
  pub base : Cmd
  pub access_protect : AccessLevel
  pub access_override : AccessLevel

-- The guard of `Kick` and `Ban`: the user is passed over.
unfoldable pub is_protected : Protection → Trigger → User → Bool
is_protected c t u =
    str_eq u.id t.user.id
    || leb_ℤ t.user.access u.access
    || (leb_ℤ c.access_protect u.access && ltb_ℤ t.user.access c.access_override)

-- A user's name between backquotes.
abbrev pub quoted : Str → Str
quoted name = codes "`" ++ name ++ codes "`"

-- The answer that the users in `l` were changed, and `p` protected ones passed over.
unfoldable pub report : Str → ℕ → List Str → Str
report action zero [] = msg_no_user_found
report action p [] = msg_no_permission
report action p (name ∷ []) = action ++ codes " " ++ name
report action p (name ∷ more ∷ l) =
    action ++ codes " [" ++ join (name ∷ more ∷ l) (codes ", ") ++ codes "]"

-- The users found, or else one that has the text as ID and name.
unfoldable pub or_as_given : Str → List User → List User
or_as_given s [] = record { id = s; name = s; access = access_default; avatar_url = [] } ∷ []
or_as_given s (u ∷ us) = u ∷ us

-- `t.Resp(s); return err`
unfoldable pub give_up : Gateway → Str → Error → M (Option Error)
give_up gw s e = do do_respond gw s; pure (some e)
