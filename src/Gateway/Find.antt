-- ===== src/Gateway/Find.antt =====
-- gateway/gateway.go: FindUserInChannel and FindUser.
use goop.Base.{
  Bool, ◌&&◌, List, [], ◌∷◌, ◌++◌, Option, none, some, Str, str_eq, filter, if◌then◌else◌, Result,
  ok, err,
}
use goop.Base.Int.{eq_ℤ}
use goop.Golang.Strings.{to_lower}
use goop.Golang.Glob.{glob}
use goop.Gateway.Access.{AccessLevel, access_default}
use goop.Gateway.Common.{User}
use goop.Gateway.Api.{Gateway, History}

-- `m[k]` of a Go map: the zero level where the key is missing.
unfoldable pub access_of : List (Str × AccessLevel) → Str → AccessLevel
access_of [] k = access_default
access_of ((j, a) ∷ m) k = if str_eq j k then a else access_of m k

abbrev pub name_fits : Str → User → Bool
name_fits pat u = glob (to_lower pat) (to_lower u.name)

-- `gw.User(pat)` decides if it does not fail; a nil user is no user.
abbrev known_or : Result (Option User) → List User → List User
known_or (ok none) others = []
known_or (ok (some u)) others = u ∷ []
known_or (err e) others = others

module _ (gw : Gateway) (h : History) where
  unfoldable pub find_user_in_channel : Str → List User
  find_user_in_channel pat = known_or (gw.user h pat) (filter (name_fits pat) (gw.channel_users h))

  abbrev fits_or_skip : Str → Result (Option User) → List User → List User
  fits_or_skip pat (err e) found = found
  fits_or_skip pat (ok none) found = found
  fits_or_skip pat (ok (some u)) found = if name_fits pat u then u ∷ found else found

  -- The loop over `gw.Users()`.
  unfoldable pub find_configured : Str → List (Str × AccessLevel) → List User
  find_configured pat [] = []
  find_configured pat ((k, a) ∷ users) = fits_or_skip pat (gw.user h k) (find_configured pat users)

  unfoldable pub find_user : Str → List User
  unfolding find_configured access_of
  find_user pat =
      let users = gw.users h in
      known_or (gw.user h pat) (
        find_configured pat users
        ++ filter (λ u. name_fits pat u && eq_ℤ (access_of users u.id) access_default)
            (gw.channel_users h))
