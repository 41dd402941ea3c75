-- ===== src/Cmd/Listing.antt =====
-- goop/cmd/list.go
pub mod Range
use goop.Base.{
  Bool, true, false, ◌||◌, List, [], ◌∷◌, ◌++◌, Option, none, some, Str, codes, Error, Result, ok,
  err, if◌then◌else◌,
}
use goop.Base.Int.{ltb_ℤ, eq_ℤ}
use goop.Golang.Strings.{join}
use goop.Gateway.Access.{AccessLevel, to_string, unmarshal_text}
use goop.Gateway.Common.{User}
use goop.Gateway.Api.{Gateway, Trigger, History, M, ◌>>=◌, gets, do_respond}
use goop.Cmd.{quoted}

-- The two levels that the arguments give, in the order of the arguments.
unfoldable pub list_levels : List Str → Result (AccessLevel × AccessLevel)
list_levels [] = err Error.num_syntax
list_levels (s ∷ []) = elim (unmarshal_text s) [ err e ↦ err e | ok a ↦ ok (a, a) ]
list_levels (s ∷ t ∷ rest) = elim (unmarshal_text s) [
  | err e ↦ err e
  | ok a ↦ elim (unmarshal_text t) [ err e ↦ err e | ok a' ↦ ok (a, a') ]
]

-- `if a2 < a1 { a1, a2 = a2, a1 }`
unfoldable pub sorted_levels : AccessLevel × AccessLevel → AccessLevel × AccessLevel
sorted_levels (a1, a2) = if ltb_ℤ a2 a1 then (a2, a1) else (a1, a2)

abbrev named_or_skip : Result (Option User) → List Str → List Str
named_or_skip (err e) l = l
named_or_skip (ok none) l = l
named_or_skip (ok (some u)) l = quoted u.name ∷ l

module _ (gw : Gateway) (h : History) where
  -- The loop over the users.
  unfoldable pub list_names : AccessLevel → AccessLevel → List (Str × AccessLevel) → List Str
  list_names a1 a2 [] = []
  list_names a1 a2 ((uid, a) ∷ users) =
      let l = list_names a1 a2 users in
      if ltb_ℤ a a1 || ltb_ℤ a2 a then l else named_or_skip (gw.user h uid) l

unfoldable pub list_text : AccessLevel → AccessLevel → List Str → Str
list_text a1 a2 [] = codes "No users found with given access"
list_text a1 a2 (name ∷ l) =
    let names = join (name ∷ l) (codes ", ") in
    if eq_ℤ a1 a2
    then codes "Users with " ++ to_string a1 ++ codes " access: [" ++ names ++ codes "]"
    else codes "Users with  "
      ++ to_string a1
      ++ codes " <= access <= "
      ++ to_string a2
      ++ codes ": ["
      ++ names
      ++ codes "]"

unfoldable pub list_usage : List Str → Str
list_usage [] = codes "Expected 1 argument: [access]"
list_usage (s ∷ []) = codes "Expected 1 argument: [access]"
list_usage (s ∷ t ∷ rest) = codes "Expected 2 arguments: [from_access] [to_access]"

module _ (gw : Gateway) where
  unfoldable pub list_between : AccessLevel × AccessLevel → M (Option Error)
  unfolding list_names list_text
  list_between (a1, a2) = do
    l ← gets (λ h. list_names gw h a1 a2 (gw.users h))
    do_respond gw (list_text a1 a2 l)

  unfoldable pub list_first : List Str → Result (AccessLevel × AccessLevel) → M (Option Error)
  unfolding list_usage sorted_levels list_between
  list_first args (err e) = do_respond gw (list_usage args)
  list_first args (ok r) = list_between (sorted_levels r)

  -- Execute
  unfoldable pub list_execute : Trigger → M (Option Error)
  unfolding list_first list_levels
  list_execute t = list_first t.arg (list_levels t.arg)
