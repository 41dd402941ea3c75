-- ===== src/Gateway/Discord/Online.antt =====
-- gateway/discord/channel.go: the list of users online elsewhere.
pub mod Count
pub mod Signs
use goop.Base.{
  ℕ, zero, suc, ◌+◌, ◌-◌, ◌/◌, ◌%◌, ◌≤◌, ◌≡◌, ◌≢◌, refl, sym, ap, ◌∙◌, inl, inr, Bool, true, false,
  not, ◌&&◌, ◌||◌, List, [], ◌∷◌, ◌++◌, filter, arith, Str, str_eq, str_eq→eq, str_eq_refl,
  str_eq_sym, str_eq_left, str_eq_right, Bool-cases, if◌then◌else◌, ◌==◌,
}
use mathlib.Core.Path.{subst}
use goop.Base.Int.{leb_ℤ, ltb_ℤ}
use goop.Gateway.Access.{AccessLevel, access_operator, access_whitelist, access_voice}
use goop.Gateway.Common.{User}
use goop.Gateway.Events.{Event, clear, join_event, leave_event, user_event}
use goop.Gateway.Discord.JoinMode.{JoinMode}

-- The struct `online`; the time is a number.
pub record Online : Type 0 where
  pub user : User
  pub gateway : Str
  pub discr : Str
  pub since : ℕ

-- The entry is of the user `uid` of the gateway `gw`.
unfoldable pub is_entry : Str → Str → Online → Bool
is_entry gw uid o = str_eq o.gateway gw && str_eq o.user.id uid

-- clearOnline
unfoldable pub clear_online : Str → List Online → List Online
clear_online gw [] = []
clear_online gw (o ∷ os) =
    let rest = clear_online gw os in if str_eq o.gateway gw then rest else o ∷ rest

-- The loop of User: the first entry is given the new values.
unfoldable pub update_first : Str → User → List Online → List Online
unfolding is_entry
update_first gw u [] = []
update_first gw u (o ∷ os) =
    let rest = update_first gw u os in
    if is_entry gw u.id o then record o { user = u } ∷ os else o ∷ rest

unfoldable pub has_entry : Str → Str → List Online → Bool
unfolding is_entry
has_entry gw uid [] = false
has_entry gw uid (o ∷ os) = is_entry gw uid o || has_entry gw uid os

-- The loop of Leave, from the end: the last entry is taken out.
unfoldable pub remove_last : Str → Str → List Online → List Online
unfolding is_entry has_entry
remove_last gw uid [] = []
remove_last gw uid (o ∷ os) =
    let rest = remove_last gw uid os in
    if is_entry gw uid o && not (has_entry gw uid os) then os else o ∷ rest

-- `RelayJoins & RelayJoinsList != 0`
unfoldable pub lists_joins : JoinMode → Bool
lists_joins mode = mode / 2 % 2 == 1

-- Relay, as far as the list goes, for an event of the gateway `gw`. `sort` is sort.Slice with the
-- order of sortOnline.
unfoldable pub relay_online :
    (List Online → List Online) → JoinMode → Str → Str → ℕ → Event → List Online → List Online
unfolding lists_joins clear_online update_first remove_last
relay_online sort mode gw discr now clear os = if lists_joins mode then clear_online gw os else os
relay_online sort mode gw discr now (join_event u) os =
    if lists_joins mode
    then sort (os ++ record { user = u; gateway = gw; discr = discr; since = now } ∷ [])
    else os
relay_online sort mode gw discr now (user_event u) os =
    if lists_joins mode then sort (update_first gw u os) else os
relay_online sort mode gw discr now (leave_event u) os =
    if lists_joins mode then remove_last gw u.id os else os
relay_online sort mode gw discr now ev os = os

-- The sign before a name: the cases of `switch`, in their order.
pub data Badge : Type 0 where
  swords star speaker muted poo : Badge

unfoldable pub badge : AccessLevel → Badge
badge a =
    if leb_ℤ access_operator a
    then swords
    else if leb_ℤ access_whitelist a
    then star
    else if leb_ℤ access_voice a
    then speaker
    else if ltb_ℤ a access_voice
    then muted
    else poo
