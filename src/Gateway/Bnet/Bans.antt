-- ===== src/Gateway/Bnet/Bans.antt =====
-- gateway/bnet/bnet.go: bans that the server announces, and how they are kept.
use goop.Base.{
  ℕ, Bool, true, false, not, ◌&&◌, List, [], ◌∷◌, ◌++◌, Option, none, some, Str, codes, str_eq,
  if◌then◌else◌, ◌==◌,
}
use goop.Base.Int.{◌<ℤ◌, ltb_ℤ}
use goop.Golang.Strings.{to_lower, strip_prefix}
use goop.Gateway.Access.{AccessLevel, access_default, access_ban, access_whitelist}
use goop.Gateway.Trigger.{span}
use goop.Gateway.Find.{access_of}
use goop.Gateway.Events.{Event, system_message}
use goop.Gateway.Bnet.{Client, BnetConfig, set_user_access}

abbrev no_blank : ℕ → Bool
no_blank c = not (c == b' ')

-- `.*` does not match a line break.
unfoldable pub one_line : Str → Bool
one_line [] = true
one_line (c ∷ s) = not (c == b'\n') && one_line s

abbrev after_actor : Str × Str → Bool
after_actor ([], rest) = false
after_actor (c ∷ actor, rest) = one_line rest

-- `([^ ]+).*\.$`: the text without its last character, which is a dot.
unfoldable pub drop_dot : Str → Option Str
drop_dot [] = none
drop_dot (c ∷ []) = if c == b'.' then some [] else none
drop_dot (c ∷ d ∷ s) = elim (drop_dot (d ∷ s)) [ none ↦ none | some t ↦ some (c ∷ t) ]

unfoldable pub ends_well : Option Str → Bool
unfolding span one_line
ends_well none = false
ends_well (some s) = after_actor (span no_blank s)

unfoldable pub named_before : Str → Str × Str → Option Str
unfolding strip_prefix drop_dot ends_well
named_before verb ([], rest) = none
named_before verb (d ∷ name, rest) = elim (strip_prefix verb rest) [
  | none ↦ none
  | some behind ↦ if ends_well (drop_dot behind) then some (d ∷ name) else none
]

-- The first group of `banPat` and of `unbanPat`.
unfoldable pub find_banned : Str → Str → Option Str
unfolding span named_before
find_banned verb s = named_before verb (span no_blank s)

abbrev pub ban_verb : Str
ban_verb = codes " was banned by "

abbrev pub unban_verb : Str
unban_verb = codes " was unbanned by "

module _ (c : Client) where
  unfoldable pub persist_ban : BnetConfig → Str → BnetConfig × List Event
  persist_ban b u =
      let access = access_of b.access_user u in
      if ltb_ℤ access_ban access && ltb_ℤ access access_whitelist
      then (let (old, b', evs) = set_user_access c b u access_ban in (b', evs))
      else (b, [])

  unfoldable pub persist_unban : BnetConfig → Str → BnetConfig × List Event
  persist_unban b u =
      if ltb_ℤ (access_of b.access_user u) access_default
      then (let (old, b', evs) = set_user_access c b u access_default in (b', evs))
      else (b, [])

  unfoldable pub persist : BnetConfig → Option Str → Option Str → BnetConfig × List Event
  unfolding persist_ban persist_unban
  persist b (some u) unbanned = persist_ban b (to_lower u)
  persist b none (some u) = persist_unban b (to_lower u)
  persist b none none = (b, [])

  abbrev reported : Str → Str → BnetConfig × List Event → BnetConfig × List Event
  reported kind content r = (r.0, r.1 ++ system_message kind content ∷ [])

  -- onSystemMessage, for a message of type Info or another one, whose name in capitals is `kind`.
  unfoldable pub on_system_message : BnetConfig → Bool → Str → Str → BnetConfig × List Event
  unfolding find_banned persist
  on_system_message b false kind content = (b, system_message kind content ∷ [])
  on_system_message b true kind content =
      if str_eq content (codes "No one hears you.")
      then (b, [])
      else reported kind content
          (persist b (find_banned ban_verb content) (find_banned unban_verb content))

-- What a message of the server may do to the level of a user.
pub data Kept (old : AccessLevel) : AccessLevel → Type 0 where
  unchanged : Kept old old
  banned : access_ban <ℤ old → old <ℤ access_whitelist → Kept old access_ban
  unbanned : old <ℤ access_default → Kept old access_default
