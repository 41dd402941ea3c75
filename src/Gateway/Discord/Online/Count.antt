-- ===== src/Gateway/Discord/Online/Count.antt =====
-- How many entries a user has in the list, after each event.
use goop.Base.{
  ℕ, suc, ◌+◌, ◌-◌, ◌≤◌, ◌≡◌, refl, sym, ◌∙◌, inl, inr, true, false, ◌&&◌, List, [], ◌∷◌, ◌++◌,
  arith, Str, str_eq, str_eq→eq, str_eq_left, str_eq_right, Bool-cases, if◌then◌else◌,
}
use mathlib.Core.Path.{subst}
use goop.Gateway.Common.{User}
use goop.Gateway.Events.{Event, clear, join_event, leave_event, user_event}
use goop.Gateway.Discord.JoinMode.{JoinMode}
use goop.Gateway.Discord.Online.{
  Online, is_entry, clear_online, update_first, has_entry, remove_last, lists_joins, relay_online,
}

-- How many entries a user of a gateway has.
unfoldable pub entry_count : Str → Str → List Online → ℕ
unfolding is_entry
entry_count gw uid [] = 0
entry_count gw uid (o ∷ os) =
    if is_entry gw uid o then suc (entry_count gw uid os) else entry_count gw uid os

-- What an event of the gateway `gw` does to the number of entries that the user `uid` of the gateway
-- `g` has.
abbrev pub count_after : Str → Str → Str → Event → ℕ → ℕ
count_after g uid gw clear n = if str_eq gw g then 0 else n
count_after g uid gw (join_event u) n = if str_eq gw g && str_eq u.id uid then n + 1 else n
count_after g uid gw (leave_event u) n = if str_eq gw g && str_eq u.id uid then n - 1 else n
count_after g uid gw _ n = n

module _ (g uid : Str) where
  entry_count-append :
      (os : List Online) (o : Online)
      → entry_count g uid (os ++ o ∷ [])
        ≡ (if is_entry g uid o then entry_count g uid os + 1 else entry_count g uid os)
  unfolding entry_count
  entry_count-append [] o = ground arith
  entry_count-append (p ∷ os) o = ground (arith, entry_count-append os o)

  entry_count-clear_online :
      (gw : Str) (os : List Online)
      → entry_count g uid (clear_online gw os) ≡ (if str_eq gw g then 0 else entry_count g uid os)
  unfolding entry_count clear_online is_entry
  entry_count-clear_online gw [] = ground arith
  entry_count-clear_online gw (o ∷ os) = ground (
    arith,
    entry_count-clear_online gw os,
    str_eq_left o.gateway gw g,
    str_eq_right gw g o.gateway,
  )

  entry_count-update_first :
      (gw : Str) (u : User) (os : List Online)
      → entry_count g uid (update_first gw u os) ≡ entry_count g uid os
  unfolding entry_count update_first is_entry
  entry_count-update_first gw u [] = refl
  entry_count-update_first gw u (o ∷ os) =
      ground (arith, entry_count-update_first gw u os, str_eq_left o.user.id u.id uid)

  has_entry-entry_count : (os : List Online) → has_entry g uid os ≡ false → entry_count g uid os ≡ 0
  unfolding entry_count has_entry
  has_entry-entry_count [] h = refl
  has_entry-entry_count (o ∷ os) h = ground (arith, has_entry-entry_count os)

  entry_count-has_entry : (os : List Online) → has_entry g uid os ≡ true → 1 ≤ entry_count g uid os
  unfolding entry_count has_entry
  entry_count-has_entry [] h = cc
  entry_count-has_entry (o ∷ os) h = ground (arith, entry_count-has_entry os)

  -- Taking out an entry of the user itself, and of another user.
  entry_count-remove_last :
      (os : List Online) → entry_count g uid (remove_last g uid os) ≡ entry_count g uid os - 1
  unfolding entry_count remove_last
  entry_count-remove_last [] = omega arith
  entry_count-remove_last (o ∷ os) =
      ground (arith, entry_count-remove_last os, has_entry-entry_count os, entry_count-has_entry os)

  is_entry_other :
      (gw v : Str) (o : Online)
      → (str_eq gw g && str_eq v uid) ≡ false
      → is_entry gw v o ≡ true
      → is_entry g uid o ≡ false
  unfolding is_entry
  is_entry_other gw v o h e =
      ground (arith, str_eq_left o.gateway gw g, str_eq_left o.user.id v uid)

  entry_count-remove_last_other :
      (gw v : Str) (os : List Online)
      → (str_eq gw g && str_eq v uid) ≡ false
      → entry_count g uid (remove_last gw v os) ≡ entry_count g uid os
  unfolding entry_count remove_last
  entry_count-remove_last_other gw v [] h = refl
  entry_count-remove_last_other gw v (o ∷ os) h =
      ground (arith, entry_count-remove_last_other gw v os h, is_entry_other gw v o h)

  entry_count-leave :
      (gw v : Str) (os : List Online)
      → entry_count g uid (remove_last gw v os)
        ≡ (if str_eq gw g && str_eq v uid then entry_count g uid os - 1 else entry_count g uid os)
  entry_count-leave gw v os = elim (Bool-cases (str_eq gw g && str_eq v uid)) [
    | inl e ↦
        let same_gw : gw ≡ g = str_eq→eq gw g (ground arith) in
        let same_id : v ≡ uid = str_eq→eq v uid (ground arith) in
        rw e (
          subst (λ x. entry_count g uid (remove_last x v os) ≡ entry_count g uid os - 1)
            (sym same_gw)
            (subst (λ x. entry_count g uid (remove_last g x os) ≡ entry_count g uid os - 1)
              (sym same_id) (entry_count-remove_last os)))
    | inr e ↦ rw e (entry_count-remove_last_other gw v os e)
  ]

-- Where joins are listed and sorting keeps the entries, an event of a gateway changes the numbers of
-- entries as it should: a join adds one for its user, a leave takes one of its user out if there is
-- one, an update changes none, Clear takes out all those of the gateway, and no other user of any
-- gateway gains or loses an entry.
pub entry_count-relay_online :
    (sort : List Online → List Online) (mode : JoinMode) (gw discr : Str) (now : ℕ) (ev : Event)
    (os : List Online) (g uid : Str)
    → ((l : List Online) → entry_count g uid (sort l) ≡ entry_count g uid l)
    → lists_joins mode ≡ true
    → entry_count g uid (relay_online sort mode gw discr now ev os)
      ≡ count_after g uid gw ev (entry_count g uid os)
unfolding relay_online is_entry
entry_count-relay_online sort mode gw discr now clear os g uid sorts on =
    rw on (entry_count-clear_online g uid gw os)
entry_count-relay_online sort mode gw discr now (join_event u) os g uid sorts on =
    let o : Online = record { user = u; gateway = gw; discr = discr; since = now } in
    rw on (sorts (os ++ o ∷ []) ∙ entry_count-append g uid os o)
entry_count-relay_online sort mode gw discr now (user_event u) os g uid sorts on =
    rw on (sorts (update_first gw u os) ∙ entry_count-update_first g uid gw u os)
entry_count-relay_online sort mode gw discr now (leave_event u) os g uid sorts on =
    rw on (entry_count-leave g uid gw u.id os)
entry_count-relay_online sort mode gw discr now ev os g uid sorts on = refl
