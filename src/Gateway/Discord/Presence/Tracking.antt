-- ===== src/Gateway/Discord/Presence/Tracking.antt =====
-- What an update of a presence fires, and whom the gateway tracks.
use goop.Base.{
  ◌≡◌, refl, sym, ap, ◌∙◌, inl, inr, Bool, true, false, ◌||◌, List, [], ◌∷◌, ◌++◌, Option, none,
  some, Str, str_eq, str_eq_refl, str_eq→eq, All, All-append, arith, Bool-cases, Result, ok, err,
}
use mathlib.Core.Path.{subst}
use goop.Gateway.Common.{User}
use goop.Gateway.Events.{join_event, leave_event}
use goop.Gateway.Discord.Users.{Account, Session, DiscordChannel, channel_user}
use goop.Gateway.Discord.Presence.{
  Tracked, Presence, Fired, on_channel, has_user, drop_user, find_channel, channels_of, visit,
  check_view, announce_found, visit_all, update_presence, tracked_after,
}

-- A join on a channel.
abbrev pub is_join : Fired → Bool
is_join (on_channel cid (join_event u)) = true
is_join _ = false

abbrev pub is_leave : Fired → Bool
is_leave (on_channel cid (leave_event u)) = true
is_leave _ = false

abbrev pub any_join : List Fired → Bool
any_join [] = false
any_join (f ∷ fs) = is_join f || any_join fs

abbrev pub NoLeave : Fired → Type 0
NoLeave f = is_leave f ≡ false

abbrev pub NoJoin : Fired → Type 0
NoJoin f = is_join f ≡ false

any_join-append : (a b : List Fired) → any_join (a ++ b) ≡ any_join a || any_join b
any_join-append [] b = refl
any_join-append (f ∷ a) b = ground (arith, any_join-append a b)

has_user-drop : (k : Str) (l : List Str) → has_user k (drop_user k l) ≡ false
unfolding has_user drop_user
has_user-drop k [] = refl
has_user-drop k (j ∷ l) = ground (arith, has_user-drop k l)

has_user-drop_other :
    (k j : Str) (l : List Str) → str_eq k j ≡ false → has_user j (drop_user k l) ≡ has_user j l
unfolding has_user drop_user
has_user-drop_other k j [] h = refl
has_user-drop_other k j (i ∷ l) h = elim (Bool-cases (str_eq i k)) [
  | inl e ↦
      let other : str_eq i j ≡ false = ap (λ x. str_eq x j) (str_eq→eq i k e) ∙ h in
      ground (arith, has_user-drop_other k j l h)
  | inr n ↦ ground (arith, has_user-drop_other k j l h)
]

module _ (d : Session) (a : Account) where
  abbrev present : Presence
  present = record { account = a; offline = false }

  abbrev absent : Presence
  absent = record { account = a; offline = true }

  found-joins :
      (cid : Str) (r : Result (Option User))
      → let x = announce_found d present false cid r in (x.0 ≡ any_join x.1) × All NoLeave x.1
  found-joins cid (ok none) = (refl, tt)
  found-joins cid (ok (some u)) = (refl, (refl, tt))
  found-joins cid (err e) = (refl, (refl, tt))

  visit-joins :
      (cid : Str) (c : Option DiscordChannel)
      → let x = visit d present false cid c in (x.0 ≡ any_join x.1) × All NoLeave x.1
  visit-joins cid none = (refl, tt)
  visit-joins cid (some c) = go (d.may_view a.id cid)
    where
      go :
          (v : Result Bool)
          → let x = check_view d present false cid c v in (x.0 ≡ any_join x.1) × All NoLeave x.1
      go (err e) = (refl, (refl, tt))
      go (ok false) = (refl, tt)
      go (ok true) = found-joins cid (channel_user d c a.id)

  visit_all-joins :
      (channels : List (Str × DiscordChannel)) (cids : List Str)
      → let x = visit_all d present channels false cids in (x.0 ≡ any_join x.1) × All NoLeave x.1
  unfolding visit_all
  visit_all-joins channels [] = (refl, tt)
  visit_all-joins channels (cid ∷ cids) =
      let first = visit-joins cid (find_channel cid channels) in
      let rest = visit_all-joins channels cids in
      let x = visit d present false cid (find_channel cid channels) in
      let y = visit_all d present channels false cids in
      (
        ap (λ b. b || y.0) first.0
            ∙ ap (λ b. any_join x.1 || b) rest.0
            ∙ sym (any_join-append x.1 y.1),
        All-append NoLeave x.1 y.1 first.1 rest.1,
      )

  found-leaves :
      (cid : Str) (r : Result (Option User)) → All NoJoin (announce_found d absent true cid r).1
  found-leaves cid (ok none) = tt
  found-leaves cid (ok (some u)) = (refl, tt)
  found-leaves cid (err e) = (refl, tt)

  visit-leaves : (cid : Str) (c : Option DiscordChannel) → All NoJoin (visit d absent true cid c).1
  visit-leaves cid none = tt
  visit-leaves cid (some c) = found-leaves cid (channel_user d c a.id)

  visit_all-leaves :
      (channels : List (Str × DiscordChannel)) (cids : List Str)
      → All NoJoin (visit_all d absent channels true cids).1
  unfolding visit_all
  visit_all-leaves channels [] = tt
  visit_all-leaves channels (cid ∷ cids) =
      All-append NoJoin _ (visit_all d absent channels true cids).1
        (visit-leaves cid (find_channel cid channels)) (visit_all-leaves channels cids)

  module _ (guild : Str) (s : Tracked) (user : a.bot ≡ false) where
    abbrev came : Tracked × List Fired
    came = update_presence d present guild s

    abbrev went : Tracked × List Fired
    went = update_presence d absent guild s

    abbrev seen : Bool → Presence → Bool × List Fired
    seen online p = visit_all d p s.channels online (channels_of guild s.guilds)

    abbrev updated : Bool → Presence → Tracked × List Fired
    updated online p =
        (record s { users = tracked_after d p s.users (seen online p).0 }, (seen online p).1)

    came_again : has_user a.id s.users ≡ true → came ≡ (s, [])
    unfolding update_presence
    came_again h = ground arith

    went_again : has_user a.id s.users ≡ false → went ≡ (s, [])
    unfolding update_presence
    went_again h = ground arith

    came_first : has_user a.id s.users ≡ false → came ≡ updated false present
    unfolding update_presence
    came_first h = ground arith

    went_first : has_user a.id s.users ≡ true → went ≡ updated true absent
    unfolding update_presence
    went_first h = ground arith

    others_came :
        (j : Str)
        → str_eq a.id j ≡ false
        → (t : Bool) → has_user j (tracked_after d present s.users t) ≡ has_user j s.users
    unfolding has_user
    others_came j h true = rw h refl
    others_came j h false = refl

    -- For a user who is no bot, and whatever the guild: coming online fires nothing and changes nothing
    -- if the user is tracked already, and else fires no leave, and the user is tracked from then on just
    -- if a join was fired; going offline fires nothing and changes nothing if the user is not tracked,
    -- and else fires no join, and the user is tracked no longer. Neither changes who else is tracked.
    pub update_presence-IsTracked :
        (has_user a.id s.users ≡ true → came ≡ (s, []))
        × (has_user a.id s.users ≡ false
            → All NoLeave came.1 × (has_user a.id came.0.users ≡ any_join came.1))
        × (has_user a.id s.users ≡ false → went ≡ (s, []))
        × (has_user a.id s.users ≡ true → All NoJoin went.1 × (has_user a.id went.0.users ≡ false))
        × ((j : Str)
            → str_eq a.id j ≡ false
            → (has_user j came.0.users ≡ has_user j s.users)
              × (has_user j went.0.users ≡ has_user j s.users))
    unfolding has_user
    update_presence-IsTracked =
        let joins = visit_all-joins s.channels (channels_of guild s.guilds) in
        (
          came_again,
          λ h.
              let x = seen false present in
              let tracked : (t : Bool) → has_user a.id (tracked_after d present s.users t) ≡ t =
                λ t. elim t as (λ t. has_user a.id (tracked_after d present s.users t) ≡ t) [
                  | true ↦ rw (str_eq_refl a.id) refl
                  | false ↦ h
                ] in
              subst (λ r. All NoLeave r.1 × (has_user a.id r.0.users ≡ any_join r.1))
                (sym (came_first h)) (joins.1, tracked x.0 ∙ joins.0),
          went_again,
          λ h.
              subst (λ r. All NoJoin r.1 × (has_user a.id r.0.users ≡ false)) (sym (went_first h))
                (
                  visit_all-leaves s.channels (channels_of guild s.guilds),
                  has_user-drop a.id s.users,
                ),
          λ j other.
              let kept = λ (r : Tracked × List Fired). has_user j r.0.users ≡ has_user j s.users in
              elim (Bool-cases (has_user a.id s.users)) [
                | inl on ↦ (
                  subst kept (sym (came_again on)) refl,
                  subst kept (sym (went_first on)) (has_user-drop_other a.id j s.users other),
                )
                | inr off ↦ (
                  subst kept (sym (came_first off)) (others_came j other (seen false present).0),
                  subst kept (sym (went_again off)) refl,
                )
              ],
        )
