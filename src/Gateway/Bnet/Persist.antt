-- ===== src/Gateway/Bnet/Persist.antt =====
-- What the announcements of the server do to the levels kept.
use goop.Base.{
  ◌≡◌, sym, inl, inr, Bool, true, false, ◌&&◌, List, [], ◌∷◌, Option, none, some, Str, codes,
  str_eq, str_eq→eq, arith, Bool-cases,
}
use goop.Base.Int.{ltb_ℤ}
use goop.Golang.Strings.{to_lower}
use goop.Golang.Strings.Laws.{to_lower_idem}
use goop.Gateway.Access.{AccessLevel, access_default, access_ban, access_whitelist}
use goop.Gateway.Find.{access_of}
use goop.Gateway.Events.{Event}
use goop.Gateway.Bnet.{Client, BnetConfig, set_user_access}
use goop.Gateway.Bnet.Users.{
  set_user_access_known, access_of-with_access, access_of-with_access_other,
}
use goop.Gateway.Bnet.Bans.{
  Kept, unchanged, persist_ban, persist_unban, persist, on_system_message, find_banned, ban_verb,
  unban_verb,
}

Kept-set_empty :
    (c : Client) (b : BnetConfig) (k : Str) (a : AccessLevel)
    → Kept (access_of b.access_user k) (access_of (set_user_access c b [] a).1.access_user k)
unfolding set_user_access to_lower
Kept-set_empty c b k a = unchanged

-- Setting one level, of a text that is not empty and in lower case, changes the levels at that key only.
Kept-set :
    (c : Client) (b : BnetConfig) (u k : Str) (a : AccessLevel)
    → to_lower u ≡ u
    → Kept (access_of b.access_user u) a
    → Kept (access_of b.access_user k) (access_of (set_user_access c b u a).1.access_user k)
Kept-set c b [] k a low h = Kept-set_empty c b k a
Kept-set c b (d ∷ s) k a low h =
    let u = d ∷ s in
    let known = (set_user_access_known c b u a (λ e. cc)).1 in
    rw (known, low)
      (elim (Bool-cases (str_eq u k)) [
        | inl e ↦ rw (sym (str_eq→eq u k e), access_of-with_access u a b.access_user) h
        | inr e ↦ rw (access_of-with_access_other u k a b.access_user e) unchanged
      ])

module _ (c : Client) (b : BnetConfig) (k : Str) where
  -- The level of `k` is kept, in the sense above.
  abbrev IsKept : BnetConfig × List Event → Type 0
  IsKept r = Kept (access_of b.access_user k) (access_of r.0.access_user k)

  persist_ban-IsKept : (u : Str) → to_lower u ≡ u → IsKept (persist_ban c b u)
  unfolding persist_ban
  persist_ban-IsKept u low =
      let a = access_of b.access_user u in
      elim (Bool-cases (ltb_ℤ access_ban a && ltb_ℤ a access_whitelist)) [
        | inl e ↦
            rw (e, persist_ban)
              (Kept-set c b u k access_ban low (Kept.banned (ground arith) (ground arith)))
        | inr e ↦ rw (e, persist_ban) unchanged
      ]

  persist_unban-IsKept : (u : Str) → to_lower u ≡ u → IsKept (persist_unban c b u)
  unfolding persist_unban
  persist_unban-IsKept u low =
      elim (Bool-cases (ltb_ℤ (access_of b.access_user u) access_default)) [
        | inl e ↦
            rw (e, persist_unban)
              (Kept-set c b u k access_default low (Kept.unbanned (ground arith)))
        | inr e ↦ rw (e, persist_unban) unchanged
      ]

  persist-IsKept : (x y : Option Str) → IsKept (persist c b x y)
  unfolding persist
  persist-IsKept (some u) y = persist_ban-IsKept (to_lower u) (to_lower_idem u)
  persist-IsKept none (some u) = persist_unban-IsKept (to_lower u) (to_lower_idem u)
  persist-IsKept none none = unchanged

  -- Whatever the server says, a message of it leaves the level kept for a user as it was, or sets it
  -- to the ban level where it was above that and below the whitelist level, or sets it to the default
  -- level where it was below that.
  pub on_system_message-IsKept :
      (info : Bool) (kind content : Str) → IsKept (on_system_message c b info kind content)
  unfolding on_system_message
  on_system_message-IsKept false kind content = unchanged
  on_system_message-IsKept true kind content =
      elim (Bool-cases (str_eq content (codes "No one hears you."))) [
        | inl e ↦ rw (e, on_system_message) unchanged
        | inr e ↦
            rw (e, on_system_message)
              (persist-IsKept (find_banned ban_verb content) (find_banned unban_verb content))
      ]
