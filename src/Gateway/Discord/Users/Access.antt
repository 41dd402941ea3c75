-- ===== src/Gateway/Discord/Users/Access.antt =====
-- What decides the access of a member of a Discord channel.
use goop.Base.{
  ◌≡◌, ◌≢◌, refl, sym, ap, ◌∙◌, false, List, [], ◌∷◌, ◌++◌, none, All, Str, str_eq, ok, err, Result,
}
use mathlib.Core.Path.{subst}
use goop.Golang.Strings.{to_lower}
use goop.Gateway.Access.{AccessLevel, access_default}
use goop.Gateway.Find.{access_of}
use goop.Gateway.Bnet.{override, with_access}
use goop.Gateway.Bnet.Users.{access_of-with_access, access_of-with_access_other, override_set}
use goop.Gateway.Discord.Users.{
  Session, Member, DiscordChannel, after_role, role_access, user_of_member, validate_uid, set_valid,
  set_channel_access,
}

-- The level configured for a role, where the guild knows the role.
abbrev pub role_level : Session → DiscordChannel → Str → AccessLevel
role_level d c rid = elim (d.role c.guild_id rid) [
  | err e ↦ access_default
  | ok name ↦ access_of c.access_role (to_lower name)
]

override_default : (res : AccessLevel) → override access_default res ≡ res
unfolding override
override_default res = refl

module _ (d : Session) (c : DiscordChannel) where
  abbrev PlainRole : Str → Type 0
  PlainRole rid = role_level d c rid ≡ access_default

  after_role-role_level :
      (rid : Str) (res : AccessLevel)
      → after_role c.access_role (d.role c.guild_id rid) res ≡ override (role_level d c rid) res
  after_role-role_level rid res = go (d.role c.guild_id rid)
    where
      go :
          (r : Result Str)
          → after_role c.access_role r res
            ≡ override
                (elim r [
                  | err e ↦ access_default
                  | ok name ↦ access_of c.access_role (to_lower name)
                ])
                res
      go (err e) = sym (override_default res)
      go (ok name) = refl

  roles_plain :
      (rids : List Str) (res : AccessLevel)
      → All PlainRole rids
      → role_access d c.guild_id c.access_role rids res ≡ res
  unfolding role_access
  roles_plain [] res h = refl
  roles_plain (rid ∷ rids) res h =
      roles_plain rids _ h.1
      ∙ after_role-role_level rid res
      ∙ ap (λ a. override a res) h.0
      ∙ override_default res

  roles_last :
      (before : List Str) (rid : Str) (after : List Str) (res : AccessLevel)
      → role_level d c rid ≢ access_default
      → All PlainRole after
      → role_access d c.guild_id c.access_role (before ++ rid ∷ after) res ≡ role_level d c rid
  unfolding role_access
  roles_last [] rid after res h plain =
      roles_plain after _ plain ∙ after_role-role_level rid res ∙ override_set _ res h
  roles_last (r ∷ before) rid after res h plain = roles_last before rid after _ h plain

  -- A level kept for the member decides; else the last of the member's roles with a level configured
  -- that is not the default one; else the level of those who talk in the channel.
  pub user_of_member_access :
      (m : Member)
      → ((access_of c.access_user m.account.id ≢ access_default)
          → (user_of_member d c m).access ≡ access_of c.access_user m.account.id)
        × ((before : List Str) (rid : Str) (after : List Str)
            → access_of c.access_user m.account.id ≡ access_default
            → m.roles ≡ before ++ rid ∷ after
            → role_level d c rid ≢ access_default
            → All PlainRole after
            → (user_of_member d c m).access ≡ role_level d c rid)
        × (access_of c.access_user m.account.id ≡ access_default
            → All PlainRole m.roles
            → (user_of_member d c m).access ≡ c.access_talk)
  unfolding user_of_member
  user_of_member_access m =
      let by_roles = role_access d c.guild_id c.access_role m.roles c.access_talk in
      let unkept : access_of c.access_user m.account.id ≡ access_default
          → override (access_of c.access_user m.account.id) by_roles ≡ by_roles =
        λ e. ap (λ a. override a by_roles) e ∙ override_default by_roles in
      (
        λ h. override_set _ by_roles h,
        λ before rid after e roles h plain.
            unkept e
            ∙ ap (λ l. role_access d c.guild_id c.access_role l c.access_talk) roles
            ∙ roles_last before rid after c.access_talk h plain,
        λ e plain. unkept e ∙ roles_plain m.roles c.access_talk plain,
      )

abbrev pub with_members : DiscordChannel → List (Str × AccessLevel) → DiscordChannel
with_members c m = record c { access_user = m }

-- For a user ID that is a number of 64 bits, setting the access answers with the level kept before and
-- sets the level kept for that ID and no other; from then on a level that is not the default one is the
-- access of the member with that ID, and every other member is as before.
set_channel_access-user_of_member :
    (d : Session) (c : DiscordChannel) (uid : Str) (a : AccessLevel)
    → validate_uid uid ≡ none
    → let r = set_channel_access d c uid a in
      (r.0 ≡ ok (access_of c.access_user uid))
      × (r.1 ≡ with_members c (with_access uid a c.access_user))
      × ((m : Member)
          → m.account.id ≡ uid
          → a ≢ access_default
          → (user_of_member d r.1 m).access ≡ a)
      × ((m : Member)
          → str_eq uid m.account.id ≡ false
          → user_of_member d r.1 m ≡ user_of_member d c m)
unfolding set_channel_access user_of_member
set_channel_access-user_of_member d c uid a valid =
    let m' = with_access uid a c.access_user in
    let c' = with_members c m' in
    subst
      (λ o.
        let r = set_valid d c uid a o in
        (r.0 ≡ ok (access_of c.access_user uid))
        × (r.1 ≡ c')
        × ((m : Member)
            → m.account.id ≡ uid
            → a ≢ access_default
            → (user_of_member d r.1 m).access ≡ a)
        × ((m : Member)
            → str_eq uid m.account.id ≡ false
            → user_of_member d r.1 m ≡ user_of_member d c m))
      (sym valid)
      (
        refl,
        refl,
        λ m e set.
            let kept : access_of m' m.account.id ≡ a =
              ap (access_of m') e ∙ access_of-with_access uid a c.access_user in
            rw kept (override_set a _ set),
        λ m other. rw (access_of-with_access_other uid m.account.id a c.access_user other) refl,
      )
