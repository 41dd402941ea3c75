-- ===== src/Gateway/Bnet/Users.antt =====
-- What setting a user's access does, to that user and to the others.
use goop.Base.{
  ◌≡◌, ◌≢◌, refl, sym, ap, ◌∙◌, inl, inr, false, List, [], ◌∷◌, arith, Str, str_eq, str_eq→eq,
  str_eq_refl, Bool-cases, ok,
}
use mathlib.Core.Path.{subst}
use goop.Base.Int.{eq_ℤ, eq_ℤ→eq}
use goop.Golang.Strings.{to_lower}
use goop.Gateway.Access.{AccessLevel, access_default}
use goop.Gateway.Find.{access_of}
use goop.Gateway.Bnet.{
  ClientUser, Client, BnetConfig, override, user_of, stat_access, delete, insert, with_access,
  set_user_access, set_known, avatar_url, Product, no_product, warcraft, other_product,
}

access_of-delete :
    (k : Str) (m : List (Str × AccessLevel)) → access_of (delete k m) k ≡ access_default
unfolding access_of delete
access_of-delete k [] = refl
access_of-delete k ((j, a) ∷ m) = ground (arith, access_of-delete k m)

access_of-delete_other :
    (k j : Str) (m : List (Str × AccessLevel))
    → str_eq k j ≡ false
    → access_of (delete k m) j ≡ access_of m j
unfolding access_of delete
access_of-delete_other k j [] h = refl
access_of-delete_other k j ((i, a) ∷ m) h = elim (Bool-cases (str_eq i k)) [
  | inl e ↦
      let same : i ≡ k = str_eq→eq i k e in
      let other : str_eq i j ≡ false = subst (λ x. str_eq x j ≡ false) (sym same) h in
      rw (e, delete, other, access_of) (access_of-delete_other k j m h)
  | inr e ↦ ground (arith, access_of-delete_other k j m)
]

pub access_of-with_access :
    (k : Str) (a : AccessLevel) (m : List (Str × AccessLevel)) → access_of (with_access k a m) k ≡ a
unfolding with_access insert access_of
access_of-with_access k a m = elim (Bool-cases (eq_ℤ a access_default)) [
  | inl e ↦ rw (e, with_access) (access_of-delete k m ∙ sym (eq_ℤ→eq a access_default e))
  | inr e ↦ rw (e, with_access, str_eq_refl k) refl
]

pub access_of-with_access_other :
    (k j : Str) (a : AccessLevel) (m : List (Str × AccessLevel))
    → str_eq k j ≡ false
    → access_of (with_access k a m) j ≡ access_of m j
unfolding with_access insert access_of
access_of-with_access_other k j a m h = elim (Bool-cases (eq_ℤ a access_default)) [
  | inl e ↦ rw (e, with_access) (access_of-delete_other k j m h)
  | inr e ↦ rw (e, with_access, h) (access_of-delete_other k j m h)
]

abbrev pub with_users : BnetConfig → List (Str × AccessLevel) → BnetConfig
with_users b m = record b { access_user = m }

pub set_user_access_known :
    (c : Client) (b : BnetConfig) (uid : Str) (a : AccessLevel)
    → to_lower uid ≢ []
    → let r = set_user_access c b uid a in
      (r.0 ≡ ok (access_of b.access_user (to_lower uid)))
      × (r.1 ≡ with_users b (with_access (to_lower uid) a b.access_user))
unfolding set_user_access
set_user_access_known c b uid a h = go (to_lower uid) h
  where
    go :
        (s : Str)
        → s ≢ []
        → let r = set_known c b s a in
          (r.0 ≡ ok (access_of b.access_user s))
          × (r.1 ≡ with_users b (with_access s a b.access_user))
    go [] h = absurd (h refl)
    go (d ∷ s) h = (refl, refl)

stat_access-with_users :
    (b : BnetConfig) (m : List (Str × AccessLevel)) (u : ClientUser) (p : Product)
    → stat_access (with_users b m) u p ≡ stat_access b u p
unfolding stat_access
stat_access-with_users b m u no_product = refl
stat_access-with_users b m u warcraft = refl
stat_access-with_users b m u other_product = refl

avatar_url-with_users :
    (b : BnetConfig) (m : List (Str × AccessLevel)) (u : ClientUser) (p : Product)
    → avatar_url (with_users b m) u p ≡ avatar_url b u p
unfolding avatar_url
avatar_url-with_users b m u no_product = refl
avatar_url-with_users b m u warcraft = refl
avatar_url-with_users b m u other_product = refl

user_of-with_users :
    (b : BnetConfig) (m : List (Str × AccessLevel)) (u : ClientUser)
    → access_of m (to_lower u.name) ≡ access_of b.access_user (to_lower u.name)
    → user_of (with_users b m) u ≡ user_of b u
unfolding user_of
user_of-with_users b m u e =
    rw (e, stat_access-with_users b m u u.product, avatar_url-with_users b m u u.product) refl

pub override_set : (a res : AccessLevel) → a ≢ access_default → override a res ≡ a
unfolding override
override_set a res h = elim (Bool-cases (eq_ℤ a access_default)) [
  | inl e ↦ absurd (h (eq_ℤ→eq a access_default e))
  | inr e ↦ rw e refl
]

-- Setting the access of a user with a non-empty ID returns the level configured before. From then on
-- every user with that name, in any case, has exactly the level set if it is not the default one,
-- whatever product, level, clan and operator status say; and every user with another name is as
-- before.
pub set_user_access-user_of :
    (c : Client) (b : BnetConfig) (uid : Str) (a : AccessLevel)
    → to_lower uid ≢ []
    → let r = set_user_access c b uid a in
      (r.0 ≡ ok (access_of b.access_user (to_lower uid)))
      × ((u : ClientUser)
          → to_lower u.name ≡ to_lower uid
          → a ≢ access_default
          → (user_of r.1 u).access ≡ a)
      × ((u : ClientUser)
          → str_eq (to_lower uid) (to_lower u.name) ≡ false
          → user_of r.1 u ≡ user_of b u)
unfolding user_of
set_user_access-user_of c b uid a h =
    let (old, e) = set_user_access_known c b uid a h in
    let m = with_access (to_lower uid) a b.access_user in
    (
      old,
      λ u same set.
          let mine : access_of m (to_lower u.name) ≡ a =
            ap (access_of m) same ∙ access_of-with_access (to_lower uid) a b.access_user in
          rw (e, mine) (override_set a _ set),
      λ u other. rw e (
          user_of-with_users b m u
            (access_of-with_access_other (to_lower uid) (to_lower u.name) a b.access_user other)),
    )
