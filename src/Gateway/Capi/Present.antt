-- ===== src/Gateway/Capi/Present.antt =====
-- gateway/capi/capi.go: the map `users` holds the users that are there, whatever came and went.
use goop.Base.{
  ◌≡◌, ◌↔◌, ◌⊎◌, ap, ◌∙◌, inl, inr, true, false, List, [], ◌∷◌, none, some, Str, str_eq, str_eq→eq,
  arith, Bool-cases, if◌then◌else◌,
}
use mathlib.Core.Path.{subst}
use goop.Base.Int.{ℤ, eq_ℤ}
use goop.Golang.Strings.{to_lower}
use goop.Gateway.Bnet.{delete, insert}
use goop.Gateway.Capi.{BotUser, Capi, is_self, find_id}
use goop.Gateway.Capi.Handlers.{
  Seen, connected, joined, updated, left, same_id, on_seen, after_seen,
}

find_id-delete :
    (k j : Str) (m : List (Str × ℤ))
    → find_id j (delete k m) ≡ (if str_eq k j then none else find_id j m)
unfolding find_id delete
find_id-delete k j [] = ground arith
find_id-delete k j ((i, a) ∷ m) = elim (Bool-cases (str_eq i k)) [
  | inl e ↦
      let same : str_eq i j ≡ str_eq k j = ap (λ x. str_eq x j) (str_eq→eq i k e) in
      ground (arith, find_id-delete k j m)
  | inr e ↦ elim (Bool-cases (str_eq k j)) [
    | inl y ↦
        let other : str_eq i j ≡ false = subst (λ x. str_eq i x ≡ false) (str_eq→eq k j y) e in
        ground (arith, find_id-delete k j m)
    | inr n ↦ ground (arith, find_id-delete k j m)
  ]
]

find_id-insert :
    (k j : Str) (id : ℤ) (m : List (Str × ℤ))
    → find_id j (insert k id m) ≡ (if str_eq k j then some id else find_id j m)
unfolding find_id insert
find_id-insert k j id m = ground (arith, find_id-delete k j m)

-- The event leaves a user that is there under `k` with the ID `id` alone.
abbrev pub Spares : Str → ℤ → Seen → Type 0
Spares k id (connected name) = ⊥
Spares k id (joined u) = (is_self u.user_id ≡ true) ⊎ (str_eq (to_lower u.username) k ≡ false)
Spares k id (updated u) = Unit
Spares k id (left u) =
    (is_self u.user_id ≡ true)
    ⊎ ((str_eq (to_lower u.username) k ≡ false) ⊎ (eq_ℤ id u.user_id ≡ false))

abbrev pub Comes : Str → ℤ → BotUser → Type 0
Comes k id u =
    (is_self u.user_id ≡ false) × (str_eq (to_lower u.username) k ≡ true) × (u.user_id ≡ id)

-- In a history with the newest event first, a user of that name and ID came, and nothing since then
-- was a new connection, another user of that name, or the leave of this one.
pub data IsPresent (k : Str) (id : ℤ) : List Seen → Type 0 where
  came : (u : BotUser) (h : List Seen) → Comes k id u → IsPresent k id (joined u ∷ h)
  stayed : (e : Seen) (h : List Seen) → Spares k id e → IsPresent k id h → IsPresent k id (e ∷ h)

module _ (k : Str) (id : ℤ) where
  abbrev Holds : Capi → Type 0
  Holds b = find_id k b.users ≡ some id

  stays : (e : Seen) (b : Capi) → Spares k id e → Holds b → Holds (on_seen e b).0
  unfolding on_seen
  stays (connected name) b s h = absurd s
  stays (joined u) b s h = ground (arith, find_id-insert (to_lower u.username) k u.user_id b.users)
  stays (updated u) b s h = ground arith
  stays (left u) b s h =
      ground
        (arith, find_id-delete (to_lower u.username) k b.users, str_eq→eq (to_lower u.username) k)

  comes : (u : BotUser) (b : Capi) → Comes k id u → Holds (on_seen (joined u) b).0
  unfolding on_seen
  comes u b c = ground (arith, find_id-insert (to_lower u.username) k u.user_id b.users)

  -- Before the event, or by it.
  abbrev Source : Seen → Capi → Type 0
  Source (joined u) b = Comes k id u ⊎ (Spares k id (joined u) × Holds b)
  Source e b = Spares k id e × Holds b

  traced : (e : Seen) (b : Capi) → Holds (on_seen e b).0 → Source e b
  unfolding on_seen find_id
  traced (connected name) b h = cc
  traced (updated u) b h = ground arith
  traced (joined u) b h = elim (Bool-cases (is_self u.user_id)) [
    | inl e ↦ inr (inl e, ground arith)
    | inr e ↦ elim (Bool-cases (str_eq (to_lower u.username) k)) [
      | inl y ↦
          let found = find_id-insert (to_lower u.username) k u.user_id b.users in
          inl (e, y, ground arith)
      | inr n ↦
          let found = find_id-insert (to_lower u.username) k u.user_id b.users in
          inr (inr n, ground arith)
    ]
  ]
  traced (left u) b h = elim (Bool-cases (is_self u.user_id)) [
    | inl e ↦ (inl e, ground arith)
    | inr e ↦
        let found = find_id-delete (to_lower u.username) k b.users in
        elim (Bool-cases (str_eq (to_lower u.username) k)) [
          | inl y ↦
              let same : find_id (to_lower u.username) b.users ≡ find_id k b.users =
                ap (λ x. find_id x b.users) (str_eq→eq (to_lower u.username) k y) in
              elim (Bool-cases (same_id (find_id (to_lower u.username) b.users) u.user_id)) [
                | inl gone ↦ absurd (ground arith)
                | inr kept ↦
                    let holds : Holds b = ground arith in
                    let known : find_id (to_lower u.username) b.users ≡ some id = same ∙ holds in
                    (inr (inr (rw known at kept)), holds)
              ]
          | inr n ↦ (inr (inl n), ground arith)
        ]
  ]

  present→found : (b : Capi) (h : List Seen) → IsPresent k id h → Holds (after_seen h b)
  unfolding after_seen
  present→found b _ (came u h c) = comes u (after_seen h b) c
  present→found b _ (stayed e h s r) = stays e (after_seen h b) s (present→found b h r)

  found→present :
      (b : Capi) (h : List Seen) → b.users ≡ [] → Holds (after_seen h b) → IsPresent k id h
  unfolding after_seen find_id
  found→present b [] empty found = let none_there = rw empty at found in cc
  found→present b (joined u ∷ h) empty found = elim (traced (joined u) (after_seen h b) found) [
    | inl c ↦ came u h c
    | inr r ↦ stayed (joined u) h r.0 (found→present b h empty r.1)
  ]
  found→present b (connected name ∷ h) empty found =
      absurd (traced (connected name) (after_seen h b) found).0
  found→present b (updated u ∷ h) empty found =
      let r = traced (updated u) (after_seen h b) found in
      stayed (updated u) h r.0 (found→present b h empty r.1)
  found→present b (left u ∷ h) empty found =
      let r = traced (left u) (after_seen h b) found in
      stayed (left u) h r.0 (found→present b h empty r.1)

-- From a gateway that knows nobody, whatever users came, changed, and left, and however often it
-- connected: a name is known with an ID just if a user of that name, in any case, and with that ID came
-- (other than the bot itself), and since then there was no new connection, no other user of that name
-- came, and this one did not leave. A late leave of an earlier user of the same name is passed over.
pub after_seen_iff :
    (b : Capi) (h : List Seen) (k : Str) (id : ℤ)
    → b.users ≡ []
    → (find_id k (after_seen h b).users ≡ some id) ↔ IsPresent k id h
after_seen_iff b h k id empty = (found→present k id b h empty, present→found k id b h)
