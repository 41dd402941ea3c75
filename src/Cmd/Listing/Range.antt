-- ===== src/Cmd/Listing/Range.antt =====
-- Whom `List` lists.
use goop.Base.{
  ◌≡◌, refl, sym, ap, ◌∙◌, inl, inr, false, ◌||◌, List, [], ◌∷◌, Option, none, some, Str, Result,
  ok, err, arith, All, All-map, Bool-cases,
}
use mathlib.Core.List.{Memᴰ}
use mathlib.Core.Path.{subst}
use goop.Base.Int.{◌≤ℤ◌, ltb_ℤ, eq_ℤ→eq}
use goop.Gateway.Access.{AccessLevel, unmarshal_text}
use goop.Gateway.Common.{User}
use goop.Gateway.Api.{Gateway, Trigger, History}
use goop.Cmd.{quoted}
use goop.Cmd.Listing.{
  list_levels, sorted_levels, named_or_skip, list_names, list_between, list_first, list_execute,
}

sorted_levels_comm : (a b : AccessLevel) → sorted_levels (a, b) ≡ sorted_levels (b, a)
unfolding sorted_levels
sorted_levels_comm a b = elim (Bool-cases (ltb_ℤ b a)) [
  | inl y ↦ let no : ltb_ℤ a b ≡ false = ground arith in rw (y, no) refl
  | inr n ↦ elim (Bool-cases (ltb_ℤ a b)) [
    | inl y ↦ rw (n, y) refl
    | inr n' ↦ let same : a ≡ b = eq_ℤ→eq a b (ground arith) in rw same refl
  ]
]

module _ (gw : Gateway) (h : History) (a1 a2 : AccessLevel) where
  -- The name of a configured user with a level in the range, whom the gateway knows.
  abbrev pub IsEntry : List (Str × AccessLevel) → Str → Type 0
  IsEntry m name =
      (uid : Str) × (a : AccessLevel) × (u : User) × Memᴰ (uid, a) m
      × (a1 ≤ℤ a)
      × (a ≤ℤ a2)
      × (gw.user h uid ≡ ok (some u))
      × (name ≡ quoted u.name)

  IsEntry-tail :
      (p : Str × AccessLevel) (m : List (Str × AccessLevel)) (names : List Str)
      → All (IsEntry m) names
      → All (IsEntry (p ∷ m)) names
  IsEntry-tail p m names all =
      All-map (IsEntry m) (IsEntry (p ∷ m)) names
        (λ name (uid, a, u, mem, low, high, found, e).
          (uid, a, u, Memᴰ.tail mem, low, high, found, e))
        all

  list_names-IsEntry : (m : List (Str × AccessLevel)) → All (IsEntry m) (list_names gw h a1 a2 m)
  unfolding list_names
  list_names-IsEntry [] = tt
  list_names-IsEntry ((uid, a) ∷ m) =
      let rest = IsEntry-tail (uid, a) m (list_names gw h a1 a2 m) (list_names-IsEntry m) in
      elim (Bool-cases (ltb_ℤ a a1 || ltb_ℤ a2 a)) [
        | inl e ↦ rw (e, list_names) rest
        | inr e ↦ rw (e, list_names) (go (gw.user h uid) refl (ground arith) (ground arith) rest)
      ]
    where
      go :
          (r : Result (Option User))
          → gw.user h uid ≡ r
          → a1 ≤ℤ a
          → a ≤ℤ a2
          → All (IsEntry ((uid, a) ∷ m)) (list_names gw h a1 a2 m)
          → All (IsEntry ((uid, a) ∷ m)) (named_or_skip r (list_names gw h a1 a2 m))
      go (err e) found low high rest = rest
      go (ok none) found low high rest = rest
      go (ok (some u)) found low high rest =
          ((uid, a, u, Memᴰ.head refl, low, high, found, refl), rest)

  named_or_skip-tail :
      (x : Str) (r : Result (Option User)) (l : List Str) → Memᴰ x l → Memᴰ x (named_or_skip r l)
  named_or_skip-tail x (err e) l m = m
  named_or_skip-tail x (ok none) l m = m
  named_or_skip-tail x (ok (some u)) l m = Memᴰ.tail m

  list_names-tail :
      (x : Str) (p : Str × AccessLevel) (m : List (Str × AccessLevel))
      → Memᴰ x (list_names gw h a1 a2 m)
      → Memᴰ x (list_names gw h a1 a2 (p ∷ m))
  unfolding list_names
  list_names-tail x (uid, a) m mem = elim (Bool-cases (ltb_ℤ a a1 || ltb_ℤ a2 a)) [
    | inl e ↦ rw (e, list_names) mem
    | inr e ↦ rw (e, list_names) (named_or_skip-tail x (gw.user h uid) _ mem)
  ]

  list_names_all :
      (m : List (Str × AccessLevel)) (uid : Str) (a : AccessLevel) (u : User)
      → Memᴰ (uid, a) m
      → a1 ≤ℤ a
      → a ≤ℤ a2
      → gw.user h uid ≡ ok (some u)
      → Memᴰ (quoted u.name) (list_names gw h a1 a2 m)
  unfolding list_names
  list_names_all [] uid a u mem low high found = elim mem [ ]
  list_names_all (p ∷ m) uid a u (Memᴰ.tail mem) low high found =
      list_names-tail (quoted u.name) p m (list_names_all m uid a u mem low high found)
  list_names_all ((uid', a') ∷ m) uid a u (Memᴰ.head e) low high found =
      let same_uid : uid ≡ uid' = ap (λ p. p.0) e in
      let same : a ≡ a' = ap (λ p. p.1) e in
      let inside : (ltb_ℤ a' a1 || ltb_ℤ a2 a') ≡ false = ground arith in
      let found' = subst (λ k. gw.user h k ≡ ok (some u)) same_uid found in
      rw (inside, list_names, found') (Memᴰ.head refl)

-- The names listed are those of the configured users with a level in the range, ends included, whom
-- the gateway knows, all of them and no others.
list_names_exact :
    (gw : Gateway) (h : History) (a1 a2 : AccessLevel)
    → All (IsEntry gw h a1 a2 (gw.users h)) (list_names gw h a1 a2 (gw.users h))
      × ((uid : Str) (a : AccessLevel) (u : User)
          → Memᴰ (uid, a) (gw.users h)
          → a1 ≤ℤ a
          → a ≤ℤ a2
          → gw.user h uid ≡ ok (some u)
          → Memᴰ (quoted u.name) (list_names gw h a1 a2 (gw.users h)))
list_names_exact gw h a1 a2 =
    (list_names-IsEntry gw h a1 a2 (gw.users h), list_names_all gw h a1 a2 (gw.users h))

list_levels_of :
    (x y : Str) (a b : AccessLevel)
    → unmarshal_text x ≡ ok a
    → unmarshal_text y ≡ ok b
    → list_levels (x ∷ y ∷ []) ≡ ok (a, b)
unfolding list_levels
list_levels_of x y a b ra rb = rw (ra, list_levels, rb) refl

-- The order of two readable levels does not matter: the command comes to the same with the arguments
-- swapped.
list_execute_comm :
    (gw : Gateway) (t t' : Trigger) (x y : Str) (a b : AccessLevel)
    → t.arg ≡ x ∷ y ∷ []
    → t'.arg ≡ y ∷ x ∷ []
    → unmarshal_text x ≡ ok a
    → unmarshal_text y ≡ ok b
    → list_execute gw t ≡ list_execute gw t'
unfolding list_execute list_first
list_execute_comm gw t t' x y a b e e' ra rb =
    ap (λ args. list_first gw args (list_levels args)) e
    ∙ rw (list_levels_of x y a b ra rb, list_levels_of y x b a rb ra)
        (ap (list_between gw) (sorted_levels_comm a b))
    ∙ sym (ap (λ args. list_first gw args (list_levels args)) e')
