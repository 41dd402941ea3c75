-- ===== src/Gateway/Bnet/Levels.antt =====
-- The access by the user's level, however the map is ranged over.
use goop.Base.{◌≡◌, refl, inl, inr, ◌⊎◌, ◌&&◌, List, [], ◌∷◌, arith, All, All-map, Bool-cases}
use mathlib.Core.List.{Memᴰ}
use goop.Base.Int.{ℤ, ◌≤ℤ◌, leb_ℤ}
use goop.Gateway.Access.{AccessLevel}
use goop.Gateway.Bnet.{level_access}

abbrev pub InRange : ℤ → ℤ → ℤ → Type 0
InRange max lvl l = (max ≤ℤ l) × (l ≤ℤ lvl)

-- `a` is the access of an entry in range, and no entry in range has a higher level.
abbrev pub IsBest : List (ℤ × AccessLevel) → ℤ → ℤ → AccessLevel → Type 0
IsBest m lvl max a =
    (l : ℤ) × Memᴰ (l, a) m × InRange max lvl l × All (λ p. InRange max lvl p.0 → p.0 ≤ℤ l) m

-- No entry is in range.
abbrev pub IsBare : List (ℤ × AccessLevel) → ℤ → ℤ → Type 0
IsBare m lvl max = All (λ p. InRange max lvl p.0 → ⊥) m

cover :
    (max lvl l1 l : ℤ) (m : List (ℤ × AccessLevel))
    → l1 ≤ℤ l
    → All (λ p. InRange l1 lvl p.0 → p.0 ≤ℤ l) m
    → All (λ p. InRange max lvl p.0 → p.0 ≤ℤ l) m
cover max lvl l1 l m h all =
    All-map (λ p. InRange l1 lvl p.0 → p.0 ≤ℤ l) (λ p. InRange max lvl p.0 → p.0 ≤ℤ l) m
      (λ p le r. ground (arith, le)) all

bare-cover :
    (max lvl l1 : ℤ) (m : List (ℤ × AccessLevel))
    → IsBare m lvl l1
    → All (λ p. InRange max lvl p.0 → p.0 ≤ℤ l1) m
bare-cover max lvl l1 m all =
    All-map (λ p. InRange l1 lvl p.0 → ⊥) (λ p. InRange max lvl p.0 → p.0 ≤ℤ l1) m
      (λ p no r. ground (arith, no)) all

-- Where an entry has a level from `max` up to that of the user, the result is the access of the
-- entry with the highest such level, in whatever order the entries come; where there is none, the
-- result is the access given.
level_access-IsBest :
    (m : List (ℤ × AccessLevel)) (lvl max : ℤ) (res : AccessLevel)
    → IsBest m lvl max (level_access m lvl max res)
      ⊎ (IsBare m lvl max × (level_access m lvl max res ≡ res))
unfolding level_access
level_access-IsBest [] lvl max res = inr (tt, refl)
level_access-IsBest ((l, a) ∷ m) lvl max res = elim (Bool-cases (leb_ℤ max l && leb_ℤ l lvl)) [
  | inl y ↦
      rw (y, level_access)
        (elim (level_access-IsBest m lvl l a) [
          | inl (k, mem, r, all) ↦
              inl (k, Memᴰ.tail mem, ground arith, (λ q. ground arith, cover max lvl l k m r.0 all))
          | inr (bare, e) ↦ rw e (
              inl
                (l, Memᴰ.head refl, ground arith, (λ q. ground arith, bare-cover max lvl l m bare)))
        ])
  | inr n ↦
      rw (n, level_access)
        (elim (level_access-IsBest m lvl max res) [
          | inl (k, mem, r, all) ↦ inl (k, Memᴰ.tail mem, r, (λ q. ground arith, all))
          | inr (bare, e) ↦ inr ((λ q. ground arith, bare), e)
        ])
]
