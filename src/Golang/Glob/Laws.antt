-- ===== src/Golang/Glob/Laws.antt =====
-- Plain text as a pattern, and the pattern `*`.
use goop.Base.{
  ℕ, zero, suc, ◌≤◌, ◌≡◌, ◌≢◌, refl, [], ◌∷◌, map, some, arith, Str, length, All, str_eq,
}
use goop.Golang.Glob.{lit, item_at, parse_items, matches_items, glob}

-- A character that stands for itself in a pattern.
abbrev pub IsPlain : ℕ → Type 0
IsPlain c = (c ≢ b'*') × (c ≢ b'?') × (c ≢ b'[') × (c ≢ b'\\')

pub item_at_plain : (c : ℕ) (s : Str) → IsPlain c → item_at c s ≡ some (lit c, s)
unfolding item_at
item_at_plain c s h = ground arith

parse_items_plain :
    (f : ℕ) (s : Str) → length s ≤ f → All IsPlain s → parse_items f s ≡ some (map lit s)
unfolding parse_items
parse_items_plain zero [] fits h = refl
parse_items_plain zero (c ∷ s) fits h = elim fits [ ]
parse_items_plain (suc f) [] fits h = refl
parse_items_plain (suc f) (c ∷ s) fits h =
    rw (item_at_plain c s h.0, parse_items) (rw (parse_items_plain f s (omega arith) h.1))

matches_items_lit : (s t : Str) → matches_items (map lit s) t ≡ str_eq s t
unfolding matches_items str_eq
matches_items_lit [] [] = refl
matches_items_lit [] (d ∷ t) = refl
matches_items_lit (c ∷ s) [] = refl
matches_items_lit (c ∷ s) (d ∷ t) = ground (arith, matches_items_lit s t)

-- Plain text matches itself and nothing else.
pub glob_plain : (s t : Str) → All IsPlain s → glob s t ≡ str_eq s t
unfolding glob
glob_plain s t h = rw (parse_items_plain (length s) s (omega arith) h) (matches_items_lit s t)
