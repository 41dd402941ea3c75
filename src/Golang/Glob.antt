-- ===== src/Golang/Glob.antt =====
-- filepath.Match where `/` is the separator. A malformed pattern matches nothing: the program treats
-- ErrBadPattern as no match.
pub mod Laws
pub mod Find
use goop.Base.{
  ℕ, zero, suc, ◌≡◌, refl, Bool, true, false, not, ◌&&◌, ◌||◌, List, [], ◌∷◌, Option, none, some,
  Str, codes, length, leb, ◌==◌, if◌then◌else◌,
}

pub data Item : Type 0 where
  star any_char : Item
  lit : ℕ → Item
  class : Bool → List (ℕ × ℕ) → Item

-- `getEsc`: a character of a class, which another character has to follow.
unfoldable pub get_esc : Str → Option (ℕ × Str)
get_esc [] = none
get_esc (c ∷ []) = none
get_esc (c ∷ d ∷ s) =
    if c == b'-' || c == b']'
    then none
    else if c == b'\\'
    then elim s [ [] ↦ none | e ∷ rest ↦ some (d, e ∷ rest) ]
    else some (c, d ∷ s)

-- The upper end of a range whose lower end is `lo`.
unfoldable pub range_end : ℕ → Str → Option ((ℕ × ℕ) × Str)
unfolding get_esc
range_end lo [] = none
range_end lo (c ∷ s) =
    if c == b'-'
    then elim (get_esc s) [ none ↦ none | some (hi, rest) ↦ some ((lo, hi), rest) ]
    else some ((lo, lo), c ∷ s)

abbrev add_range : ℕ × ℕ → Option (List (ℕ × ℕ) × Str) → Option (List (ℕ × ℕ) × Str)
add_range r none = none
add_range r (some (rs, s)) = some (r ∷ rs, s)

-- The ranges up to the closing bracket; there is at least one. `fuel` is at least the text's length.
unfoldable pub class_ranges : ℕ → Bool → Str → Option (List (ℕ × ℕ) × Str)
unfolding get_esc range_end
class_ranges zero first s = none
class_ranges (suc fuel) first [] = none
class_ranges (suc fuel) first (c ∷ s) = elim (c == b']' && not first) [
  | true ↦ some ([], s)
  | false ↦ elim (get_esc (c ∷ s)) [
    | none ↦ none
    | some (lo, more) ↦ elim (range_end lo more) [
      | none ↦ none
      | some (r, rest) ↦ add_range r (class_ranges fuel false rest)
    ]
  ]
]

unfoldable pub class_at : Str → Option (Item × Str)
unfolding class_ranges
class_at [] = none
class_at (c ∷ s) =
    let negated = c == b'^' in
    elim (class_ranges (length (c ∷ s)) true (if negated then s else c ∷ s)) [
      | none ↦ none
      | some (rs, rest) ↦ some (class negated rs, rest)
    ]

abbrev add_item : Item → Option (List Item) → Option (List Item)
add_item i none = none
add_item i (some is) = some (i ∷ is)

unfoldable pub item_at : ℕ → Str → Option (Item × Str)
unfolding class_at
item_at c s =
    if c == b'*'
    then some (star, s)
    else if c == b'?'
    then some (any_char, s)
    else if c == b'['
    then class_at s
    else if c == b'\\'
    then elim s [ [] ↦ none | d ∷ rest ↦ some (lit d, rest) ]
    else some (lit c, s)

-- `fuel` is at least the pattern's length.
unfoldable pub parse_items : ℕ → Str → Option (List Item)
unfolding item_at
parse_items zero s = some []
parse_items (suc fuel) [] = some []
parse_items (suc fuel) (c ∷ s) = elim (item_at c s) [
  | none ↦ none
  | some (i, rest) ↦ add_item i (parse_items fuel rest)
]

abbrev in_ranges : List (ℕ × ℕ) → ℕ → Bool
in_ranges [] c = false
in_ranges ((lo, hi) ∷ rs) c = (leb lo c && leb c hi) || in_ranges rs c

abbrev item_fits : Item → ℕ → Bool
item_fits star c = false
item_fits any_char c = not (c == b'/')
item_fits (lit d) c = d == c
item_fits (class negated rs) c = if negated then not (in_ranges rs c) else in_ranges rs c

unfoldable pub matches_items : List Item → Str → Bool
matches_items [] [] = true
matches_items [] (c ∷ s) = false
matches_items (star ∷ is) [] = matches_items is []
matches_items (star ∷ is) (c ∷ s) = elim (matches_items is (c ∷ s)) [
  | true ↦ true
  | false ↦ elim (c == b'/') [ true ↦ false | false ↦ matches_items (star ∷ is) s ]
]
matches_items (i ∷ is) [] = false
matches_items (i ∷ is) (c ∷ s) =
    let rest = matches_items is s in if item_fits i c then rest else false

abbrev matches_parsed : Option (List Item) → Str → Bool
matches_parsed none s = false
matches_parsed (some is) s = matches_items is s

-- m, err := filepath.Match(pattern, name); err == nil && m
unfoldable pub glob : Str → Str → Bool
unfolding parse_items matches_items
glob pattern name = matches_parsed (parse_items (length pattern) pattern) name

glob_runs :
    (glob (codes "4k*") (codes "4k.grubby") ≡ true)
    × (glob (codes "*:capi:*") (codes ":capi:azeroth:") ≡ true)
    × (glob (codes "*") (codes "a/b") ≡ false)
    × (glob (codes "[a-c]?[^x]") (codes "bzy") ≡ true)
    × (glob (codes "[a") (codes "a") ≡ false)
    × (glob (codes "\\*") (codes "*") ≡ true)
unfolding glob
glob_runs = (refl, refl, refl, refl, refl, refl)
