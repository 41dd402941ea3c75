-- ===== src/Golang/Strings.antt =====
-- Package strings.
pub mod Laws
use goop.Base.{
  ℕ, zero, suc, length, ◌+◌, Bool, true, false, ◌&&◌, ◌||◌, List, [], ◌∷◌, ◌++◌, map, Option, none,
  some, Str, leb, ◌==◌, str_eq, if◌then◌else◌,
}

abbrev pub is_upper : ℕ → Bool
is_upper c = leb b'A' c && leb c b'Z'

abbrev pub lower_char : ℕ → ℕ
lower_char c = if is_upper c then c + 32 else c

-- ToLower
unfoldable pub to_lower : Str → Str
to_lower [] = []
to_lower (c ∷ s) = lower_char c ∷ to_lower s

-- EqualFold
unfoldable pub equal_fold : Str → Str → Bool
unfolding to_lower str_eq
equal_fold s t = str_eq (to_lower s) (to_lower t)

-- HasPrefix with the rest behind the prefix, `s[len(t):]`.
unfoldable pub strip_prefix : Str → Str → Option Str
strip_prefix [] s = some s
strip_prefix (c ∷ t) [] = none
strip_prefix (c ∷ t) (d ∷ s) = if c == d then strip_prefix t s else none

unfoldable pub has_prefix : Str → Str → Bool
has_prefix [] s = true
has_prefix (c ∷ t) [] = false
has_prefix (c ∷ t) (d ∷ s) = c == d && has_prefix t s

-- Join
unfoldable pub join : List Str → Str → Str
join [] sep = []
join (s ∷ []) sep = s
join (s ∷ t ∷ ss) sep = s ++ sep ++ join (t ∷ ss) sep

-- Split at a separator of one character.
unfoldable pub split_from : ℕ → Str → Str → List Str
split_from sep cur [] = cur ∷ []
split_from sep cur (c ∷ s) = elim (c == sep) [
  | true ↦ cur ∷ split_from sep [] s
  | false ↦ split_from sep (cur ++ c ∷ []) s
]

unfoldable pub split : Str → ℕ → List Str
unfolding split_from
split s sep = split_from sep [] s

-- Replace without a limit, for a text to replace that is not empty; `fuel` is at least the length.
unfoldable pub replace_all_from : ℕ → Str → Str → Str → Str
replace_all_from zero old new s = s
replace_all_from (suc fuel) old new [] = []
replace_all_from (suc fuel) old new (c ∷ s) = elim (strip_prefix old (c ∷ s)) [
  | none ↦ c ∷ replace_all_from fuel old new s
  | some rest ↦ new ++ replace_all_from fuel old new rest
]

unfoldable pub replace_all : Str → Str → Str → Str
unfolding replace_all_from
replace_all old new s = replace_all_from (length s) old new s
