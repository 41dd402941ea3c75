-- ===== src/Golang/Unquote.antt =====
-- strconv.Unquote, for a text between double quotes. A byte escape from \x80 on stands for one
-- element here, as it does not name a code point.
use goop.Base.{
  ℕ, zero, suc, ◌+◌, ◌-◌, ◌*◌, ◌≡◌, refl, Bool, true, false, ◌&&◌, ◌||◌, [], ◌∷◌, Option, none,
  some, Str, codes, length, ltb, leb, ◌==◌, if◌then◌else◌,
}
use goop.Golang.Strings.{lower_char}

unfoldable pub hex_digit : ℕ → Option ℕ
hex_digit c =
    if leb b'0' c && leb c b'9'
    then some (c - b'0')
    else if leb b'a' (lower_char c) && leb (lower_char c) b'f'
    then some (lower_char c - b'a' + 10)
    else none

unfoldable pub octal_digit : ℕ → Option ℕ
octal_digit c = if leb b'0' c && leb c b'7' then some (c - b'0') else none

-- Exactly `count` digits of a base, and the rest behind them.
unfoldable pub digits_value : (ℕ → Option ℕ) → ℕ → ℕ → ℕ → Str → Option (ℕ × Str)
digits_value digit base zero v s = some (v, s)
digits_value digit base (suc count) v [] = none
digits_value digit base (suc count) v (c ∷ s) = elim (digit c) [
  | none ↦ none
  | some d ↦ digits_value digit base count (v * base + d) s
]

unfoldable pub bounded_by : (ℕ → Bool) → Option (ℕ × Str) → Option (ℕ × Str)
bounded_by fits none = none
bounded_by fits (some (v, s)) = if fits v then some (v, s) else none

-- utf8.ValidRune
abbrev valid_rune : ℕ → Bool
valid_rune v = ltb v 0xD800 || (leb 0xE000 v && leb v 0x10FFFF)

-- The escape whose characters stand behind a backslash.
unfoldable pub unquote_escape : Str → Option (ℕ × Str)
unfolding digits_value hex_digit octal_digit bounded_by
unquote_escape [] = none
unquote_escape (d ∷ s) =
    if d == b'a'
    then some (7, s)
    else if d == b'b'
    then some (8, s)
    else if d == b'f'
    then some (12, s)
    else if d == b'n'
    then some (10, s)
    else if d == b'r'
    then some (13, s)
    else if d == b't'
    then some (9, s)
    else if d == b'v'
    then some (11, s)
    else if d == b'x'
    then digits_value hex_digit 16 2 0 s
    else if d == b'u'
    then bounded_by valid_rune (digits_value hex_digit 16 4 0 s)
    else if d == b'U'
    then bounded_by valid_rune (digits_value hex_digit 16 8 0 s)
    else if leb b'0' d && leb d b'7'
    then bounded_by (λ v. leb v 255) (digits_value octal_digit 8 3 0 (d ∷ s))
    else if d == b'\\' || d == b'"'
    then some (d, s)
    else none

abbrev push : ℕ → Option Str → Option Str
push c none = none
push c (some s) = some (c ∷ s)

-- The loop over the body; `fuel` is at least the body's length.
unfoldable pub unquote_from : ℕ → Str → Option Str
unquote_from zero s = some []
unquote_from (suc fuel) [] = some []
unquote_from (suc fuel) (c ∷ s) = elim (c == b'"' || c == b'\n') [
  | true ↦ none
  | false ↦ elim (c == b'\\') [
    | true ↦ elim (unquote_escape s) [
      | none ↦ none
      | some (d, rest) ↦ push d (unquote_from fuel rest)
    ]
    | false ↦ push c (unquote_from fuel s)
  ]
]

-- Unquote of the text with double quotes around it; none is ErrSyntax.
unfoldable pub unquote : Str → Option Str
unfolding unquote_from unquote_escape
unquote body = unquote_from (length body) body

unquote_runs :
    (unquote (codes "a\\tb") ≡ some (codes "a\tb"))
    × (unquote (codes "\\x41\\u00e9\\101") ≡ some (codes "AéA"))
    × (unquote (codes "a\\") ≡ none)
    × (unquote (codes "\\'") ≡ none)
    × (unquote (codes "say \\\"hi\\\"") ≡ some (codes "say \"hi\""))
unfolding unquote
unquote_runs = (refl, refl, refl, refl, refl)
