-- ===== src/Gateway/Access.antt =====
-- gateway/access.go: access levels, their names, and how they are printed and read.
pub mod RoundTrip
pub mod Names
use goop.Base.{
  ℕ, zero, suc, ◌≡◌, refl, Bool, true, false, ◌&&◌, ◌||◌, List, [], ◌∷◌, ◌++◌, Option, none, some,
  Str, codes, length, take, ◌==◌, leb, if◌then◌else◌, Result, ok, err, unknown_access, ◌>>=◌,
}
use goop.Base.Int.{ℤ, pos, negsuc, ◌+ℤ◌, ◌-ℤ◌, ltb_ℤ, leb_ℤ, eq_ℤ, wrap32}
use goop.Golang.Strings.{lower_char, equal_fold}
use goop.Golang.Strconv.{is_digit, itoa_ℤ, parse_int}

-- An `int32`.
abbrev pub AccessLevel : Type 0
AccessLevel = ℤ

abbrev pub access_max : AccessLevel
access_max = pos 2147483647

abbrev pub access_owner : AccessLevel
access_owner = pos 1000

abbrev pub access_admin : AccessLevel
access_admin = pos 300

abbrev pub access_operator : AccessLevel
access_operator = pos 200

abbrev pub access_whitelist : AccessLevel
access_whitelist = pos 100

abbrev pub access_voice : AccessLevel
access_voice = pos 1

abbrev pub access_default : AccessLevel
access_default = pos 0

abbrev pub access_ignore : AccessLevel
access_ignore = negsuc 0

abbrev pub access_kick : AccessLevel
access_kick = negsuc 99

abbrev pub access_ban : AccessLevel
access_ban = negsuc 199

abbrev pub access_blacklist : AccessLevel
access_blacklist = negsuc 299

abbrev pub access_min : AccessLevel
access_min = negsuc 2147483647

-- `ConStrings` and `ConLevels`, entry by entry.
abbrev pub constants : List (Str × AccessLevel)
constants =
    (codes "max", access_max)
    ∷ (codes "owner", access_owner)
    ∷ (codes "admin", access_admin)
    ∷ (codes "operator", access_operator)
    ∷ (codes "whitelist", access_whitelist)
    ∷ (codes "voice", access_voice)
    ∷ (codes "", access_default)
    ∷ (codes "ignore", access_ignore)
    ∷ (codes "kick", access_kick)
    ∷ (codes "ban", access_ban)
    ∷ (codes "blacklist", access_blacklist)
    ∷ (codes "min", access_min)
    ∷ []

abbrev reversed {ℓ} : {A : Type ℓ} → List A → List A → List A
reversed [] done = done
reversed (x ∷ xs) done = reversed xs (x ∷ done)

-- The loop for `l >= 0`, from the highest constant down. The difference is taken in `int32`.
unfoldable pub string_from_above : List (Str × AccessLevel) → AccessLevel → Str
string_from_above [] l = itoa_ℤ l
string_from_above ((s, v) ∷ rest) l =
    if eq_ℤ l v
    then s
    else if ltb_ℤ v l
    then s ++ b'+' ∷ itoa_ℤ (wrap32 (l -ℤ v))
    else string_from_above rest l

-- The loop for `l < 0`, from the lowest constant up.
unfoldable pub string_from_below : List (Str × AccessLevel) → AccessLevel → Str
string_from_below [] l = itoa_ℤ l
string_from_below ((s, v) ∷ rest) l =
    if eq_ℤ l v
    then s
    else if ltb_ℤ l v
    then s ++ b'-' ∷ itoa_ℤ (wrap32 (v -ℤ l))
    else string_from_below rest l

-- String, and MarshalText
unfoldable pub to_string : AccessLevel → Str
unfolding string_from_above string_from_below
to_string l =
    if leb_ℤ (pos 0) l
    then string_from_above constants l
    else string_from_below (reversed constants []) l

-- The text begins with `name` in any case; the rest is returned.
unfoldable pub strip_fold : Str → Str → Option Str
strip_fold [] s = some s
strip_fold (c ∷ t) [] = none
strip_fold (c ∷ t) (d ∷ s) = if lower_char c == lower_char d then strip_fold t s else none

unfoldable pub all_digits : Str → Bool
all_digits [] = true
all_digits (c ∷ s) = is_digit c && all_digits s

-- `([+-][0-9]+)?$`
unfoldable pub is_modifier : Str → Bool
unfolding all_digits
is_modifier [] = true
is_modifier (sign ∷ []) = false
is_modifier (sign ∷ d ∷ s) = (sign == b'+' || sign == b'-') && all_digits (d ∷ s)

unfoldable pub as_modifier : Str → Option Str → Option (Str × Str)
as_modifier text none = none
as_modifier text (some rest) = if is_modifier rest then some (text, rest) else none

abbrev first_of_two : Option (Str × Str) → Option (Str × Str) → Option (Str × Str)
first_of_two none b = b
first_of_two (some a) b = some a

-- `accessPat`: the alternatives are tried in the order of the constants. The two groups.
unfoldable pub find_submatch : List (Str × AccessLevel) → Str → Option (Str × Str)
unfolding strip_fold is_modifier as_modifier
find_submatch [] text = none
find_submatch ((s, v) ∷ rest) text =
    first_of_two (as_modifier (take (length s) text) (strip_fold s text)) (find_submatch rest text)

-- The loop over `ConStrings`; `brk` stays false if no name fits.
unfoldable pub find_level : List (Str × AccessLevel) → Str → Option AccessLevel
find_level [] str = none
find_level ((s, v) ∷ rest) str = if equal_fold str s then some v else find_level rest str

unfoldable pub add_modifier : AccessLevel → Str → Result AccessLevel
add_modifier res [] = ok res
add_modifier res (c ∷ mod') = parse_int 32 (c ∷ mod') >>= λ v. ok (wrap32 (res +ℤ v))

unfoldable pub named_level : Option AccessLevel → Str → Result AccessLevel
unfolding add_modifier
named_level none mod' = err unknown_access
named_level (some res) mod' = add_modifier res mod'

unfoldable pub from_submatch : Str → Option (Str × Str) → Result AccessLevel
unfolding named_level find_level add_modifier
from_submatch text none = add_modifier (pos 0) text
from_submatch text (some (str, mod')) = named_level (find_level constants str) mod'

-- UnmarshalText: the new value, or the error, on which the old value stays.
unfoldable pub unmarshal_text : Str → Result AccessLevel
unfolding from_submatch find_submatch
unmarshal_text text = from_submatch text (find_submatch constants text)
