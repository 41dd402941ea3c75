-- ===== src/Cmd/Alias/Index.antt =====
-- The placeholder for one argument.
use goop.Base.{
  ℕ, ◌-◌, ◌^◌, ◌<◌, ◌≡◌, ◌≢◌, refl, ap, ◌∙◌, false, ◌||◌, [], ◌∷◌, ◌++◌, some, arith, Str, codes,
  length, leb, ◌==◌, if◌then◌else◌, All, append-nil,
}
use goop.Golang.Strings.{strip_prefix}
use goop.Golang.Strconv.{is_digit, IsDigit, itoa, itoa-IsDigit, itoa-ne-nil}
use goop.Golang.Atoi.{atoi-itoa}
use goop.Gateway.Trigger.{span}
use goop.Gateway.Api.{Gateway, Trigger}
use goop.Cmd.Alias.Replace.{replace_from_found}
use goop.Cmd.Alias.{
  at, arg_key, placeholders, Match, match_suffix, match_digits, match_key, find_placeholder,
  element, part_of, indexed, placeholder, replace_from, replace,
}

span-digits : (ds : Str) → All IsDigit ds → span is_digit (ds ++ b'%' ∷ []) ≡ (ds, b'%' ∷ [])
unfolding span
span-digits [] h = refl
span-digits (d ∷ ds) h = rw (span-digits ds h.1) (ground arith)

abbrev pub arg_text : Str → Str
arg_text digits = codes "%ARG" ++ digits ++ codes "%"

abbrev arg_match : Str → Match
arg_match digits = record { key = arg_key at; digits = digits; text = arg_text digits; rest = [] }

find_placeholder_arg :
    (digits : Str)
    → digits ≢ []
    → All IsDigit digits
    → find_placeholder placeholders (arg_text digits) ≡ some (arg_match digits)
unfolding find_placeholder match_key match_digits match_suffix strip_prefix
find_placeholder_arg [] ne h = absurd (ne refl)
find_placeholder_arg (d ∷ ds) ne h =
    let no_s : (b'S' == d) ≡ false = ground arith in rw (no_s, span-digits (d ∷ ds) h) refl

-- The placeholder `%ARGn%` gives the n-th argument where n is positive and less than the number of
-- arguments, and stays as it is for every other n below 2 ^ 63; in particular for the last argument.
pub replace_arg :
    (gw : Gateway) (t : Trigger) (n : ℕ)
    → n < 2 ^ 63
    → replace gw t (arg_text (itoa n))
      ≡ (if n == 0 || leb (length t.arg) n then arg_text (itoa n) else element t.arg (n - 1))
unfolding replace replace_from placeholder indexed part_of
replace_arg gw t n h =
    let found = find_placeholder_arg (itoa n) (itoa-ne-nil n) (itoa-IsDigit n) in
    let behind = codes "ARG" ++ itoa n ++ codes "%" in
    replace_from_found gw t (length behind) b'%' behind (arg_match (itoa n)) found
    ∙ append-nil _
    ∙ ap (indexed at t.arg (codes " ") (arg_text (itoa n))) (atoi-itoa n h)
