-- ===== src/Gateway/Bnet/Address.antt =====
-- gateway/bnet/bnet.go: FindTrigger, and whom a message addresses.
use goop.Base.{
  ℕ, ◌++◌, ◌≢◌, All, ◌≡◌, ◌⊎◌, Bool, true, false, not, ◌&&◌, ◌||◌, [], ◌∷◌, Option, none, some, Str,
  codes, ◌==◌, if◌then◌else◌,
}
use goop.Golang.Strings.{equal_fold}
use goop.Golang.Glob.{glob}
use goop.Gateway.Trigger.{Extracted, no_trigger, extract_trigger, find_trigger}
use goop.Gateway.Bnet.{Client, is_operator}

-- The text before the first `,` or `:`, and the text behind it.
unfoldable pub cut_any : Str → Option (Str × Str)
cut_any [] = none
cut_any (c ∷ s) =
    if c == b',' || c == b':'
    then some ([], s)
    else elim (cut_any s) [ none ↦ none | some r ↦ some (c ∷ r.0, r.1) ]

-- The guard: a name, a separator, a space, and something behind it.
unfoldable pub address : Option (Str × Str) → Option (Str × Str)
address (some (d ∷ pat, sp ∷ e ∷ rest)) = if sp == b' ' then some (d ∷ pat, e ∷ rest) else none
address _ = none

unfoldable pub is_addressed : Client → Str → Bool
is_addressed c pat =
    if not (equal_fold pat (codes "goop"))
      || equal_fold pat (codes "all")
      || (equal_fold pat (codes "ops") && is_operator c)
    then glob pat c.unique_name
    else true

unfoldable pub addressed_trigger : Client → Option (Str × Str) → Extracted
unfolding is_addressed
addressed_trigger c none = no_trigger
addressed_trigger c (some (pat, rest)) =
    if is_addressed c pat then extract_trigger rest else no_trigger

-- FindTrigger
unfoldable pub find_bnet_trigger : Client → Str → Str → Extracted
unfolding cut_any address addressed_trigger
find_bnet_trigger c trigger s = elim (find_trigger trigger s) [
  | no_trigger ↦ addressed_trigger c (address (cut_any s))
  | found ↦ found
]

abbrev is_separator : ℕ → Bool
is_separator c = c == b',' || c == b':'

-- The message is `pat`, not empty and without a comma or a colon, then one of these, a space, and
-- `rest`, not empty; and `pat` is `goop` in any case, or a pattern that the bot's own name matches.
pub record IsAddressing (c : Client) (s rest : Str) : Type 0 where
  pub pat : Str
  pub separator : ℕ
  pub whole : s ≡ pat ++ separator ∷ b' ' ∷ rest
  pub some_pat : pat ≢ []
  pub some_rest : rest ≢ []
  pub is_cut : is_separator separator ≡ true
  pub no_cut : All (λ d. is_separator d ≡ false) pat
  pub for_bot : (equal_fold pat (codes "goop") ≡ true) ⊎ (glob pat c.unique_name ≡ true)

-- What is cut was there.
record IsCut (s pat rest : Str) : Type 0 where
  separator : ℕ
  whole : s ≡ pat ++ separator ∷ rest
  is_cut : is_separator separator ≡ true
  no_cut : All (λ d. is_separator d ≡ false) pat
