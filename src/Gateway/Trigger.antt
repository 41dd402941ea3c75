-- ===== src/Gateway/Trigger.antt =====
-- gateway/gateway.go: how a chat message is cut into a command and its arguments.
pub mod Fuel
pub mod Text
pub mod Words
pub mod Verbatim
use goop.Base.{
  ℕ, zero, suc, ◌≡◌, refl, Bool, true, false, not, ◌&&◌, ◌||◌, List, [], ◌∷◌, ◌++◌, map, Option,
  none, some, Str, codes, length, leb, ◌==◌, if◌then◌else◌,
}
use goop.Golang.Strings.{strip_prefix}
use goop.Golang.Unquote.{unquote}

-- unicode.IsSpace
unfoldable pub is_space : ℕ → Bool
is_space c =
    (leb 9 c && leb c 13)
    || c == 32
    || c == 0x85
    || c == 0xA0
    || c == 0x1680
    || (leb 0x2000 c && leb c 0x200A)
    || c == 0x2028
    || c == 0x2029
    || c == 0x202F
    || c == 0x205F
    || c == 0x3000

-- `\s`
unfoldable pub is_re_space : ℕ → Bool
is_re_space c = c == 9 || c == 10 || c == 12 || c == 13 || c == 32

-- A match of `argPat`, by the group that took part: the quoted ones without their quotes.
pub data Token : Type 0 where
  double_quoted single_quoted : Str → Token
  word : Str → Str → Token

-- Group 0.
unfoldable pub raw_of : Token → Str
raw_of (double_quoted body) = b'"' ∷ body ++ b'"' ∷ []
raw_of (single_quoted body) = b'\'' ∷ body ++ b'\'' ∷ []
raw_of (word w spaces) = w ++ spaces

abbrev push : ℕ → Option (Str × Str) → Option (Str × Str)
push c none = none
push c (some (body, rest)) = some (c ∷ body, rest)

abbrev or_else : Option (Str × Str) → Option (Str × Str) → Option (Str × Str)
or_else none b = b
or_else (some a) b = some a

-- `(?:\\.|[^"])*"` behind the opening quote, with the choices in the order that the pattern tries
-- them: an escape, any other character but the quote, and the closing quote.
unfoldable pub quoted_body : ℕ → Str → Option (Str × Str)
quoted_body q [] = none
quoted_body q (c ∷ []) = if c == q then some ([], []) else none
quoted_body q (c ∷ d ∷ s) =
    let escape = push c (push d (quoted_body q s)) in
    let other = push c (quoted_body q (d ∷ s)) in
    let plain = if c == q then some ([], d ∷ s) else other in
    if c == b'\\' && not (d == b'\n') then or_else escape plain else plain

-- The longest prefix whose characters pass a test, and the rest.
unfoldable pub span : (ℕ → Bool) → Str → Str × Str
span p [] = ([], [])
span p (c ∷ s) = let (front, rest) = span p s in if p c then (c ∷ front, rest) else ([], c ∷ s)

-- `(\S+)(\s*)`
unfoldable pub match_word : Str → Option (Token × Str)
unfolding span
match_word [] = none
match_word (c ∷ s) =
    if is_re_space c
    then none
    else let (w, behind) = span (λ d. not (is_re_space d)) s in
      let (spaces, rest) = span is_re_space behind in some (word (c ∷ w) spaces, rest)

abbrev quoted_or : (Str → Token) → Option (Str × Str) → Option (Token × Str) → Option (Token × Str)
quoted_or quote none w = w
quoted_or quote (some (body, rest)) w = some (quote body, rest)

-- `argPat` at the start of a text.
unfoldable pub match_at : Str → Option (Token × Str)
match_at [] = none
match_at (c ∷ s) =
    if c == b'"'
    then quoted_or double_quoted (quoted_body b'"' s) (match_word (c ∷ s))
    else if c == b'\''
    then quoted_or single_quoted (quoted_body b'\'' s) (match_word (c ∷ s))
    else match_word (c ∷ s)

-- FindAllStringSubmatch; `fuel` is at least the text's length.
unfoldable pub find_all : ℕ → Str → List Token
find_all zero s = []
find_all (suc fuel) [] = []
find_all (suc fuel) (c ∷ s) = elim (match_at (c ∷ s)) [
  | none ↦ find_all fuel s
  | some (t, rest) ↦ t ∷ find_all fuel rest
]

abbrev unquote_or : Str → Option Str → Str
unquote_or body none = body
unquote_or body (some q) = q

-- The argument that a match stands for.
unfoldable pub arg_of : Token → Str
arg_of (double_quoted body) = unquote_or body (unquote body)
arg_of (single_quoted body) = body
arg_of (word w spaces) = w

-- What a text is cut into: the fields of `Trigger` that the text decides.
pub record Parsed : Type 0 where
  pub cmd : Str
  pub raw : List Str
  pub arg : List Str

-- `panics` is `a[0]` out of range.
pub data Extracted : Type 0 where
  no_trigger panics : Extracted
  extracted : Parsed → Extracted

unfoldable pub from_tokens : List Token → Extracted
from_tokens [] = panics
from_tokens (t ∷ ts) =
    extracted (record { cmd = arg_of t; raw = map raw_of ts; arg = map arg_of ts })

-- ExtractTrigger
unfoldable pub extract_trigger : Str → Extracted
extract_trigger [] = no_trigger
extract_trigger (c ∷ s) =
    if is_space c then no_trigger else from_tokens (find_all (length (c ∷ s)) (c ∷ s))

abbrev extract_behind : Option Str → Extracted
extract_behind none = no_trigger
extract_behind (some rest) = extract_trigger rest

-- FindTrigger
unfoldable pub find_trigger : Str → Str → Extracted
find_trigger [] s = no_trigger
find_trigger (c ∷ t) s = extract_behind (strip_prefix (c ∷ t) s)

-- Names what a test has to open.
unfoldable pub trigger_parts : Unit {0}
unfolding find_trigger extract_trigger from_tokens find_all match_at match_word quoted_body raw_of
    arg_of strip_prefix is_space is_re_space unquote
trigger_parts = tt

find_trigger_runs :
    find_trigger (codes ".") (codes ".whois \"user name\" 'x' y  ")
    ≡ extracted (record {
      cmd = codes "whois";
      raw = codes "\"user name\"" ∷ codes "'x'" ∷ codes "y  " ∷ [];
      arg = codes "user name" ∷ codes "x" ∷ codes "y" ∷ [];
    })
unfolding trigger_parts
find_trigger_runs = refl
