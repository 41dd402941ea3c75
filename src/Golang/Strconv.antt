-- ===== src/Golang/Strconv.antt =====
-- Package strconv: Itoa, ParseUint and ParseInt. The digits are summed in `uint64` there; here in ℕ,
-- which is the same since a sum above `max_val` is refused in both.
mod Decimal
pub mod RoundTrip
pub mod Errors
unfoldable pub use Decimal.*
use goop.Base.{
  ℕ, zero, suc, ◌+◌, ◌-◌, ◌*◌, ◌^◌, Bool, true, false, not, ◌&&◌, ◌||◌, [], ◌∷◌, Option, none, some,
  ◌≡◌, refl, Str, codes, ltb, leb, ◌==◌, if◌then◌else◌, Result, ok, err, num_syntax, num_range,
  ◌>>=◌,
}
use goop.Base.Int.{ℤ, pos, negsuc}
use goop.Golang.Strings.{lower_char}

unfoldable pub digit_of : ℕ → Option ℕ
digit_of c =
    if is_digit c
    then some (c - b'0')
    else if leb b'a' (lower_char c) && leb (lower_char c) b'z'
    then some (lower_char c - b'a' + 10)
    else none

-- The loop's variables: the number so far, and whether an underscore was read.
module _ (base0 : Bool) (base max_val : ℕ) where
  unfoldable pub add_digit : ℕ → Bool → Option ℕ → Result (ℕ × Bool)
  add_digit n underscores none = err num_syntax
  add_digit n underscores (some d) =
      if leb base d
      then err num_syntax
      else if ltb max_val (n * base + d)
      then err num_range
      else ok (n * base + d, underscores)

  unfoldable pub scan_char : ℕ → ℕ → Bool → Result (ℕ × Bool)
  unfolding add_digit digit_of
  scan_char c n underscores =
      if base0 && c == b'_' then ok (n, true) else add_digit n underscores (digit_of c)

  unfoldable pub scan : Str → ℕ → Bool → Result (ℕ × Bool)
  scan [] n underscores = ok (n, underscores)
  scan (c ∷ s) n underscores = scan_char c n underscores >>= λ r. scan s r.0 r.1

-- The prefix of a number in base 0, for the characters behind a leading 0.
unfoldable pub zero_prefix : Str → ℕ × Str
zero_prefix (p ∷ d ∷ s) =
    if lower_char p == b'b'
    then (2, d ∷ s)
    else if lower_char p == b'o'
    then (8, d ∷ s)
    else if lower_char p == b'x'
    then (16, d ∷ s)
    else (8, p ∷ d ∷ s)
zero_prefix s = (8, s)

unfoldable pub base_prefix : Str → ℕ × Str
unfolding zero_prefix
base_prefix [] = (10, [])
base_prefix (c ∷ s) = if c == b'0' then zero_prefix s else (10, c ∷ s)

-- The loop of `underscoreOK`; the character before is a digit, an underscore or another.
pub data Saw : Type 0 where
  digit underscore neither : Saw

unfoldable pub underscores_from : Bool → Saw → Str → Bool
underscores_from hex underscore [] = false
underscores_from hex _ [] = true
underscores_from hex saw (c ∷ s) =
    let is_num = is_digit c || (hex && leb b'a' (lower_char c) && leb (lower_char c) b'f') in
    elim is_num [
      | true ↦ underscores_from hex digit s
      | false ↦ elim (c == b'_') [
        | true ↦ elim saw [ digit ↦ underscores_from hex underscore s | _ ↦ false ]
        | false ↦ elim saw [ underscore ↦ false | _ ↦ underscores_from hex neither s ]
      ]
    ]

unfoldable pub underscore_ok : Str → Bool
unfolding underscores_from
underscore_ok (z ∷ p ∷ s) =
    let l = lower_char p in
    if z == b'0' && (l == b'b' || l == b'o' || l == b'x')
    then underscores_from (l == b'x') digit s
    else underscores_from false neither (z ∷ p ∷ s)
underscore_ok s = underscores_from false neither s

unfoldable pub check_underscores : Str → ℕ × Bool → Result ℕ
unfolding underscore_ok
check_underscores s (n, underscores) =
    if underscores && not (underscore_ok s) then err num_syntax else ok n

abbrev pub max_uint : ℕ → ℕ
max_uint bits = 2 ^ bits - 1

-- ParseUint(s, 10, bits)
unfoldable pub parse_uint10 : ℕ → Str → Result ℕ
unfolding scan
parse_uint10 bits [] = err num_syntax
parse_uint10 bits (c ∷ s) = scan false 10 (max_uint bits) (c ∷ s) 0 false >>= λ r. ok r.0

-- ParseUint(s, 0, bits)
unfoldable pub parse_uint : ℕ → Str → Result ℕ
unfolding scan base_prefix check_underscores
parse_uint bits [] = err num_syntax
parse_uint bits (c ∷ s) =
    let (base, rest) = base_prefix (c ∷ s) in
    scan true base (max_uint bits) rest 0 false >>= λ r. check_underscores (c ∷ s) r

-- The check of the range, with the sign put on.
unfoldable pub with_sign : ℕ → Bool → ℕ → Result ℤ
with_sign bits false n = if leb (2 ^ (bits - 1)) n then err num_range else ok (pos n)
with_sign bits true zero = ok (pos 0)
with_sign bits true (suc n) = if ltb (2 ^ (bits - 1)) (suc n) then err num_range else ok (negsuc n)

-- ParseInt(s, 0, bits)
unfoldable pub parse_int : ℕ → Str → Result ℤ
unfolding parse_uint with_sign
parse_int bits [] = err num_syntax
parse_int bits (c ∷ s) =
    if c == b'+'
    then parse_uint bits s >>= with_sign bits false
    else if c == b'-'
    then parse_uint bits s >>= with_sign bits true
    else parse_uint bits (c ∷ s) >>= with_sign bits false

parse_int_runs :
    (parse_int 32 (codes "-0x1F") ≡ ok (negsuc 30))
    × (parse_int 32 (codes "010") ≡ ok (pos 8))
    × (parse_int 32 (codes "1_000") ≡ ok (pos 1000))
    × (parse_int 32 (codes "1__0") ≡ err num_syntax)
    × (parse_int 32 (codes "2147483648") ≡ err num_range)
    × (parse_int 32 (codes "-2147483648") ≡ ok (negsuc 2147483647))
    × (parse_int 32 (codes "09") ≡ err num_syntax)
    × (parse_int 32 (codes "0") ≡ ok (pos 0))
unfolding parse_int scan_char
parse_int_runs = (refl, refl, refl, refl, refl, refl, refl, refl)
