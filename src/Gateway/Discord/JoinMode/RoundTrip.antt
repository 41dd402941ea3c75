-- ===== src/Gateway/Discord/JoinMode/RoundTrip.antt =====
-- Which join modes are read back as they are printed.
use Prim.Native.Nat.{bit_or, bit_or-bitwise}
use goop.Base.{
  ℕ, zero, suc, ◌+◌, ◌*◌, ◌/◌, ◌%◌, ◌≤◌, ◌<◌, ◌≡◌, refl, ap, sym, append-nil, ◌∙◌, leb, drop, ◌>>=◌,
  inl, inr, Bool, true, false, [], ◌∷◌, ◌++◌, Str, codes, ltb, ◌==◌, if◌then◌else◌, num_syntax,
  num_range, Result, ok, err, arith, All, Bool-cases, str_eq,
}
use goop.Base.Int.{to_bits, two31, two32}
use goop.Golang.Strings.{to_lower, split, split_from, lower_char}
use goop.Golang.Strings.Laws.{split_from-part}
use goop.Golang.Strconv.{
  scan_char, scan, max_uint, parse_uint, parse_int, base_prefix, check_underscores, with_sign,
}
use goop.Gateway.Discord.JoinMode.{
  JoinMode, hex_digit, hex_from, hex2, mode_string, mode_part, mode_parts, unmarshal_mode,
}

-- The number of modes that are printed in so many digits.
abbrev power16 : ℕ → ℕ
power16 zero = 1
power16 (suc k) = 16 * power16 k

scan_char_hex :
    (m n : ℕ) (us : Bool)
    → n ≤ m
    → scan_char true 16 m (lower_char (hex_digit (n % 16))) (n / 16) us ≡ ok (n, us)
unfolding scan_char
scan_char_hex m n us h = ground arith

scan_hex_last :
    (m n : ℕ) (out : Str)
    → n ≤ m
    → scan true 16 m (to_lower (hex_digit (n % 16) ∷ out)) (n / 16) false
      ≡ scan true 16 m (to_lower out) n false
unfolding scan to_lower
scan_hex_last m n out h = rw (scan_char_hex m n false h) refl

scan-hex_from :
    (fuel m n : ℕ) (out : Str)
    → n < power16 fuel
    → n ≤ m
    → scan true 16 m (to_lower (hex_from fuel n out)) 0 false
      ≡ scan true 16 m (to_lower out) n false
unfolding hex_from
scan-hex_from zero m n out h fits = let z : n ≡ 0 = omega arith in rw z refl
scan-hex_from (suc fuel) m n out h fits = elim (Bool-cases (n == 0)) [
  | inl y ↦ let z : n ≡ 0 = ground arith in rw z refl
  | inr y ↦ rw y (
      scan-hex_from fuel m (n / 16) (hex_digit (n % 16) ∷ out) (omega arith) (omega arith)
      ∙ scan_hex_last m n out fits)
]

abbrev IsPart : Str → Type 0
IsPart s = All (λ c. (c == b'|') ≡ false) s

digit-IsPart : (d : ℕ) → d < 16 → (lower_char (hex_digit d) == b'|') ≡ false
digit-IsPart d h = ground arith

hex_from-IsPart :
    (fuel n : ℕ) (out : Str) → IsPart (to_lower out) → IsPart (to_lower (hex_from fuel n out))
unfolding hex_from to_lower
hex_from-IsPart zero n out h = h
hex_from-IsPart (suc fuel) n out h = elim (Bool-cases (n == 0)) [
  | inl y ↦ rw y h
  | inr y ↦ rw y (
      hex_from-IsPart fuel (n / 16) (hex_digit (n % 16) ∷ out)
        (digit-IsPart (n % 16) (omega arith), h))
]

-- The digits of a mode, as they are read: a first one, and others.
record Digits (n : ℕ) : Type 0 where
  first : ℕ
  others : Str
  same : to_lower (hex2 n) ≡ first ∷ others
  is_part : IsPart (first ∷ others)
  scanned : scan true 16 (max_uint 32) (first ∷ others) 0 false ≡ ok (n, false)

hex2-Digits_of_text :
    (n : ℕ) (s : Str)
    → 0 < n
    → to_lower (hex2 n) ≡ s
    → IsPart s
    → scan true 16 (max_uint 32) s 0 false ≡ ok (n, false)
    → Digits n
unfolding scan
hex2-Digits_of_text n [] pos' e p r = let none_read : 0 ≡ n = cc in absurd (omega arith)
hex2-Digits_of_text n (c ∷ s) pos' e p r = record {
  first = c;
  others = s;
  same = e;
  is_part = p;
  scanned = r;
}

scan_short :
    (n : ℕ)
    → n < 16
    → scan true 16 (max_uint 32) (lower_char b'0' ∷ lower_char (hex_digit n) ∷ []) 0 false
      ≡ ok (n, false)
unfolding scan scan_char
scan_short n h = ground arith

hex2-Digits : (n : ℕ) → 0 < n → n < two32 → Digits n
unfolding hex2 to_lower scan
hex2-Digits n pos' h = elim (Bool-cases (ltb n 16)) [
  | inl y ↦
      let small : n < 16 = ground arith in
      let two : to_lower (hex2 n) ≡ lower_char b'0' ∷ lower_char (hex_digit n) ∷ [] = rw y refl in
      hex2-Digits_of_text n (lower_char b'0' ∷ lower_char (hex_digit n) ∷ []) pos' two
        (refl, (digit-IsPart n small, tt)) (scan_short n small)
  | inr y ↦
      let more : to_lower (hex2 n) ≡ to_lower (hex_from 8 n []) = rw y refl in
      hex2-Digits_of_text n (to_lower (hex_from 8 n [])) pos' more (hex_from-IsPart 8 n [] tt)
        (scan-hex_from 8 (max_uint 32) n [] h (omega arith))
]

bit_or_rest :
    (q : ℕ)
    → (bit_or 0 (q * 4) ≡ q * 4)
      × (bit_or 1 (q * 4) ≡ 1 + q * 4)
      × (bit_or 2 (q * 4) ≡ 2 + q * 4)
      × (bit_or 3 (q * 4) ≡ 3 + q * 4)
bit_or_rest q = (
  bit_or-bitwise 0 (q * 4),
  omega (arith, bit_or-bitwise 1 (q * 4)),
  omega (arith, bit_or-bitwise 2 (q * 4)),
  omega (arith, bit_or-bitwise 3 (q * 4)),
)

-- What is read of the hexadecimal part.
abbrev or_range : ℕ → ℕ → Result JoinMode
or_range t n = if ltb n two31 then ok (bit_or t n) else err num_range

mode_part_hex :
    (t n c : ℕ) (s : Str)
    → n < two32
    → scan true 16 (max_uint 32) (c ∷ s) 0 false ≡ ok (n, false)
    → mode_part t (b'0' ∷ b'x' ∷ c ∷ s) ≡ or_range t n
unfolding mode_part parse_int parse_uint base_prefix str_eq to_bits check_underscores with_sign
mode_part_hex t n c s h r = elim (Bool-cases (ltb n two31)) [
  | inl y ↦
      let fits : leb two31 n ≡ false = ground arith in
      let bits : n % two32 ≡ n = omega arith in rw (r, fits, y, bits) refl
  | inr y ↦ let large : leb two31 n ≡ true = ground arith in rw (r, large, y) refl
]

hex_part :
    (n : ℕ) (d : Digits n)
    → split_from b'|' (codes "0x") (to_lower (hex2 n)) ≡ (b'0' ∷ b'x' ∷ d.first ∷ d.others) ∷ []
unfolding split_from
hex_part n d =
    ap (split_from b'|' (codes "0x")) (d.same ∙ sym (append-nil (d.first ∷ d.others)))
    ∙ split_from-part b'|' (codes "0x") (d.first ∷ d.others) [] d.is_part

end_here : (r : Result JoinMode) → (r >>= λ t. ok t) ≡ r
end_here (err e) = refl
end_here (ok t) = refl

-- The text of a mode with bits besides the two, by these two.
abbrev text_of : Bool → Bool → ℕ → Str
text_of say list n = drop 1 (
    (if say then codes "|say" else [])
    ++ (if list then codes "|list" else [])
    ++ (codes "|0x" ++ hex2 n))

abbrev low_bits : Bool → Bool → ℕ
low_bits say list = (if say then 1 else 0) + (if list then 2 else 0)

read_text :
    (say list : Bool) (n : ℕ)
    → 0 < n
    → n < two32
    → unmarshal_mode (text_of say list n) ≡ or_range (low_bits say list) n
unfolding unmarshal_mode to_lower split split_from mode_parts mode_part str_eq
read_text true true n pos' h =
    let d = hex2-Digits n pos' h in
    ap (λ p. mode_parts 0 (codes "say" ∷ codes "list" ∷ p)) (hex_part n d)
    ∙ end_here _
    ∙ mode_part_hex 3 n d.first d.others h d.scanned
read_text true false n pos' h =
    let d = hex2-Digits n pos' h in
    ap (λ p. mode_parts 0 (codes "say" ∷ p)) (hex_part n d)
    ∙ end_here _
    ∙ mode_part_hex 1 n d.first d.others h d.scanned
read_text false true n pos' h =
    let d = hex2-Digits n pos' h in
    ap (λ p. mode_parts 0 (codes "list" ∷ p)) (hex_part n d)
    ∙ end_here _
    ∙ mode_part_hex 2 n d.first d.others h d.scanned
read_text false false n pos' h =
    let d = hex2-Digits n pos' h in
    ap (mode_parts 0) (hex_part n d) ∙ end_here _ ∙ mode_part_hex 0 n d.first d.others h d.scanned

-- The bits put together are the mode.
or_range-mode :
    (say list : Bool) (q : ℕ)
    → or_range (low_bits say list) (q * 4) ≡ (
        if ltb (low_bits say list + q * 4) two31
        then ok (low_bits say list + q * 4)
        else err num_range)
or_range-mode true true q = ground (arith, (bit_or_rest q).3)
or_range-mode true false q = ground (arith, (bit_or_rest q).1)
or_range-mode false true q = ground (arith, (bit_or_rest q).2)
or_range-mode false false q = ground (arith, (bit_or_rest q).0)

abbrev as_printed : JoinMode → Result JoinMode
as_printed r = if r == 0 then err num_syntax else if ltb r two31 then ok r else err num_range

small_modes : (r : ℕ) → r < 4 → unmarshal_mode (mode_string r) ≡ as_printed r
unfolding unmarshal_mode mode_string split to_lower str_eq parse_int
small_modes zero h = refl
small_modes (suc zero) h = refl
small_modes (suc (suc zero)) h = refl
small_modes (suc (suc (suc zero))) h = refl
small_modes (suc (suc (suc (suc r)))) h = absurd (omega arith)

large_modes :
    (say list : Bool) (r : JoinMode)
    → r < two32
    → 4 ≤ r
    → (r % 2 == 1) ≡ say
    → (r / 2 % 2 == 1) ≡ list
    → unmarshal_mode (mode_string r) ≡ as_printed r
unfolding mode_string
large_modes say list r h big e e' =
    let n : ℕ = r / 4 * 4 in
    let more : (n == 0) ≡ false = ground arith in
    let whole : low_bits say list + n ≡ r = ground arith in
    let some_bits : (r == 0) ≡ false = ground arith in
    let printed : mode_string r ≡ text_of say list n = rw (e, e', more) refl in
    ap unmarshal_mode printed
    ∙ read_text say list n (omega arith) (omega arith)
    ∙ or_range-mode say list (r / 4)
    ∙ ap (λ x. if ltb x two31 then ok x else err num_range) whole
    ∙ rw some_bits refl

-- Each of the modes of 32 bits: the one that does nothing is printed as the empty text, which is refused
-- when it is read; any other one whose highest bit is not set is read back as it is printed; and the
-- negative ones, whose highest bit is set, are printed as a number that is refused as out of range.
pub unmarshal_mode-mode_string :
    (r : JoinMode)
    → r < two32
    → unmarshal_mode (mode_string r)
      ≡ (if r == 0 then err num_syntax else if ltb r two31 then ok r else err num_range)
unmarshal_mode-mode_string r h = elim (Bool-cases (ltb r 4)) [
  | inl y ↦ small_modes r (ground arith)
  | inr y ↦ large_modes (r % 2 == 1) (r / 2 % 2 == 1) r h (ground arith) refl refl
]
