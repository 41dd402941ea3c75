-- ===== src/Golang/Strconv/RoundTrip.antt =====
-- A printed number is read back, with a sign in front of it.
use goop.Base.{
  ℕ, zero, suc, ◌+◌, ◌/◌, ◌%◌, ◌≤◌, ◌<◌, ◌≡◌, refl, true, false, Bool, [], ◌∷◌, arith, Str, ok, All,
  ◌==◌,
}
use goop.Base.Int.{pos, negsuc, two31, two32}
use goop.Golang.Strconv.{
  StartsNonzero, IsDigit, digits_from, itoa, itoa_head, itoa-IsDigit, scan_char, scan, base_prefix,
  max_uint, parse_uint, parse_int,
}

-- Reading the last digit of `n` behind the digits before it gives `n`.
scan_char_last :
    (m n : ℕ) (us : Bool) → n ≤ m → scan_char true 10 m (b'0' + n % 10) (n / 10) us ≡ ok (n, us)
unfolding scan_char
scan_char_last m n us h = ground arith

scan_last :
    (m n : ℕ) (out : Str) (us : Bool)
    → n ≤ m
    → scan true 10 m ((b'0' + n % 10) ∷ out) (n / 10) us ≡ scan true 10 m out n us
unfolding scan
scan_last m n out us h = rw (scan_char_last m n us h)

scan-digits_from :
    (fuel m n : ℕ) (out : Str)
    → n ≤ fuel
    → n ≤ m
    → scan true 10 m (digits_from fuel n out) 0 false ≡ scan true 10 m out n false
unfolding digits_from
scan-digits_from zero m n out h fits = let z : n ≡ 0 = omega arith in rw z
scan-digits_from (suc fuel) m n out h fits =
    ground (
      arith,
      scan-digits_from fuel m (n / 10) ((b'0' + n % 10) ∷ out),
      scan_last m n out false fits,
    )

scan-itoa : (m n : ℕ) → n ≤ m → scan true 10 m (itoa n) 0 false ≡ ok (n, false)
unfolding itoa scan
scan-itoa m n h = ground (arith, scan-digits_from n m n [], scan_char_last m n false)

-- Digits that do not begin with 0 have no prefix.
base_prefix_of_head : (s : Str) → StartsNonzero s → base_prefix s ≡ (10, s)
unfolding base_prefix
base_prefix_of_head [] h = absurd h
base_prefix_of_head (c ∷ s) h = ground arith

parse_uint_of_head :
    (bits n : ℕ) (s : Str)
    → StartsNonzero s
    → scan true 10 (max_uint bits) s 0 false ≡ ok (n, false)
    → parse_uint bits s ≡ ok n
unfolding parse_uint
parse_uint_of_head bits n [] h e = absurd h
parse_uint_of_head bits n (c ∷ s) h e = rw (base_prefix_of_head (c ∷ s) h, e)

parse_uint-itoa : (n : ℕ) → n < two32 → parse_uint 32 (itoa n) ≡ ok n
unfolding itoa parse_uint scan_char
parse_uint-itoa zero h = refl
parse_uint-itoa (suc n) h =
    parse_uint_of_head 32 (suc n) (itoa (suc n)) (itoa_head (suc n) (omega arith))
      (scan-itoa (max_uint 32) (suc n) (omega arith))

pub parse_int_plus : (n : ℕ) → n < two31 → parse_int 32 (b'+' ∷ itoa n) ≡ ok (pos n)
unfolding parse_int
parse_int_plus n h = rw (parse_uint-itoa n (omega arith)) (ground arith)

pub parse_int_minus : (n : ℕ) → n < two31 → parse_int 32 (b'-' ∷ itoa (suc n)) ≡ ok (negsuc n)
unfolding parse_int
parse_int_minus n h = rw (parse_uint-itoa (suc n) (omega arith)) (ground arith)

-- The numbers that `int` holds.
abbrev pub two63 : ℕ
two63 = 9223372036854775808

parse_uint_of_itoa : (n : ℕ) → n < two63 → parse_uint 64 (itoa n) ≡ ok n
unfolding itoa parse_uint scan_char
parse_uint_of_itoa zero h = refl
parse_uint_of_itoa (suc n) h =
    parse_uint_of_head 64 (suc n) (itoa (suc n)) (itoa_head (suc n) (omega arith))
      (scan-itoa (max_uint 64) (suc n) (omega arith))

parse_int_of_digits :
    (s : Str) (n : ℕ)
    → All IsDigit s
    → n < two63
    → parse_uint 64 s ≡ ok n
    → parse_int 64 s ≡ ok (pos n)
unfolding parse_int parse_uint
parse_int_of_digits [] n d h e = cc
parse_int_of_digits (c ∷ s) n d h e =
    let plus : (c == b'+') ≡ false = ground arith in
    let minus : (c == b'-') ≡ false = ground arith in rw (plus, minus, e) (ground arith)

-- An index is read back.
pub parse_int-itoa : (n : ℕ) → n < two63 → parse_int 64 (itoa n) ≡ ok (pos n)
parse_int-itoa n h = parse_int_of_digits (itoa n) n (itoa-IsDigit n) h (parse_uint_of_itoa n h)
