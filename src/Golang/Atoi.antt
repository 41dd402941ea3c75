-- ===== src/Golang/Atoi.antt =====
-- strconv.Atoi of a run of digits, where `int` has 64 bits.
use goop.Base.{
  ℕ, zero, suc, ◌+◌, ◌-◌, ◌*◌, ◌/◌, ◌%◌, ◌^◌, ◌≤◌, ◌<◌, ◌≡◌, refl, [], ◌∷◌, arith, Str, ltb,
  if◌then◌else◌, Result, ok, err, num_range,
}
use goop.Golang.Strconv.{digits_from, itoa}

unfoldable pub digits_value : Str → ℕ → ℕ
digits_value [] n = n
digits_value (c ∷ s) n = digits_value s (n * 10 + (c - b'0'))

unfoldable pub atoi : Str → Result ℕ
unfolding digits_value
atoi s = if ltb (digits_value s 0) (2 ^ 63) then ok (digits_value s 0) else err num_range

digits_value-digits_from :
    (fuel n : ℕ) (out : Str)
    → n ≤ fuel
    → digits_value (digits_from fuel n out) 0 ≡ digits_value out n
unfolding digits_from digits_value
digits_value-digits_from zero n out h = let z : n ≡ 0 = omega arith in rw z
digits_value-digits_from (suc fuel) n out h =
    let last : n / 10 * 10 + (b'0' + n % 10 - b'0') ≡ n = omega arith in
    ground (arith, digits_value-digits_from fuel (n / 10) ((b'0' + n % 10) ∷ out), last)

digits_value-itoa : (n : ℕ) → digits_value (itoa n) 0 ≡ n
unfolding itoa digits_value
digits_value-itoa zero = refl
digits_value-itoa (suc n) = ground (arith, digits_value-digits_from (suc n) (suc n) [])

pub atoi-itoa : (n : ℕ) → n < 2 ^ 63 → atoi (itoa n) ≡ ok n
unfolding atoi
atoi-itoa n h = rw (digits_value-itoa n) (ground arith)
