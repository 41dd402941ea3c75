-- ===== src/Golang/Strconv/Decimal.antt =====
-- Printing in decimal: `strconv.Itoa`, and the verb %d.
use goop.Base.{
  ℕ, zero, suc, ◌+◌, ◌*◌, ◌/◌, ◌%◌, ◌≤◌, ◌<◌, ◌≡◌, ◌≢◌, refl, ◌&&◌, Bool, [], ◌∷◌, arith, length,
  Str, codes, leb, ◌==◌, Bool-cases, inl, inr, if◌then◌else◌, All,
}
use goop.Base.Int.{ℤ, pos, negsuc}

-- The last digit first; `fuel` is at least the number.
unfoldable pub digits_from : ℕ → ℕ → Str → Str
digits_from zero n out = out
digits_from (suc fuel) n out =
    let rest = digits_from fuel (n / 10) ((b'0' + n % 10) ∷ out) in if n == 0 then out else rest

unfoldable pub itoa : ℕ → Str
unfolding digits_from
itoa n = if n == 0 then b'0' ∷ [] else digits_from n n []

unfoldable pub itoa_ℤ : ℤ → Str
unfolding itoa
itoa_ℤ (pos n) = itoa n
itoa_ℤ (negsuc n) = b'-' ∷ itoa (suc n)

abbrev pub is_digit : ℕ → Bool
is_digit c = leb b'0' c && leb c b'9'

abbrev pub IsDigit : ℕ → Type 0
IsDigit c = (b'0' ≤ c) × (c ≤ b'9')

digits_from-IsDigit :
    (fuel n : ℕ) (out : Str) → All IsDigit out → All IsDigit (digits_from fuel n out)
unfolding digits_from
digits_from-IsDigit zero n out h = h
digits_from-IsDigit (suc fuel) n out h =
    ground (arith, digits_from-IsDigit fuel (n / 10) ((b'0' + n % 10) ∷ out))

digits_from_zero : (fuel : ℕ) (out : Str) → digits_from fuel 0 out ≡ out
unfolding digits_from
digits_from_zero zero out = refl
digits_from_zero (suc fuel) out = refl

abbrev pub StartsNonzero : Str → Type 0
StartsNonzero [] = ⊥
StartsNonzero (d ∷ _) = (b'1' ≤ d) × (d ≤ b'9')

-- The first digit of a positive number is not 0.
digits_from_head :
    (fuel n : ℕ) (out : Str) → 0 < n → n ≤ fuel → StartsNonzero (digits_from fuel n out)
unfolding digits_from
digits_from_head zero n out p h = absurd (omega arith)
digits_from_head (suc fuel) n out p h = elim (Bool-cases (n / 10 == 0)) [
  | inl last ↦
      let z : n / 10 ≡ 0 = ground arith in
      ground (arith, z, digits_from_zero fuel ((b'0' + n % 10) ∷ out))
  | inr more ↦ ground (arith, digits_from_head fuel (n / 10) ((b'0' + n % 10) ∷ out))
]

pub itoa-IsDigit : (n : ℕ) → All IsDigit (itoa n)
unfolding itoa
itoa-IsDigit n = ground (arith, digits_from-IsDigit n n [])

pub itoa_head : (n : ℕ) → 0 < n → StartsNonzero (itoa n)
unfolding itoa
itoa_head n h = ground (arith, digits_from_head n n [])

pub itoa-ne-nil : (n : ℕ) → itoa n ≢ []
unfolding itoa
itoa-ne-nil zero e = cc
itoa-ne-nil (suc n) e = rw e at (itoa_head (suc n) (omega arith))

-- A number below a power of ten has no more digits than its exponent, but for 0, which has one.
abbrev pub power10 : ℕ → ℕ
power10 zero = 1
power10 (suc k) = 10 * power10 k

length-digits_from :
    (k fuel n : ℕ) (out : Str) → n < power10 k → length (digits_from fuel n out) ≤ k + length out
unfolding digits_from
length-digits_from k zero n out h = omega arith
length-digits_from zero (suc fuel) n out h = ground (arith, digits_from_zero fuel out)
length-digits_from (suc k) (suc fuel) n out h =
    let less : n / 10 < power10 k = omega arith in
    ground (arith, length-digits_from k fuel (n / 10) ((b'0' + n % 10) ∷ out) less)

pub length-itoa : (k n : ℕ) → n < power10 (suc k) → length (itoa n) ≤ suc k
unfolding itoa
length-itoa k n h = ground (arith, length-digits_from (suc k) n n [])

itoa_runs : itoa 2147483647 ≡ codes "2147483647"
unfolding itoa
itoa_runs = refl
