-- ===== src/Gateway/Access/RoundTrip.antt =====
-- Every access level is read back from what is printed for it.
use goop.Base.{
  ℕ, suc, ◌-◌, ◌<◌, ◌≡◌, refl, ap, sym, true, false, List, [], ◌∷◌, ◌++◌, arith, Str, codes, All,
  All-map, drop, ◌∙◌, ok,
}
use goop.Base.Int.{pos, negsuc, ◌+ℤ◌, ◌-ℤ◌, ◌<ℤ◌, leb_ℤ, two31, wrap32, IsInt32}
use goop.Golang.Strings.{equal_fold}
use goop.Golang.Strconv.{IsDigit, itoa, itoa_ℤ, itoa-IsDigit, itoa-ne-nil}
use goop.Golang.Strconv.RoundTrip.{parse_int_plus, parse_int_minus}
use goop.Gateway.Access.{
  AccessLevel, constants, reversed, string_from_above, string_from_below, to_string, all_digits,
  is_modifier, add_modifier, unmarshal_text,
}

all_digits_of_All : (s : Str) → All IsDigit s → all_digits s ≡ true
unfolding all_digits
all_digits_of_All [] h = refl
all_digits_of_All (c ∷ s) h = ground (arith, all_digits_of_All s h.1)

is_modifier_digits :
    (d : ℕ) (s : Str)
    → all_digits (d ∷ s) ≡ true
    → (is_modifier (b'+' ∷ d ∷ s) ≡ true) × (is_modifier (b'-' ∷ d ∷ s) ≡ true)
unfolding is_modifier
is_modifier_digits d s h = (h, h)

add_plus :
    (v : AccessLevel) (n : ℕ)
    → n < two31
    → add_modifier v (b'+' ∷ itoa n) ≡ ok (wrap32 (v +ℤ pos n))
unfolding add_modifier
add_plus v n h = rw (parse_int_plus n h)

add_minus :
    (v : AccessLevel) (n : ℕ)
    → n < two31
    → add_modifier v (b'-' ∷ itoa (suc n)) ≡ ok (wrap32 (v +ℤ negsuc n))
unfolding add_modifier
add_minus v n h = rw (parse_int_minus n h)

-- A constant's name with a modifier behind it is read as that constant, then the modifier.
reads_plus :
    (d : ℕ) (s : Str)
    → all_digits (d ∷ s) ≡ true
    → All (λ e. unmarshal_text (e.0 ++ b'+' ∷ d ∷ s) ≡ add_modifier e.1 (b'+' ∷ d ∷ s)) constants
unfolding unmarshal_text equal_fold
reads_plus d s h = ground arith

reads_minus :
    (d : ℕ) (s : Str)
    → all_digits (d ∷ s) ≡ true
    → All (λ e. unmarshal_text (e.0 ++ b'-' ∷ d ∷ s) ≡ add_modifier e.1 (b'-' ∷ d ∷ s)) constants
unfolding unmarshal_text equal_fold
reads_minus d s h = ground arith

reads_exact : All (λ e. unmarshal_text e.0 ≡ ok e.1) constants
unfolding unmarshal_text equal_fold
reads_exact = ground arith

itoa_cons : (n : ℕ) → (d : ℕ) × (s : Str) × (itoa n ≡ d ∷ s) × (all_digits (d ∷ s) ≡ true)
itoa_cons n = go (itoa n) refl (itoa-IsDigit n)
  where
    go :
        (t : Str)
        → itoa n ≡ t
        → All IsDigit t
        → (d : ℕ) × (s : Str) × (itoa n ≡ d ∷ s) × (all_digits (d ∷ s) ≡ true)
    go [] e h = absurd (itoa-ne-nil n e)
    go (d ∷ s) e h = (d, s, e, all_digits_of_All (d ∷ s) h)

module _ (Q : Str → Type 0) where
  -- A level that is not negative stops at the default level at the latest.
  string_from_above_cases :
      (cs : List (Str × AccessLevel)) (s : Str) (rest : List (Str × AccessLevel)) (n : ℕ)
      → All (λ e. pos n ≡ e.1 → Q e.0) (cs ++ (s, pos 0) ∷ [])
      → All
          (λ e. e.1 <ℤ pos n → Q (e.0 ++ b'+' ∷ itoa_ℤ (wrap32 (pos n -ℤ e.1))))
          (cs ++ (s, pos 0) ∷ [])
      → Q (string_from_above (cs ++ (s, pos 0) ∷ rest) (pos n))
  unfolding string_from_above
  string_from_above_cases [] s rest n same above = ground (arith, same.0, above.0)
  string_from_above_cases (e ∷ cs) s rest n same above =
      ground (arith, same.0, above.0, string_from_above_cases cs s rest n same.1 above.1)

  string_from_below_cases :
      (cs : List (Str × AccessLevel)) (s : Str) (rest : List (Str × AccessLevel)) (n : ℕ)
      → All (λ e. negsuc n ≡ e.1 → Q e.0) (cs ++ (s, negsuc 0) ∷ [])
      → All
          (λ e. negsuc n <ℤ e.1 → Q (e.0 ++ b'-' ∷ itoa_ℤ (wrap32 (e.1 -ℤ negsuc n))))
          (cs ++ (s, negsuc 0) ∷ [])
      → Q (string_from_below (cs ++ (s, negsuc 0) ∷ rest) (negsuc n))
  unfolding string_from_below
  string_from_below_cases [] s rest n same below = ground (arith, same.0, below.0)
  string_from_below_cases (e ∷ cs) s rest n same below =
      ground (arith, same.0, below.0, string_from_below_cases cs s rest n same.1 below.1)

pub reads_plus_itoa :
    (n : ℕ)
    → n < two31
    → All (λ e. unmarshal_text (e.0 ++ b'+' ∷ itoa n) ≡ ok (wrap32 (e.1 +ℤ pos n))) constants
reads_plus_itoa n h =
    let (d, s, eq, ds) = itoa_cons n in
    rw eq (
      All-map (λ e. unmarshal_text (e.0 ++ b'+' ∷ d ∷ s) ≡ add_modifier e.1 (b'+' ∷ d ∷ s))
        (λ e. unmarshal_text (e.0 ++ b'+' ∷ d ∷ s) ≡ ok (wrap32 (e.1 +ℤ pos n))) constants
        (λ e p. cc (p, eq, add_plus e.1 n h)) (reads_plus d s ds))

pub reads_minus_itoa :
    (n : ℕ)
    → n < two31
    → All
        (λ e. unmarshal_text (e.0 ++ b'-' ∷ itoa (suc n)) ≡ ok (wrap32 (e.1 +ℤ negsuc n)))
        constants
reads_minus_itoa n h =
    let (d, s, eq, ds) = itoa_cons (suc n) in
    rw eq (
      All-map (λ e. unmarshal_text (e.0 ++ b'-' ∷ d ∷ s) ≡ add_modifier e.1 (b'-' ∷ d ∷ s))
        (λ e. unmarshal_text (e.0 ++ b'-' ∷ d ∷ s) ≡ ok (wrap32 (e.1 +ℤ negsuc n))) constants
        (λ e p. cc (p, eq, add_minus e.1 n h)) (reads_minus d s ds))

above_step :
    (s : Str) (v n : ℕ)
    → pos v <ℤ pos n
    → n < two31
    → ((k : ℕ) → k < two31 → unmarshal_text (s ++ b'+' ∷ itoa k) ≡ ok (wrap32 (pos v +ℤ pos k)))
    → unmarshal_text (s ++ b'+' ∷ itoa_ℤ (wrap32 (pos n -ℤ pos v))) ≡ ok (pos n)
above_step s v n less fits reads =
    let diff : wrap32 (pos n -ℤ pos v) ≡ pos (n - v) = unfold wrap32 ◌-ℤ◌ in ground arith in
    let back : wrap32 (pos v +ℤ pos (n - v)) ≡ pos n = unfold wrap32 ◌+ℤ◌ in ground arith in
    rw diff (unfold itoa_ℤ in reads (n - v) (omega arith) ∙ ap ok back)

below_step :
    (s : Str) (v n : ℕ)
    → negsuc n <ℤ negsuc v
    → n < two31
    → ((k : ℕ)
        → k < two31
        → unmarshal_text (s ++ b'-' ∷ itoa (suc k)) ≡ ok (wrap32 (negsuc v +ℤ negsuc k)))
    → unmarshal_text (s ++ b'-' ∷ itoa_ℤ (wrap32 (negsuc v -ℤ negsuc n))) ≡ ok (negsuc n)
below_step s v n less fits reads =
    let diff : wrap32 (negsuc v -ℤ negsuc n) ≡ pos (suc (n - v - 1)) =
      unfold wrap32 ◌-ℤ◌ in ground arith in
    let back : wrap32 (negsuc v +ℤ negsuc (n - v - 1)) ≡ negsuc n =
      unfold wrap32 ◌+ℤ◌ in ground arith in
    rw diff (unfold itoa_ℤ in reads (n - v - 1) (omega arith) ∙ ap ok back)

-- The constants above the default level, and those below -1, with their absolute values less one.
abbrev tops : List (Str × ℕ)
tops =
    (codes "max", 2147483647)
    ∷ (codes "owner", 1000)
    ∷ (codes "admin", 300)
    ∷ (codes "operator", 200)
    ∷ (codes "whitelist", 100)
    ∷ (codes "voice", 1)
    ∷ []

abbrev lows : List (Str × ℕ)
lows =
    (codes "min", 2147483647)
    ∷ (codes "blacklist", 299)
    ∷ (codes "ban", 199)
    ∷ (codes "kick", 99)
    ∷ []

abbrev as_pos : List (Str × ℕ) → List (Str × AccessLevel)
as_pos [] = []
as_pos ((s, v) ∷ cs) = (s, pos v) ∷ as_pos cs

abbrev as_negsuc : List (Str × ℕ) → List (Str × AccessLevel)
as_negsuc [] = []
as_negsuc ((s, v) ∷ cs) = (s, negsuc v) ∷ as_negsuc cs

sames : (l : AccessLevel) → All (λ e. l ≡ e.1 → unmarshal_text e.0 ≡ ok l) constants
sames l =
    All-map (λ e. unmarshal_text e.0 ≡ ok e.1) (λ e. l ≡ e.1 → unmarshal_text e.0 ≡ ok l) constants
      (λ e p q. p ∙ ap ok (sym q)) reads_exact

module _ (n : ℕ) (fits : n < two31) where
  steps_above :
      (cs : List (Str × ℕ))
      → ((k : ℕ)
          → k < two31
          → All
              (λ e. unmarshal_text (e.0 ++ b'+' ∷ itoa k) ≡ ok (wrap32 (e.1 +ℤ pos k)))
              (as_pos cs))
      → All
          (λ e.
            e.1 <ℤ pos n
            → unmarshal_text (e.0 ++ b'+' ∷ itoa_ℤ (wrap32 (pos n -ℤ e.1))) ≡ ok (pos n))
          (as_pos cs)
  steps_above [] reads = tt
  steps_above ((s, v) ∷ cs) reads =
      (λ p. above_step s v n p fits (λ k h. (reads k h).0), steps_above cs (λ k h. (reads k h).1))

  steps_below :
      (cs : List (Str × ℕ))
      → ((k : ℕ)
          → k < two31
          → All
              (λ e. unmarshal_text (e.0 ++ b'-' ∷ itoa (suc k)) ≡ ok (wrap32 (e.1 +ℤ negsuc k)))
              (as_negsuc cs))
      → All
          (λ e.
            negsuc n <ℤ e.1
            → unmarshal_text (e.0 ++ b'-' ∷ itoa_ℤ (wrap32 (e.1 -ℤ negsuc n))) ≡ ok (negsuc n))
          (as_negsuc cs)
  steps_below [] reads = tt
  steps_below ((s, v) ∷ cs) reads =
      (λ p. below_step s v n p fits (λ k h. (reads k h).0), steps_below cs (λ k h. (reads k h).1))

-- What is printed for an access level is read as that access level, for every `int32`.
pub unmarshal_text-to_string : (l : AccessLevel) → IsInt32 l → unmarshal_text (to_string l) ≡ ok l
unfolding to_string
unmarshal_text-to_string (pos n) h =
    let nonneg : leb_ℤ (pos 0) (pos n) ≡ true = ground arith in
    rw nonneg (
      string_from_above_cases (λ t. unmarshal_text t ≡ ok (pos n)) (as_pos tops) (codes "")
        (drop 7 constants) n (assumption (sames (pos n)))
        (steps_above n h (tops ++ (codes "", 0) ∷ []) (λ k hk. assumption (reads_plus_itoa k hk))))
unmarshal_text-to_string (negsuc n) h =
    let negative : leb_ℤ (pos 0) (negsuc n) ≡ false = ground arith in
    rw negative (
      string_from_below_cases (λ t. unmarshal_text t ≡ ok (negsuc n)) (as_negsuc lows)
        (codes "ignore") (drop 5 (reversed constants [])) n (assumption (sames (negsuc n)))
        (steps_below n h (lows ++ (codes "ignore", 0) ∷ [])
          (λ k hk. assumption (reads_minus_itoa k hk))))
