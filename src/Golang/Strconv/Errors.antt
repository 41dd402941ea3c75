-- ===== src/Golang/Strconv/Errors.antt =====
-- The errors of `ParseInt`.
use goop.Base.{
  ℕ, zero, suc, ◌≡◌, refl, ◌⊎◌, inl, inr, Bool, true, false, Option, none, some, [], ◌∷◌, arith,
  Str, Result, ok, err, num_syntax, num_range, ◌>>=◌, ◌==◌, ◌&&◌, Bool-cases,
}
use goop.Golang.Strconv.{
  digit_of, add_digit, scan_char, scan, base_prefix, max_uint, check_underscores, parse_uint,
  with_sign, parse_int,
}

-- The result is no error but a syntax error or a range error.
abbrev pub FailsAsNumber {ℓ} : {A : Type ℓ} → Result A → Type 0
FailsAsNumber (ok a) = Unit
FailsAsNumber (err e) = (e ≡ num_syntax) ⊎ (e ≡ num_range)

pub FailsAsNumber-bind {ℓ κ} :
    {A : Type ℓ} {B : Type κ} (m : Result A) (f : A → Result B)
    → FailsAsNumber m
    → ((a : A) → FailsAsNumber (f a))
    → FailsAsNumber (m >>= f)
FailsAsNumber-bind (ok a) f h k = k a
FailsAsNumber-bind (err e) f h k = h

module _ (base0 : Bool) (base max_val : ℕ) where
  add_digit-FailsAsNumber :
      (n : ℕ) (us : Bool) (d : Option ℕ) → FailsAsNumber (add_digit base0 base max_val n us d)
  unfolding add_digit
  add_digit-FailsAsNumber n us none = inl refl
  add_digit-FailsAsNumber n us (some d) = ground arith

  scan_char-FailsAsNumber :
      (c n : ℕ) (us : Bool) → FailsAsNumber (scan_char base0 base max_val c n us)
  unfolding scan_char
  scan_char-FailsAsNumber c n us = elim (Bool-cases (base0 && c == b'_')) [
    | inl e ↦ rw e tt
    | inr e ↦ rw e (add_digit-FailsAsNumber n us (digit_of c))
  ]

  scan-FailsAsNumber :
      (s : Str) (n : ℕ) (us : Bool) → FailsAsNumber (scan base0 base max_val s n us)
  unfolding scan
  scan-FailsAsNumber [] n us = tt
  scan-FailsAsNumber (c ∷ s) n us =
      FailsAsNumber-bind (scan_char base0 base max_val c n us) _ (scan_char-FailsAsNumber c n us)
        (λ r. scan-FailsAsNumber s r.0 r.1)

check_underscores-FailsAsNumber : (s : Str) (r : ℕ × Bool) → FailsAsNumber (check_underscores s r)
unfolding check_underscores
check_underscores-FailsAsNumber s (n, us) = ground arith

parse_uint-FailsAsNumber : (bits : ℕ) (s : Str) → FailsAsNumber (parse_uint bits s)
unfolding parse_uint
parse_uint-FailsAsNumber bits [] = inl refl
parse_uint-FailsAsNumber bits (c ∷ s) =
    let (base, rest) = base_prefix (c ∷ s) in
    FailsAsNumber-bind (scan true base (max_uint bits) rest 0 false) _
      (scan-FailsAsNumber true base (max_uint bits) rest 0 false)
      (λ r. check_underscores-FailsAsNumber (c ∷ s) r)

with_sign-FailsAsNumber : (bits : ℕ) (neg : Bool) (n : ℕ) → FailsAsNumber (with_sign bits neg n)
unfolding with_sign
with_sign-FailsAsNumber bits false n = ground arith
with_sign-FailsAsNumber bits true zero = tt
with_sign-FailsAsNumber bits true (suc n) = ground arith

signed-FailsAsNumber :
    (bits : ℕ) (neg : Bool) (s : Str) → FailsAsNumber (parse_uint bits s >>= with_sign bits neg)
signed-FailsAsNumber bits neg s =
    FailsAsNumber-bind (parse_uint bits s) _ (parse_uint-FailsAsNumber bits s)
      (with_sign-FailsAsNumber bits neg)

pub parse_int-FailsAsNumber : (bits : ℕ) (s : Str) → FailsAsNumber (parse_int bits s)
unfolding parse_int
parse_int-FailsAsNumber bits [] = inl refl
parse_int-FailsAsNumber bits (c ∷ s) = elim (Bool-cases (c == b'+')) [
  | inl e ↦ rw e (signed-FailsAsNumber bits false s)
  | inr e ↦ elim (Bool-cases (c == b'-')) [
    | inl e' ↦ rw (e, e') (signed-FailsAsNumber bits true s)
    | inr e' ↦ rw (e, e') (signed-FailsAsNumber bits false (c ∷ s))
  ]
]
