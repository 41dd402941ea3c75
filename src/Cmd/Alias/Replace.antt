-- ===== src/Cmd/Alias/Replace.antt =====
-- Text around placeholders.
use goop.Base.{
  ℕ, zero, suc, ◌+◌, ◌<◌, ◌≤◌, ◌≡◌, ◌≢◌, refl, sym, ap, ◌∙◌, inl, inr, ◌⊎◌, false, List, [], ◌∷◌,
  ◌++◌, Option, none, some, arith, Str, length, length-append, ◌==◌, All, Option-cases,
}
use goop.Golang.Strings.{strip_prefix}
use goop.Golang.Strconv.{is_digit}
use goop.Gateway.Trigger.{span}
use goop.Gateway.Trigger.Fuel.{span-append}
use goop.Gateway.Api.{Gateway, Trigger}
use goop.Cmd.Alias.{
  Key, placeholders, Match, match_suffix, match_digits, match_key, first_match, find_placeholder,
  placeholder, replace_from, replace,
}

-- A match takes at least one character off.
abbrev Shortens : Str → Option Match → Type 0
Shortens s none = Unit
Shortens s (some m) = length m.rest < length s

strip_prefix-length :
    (p s rest : Str) → strip_prefix p s ≡ some rest → length p + length rest ≡ length s
unfolding strip_prefix
strip_prefix-length [] s rest h = let same : s ≡ rest = cc in rw same (omega arith)
strip_prefix-length (c ∷ p) [] rest h = cc
strip_prefix-length (c ∷ p) (d ∷ s) rest h = ground (arith, strip_prefix-length p s rest)

match_suffix-Shortens :
    (key : Key) (prefix digits suffix s u : Str)
    → length s < length u
    → Shortens u (match_suffix key prefix digits suffix (strip_prefix suffix s))
unfolding match_suffix
match_suffix-Shortens key prefix digits suffix s u h = elim (Option-cases (strip_prefix suffix s)) [
  | inl e ↦ rw e tt
  | inr (rest, e) ↦ let fits = strip_prefix-length suffix s rest e in rw e (omega arith)
]

match_digits-Shortens :
    (key : Key) (prefix suffix s u : Str) (r : Str × Str)
    → r.0 ++ r.1 ≡ s
    → length s < length u
    → Shortens u (match_digits key prefix suffix r)
unfolding match_digits
match_digits-Shortens key prefix suffix s u ([], more) e h = tt
match_digits-Shortens key prefix suffix s u (d ∷ ds, more) e h =
    let sum = length-append (d ∷ ds) more in
    let whole : length (d ∷ ds ++ more) ≡ length s = ap length e in
    match_suffix-Shortens key prefix (d ∷ ds) suffix more u (omega arith)

match_key-Shortens :
    (key : Key) (c : ℕ) (prefix : Str) (suffix : Option Str) (u : Str)
    → Shortens u (match_key key (c ∷ prefix) suffix (strip_prefix (c ∷ prefix) u))
unfolding match_key
match_key-Shortens key c prefix suffix u = elim (Option-cases (strip_prefix (c ∷ prefix) u)) [
  | inl e ↦ rw e tt
  | inr (rest, e) ↦
      let fits = strip_prefix-length (c ∷ prefix) u rest e in rw e (go suffix rest (omega arith))
]
  where
    go :
        (suffix : Option Str) (rest : Str)
        → length rest < length u
        → Shortens u (match_key key (c ∷ prefix) suffix (some rest))
    go none rest h = h
    go (some suffix) rest h =
        match_digits-Shortens key (c ∷ prefix) suffix rest u (span is_digit rest)
          (span-append is_digit rest) h

first_match-Shortens :
    (u : Str) (a b : Option Match) → Shortens u a → Shortens u b → Shortens u (first_match a b)
first_match-Shortens u none b ha hb = hb
first_match-Shortens u (some m) b ha hb = ha

abbrev HasPrefix : Key × Str × Option Str → Type 0
HasPrefix (key, [], suffix) = ⊥
HasPrefix (key, c ∷ prefix, suffix) = Unit

find_placeholder-Shortens :
    (table : List (Key × Str × Option Str)) (u : Str)
    → All HasPrefix table
    → Shortens u (find_placeholder table u)
unfolding find_placeholder
find_placeholder-Shortens [] u h = tt
find_placeholder-Shortens ((key, [], suffix) ∷ table) u h = absurd h.0
find_placeholder-Shortens ((key, c ∷ prefix, suffix) ∷ table) u h =
    first_match-Shortens u _ _ (match_key-Shortens key c prefix suffix u)
      (find_placeholder-Shortens table u h.1)

placeholders-HasPrefix : All HasPrefix placeholders
placeholders-HasPrefix = (
  tt,
  (tt, (tt, (tt, (tt, (tt, (tt, (tt, (tt, (tt, (tt, (tt, (tt, (tt, (tt, (tt, tt))))))))))))))),
)

found-Shortens :
    (u : Str) (m : Match) → find_placeholder placeholders u ≡ some m → length m.rest < length u
found-Shortens u m e = rw e at (find_placeholder-Shortens placeholders u placeholders-HasPrefix)

module _ (gw : Gateway) (t : Trigger) where
  pub replace_from_found :
      (fuel c : ℕ) (s : Str) (m : Match)
      → find_placeholder placeholders (c ∷ s) ≡ some m
      → replace_from gw t (suc fuel) (c ∷ s)
        ≡ placeholder gw t m.key m.digits m.text ++ replace_from gw t fuel m.rest
  unfolding replace_from
  replace_from_found fuel c s m e = rw (e, replace_from) refl

  pub replace_from-none :
      (fuel c : ℕ) (s : Str)
      → find_placeholder placeholders (c ∷ s) ≡ none
      → replace_from gw t (suc fuel) (c ∷ s) ≡ c ∷ replace_from gw t fuel s
  unfolding replace_from
  replace_from-none fuel c s e = rw (e, replace_from) refl

  -- Any fuel that is at least the text's length gives the same.
  pub replace_from_fuel :
      (f g : ℕ) (s : Str)
      → length s ≤ f
      → length s ≤ g
      → replace_from gw t f s ≡ replace_from gw t g s
  unfolding replace_from
  replace_from_fuel zero zero s hf hg = refl
  replace_from_fuel zero (suc g) [] hf hg = refl
  replace_from_fuel zero (suc g) (c ∷ s) hf hg = absurd (omega arith)
  replace_from_fuel (suc f) zero [] hf hg = refl
  replace_from_fuel (suc f) zero (c ∷ s) hf hg = absurd (omega arith)
  replace_from_fuel (suc f) (suc g) [] hf hg = refl
  replace_from_fuel (suc f) (suc g) (c ∷ s) hf hg =
      elim (Option-cases (find_placeholder placeholders (c ∷ s))) [
        | inl e ↦
            replace_from-none f c s e
            ∙ ap (λ r. c ∷ r) (replace_from_fuel f g s (omega arith) (omega arith))
            ∙ sym (replace_from-none g c s e)
        | inr (m, e) ↦
            let shorter = found-Shortens (c ∷ s) m e in
            replace_from_found f c s m e
            ∙ ap (λ r. placeholder gw t m.key m.digits m.text ++ r)
                (replace_from_fuel f g m.rest (omega arith) (omega arith))
            ∙ sym (replace_from_found g c s m e)
      ]

  -- Where no placeholder begins at a character, the character is kept and the text behind it is
  -- replaced; where one does, its value stands in its place and the text behind it is replaced.
  replace-cons :
      (c : ℕ) (s : Str)
      → ((find_placeholder placeholders (c ∷ s) ≡ none)
          × (replace gw t (c ∷ s) ≡ c ∷ replace gw t s))
        ⊎ ((m : Match) × (find_placeholder placeholders (c ∷ s) ≡ some m)
            × (replace gw t (c ∷ s)
                ≡ placeholder gw t m.key m.digits m.text ++ replace gw t m.rest))
  unfolding replace
  replace-cons c s = elim (Option-cases (find_placeholder placeholders (c ∷ s))) [
    | inl e ↦ inl (e, replace_from-none (length s) c s e)
    | inr (m, e) ↦
        let shorter = found-Shortens (c ∷ s) m e in
        inr (
          m,
          e,
          replace_from_found (length s) c s m e
              ∙ ap (λ r. placeholder gw t m.key m.digits m.text ++ r)
                  (replace_from_fuel (length s) (length m.rest) m.rest (omega arith) (omega arith)),
        )
  ]

  find_placeholder_plain :
      (c : ℕ) (s : Str) → c ≢ b'%' → find_placeholder placeholders (c ∷ s) ≡ none
  unfolding find_placeholder match_key strip_prefix
  find_placeholder_plain c s h = let e : (b'%' == c) ≡ false = ground arith in rw e refl

  -- Text without a percent sign in front of another text is kept, whatever follows it.
  pub replace-append :
      (a s : Str) → All (λ c. c ≢ b'%') a → replace gw t (a ++ s) ≡ a ++ replace gw t s
  unfolding replace
  replace-append [] s h = refl
  replace-append (c ∷ a) s h =
      replace_from-none (length (a ++ s)) c (a ++ s) (find_placeholder_plain c (a ++ s) h.0)
      ∙ ap (λ r. c ∷ r) (replace-append a s h.1)
