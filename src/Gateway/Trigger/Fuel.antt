-- ===== src/Gateway/Trigger/Fuel.antt =====
-- Each match of the pattern is a piece of the text, so the fuel suffices and `a[0]` is in range.
use goop.Base.{
  ℕ, zero, suc, ◌≤◌, ◌<◌, ◌≡◌, ◌≢◌, refl, ap, inl, inr, Bool, false, not, ◌&&◌, List, [], ◌∷◌, ◌++◌,
  append_assoc, Option, none, some, arith, Str, length, length-append, ◌==◌, Bool-cases,
  Option-cases, if◌then◌else◌,
}
use goop.Gateway.Trigger.{
  is_space, is_re_space, Token, double_quoted, single_quoted, raw_of, push, or_else, quoted_body,
  span, match_word, quoted_or, match_at, find_all, panics, from_tokens, extract_trigger,
}

-- A body is followed by its closing quote.
abbrev Closes : ℕ → Str → Option (Str × Str) → Type 0
Closes q s none = Unit
Closes q s (some (body, rest)) = s ≡ body ++ q ∷ rest

Closes-push :
    (q c : ℕ) (s : Str) (o : Option (Str × Str)) → Closes q s o → Closes q (c ∷ s) (push c o)
Closes-push q c s none h = tt
Closes-push q c s (some (body, rest)) h = ap (λ t. c ∷ t) h

Closes-or_else :
    (q : ℕ) (s : Str) (a b : Option (Str × Str))
    → Closes q s a
    → Closes q s b
    → Closes q s (or_else a b)
Closes-or_else q s none b ha hb = hb
Closes-or_else q s (some a) b ha hb = ha

quoted_body-Closes : (q : ℕ) (s : Str) → Closes q s (quoted_body q s)
unfolding quoted_body
quoted_body-Closes q [] = tt
quoted_body-Closes q (c ∷ []) = ground arith
quoted_body-Closes q (c ∷ d ∷ s) =
    let ih = Closes-push q c (d ∷ s) (quoted_body q (d ∷ s)) (quoted_body-Closes q (d ∷ s)) in
    let skip =
      Closes-push q c (d ∷ s) (push d (quoted_body q s))
        (Closes-push q d s (quoted_body q s) (quoted_body-Closes q s)) in
    let plain : Closes q (c ∷ d ∷ s)
        (if c == q then some ([], d ∷ s) else push c (quoted_body q (d ∷ s))) =
      elim (Bool-cases (c == q)) [
        | inl e ↦ rw (e, Closes) (ground arith)
        | inr e ↦ rw (e, Closes) ih
      ] in
    elim (Bool-cases (c == b'\\' && not (d == b'\n'))) [
      | inl e ↦ rw e (Closes-or_else q (c ∷ d ∷ s) _ _ skip plain)
      | inr e ↦ rw e plain
    ]

pub span-append : (p : ℕ → Bool) (s : Str) → (span p s).0 ++ (span p s).1 ≡ s
unfolding span
span-append p [] = refl
span-append p (c ∷ s) = ground (arith, span-append p s)

-- A match is a piece of the text that is not empty, and the rest stands behind it.
abbrev pub Cuts : Str → Option (Token × Str) → Type 0
Cuts s none = Unit
Cuts s (some (t, rest)) = (s ≡ raw_of t ++ rest) × (length rest < length s)

shorter : (s front rest : Str) → s ≡ front ++ rest → 0 < length front → length rest < length s
shorter s front rest e h = omega (arith, ap length e, length-append front rest)

Cuts-quoted :
    (q : ℕ) (quote : Str → Token) (s : Str) (o : Option (Str × Str)) (w : Option (Token × Str))
    → ((body : Str) → raw_of (quote body) ≡ q ∷ body ++ q ∷ [])
    → Closes q s o
    → Cuts (q ∷ s) w
    → Cuts (q ∷ s) (quoted_or quote o w)
Cuts-quoted q quote s none w raw ho hw = hw
Cuts-quoted q quote s (some (body, rest)) w raw ho hw =
    let whole : q ∷ s ≡ raw_of (quote body) ++ rest =
      rw (raw body, append_assoc body (q ∷ []) rest) (ap (λ t. q ∷ t) ho) in
    (whole, shorter (q ∷ s) (raw_of (quote body)) rest whole (rw (raw body) (omega arith)))

match_word-Cuts : (s : Str) → Cuts s (match_word s)
unfolding match_word raw_of
match_word-Cuts [] = tt
match_word-Cuts (c ∷ s) = elim (Bool-cases (is_re_space c)) [
  | inl e ↦ rw (e, Cuts) tt
  | inr e ↦
      let (w, behind) = span (λ d. not (is_re_space d)) s in
      let (spaces, rest) = span is_re_space behind in
      let whole : c ∷ s ≡ (c ∷ w ++ spaces) ++ rest = simp (append_assoc, span-append) in
      rw (e, Cuts) (whole, shorter (c ∷ s) (c ∷ w ++ spaces) rest whole (omega arith))
]

match_at-Cuts : (s : Str) → Cuts s (match_at s)
unfolding match_at
match_at-Cuts [] = tt
match_at-Cuts (c ∷ s) = elim (Bool-cases (c == b'"')) [
  | inl e ↦
      let double : c ≡ b'"' = ground arith in
      rw double (
        Cuts-quoted b'"' double_quoted s _ _ (λ body. unfold raw_of in refl)
          (quoted_body-Closes b'"' s) (match_word-Cuts (b'"' ∷ s)))
  | inr e ↦ elim (Bool-cases (c == b'\'')) [
    | inl e' ↦
        let single : c ≡ b'\'' = ground arith in
        rw single (
          Cuts-quoted b'\'' single_quoted s _ _ (λ body. unfold raw_of in refl)
            (quoted_body-Closes b'\'' s) (match_word-Cuts (b'\'' ∷ s)))
    | inr e' ↦ rw (e, e', Cuts) (match_word-Cuts (c ∷ s))
  ]
]

pub find_all-none :
    (f c : ℕ) (s : Str) → match_at (c ∷ s) ≡ none → find_all (suc f) (c ∷ s) ≡ find_all f s
unfolding find_all
find_all-none f c s e = rw (e, find_all)

pub find_all-some :
    (f c : ℕ) (s : Str) (t : Token) (rest : Str)
    → match_at (c ∷ s) ≡ some (t, rest)
    → find_all (suc f) (c ∷ s) ≡ t ∷ find_all f rest
unfolding find_all
find_all-some f c s t rest e = rw (e, find_all)

pub match_at_cut :
    (s : Str) (t : Token) (rest : Str) → match_at s ≡ some (t, rest) → Cuts s (some (t, rest))
match_at_cut s t rest e = rw e at (match_at-Cuts s)

-- More fuel than the text is long changes nothing.
pub find_all_fuel : (f g : ℕ) (s : Str) → length s ≤ f → length s ≤ g → find_all f s ≡ find_all g s
unfolding find_all
find_all_fuel zero zero s hf hg = refl
find_all_fuel zero (suc g) [] hf hg = refl
find_all_fuel zero (suc g) (c ∷ s) hf hg = absurd (omega arith)
find_all_fuel (suc f) zero [] hf hg = refl
find_all_fuel (suc f) zero (c ∷ s) hf hg = absurd (omega arith)
find_all_fuel (suc f) (suc g) [] hf hg = refl
find_all_fuel (suc f) (suc g) (c ∷ s) hf hg = elim (Option-cases (match_at (c ∷ s))) [
  | inl e ↦
      rw (find_all-none f c s e, find_all-none g c s e)
        (find_all_fuel f g s (omega arith) (omega arith))
  | inr ((t, rest), e) ↦
      let cut = match_at_cut (c ∷ s) t rest e in
      rw (find_all-some f c s t rest e, find_all-some g c s t rest e)
        (ap (λ ts. t ∷ ts) (find_all_fuel f g rest (omega arith) (omega arith)))
]

-- Only a space has no match.
quoted_or-ne-none :
    (quote : Str → Token) (o : Option (Str × Str)) (w : Option (Token × Str))
    → w ≢ none
    → quoted_or quote o w ≢ none
quoted_or-ne-none quote none w h = h
quoted_or-ne-none quote (some x) w h = λ e. cc

match_word-ne-none : (c : ℕ) (s : Str) → is_re_space c ≡ false → match_word (c ∷ s) ≢ none
unfolding match_word
match_word-ne-none c s h = rw h (λ e. cc)

pub match_at-ne-none : (c : ℕ) (s : Str) → is_re_space c ≡ false → match_at (c ∷ s) ≢ none
unfolding match_at
match_at-ne-none c s h =
    let w = match_word-ne-none c s h in
    ground (
      arith,
      w,
      quoted_or-ne-none double_quoted (quoted_body b'"' s) (match_word (c ∷ s)) w,
      quoted_or-ne-none single_quoted (quoted_body b'\'' s) (match_word (c ∷ s)) w,
    )

pub is_re_space_of_is_space : (c : ℕ) → is_space c ≡ false → is_re_space c ≡ false
unfolding is_space is_re_space
is_re_space_of_is_space c h = ground arith

from_tokens-ne-panics : (ts : List Token) → ts ≢ [] → from_tokens ts ≢ panics
unfolding from_tokens
from_tokens-ne-panics [] h = absurd (h refl)
from_tokens-ne-panics (t ∷ ts) h = λ e. cc

find_all-ne-nil : (f c : ℕ) (s : Str) → is_re_space c ≡ false → find_all (suc f) (c ∷ s) ≢ []
find_all-ne-nil f c s h = elim (Option-cases (match_at (c ∷ s))) [
  | inl e ↦ absurd (match_at-ne-none c s h e)
  | inr ((t, rest), e) ↦ rw (find_all-some f c s t rest e) (λ q. cc)
]

-- Reading a trigger never indexes out of range, whatever the message: where it is not refused at
-- once, there is a first match.
pub extract_trigger-ne-panics : (s : Str) → extract_trigger s ≢ panics
unfolding extract_trigger
extract_trigger-ne-panics [] = λ e. cc
extract_trigger-ne-panics (c ∷ s) = elim (Bool-cases (is_space c)) [
  | inl e ↦ rw e (λ q. cc)
  | inr e ↦
      rw e (from_tokens-ne-panics _ (find_all-ne-nil (length s) c s (is_re_space_of_is_space c e)))
]
