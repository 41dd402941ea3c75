-- ===== src/Gateway/Trigger/Text.antt =====
-- What the tokens of a text say about the text: nothing is lost, and plain words are kept as they are.
use goop.Base.{
  ℕ, zero, suc, ◌≤◌, ◌≡◌, ◌≢◌, refl, ◌∙◌, inl, inr, Bool, true, false, not, List, [], ◌∷◌, ◌++◌,
  append_assoc, some, arith, Str, length, filter, ◌==◌, Bool-cases, Option-cases, All,
}
use goop.Gateway.Trigger.{is_re_space, Token, word, raw_of, span, match_word, match_at, find_all}
use goop.Gateway.Trigger.Fuel.{find_all-none, find_all-some, match_at_cut, match_at-ne-none}

abbrev pub solid : ℕ → Bool
solid c = not (is_re_space c)

-- Groups 0 of the matches, put together.
abbrev pub raw_text : List Token → Str
raw_text [] = []
raw_text (t ∷ ts) = raw_of t ++ raw_text ts

filter-append : (p : ℕ → Bool) (s t : Str) → filter p (s ++ t) ≡ filter p s ++ filter p t
unfolding filter
filter-append p [] t = refl
filter-append p (c ∷ s) t = ground (arith, filter-append p s t)

filter-raw_text :
    (f : ℕ) (s : Str) → length s ≤ f → filter solid (raw_text (find_all f s)) ≡ filter solid s
filter-raw_text zero [] h = unfold find_all in refl
filter-raw_text zero (c ∷ s) h = absurd (omega arith)
filter-raw_text (suc f) [] h = unfold find_all in refl
filter-raw_text (suc f) (c ∷ s) h = elim (Option-cases (match_at (c ∷ s))) [
  | inl e ↦ elim (Bool-cases (is_re_space c)) [
    | inl b ↦ rw (find_all-none f c s e) (filter-raw_text f s (omega arith) ∙ unfold filter in rw b)
    | inr b ↦ absurd (match_at-ne-none c s b e)
  ]
  | inr ((t, rest), e) ↦
      let cut = match_at_cut (c ∷ s) t rest e in
      rw (find_all-some f c s t rest e, cut.0)
        (rw (filter-append, filter-append, filter-raw_text f rest (omega arith)))
]

-- Put together, the matches of a text are the text but for whitespace: no character of a message is
-- lost, and the order is kept.
tokens-keep_text : (s : Str) → filter solid (raw_text (find_all (length s) s)) ≡ filter solid s
tokens-keep_text s = filter-raw_text (length s) s (omega arith)

abbrev Stops : (ℕ → Bool) → Str → Type 0
Stops p [] = Unit
Stops p (c ∷ s) = p c ≡ false

span_lem :
    (p : ℕ → Bool) (front rest : Str)
    → All (λ c. p c ≡ true) front
    → Stops p rest
    → span p (front ++ rest) ≡ (front, rest)
unfolding span
span_lem p [] [] hf hr = refl
span_lem p [] (c ∷ rest) hf hr = rw hr
span_lem p (c ∷ front) rest hf hr = rw (span_lem p front rest hf.1 hr, hf.0)

-- Characters that do not end a word; those that stand between words.
abbrev pub IsSolid : Str → Type 0
IsSolid = All (λ c. is_re_space c ≡ false)

abbrev pub IsBlank : Str → Type 0
IsBlank = All (λ c. is_re_space c ≡ true)

abbrev pub StartsSolid : Str → Type 0
StartsSolid [] = Unit
StartsSolid (c ∷ s) = is_re_space c ≡ false

abbrev pub NotQuote : ℕ → Type 0
NotQuote c = (c ≢ b'"') × (c ≢ b'\'')

-- What stands behind a word: spaces, and then the next word or the end.
abbrev pub Follows : Str → Str → Type 0
Follows [] rest = rest ≡ []
Follows (b ∷ spaces) rest = IsBlank (b ∷ spaces) × StartsSolid rest

solid_of : (w : Str) → IsSolid w → All (λ c. solid c ≡ true) w
solid_of [] h = tt
solid_of (c ∷ w) h = (rw (h.0), solid_of w h.1)

Follows-Stops : (spaces rest : Str) → Follows spaces rest → Stops solid (spaces ++ rest)
Follows-Stops [] rest h = rw h tt
Follows-Stops (b ∷ spaces) rest h = rw (h.0.0)

Follows-Blank : (spaces rest : Str) → Follows spaces rest → IsBlank spaces × Stops is_re_space rest
Follows-Blank [] rest h = rw h (tt, tt)
Follows-Blank (b ∷ spaces) [] h = (h.0, tt)
Follows-Blank (b ∷ spaces) (c ∷ rest) h = h

pub match_word_lem :
    (c : ℕ) (w spaces rest : Str)
    → IsSolid (c ∷ w)
    → Follows spaces rest
    → match_word (c ∷ w ++ spaces ++ rest) ≡ some (word (c ∷ w) spaces, rest)
unfolding match_word
match_word_lem c w spaces rest h k =
    let (blank, stops) = Follows-Blank spaces rest k in
    rw (
      h.0,
      append_assoc w spaces rest,
      span_lem solid w (spaces ++ rest) (solid_of w h.1) (Follows-Stops spaces rest k),
      span_lem is_re_space spaces rest blank stops,
    )

pub match_at_lem :
    (c : ℕ) (w spaces rest : Str)
    → NotQuote c
    → IsSolid (c ∷ w)
    → Follows spaces rest
    → match_at (c ∷ w ++ spaces ++ rest) ≡ some (word (c ∷ w) spaces, rest)
unfolding match_at
match_at_lem c w spaces rest q h k =
    let not_double : (c == b'"') ≡ false = ground arith in
    let not_single : (c == b'\'') ≡ false = ground arith in
    rw (not_double, not_single) (match_word_lem c w spaces rest h k)
