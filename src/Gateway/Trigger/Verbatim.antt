-- ===== src/Gateway/Trigger/Verbatim.antt =====
-- The text behind the command is handed on character for character when it holds no quote.
use goop.Base.{
  ℕ, zero, suc, ◌≤◌, ◌≡◌, refl, sym, ap, ◌∙◌, inl, inr, not, List, [], ◌∷◌, ◌++◌, map, append_assoc,
  append-nil, some, arith, Str, length, length-append, Bool-cases, Option-cases, All,
}
use mathlib.Core.Path.{subst}
use goop.Golang.Strings.{join}
use goop.Gateway.Trigger.{
  is_re_space, Token, raw_of, arg_of, span, match_word, match_at, find_all, Parsed, extracted,
  from_tokens, extract_trigger,
}
use goop.Gateway.Trigger.Fuel.{find_all-some, match_at_cut, match_at-ne-none}
use goop.Gateway.Trigger.Text.{raw_text, StartsSolid, NotQuote, Follows}
use goop.Gateway.Trigger.Words.{IsWord, find_all_word, find_all-nil, extract_trigger_of_word}

abbrev pub NoQuote : Str → Type 0
NoQuote = All NotQuote

All-behind {ℓ κ} : {A : Type ℓ} (P : A → Type κ) (xs ys : List A) → All P (xs ++ ys) → All P ys
All-behind P [] ys h = h
All-behind P (x ∷ xs) ys h = All-behind P xs ys h.1

span-StartsSolid : (s : Str) → StartsSolid (span is_re_space s).1
unfolding span
span-StartsSolid [] = tt
span-StartsSolid (c ∷ s) = elim (Bool-cases (is_re_space c)) [
  | inl e ↦ rw e (span-StartsSolid s)
  | inr e ↦ rw (e, StartsSolid) e
]

match_word-StartsSolid :
    (s : Str) (t : Token) (rest : Str) → match_word s ≡ some (t, rest) → StartsSolid rest
unfolding match_word
match_word-StartsSolid [] t rest e = cc
match_word-StartsSolid (c ∷ s) t rest e = elim (Bool-cases (is_re_space c)) [
  | inl q ↦ cc
  | inr q ↦
      let behind = (span (λ d. not (is_re_space d)) s).1 in
      let same : (span is_re_space behind).1 ≡ rest = ground arith in
      rw (← same) (span-StartsSolid behind)
]

match_at-plain : (c : ℕ) (s : Str) → NotQuote c → match_at (c ∷ s) ≡ match_word (c ∷ s)
unfolding match_at
match_at-plain c s q = ground arith

-- Behind a solid character there is no gap between the matches.
raw_text-find_all :
    (f : ℕ) (s : Str) → length s ≤ f → NoQuote s → StartsSolid s → raw_text (find_all f s) ≡ s
raw_text-find_all f [] fits q h = rw (find_all-nil f)
raw_text-find_all zero (c ∷ s) fits q h = absurd (omega arith)
raw_text-find_all (suc f) (c ∷ s) fits q h = elim (Option-cases (match_at (c ∷ s))) [
  | inl e ↦ absurd (match_at-ne-none c s h e)
  | inr ((t, rest), e) ↦
      let cut = match_at_cut (c ∷ s) t rest e in
      let solid_rest = match_word-StartsSolid (c ∷ s) t rest (sym (match_at-plain c s q.0) ∙ e) in
      let no_quote : NoQuote rest = All-behind NotQuote (raw_of t) rest (subst NoQuote cut.0 q) in
      rw (find_all-some f c s t rest e) (
        ap (λ r. raw_of t ++ r) (raw_text-find_all f rest (omega arith) no_quote solid_rest)
        ∙ sym cut.0)
]

join-raw_text : (ts : List Token) → join (map raw_of ts) [] ≡ raw_text ts
unfolding join
join-raw_text [] = refl
join-raw_text (t ∷ []) = sym (append-nil (raw_of t))
join-raw_text (t ∷ u ∷ ts) =
    ap (λ r. (raw_of t ++ []) ++ r) (join-raw_text (u ∷ ts))
    ∙ ap (λ r. r ++ raw_text (u ∷ ts)) (append-nil (raw_of t))

-- Let `w` be a non-empty word that holds no whitespace and begins with neither a quote nor a
-- Unicode space, and let whitespace and a message follow it, or nothing; the message does not begin
-- with whitespace and holds no quote. Then `w` is the command, and the raw arguments put together
-- are the message.
pub extract_trigger_verbatim :
    (w spaces msg : Str)
    → IsWord w
    → Follows spaces msg
    → StartsSolid msg
    → NoQuote msg
    → (p : Parsed) × (extract_trigger (w ++ (spaces ++ msg)) ≡ extracted p)
      × (p.cmd ≡ w)
      × (join p.raw [] ≡ msg)
extract_trigger_verbatim [] spaces msg h k m q = absurd h
extract_trigger_verbatim (c ∷ w) spaces msg h k m q =
    let f = length (w ++ (spaces ++ msg)) in
    let ts = find_all f msg in
    (
      record { cmd = c ∷ w; raw = map raw_of ts; arg = map arg_of ts },
      extract_trigger_of_word (c ∷ w) (spaces ++ msg) h
          ∙ ap (λ t. from_tokens (find_all (suc f) t)) (sym (append_assoc (c ∷ w) spaces msg))
          ∙ ap from_tokens (find_all_word f (c ∷ w) spaces msg h k)
          ∙ (unfold from_tokens arg_of in refl),
      refl,
      join-raw_text ts
          ∙ raw_text-find_all f msg
              (omega (arith, length-append w (spaces ++ msg), length-append spaces msg)) q m,
    )
