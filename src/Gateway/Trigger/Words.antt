-- ===== src/Gateway/Trigger/Words.antt =====
-- Messages of plain words: the arguments are the words, and the rest of a message is kept verbatim.
use goop.Base.{
  ℕ, zero, suc, ◌≤◌, ◌<◌, ◌≡◌, refl, ap, ◌∙◌, false, List, [], ◌∷◌, ◌++◌, map, append-nil, arith,
  Str, codes, length, length-append, drop, All,
}
use goop.Golang.Strings.{join}
use goop.Gateway.Trigger.{
  is_space, is_re_space, Token, word, raw_of, arg_of, find_all, extracted, from_tokens,
  extract_trigger,
}
use goop.Gateway.Trigger.Fuel.{find_all-some}
use goop.Gateway.Trigger.Text.{IsSolid, StartsSolid, NotQuote, Follows, match_at_lem}

-- A word that the pattern takes whole: no space in it, and no quote in front.
abbrev pub IsWord : Str → Type 0
IsWord [] = ⊥
IsWord (c ∷ w) = (is_space c ≡ false) × NotQuote c × IsSolid (c ∷ w)

abbrev blank : Str
blank = codes " "

abbrev pub tokens_of : List Str → List Token
tokens_of [] = []
tokens_of (w ∷ []) = word w [] ∷ []
tokens_of (w ∷ v ∷ ws) = word w blank ∷ tokens_of (v ∷ ws)

-- The words as `Raw` has them: with the space behind each.
abbrev pub raw_words : List Str → List Str
raw_words [] = []
raw_words (w ∷ []) = w ∷ []
raw_words (w ∷ v ∷ ws) = (w ++ blank) ∷ raw_words (v ∷ ws)

pub find_all-nil : (f : ℕ) → find_all f [] ≡ []
unfolding find_all
find_all-nil zero = refl
find_all-nil (suc f) = refl

-- One word, and what the rest of the text gives.
pub find_all_word :
    (f : ℕ) (w spaces rest : Str)
    → IsWord w
    → Follows spaces rest
    → find_all (suc f) (w ++ spaces ++ rest) ≡ word w spaces ∷ find_all f rest
find_all_word f [] spaces rest h k = absurd h
find_all_word f (c ∷ w) spaces rest h k =
    find_all-some f c (w ++ spaces ++ rest) (word (c ∷ w) spaces) rest
      (match_at_lem c w spaces rest h.1 h.2 k)

join-StartsSolid : (v : Str) (ws : List Str) → IsWord v → StartsSolid (join (v ∷ ws) blank)
unfolding join
join-StartsSolid [] ws h = absurd h
join-StartsSolid (c ∷ v) [] h = h.2.0
join-StartsSolid (c ∷ v) (w ∷ ws) h = h.2.0

blank-Follows : (rest : Str) → StartsSolid rest → Follows blank rest
unfolding is_re_space
blank-Follows rest h = ((refl, tt), h)

pos-length : (w : Str) → IsWord w → 0 < length w
pos-length [] h = absurd h
pos-length (c ∷ w) h = omega arith

last_word : (f : ℕ) (w : Str) → IsWord w → find_all (suc f) w ≡ word w [] ∷ []
last_word f w h =
    let bare : w ++ [] ++ [] ≡ w = simp append-nil in
    (rw bare at (find_all_word f w [] [] h refl)) ∙ ap (λ ts. word w [] ∷ ts) (find_all-nil f)

find_all_words :
    (f : ℕ) (ws : List Str)
    → All IsWord ws
    → length (join ws blank) ≤ f
    → find_all f (join ws blank) ≡ tokens_of ws
unfolding join
find_all_words f [] h fits = find_all-nil f
find_all_words zero (w ∷ []) h fits = absurd (omega (arith, pos-length w h.0))
find_all_words (suc f) (w ∷ []) h fits = last_word f w h.0
find_all_words zero (w ∷ v ∷ ws) h fits =
    let rest = join (v ∷ ws) blank in
    absurd (omega (arith, pos-length w h.0, length-append (w ++ blank) rest, length-append w blank))
find_all_words (suc f) (w ∷ v ∷ ws) h fits =
    let rest = join (v ∷ ws) blank in
    let shorter : length rest ≤ f =
      omega (arith, pos-length w h.0, length-append (w ++ blank) rest, length-append w blank) in
    rw (find_all_word f w blank rest h.0 (blank-Follows rest (join-StartsSolid v ws h.1.0)))
      (ap (λ ts. word w blank ∷ ts) (find_all_words f (v ∷ ws) h.1 shorter))

args-tokens_of : (ws : List Str) → map arg_of (tokens_of ws) ≡ ws
unfolding arg_of
args-tokens_of [] = refl
args-tokens_of (w ∷ []) = refl
args-tokens_of (w ∷ v ∷ ws) = ap (λ ts. w ∷ ts) (args-tokens_of (v ∷ ws))

raws-tokens_of : (ws : List Str) → map raw_of (tokens_of ws) ≡ raw_words ws
unfolding raw_of
raws-tokens_of [] = refl
raws-tokens_of (w ∷ []) = ap (λ t. t ∷ []) (append-nil w)
raws-tokens_of (w ∷ v ∷ ws) = ap (λ ts. (w ++ blank) ∷ ts) (raws-tokens_of (v ∷ ws))

extract_trigger_of_head :
    (c : ℕ) (s : Str)
    → is_space c ≡ false
    → extract_trigger (c ∷ s) ≡ from_tokens (find_all (length (c ∷ s)) (c ∷ s))
unfolding extract_trigger
extract_trigger_of_head c s h = rw h

pub extract_trigger_of_word :
    (w rest : Str)
    → IsWord w
    → extract_trigger (w ++ rest) ≡ from_tokens (find_all (length (w ++ rest)) (w ++ rest))
extract_trigger_of_word [] rest h = absurd h
extract_trigger_of_word (c ∷ w) rest h = extract_trigger_of_head c (w ++ rest) h.0

from_tokens_of :
    (w : Str) (ws : List Str)
    → from_tokens (tokens_of (w ∷ ws))
      ≡ extracted (record {
        cmd = w;
        raw = map raw_of (drop 1 (tokens_of (w ∷ ws)));
        arg = map arg_of (drop 1 (tokens_of (w ∷ ws)));
      })
unfolding from_tokens arg_of
from_tokens_of w [] = refl
from_tokens_of w (v ∷ ws) = refl

drop-tokens_of : (w : Str) (ws : List Str) → drop 1 (tokens_of (w ∷ ws)) ≡ tokens_of ws
drop-tokens_of w [] = refl
drop-tokens_of w (v ∷ ws) = refl

-- Non-empty words that hold no whitespace and begin with neither a quote nor a Unicode space, with
-- one blank between them, are read as the command and its arguments, word for word.
pub extract_trigger-join :
    (w : Str) (ws : List Str)
    → All IsWord (w ∷ ws)
    → extract_trigger (join (w ∷ ws) blank)
      ≡ extracted (record { cmd = w; raw = raw_words ws; arg = ws })
unfolding join
extract_trigger-join w ws h =
    whole w ws h
    ∙ ap from_tokens (find_all_words (length (join (w ∷ ws) blank)) (w ∷ ws) h (omega arith))
    ∙ from_tokens_of w ws
    ∙ rw (drop-tokens_of w ws, args-tokens_of ws, raws-tokens_of ws)
  where
    whole :
        (w : Str) (ws : List Str)
        → All IsWord (w ∷ ws)
        → extract_trigger (join (w ∷ ws) blank)
          ≡ from_tokens (find_all (length (join (w ∷ ws) blank)) (join (w ∷ ws) blank))
    whole [] ws h = absurd (h.0)
    whole (c ∷ w) [] h = extract_trigger_of_head c w h.0.0
    whole (c ∷ w) (v ∷ ws) h = extract_trigger_of_head c _ h.0.0
