-- ===== src/Gateway/Access/Names.antt =====
-- What `UnmarshalText` returns: its range, its errors, and its overflow.
use goop.Base.{
  ℕ, suc, ◌-◌, ◌<◌, ◌≡◌, ◌≢◌, refl, true, List, [], ◌∷◌, ◌++◌, arith, Str, codes, take, length,
  Option, none, some, ok, Option-cases, inl, inr, All, All-both, >>=-eq-ok,
}
use goop.Base.Int.{pos, negsuc, ◌+ℤ◌, two31, wrap32, wrap32-IsInt32, IsInt32}
use goop.Golang.Strings.{equal_fold}
use goop.Golang.Strings.Laws.{equal_fold_refl, equal_fold-cons}
use goop.Golang.Strconv.Errors.{FailsAsNumber, FailsAsNumber-bind, parse_int-FailsAsNumber}
use goop.Golang.Strconv.{itoa, parse_int}
use goop.Gateway.Access.{
  AccessLevel, constants, strip_fold, find_submatch, find_level, add_modifier, from_submatch,
  unmarshal_text,
}
use goop.Gateway.Access.RoundTrip.{reads_plus_itoa, reads_minus_itoa}

add_modifier-IsInt32 :
    (res : AccessLevel) (m : Str) {l : AccessLevel}
    → IsInt32 res
    → add_modifier res m ≡ ok l
    → IsInt32 l
unfolding add_modifier
add_modifier-IsInt32 res [] h e = ground arith
add_modifier-IsInt32 res (c ∷ m) h e =
    let (v, _, same) = >>=-eq-ok (parse_int 32 (c ∷ m)) _ e in
    ground (arith, wrap32-IsInt32 (res +ℤ v))

find_level-IsInt32 :
    (cs : List (Str × AccessLevel)) (s : Str) (l : AccessLevel)
    → All (λ e. IsInt32 e.1) cs
    → find_level cs s ≡ some l
    → IsInt32 l
unfolding find_level
find_level-IsInt32 [] s l h e = cc
find_level-IsInt32 (c ∷ cs) s l h e = ground (arith, find_level-IsInt32 cs s l h.1)

from_submatch-IsInt32 :
    (text : Str) (m : Option (Str × Str)) {l : AccessLevel}
    → from_submatch text m ≡ ok l
    → IsInt32 l
unfolding from_submatch
from_submatch-IsInt32 text none e = add_modifier-IsInt32 (pos 0) text (omega arith) e
from_submatch-IsInt32 text (some (s, m)) e = elim (Option-cases (find_level constants s)) [
  | inl q ↦ cc
  | inr (v, q) ↦
      add_modifier-IsInt32 v m (find_level-IsInt32 constants s v (omega arith) q) (ground arith)
]

-- A level that is read from a text without an error is an `int32`.
unmarshal_text-IsInt32 : (text : Str) {l : AccessLevel} → unmarshal_text text ≡ ok l → IsInt32 l
unfolding unmarshal_text
unmarshal_text-IsInt32 text = from_submatch-IsInt32 text (find_submatch constants text)

-- The text that a group of the pattern holds is found again by the loop over the names.
equal_fold-take :
    (s text rest : Str) → strip_fold s text ≡ some rest → equal_fold (take (length s) text) s ≡ true
unfolding strip_fold
equal_fold-take [] text rest e = equal_fold_refl []
equal_fold-take (c ∷ s) [] rest e = cc
equal_fold-take (c ∷ s) (d ∷ text) rest e =
    ground (arith, equal_fold-take s text rest, equal_fold-cons d c (take (length s) text) s)

find_level_of_submatch :
    (cs : List (Str × AccessLevel)) (text s m : Str)
    → find_submatch cs text ≡ some (s, m)
    → find_level cs s ≢ none
unfolding find_submatch find_level
find_level_of_submatch [] text s m e = cc
find_level_of_submatch ((n, v) ∷ cs) text s m e = elim (Option-cases (strip_fold n text)) [
  | inl q ↦ ground (arith, q, find_level_of_submatch cs text s m)
  | inr (rest, q) ↦
      ground (arith, q, find_level_of_submatch cs text s m, equal_fold-take n text rest q)
]

add_modifier-FailsAsNumber : (res : AccessLevel) (m : Str) → FailsAsNumber (add_modifier res m)
unfolding add_modifier
add_modifier-FailsAsNumber res [] = tt
add_modifier-FailsAsNumber res (c ∷ m) =
    FailsAsNumber-bind (parse_int 32 (c ∷ m)) _ (parse_int-FailsAsNumber 32 (c ∷ m)) (λ v. tt)

from_submatch-FailsAsNumber :
    (text : Str) (m : Option (Str × Str))
    → ((s n : Str) → m ≡ some (s, n) → find_level constants s ≢ none)
    → FailsAsNumber (from_submatch text m)
unfolding from_submatch
from_submatch-FailsAsNumber text none h = add_modifier-FailsAsNumber (pos 0) text
from_submatch-FailsAsNumber text (some (s, n)) h = elim (Option-cases (find_level constants s)) [
  | inl q ↦ absurd (h s n refl q)
  | inr (v, q) ↦ rw q (add_modifier-FailsAsNumber v n)
]

-- Reading a level only fails with an error of the number parser, for its syntax or its range:
-- `ErrUnknownAccess` is never returned.
unmarshal_text-FailsAsNumber : (text : Str) → FailsAsNumber (unmarshal_text text)
unfolding unmarshal_text
unmarshal_text-FailsAsNumber text =
    from_submatch-FailsAsNumber text (find_submatch constants text)
      (find_level_of_submatch constants text)

-- A modifier on the highest level wraps around: for a positive k below 2 ^ 31, "max+k" is read as
-- the level k - 1 above the lowest one.
unmarshal_text-max_plus :
    (k : ℕ)
    → 0 < k
    → k < two31
    → unmarshal_text (codes "max" ++ b'+' ∷ itoa k) ≡ ok (negsuc (two31 - k))
unmarshal_text-max_plus k p h = rw ((reads_plus_itoa k h).0) (unfold wrap32 ◌+ℤ◌ in ground arith)

-- Both readings of one modifier, for each of the names.
reads_modifier :
    (k : ℕ)
    → k < two31
    → All
        (λ e.
          (unmarshal_text (e.0 ++ b'+' ∷ itoa k) ≡ ok (wrap32 (e.1 +ℤ pos k)))
          × (unmarshal_text (e.0 ++ b'-' ∷ itoa (suc k)) ≡ ok (wrap32 (e.1 +ℤ negsuc k))))
        constants
reads_modifier k h =
    All-both (λ e. unmarshal_text (e.0 ++ b'+' ∷ itoa k) ≡ ok (wrap32 (e.1 +ℤ pos k)))
      (λ e. unmarshal_text (e.0 ++ b'-' ∷ itoa (suc k)) ≡ ok (wrap32 (e.1 +ℤ negsuc k))) constants
      (reads_plus_itoa k h) (reads_minus_itoa k h)

-- Reading a level either gives one of 32 bits or fails with an error of the number parser, for its
-- syntax or its range: `ErrUnknownAccess` is never returned. A modifier that is itself a number of 32
-- bits, so "+k" or "-(k+1)" for k below 2 ^ 31, is added to any of the named levels, the empty name
-- included, with wrap-around: that the sum does not fit is no error. So, for a positive k, "max+k" is
-- read as the level k - 1 above the lowest one.
pub unmarshal_text_outcome :
    (text : Str) (k : ℕ)
    → k < two31
    → ((l : AccessLevel) → unmarshal_text text ≡ ok l → IsInt32 l)
      × FailsAsNumber (unmarshal_text text)
      × All
          (λ e.
            (unmarshal_text (e.0 ++ b'+' ∷ itoa k) ≡ ok (wrap32 (e.1 +ℤ pos k)))
            × (unmarshal_text (e.0 ++ b'-' ∷ itoa (suc k)) ≡ ok (wrap32 (e.1 +ℤ negsuc k))))
          constants
      × (0 < k → unmarshal_text (codes "max" ++ b'+' ∷ itoa k) ≡ ok (negsuc (two31 - k)))
unmarshal_text_outcome text k h = (
  λ l e. unmarshal_text-IsInt32 text e,
  unmarshal_text-FailsAsNumber text,
  reads_modifier k h,
  λ p. unmarshal_text-max_plus k p h,
)
