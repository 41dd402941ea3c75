-- ===== src/Golang/Strings/Laws.antt =====
-- What the proofs use of the string functions.
use goop.Base.{
  ℕ, ◌≡◌, refl, ◌==◌, true, ◌&&◌, [], ◌∷◌, arith, Str, str_eq_refl, false, ◌⊎◌, ◌∙◌, inl, inr,
  Bool-cases, str_eq_left, str_eq, ap, sym, append-nil, append_assoc, All, ◌++◌,
}
use goop.Golang.Strings.{lower_char, to_lower, equal_fold, split_from}

lower_char_idem : (c : ℕ) → lower_char (lower_char c) ≡ lower_char c
lower_char_idem c = ground arith

pub to_lower_idem : (s : Str) → to_lower (to_lower s) ≡ to_lower s
unfolding to_lower
to_lower_idem [] = refl
to_lower_idem (c ∷ s) = cc (lower_char_idem c, to_lower_idem s)

pub equal_fold_refl : (s : Str) → equal_fold s s ≡ true
unfolding equal_fold
equal_fold_refl s = str_eq_refl (to_lower s)

pub equal_fold-cons :
    (c d : ℕ) (s t : Str)
    → equal_fold (c ∷ s) (d ∷ t) ≡ (lower_char c == lower_char d && equal_fold s t)
unfolding equal_fold
equal_fold-cons c d s t = refl

-- A text is not equal to both of two that differ, whatever the case.
pub equal_fold_apart :
    (k a b : Str) → equal_fold a b ≡ false → (equal_fold k a ≡ false) ⊎ (equal_fold k b ≡ false)
unfolding equal_fold
equal_fold_apart k a b h = elim (Bool-cases (str_eq (to_lower k) (to_lower a))) [
  | inl e ↦ inr (str_eq_left (to_lower k) (to_lower a) (to_lower b) e ∙ h)
  | inr n ↦ inl n
]

-- A part without separators is put together before the text is split on.
pub split_from-part :
    (sep : ℕ) (cur s rest : Str)
    → All (λ c. (c == sep) ≡ false) s
    → split_from sep cur (s ++ rest) ≡ split_from sep (cur ++ s) rest
unfolding split_from
split_from-part sep cur [] rest h = ap (λ x. split_from sep x rest) (sym (append-nil cur))
split_from-part sep cur (c ∷ s) rest h =
    rw (h.0, split_from)
      (split_from-part sep (cur ++ c ∷ []) s rest h.1
        ∙ ap (λ x. split_from sep x rest) (append_assoc cur (c ∷ []) s))
