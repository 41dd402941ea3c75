-- ===== src/Golang/Glob/Find.antt =====
-- Patterns that find plain text anywhere.
use goop.Base.{
  ℕ, zero, suc, ◌≤◌, ◌≡◌, ◌≢◌, ◌↔◌, refl, sym, ap, ◌∙◌, inl, inr, true, false, List, [], ◌∷◌, ◌++◌,
  map, some, arith, Str, length, length-append, ◌==◌, All, All-front, All-back, Bool-cases,
}
use mathlib.Core.Path.{subst}
use goop.Golang.Glob.{Item, star, lit, item_at, parse_items, matches_items, glob}
use goop.Golang.Glob.Laws.{IsPlain, item_at_plain}

-- The pattern that finds `s` anywhere.
abbrev pub anywhere : Str → Str
anywhere s = b'*' ∷ s ++ b'*' ∷ []

abbrev find_items : Str → List Item
find_items s = map lit s ++ star ∷ []

parse_items-find :
    (f : ℕ) (s : Str)
    → suc (length s) ≤ f
    → All IsPlain s
    → parse_items f (s ++ b'*' ∷ []) ≡ some (find_items s)
unfolding parse_items item_at
parse_items-find zero s fits h = absurd (omega arith)
parse_items-find (suc zero) [] fits h = refl
parse_items-find (suc (suc f)) [] fits h = refl
parse_items-find (suc f) (c ∷ s) fits h =
    rw (item_at_plain c (s ++ b'*' ∷ []) h.0, parse_items)
      (rw (parse_items-find f s (omega arith) h.1) refl)

abbrev pub NoSlash : ℕ → Type 0
NoSlash c = c ≢ b'/'

matches_items-star : (s : Str) → All NoSlash s → matches_items (star ∷ []) s ≡ true
unfolding matches_items
matches_items-star [] h = refl
matches_items-star (c ∷ s) h =
    let e : (c == b'/') ≡ false = ground arith in rw (e, matches_items) (matches_items-star s h.1)

-- Text that begins with `r`.
matches_items-find : (r s : Str) → All NoSlash s → matches_items (find_items r) (r ++ s) ≡ true
unfolding matches_items
matches_items-find [] s h = matches_items-star s h
matches_items-find (c ∷ r) s h =
    let e : (c == c) ≡ true = ground arith in rw e (matches_items-find r s h)

matches_items-found : (r s : Str) → matches_items (find_items r) s ≡ true → (b : Str) × (s ≡ r ++ b)
unfolding matches_items
matches_items-found [] s h = (s, refl)
matches_items-found (c ∷ r) [] h = cc
matches_items-found (c ∷ r) (d ∷ s) h = elim (Bool-cases (c == d)) [
  | inl e ↦
      let same : c ≡ d = ground arith in
      let (b, rest) = matches_items-found r s (rw e at h) in (b, cc)
  | inr e ↦ let no = rw e at h in cc
]

-- A star takes any text without a slash.
matches_items-skip :
    (is : List Item) (a s : Str)
    → All NoSlash a
    → matches_items is s ≡ true
    → matches_items (star ∷ is) (a ++ s) ≡ true
unfolding matches_items
matches_items-skip is [] [] h m = m
matches_items-skip is [] (d ∷ s) h m = rw (m, matches_items) refl
matches_items-skip is (c ∷ a) s h m = elim (Bool-cases (matches_items is (c ∷ a ++ s))) [
  | inl e ↦ rw (e, matches_items) refl
  | inr e ↦
      let no : (c == b'/') ≡ false = ground arith in
      rw (e, no, matches_items) (matches_items-skip is a s h.1 m)
]

matches_items-skipped :
    (is : List Item) (s : Str)
    → matches_items (star ∷ is) s ≡ true
    → (a : Str) × (b : Str) × (s ≡ a ++ b) × (matches_items is b ≡ true)
unfolding matches_items
matches_items-skipped is [] h = ([], [], refl, h)
matches_items-skipped is (c ∷ s) h = elim (Bool-cases (matches_items is (c ∷ s))) [
  | inl e ↦ ([], c ∷ s, refl, e)
  | inr e ↦ elim (Bool-cases (c == b'/')) [
    | inl y ↦ let no = rw (e, y, matches_items) at h in cc
    | inr n ↦
        let (a, b, whole, m) = matches_items-skipped is s (rw (e, n, matches_items) at h) in
        (c ∷ a, b, ap (λ t. c ∷ t) whole, m)
  ]
]

glob-anywhere :
    (r s : Str) → All IsPlain r → glob (anywhere r) s ≡ matches_items (star ∷ find_items r) s
unfolding glob parse_items item_at
glob-anywhere r s h =
    let enough = length-append r (b'*' ∷ []) in
    rw (parse_items-find (length (r ++ b'*' ∷ [])) r (omega arith) h) refl

-- The pattern `*r*`, for plain text `r`, matches the texts that contain `r`.
pub glob-anywhere_iff :
    (r s : Str)
    → All IsPlain r
    → All NoSlash s
    → (glob (anywhere r) s ≡ true) ↔ ((a : Str) × (b : Str) × (s ≡ a ++ (r ++ b)))
glob-anywhere_iff r s plain flat = (
  λ h.
      let (a, behind, whole, m) =
        matches_items-skipped (find_items r) s (sym (glob-anywhere r s plain) ∙ h) in
      let (b, more) = matches_items-found r behind m in (a, b, whole ∙ ap (λ t. a ++ t) more),
  λ (a, b, whole).
      let flat' = subst (All NoSlash) whole flat in
      let flat_a = All-front NoSlash a (r ++ b) flat' in
      let flat_b = All-back NoSlash r b (All-back NoSlash a (r ++ b) flat') in
      glob-anywhere r s plain
      ∙ rw whole
          (matches_items-skip (find_items r) a (r ++ b) flat_a (matches_items-find r b flat_b)),
)
