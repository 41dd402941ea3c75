-- ===== src/Config/Merge/Entries.antt =====
-- The merge of two maps whose keys are not equal but for their case.
use goop.Base.{
  ◌≡◌, refl, sym, ap, ◌∙◌, inl, inr, Bool, true, false, ◌||◌, List, [], ◌∷◌, ◌++◌, Option, none,
  some, Str, str_eq_sym, str_eq_left, All, All-map, Bool-cases, Option-cases,
}
use mathlib.Core.Path.{subst}
use mathlib.Core.List.{Memᴰ}
use goop.Golang.Strings.{equal_fold, to_lower}
use goop.Golang.Strings.Laws.{equal_fold_refl}
use goop.Config.Merge.{last_fold, is_there, old_entries, new_entries}

-- No two keys are equal but for their case.
unfoldable pub IsFoldMap {ℓ} : {A : Type ℓ} → List (Str × A) → Type 0
unfolding last_fold
IsFoldMap [] = Unit
IsFoldMap ((k, v) ∷ m) = (is_there (last_fold k m) ≡ false) × IsFoldMap m

-- A map, or nil, all of whose values have a property.
abbrev pub IsMapOf {ℓ} : {A : Type ℓ} → (A → Type 0) → Option (List (Str × A)) → Type 0
IsMapOf P none = Unit
IsMapOf P (some m) = IsFoldMap m × All (λ p. P p.1) m

pub equal_fold_sym : (a b : Str) → equal_fold a b ≡ equal_fold b a
unfolding equal_fold
equal_fold_sym a b = str_eq_sym (to_lower a) (to_lower b)

pub equal_fold_left : (j k i : Str) → equal_fold j k ≡ true → equal_fold j i ≡ equal_fold k i
unfolding equal_fold
equal_fold_left j k i h = str_eq_left (to_lower j) (to_lower k) (to_lower i) h

module _ {ℓ} {A : Type ℓ} where
  -- A key is looked up alike under its equals.
  pub last_fold_equal :
      (j k : Str) (m : List (Str × A)) → equal_fold j k ≡ true → last_fold j m ≡ last_fold k m
  unfolding last_fold
  last_fold_equal j k [] h = refl
  last_fold_equal j k ((i, v) ∷ m) h =
      let ih = last_fold_equal j k m h in
      let same = equal_fold_left j k i h in
      elim (Option-cases (last_fold k m)) [
        | inl e ↦ rw (ih, e, same) refl
        | inr (w, e) ↦ rw (ih, e) refl
      ]

  pub there-cons :
      (j k : Str) (v : A) (m : List (Str × A))
      → is_there (last_fold j ((k, v) ∷ m)) ≡ is_there (last_fold j m) || equal_fold j k
  unfolding last_fold
  there-cons j k v m = elim (Option-cases (last_fold j m)) [
    | inl e ↦ elim (Bool-cases (equal_fold j k)) [ inl y ↦ rw (e, y) refl | inr n ↦ rw (e, n) refl ]
    | inr (w, e) ↦ rw e refl
  ]

  abbrev pub or_first : Option A → Option A → Option A
  or_first first none = first
  or_first first (some w) = some w

  pub last_fold-append :
      (k : Str) (a b : List (Str × A))
      → last_fold k (a ++ b) ≡ or_first (last_fold k a) (last_fold k b)
  unfolding last_fold
  last_fold-append k [] b = elim (Option-cases (last_fold k b)) [
    | inl e ↦ rw e refl
    | inr (w, e) ↦ rw e refl
  ]
  last_fold-append k ((j, v) ∷ a) b =
      let ih = last_fold-append k a b in
      elim (Option-cases (last_fold k b)) [ inl e ↦ rw (ih, e) refl | inr (w, e) ↦ rw (ih, e) refl ]

  pub there-append :
      (k : Str) (a b : List (Str × A))
      → is_there (last_fold k a) ≡ false
      → is_there (last_fold k (a ++ b)) ≡ is_there (last_fold k b)
  there-append k a b h = elim (Option-cases (last_fold k a)) [
    | inl e ↦ elim (Option-cases (last_fold k b)) [
      | inl e' ↦ rw (last_fold-append k a b, e, e') refl
      | inr (w, e') ↦ rw (last_fold-append k a b, e, e') refl
    ]
    | inr (w, e) ↦ let there = rw e at h in cc
  ]

  -- In a map, the entries are those that are looked up.
  pub looked_up : (m : List (Str × A)) → IsFoldMap m → All (λ p. last_fold p.0 m ≡ some p.1) m
  unfolding IsFoldMap last_fold
  looked_up [] h = tt
  looked_up ((k, v) ∷ m) (first, h) = (
    elim (Option-cases (last_fold k m)) [
      | inl e ↦ rw (e, equal_fold_refl k) refl
      | inr (w, e) ↦ let there = rw e at first in cc
    ],
    All-map (λ p. last_fold p.0 m ≡ some p.1) (λ p. last_fold p.0 ((k, v) ∷ m) ≡ some p.1) m
        (λ p e. rw e refl) (looked_up m h),
  )

  pub last_fold-All :
      (P : A → Type 0) (k : Str) (m : List (Str × A)) (w : A)
      → All (λ p. P p.1) m
      → last_fold k m ≡ some w
      → P w
  unfolding last_fold
  last_fold-All P k [] w h e = cc
  last_fold-All P k ((j, v) ∷ m) w (first, h) e = elim (Option-cases (last_fold k m)) [
    | inr (x, found) ↦
        let same : some x ≡ some w = rw found at e in last_fold-All P k m w h (found ∙ same)
    | inl none_there ↦ elim (Bool-cases (equal_fold k j)) [
      | inl y ↦
          let same : some v ≡ some w = rw (none_there, y) at e in
          let v_w : v ≡ w = cc in subst P v_w first
      | inr n ↦ let none_some : none ≡ some w = rw (none_there, n) at e in cc
    ]
  ]

module _ {ℓ} {A : Type ℓ} (merged : A → A → A) (zero : A) where
  abbrev pub olds : List (Str × A) → List (Str × A) → List (Str × A)
  olds dst src = old_entries merged zero false dst src

  abbrev pub news : List (Str × A) → List (Str × A) → List (Str × A)
  news dst src = new_entries merged zero false dst src

  abbrev pub new_value : A → Option A → A
  new_value old none = old
  new_value old (some v) = merged old v

  -- What becomes of the first entry.
  pub olds-cons :
      (k : Str) (old : A) (dst src : List (Str × A))
      → is_there (last_fold k dst) ≡ false
      → olds ((k, old) ∷ dst) src ≡ (k, new_value old (last_fold k src)) ∷ olds dst src
  unfolding old_entries
  olds-cons k old dst src h = elim (Option-cases (last_fold k src)) [
    | inl e ↦ rw (h, e) refl
    | inr (w, e) ↦ rw (h, e) refl
  ]

  -- Merging keeps the keys that are there.
  pub there_old :
      (j : Str) (dst src : List (Str × A))
      → IsFoldMap dst
      → is_there (last_fold j (olds dst src)) ≡ is_there (last_fold j dst)
  unfolding old_entries IsFoldMap
  there_old j [] src h = refl
  there_old j ((k, old) ∷ dst) src (first, h) =
      let x = new_value old (last_fold k src) in
      ap (λ m. is_there (last_fold j m)) (olds-cons k old dst src first)
      ∙ there-cons j k x (olds dst src)
      ∙ ap (λ b. b || equal_fold j k) (there_old j dst src h)
      ∙ sym (there-cons j k old dst)

  -- A key of `src` is there in the end.
  pub there_new :
      (j : Str) (dst src : List (Str × A))
      → IsFoldMap src
      → is_there (last_fold j src) ≡ true
      → is_there (last_fold j dst) ≡ false
      → is_there (last_fold j (news dst src)) ≡ true
  unfolding new_entries IsFoldMap last_fold
  there_new j dst [] h there absent = cc
  there_new j dst ((k, v) ∷ src) (first, h) there absent = elim (Bool-cases (equal_fold j k)) [
    | inl y ↦
        let gone : is_there (last_fold k dst) ≡ false =
          ap is_there (sym (last_fold_equal j k dst y)) ∙ absent in
        rw (first, gone)
          (there-cons j k (merged zero v) (news dst src)
            ∙ ap (λ b. is_there (last_fold j (news dst src)) || b) y
            ∙ or_true (is_there (last_fold j (news dst src))))
    | inr n ↦
        let later : is_there (last_fold j src) ≡ true =
          or_false (is_there (last_fold j src))
          ∙ ap (λ b. is_there (last_fold j src) || b) (sym n)
          ∙ sym (there-cons j k v src)
          ∙ there in
        let ih = there_new j dst src h later absent in
        elim (Bool-cases (is_there (last_fold k src) || is_there (last_fold k dst))) [
          | inl skip ↦ rw skip ih
          | inr take ↦
              rw take
                (there-cons j k (merged zero v) (news dst src) ∙ ap (λ b. b || equal_fold j k) ih)
        ]
  ]
    where
      or_true : (b : Bool) → (b || true) ≡ true
      or_true true = refl
      or_true false = refl

      or_false : (b : Bool) → b ≡ (b || false)
      or_false true = refl
      or_false false = refl

  -- Every key of `src` is there after a merge.
  pub there_again :
      (dst src : List (Str × A))
      → IsFoldMap dst
      → IsFoldMap src
      → (j : Str) → is_there (last_fold j src) ≡ true
      → is_there (last_fold j (olds dst src ++ news dst src)) ≡ true
  there_again dst src hd hs j there = elim (Bool-cases (is_there (last_fold j dst))) [
    | inl old ↦
        there_front (last_fold j (olds dst src)) (last_fold j (news dst src))
          (there_old j dst src hd ∙ old) (last_fold-append j (olds dst src) (news dst src))
    | inr new ↦
        there-append j (olds dst src) (news dst src) (there_old j dst src hd ∙ new)
        ∙ there_new j dst src hs there new
  ]
    where
      there_front :
          (a b : Option A)
          → is_there a ≡ true
          → last_fold j (olds dst src ++ news dst src) ≡ or_first a b
          → is_there (last_fold j (olds dst src ++ news dst src)) ≡ true
      there_front none b h e = cc
      there_front (some v) none h e = ap is_there e
      there_front (some v) (some w) h e = ap is_there e

  -- What becomes of each entry.
  pub olds-Mem :
      (dst src : List (Str × A))
      → IsFoldMap dst
      → All (λ p. Memᴰ (p.0, new_value p.1 (last_fold p.0 src)) (olds dst src)) dst
  unfolding IsFoldMap
  olds-Mem [] src h = tt
  olds-Mem ((k, old) ∷ dst) src (first, h) =
      let x : Str × A = (k, new_value old (last_fold k src)) in
      subst (λ m. Memᴰ x m × All (λ p. Memᴰ (p.0, new_value p.1 (last_fold p.0 src)) m) dst)
        (sym (olds-cons k old dst src first))
        (
          Memᴰ.head refl,
          All-map (λ p. Memᴰ (p.0, new_value p.1 (last_fold p.0 src)) (olds dst src))
              (λ p. Memᴰ (p.0, new_value p.1 (last_fold p.0 src)) (x ∷ olds dst src)) dst
              (λ p. Memᴰ.tail) (olds-Mem dst src h),
        )

  -- What becomes of each entry of `src` that is new.
  pub news-Mem :
      (dst src : List (Str × A))
      → IsFoldMap src
      → All
          (λ p. is_there (last_fold p.0 dst) ≡ false → Memᴰ (p.0, merged zero p.1) (news dst src))
          src
  unfolding new_entries IsFoldMap
  news-Mem dst [] h = tt
  news-Mem dst ((k, v) ∷ src) (first, h) =
      let P = λ (m : List (Str × A)) (p : Str × A).
        is_there (last_fold p.0 dst) ≡ false → Memᴰ (p.0, merged zero p.1) m in
      let ih : All (P (news dst src)) src = news-Mem dst src h in
      elim (Bool-cases (is_there (last_fold k dst))) [
        | inl old ↦
            let same : news dst src ≡ news dst ((k, v) ∷ src) = rw (first, old) refl in
            (λ new. cc, subst (λ m. All (P m) src) same ih)
        | inr new ↦
            let same : (k, merged zero v) ∷ news dst src ≡ news dst ((k, v) ∷ src) =
              rw (first, new) refl in
            subst (λ m. P m (k, v) × All (P m) src) same
              (
                λ n. Memᴰ.head refl,
                All-map (P (news dst src)) (P ((k, merged zero v) ∷ news dst src)) src
                    (λ p f n. Memᴰ.tail (f n)) ih,
              )
      ]

  -- A merge into nothing.
  pub news_into_nothing :
      (src : List (Str × A))
      → IsFoldMap src
      → All (λ p. merged zero p.1 ≡ p.1) src
      → news [] src ≡ src
  unfolding new_entries IsFoldMap last_fold
  news_into_nothing [] h e = refl
  news_into_nothing ((k, v) ∷ src) (first, h) (e, es) =
      rw first (rw e (ap (λ m. (k, v) ∷ m) (news_into_nothing src h es)))
