-- ===== src/Config/Merge/Copied.antt =====
-- Copy gives the value back.
use goop.Base.{
  ◌≡◌, refl, ap, true, false, List, [], ◌∷◌, ◌++◌, map, Option, none, some, Str, All, All-map, inl,
  inr, Bool-cases,
}
use goop.Config.Merge.{
  Scalars, GoType, FieldTypes, scalar, pointer, slice, map_to, struct, end, field, Options, Value,
  Values, zero_value, zero_values, is_empty, merge, merge_fields, merge_maps, made_or, old_entries,
  copy,
}
use goop.Config.Merge.Entries.{IsFoldMap, olds, news, news_into_nothing}

map-same {ℓ} : {A : Type ℓ} (f : A → A) (l : List A) → All (λ x. f x ≡ x) l → map f l ≡ l
map-same f [] h = refl
map-same f (x ∷ l) (h, hs) = rw h (ap (λ m. x ∷ m) (map-same f l hs))

-- A map that is nil or has an entry.
abbrev pub IsMade {ℓ} : {A : Type ℓ} → (A → Type 0) → Option (List (Str × A)) → Type 0
IsMade P none = Unit
IsMade P (some []) = ⊥
IsMade P (some (p ∷ m)) = IsFoldMap (p ∷ m) × All (λ q. P q.1) (p ∷ m)

abbrev pub overwriting : Options
overwriting = record { overwrite = true; delete = false }

module _ (S : Scalars) where
  -- No map is empty but not nil, and none has keys that are equal but for their case.
  unfoldable mutual
    unfolding Value IsFoldMap

    pub IsCopyable : (t : GoType) → Value S t → Type 0
    IsCopyable scalar v = Unit
    IsCopyable (pointer fs) none = Unit
    IsCopyable (pointer fs) (some v) = AreCopyable fs v
    IsCopyable (slice t) none = Unit
    IsCopyable (slice t) (some l) = All (λ v. IsCopyable t v) l
    IsCopyable (map_to t) m = IsMade (IsCopyable t) m
    IsCopyable (struct fs) v = AreCopyable fs v

    pub AreCopyable : (fs : FieldTypes) → Values S fs → Type 0
    AreCopyable end v = Unit
    AreCopyable (field t fs) (v, vs) = IsCopyable t v × AreCopyable fs vs

  into_nothing :
      (t : GoType) (m : Option (List (Str × Value S t)))
      → ((v : Value S t) → IsCopyable t v → merge S overwriting t (zero_value S t) v ≡ v)
      → IsMade (IsCopyable t) m
      → merge_maps (merge S overwriting t) (zero_value S t) false none m ≡ m
  unfolding merge_maps old_entries
  into_nothing t none same h = refl
  into_nothing t (some []) same h = absurd h
  into_nothing t (some (p ∷ m)) same (h, hs) =
      let f = merge S overwriting t in
      let z = zero_value S t in
      made (olds f z [] (p ∷ m)) (news f z [] (p ∷ m)) refl (
        news_into_nothing f z (p ∷ m) h
          (All-map (λ q. IsCopyable t q.1) (λ q. f z q.1 ≡ q.1) (p ∷ m) (λ q. same q.1) hs))
    where
      made :
          (a b : List (Str × Value S t)) → a ≡ [] → b ≡ p ∷ m → made_or none (a ++ b) ≡ some (p ∷ m)
      made a b e e' = rw (e, e') refl

  mutual
    unfolding merge IsCopyable

    merge_into_zero :
        (t : GoType) (v : Value S t) → IsCopyable t v → merge S overwriting t (zero_value S t) v ≡ v
    merge_into_zero scalar v h = elim (Bool-cases (S.is_zero S.zero)) [
      | inl e ↦ rw e refl
      | inr e ↦ rw e refl
    ]
    merge_into_zero (pointer fs) none h = refl
    merge_into_zero (pointer fs) (some v) h = ap some (merge_fields_into_zero fs v h)
    merge_into_zero (slice t) none h = refl
    merge_into_zero (slice t) (some l) h = ap some (
        map-same (merge S overwriting t (zero_value S t)) l (
          All-map (IsCopyable t) (λ x. merge S overwriting t (zero_value S t) x ≡ x) l
            (merge_into_zero t) h))
    merge_into_zero (map_to t) m h = into_nothing t m (merge_into_zero t) h
    merge_into_zero (struct fs) v h = merge_fields_into_zero fs v h

    merge_fields_into_zero :
        (fs : FieldTypes) (v : Values S fs)
        → AreCopyable fs v
        → merge_fields S overwriting fs (zero_values S fs) v ≡ v
    merge_fields_into_zero end v h = refl
    merge_fields_into_zero (field t fs) (v, vs) (h, hs) =
        let same = merge_into_zero t v h in
        let rest = merge_fields_into_zero fs vs hs in
        elim (Bool-cases (is_empty S t v)) [
          | inl e ↦ rw (e, same, rest) refl
          | inr e ↦ rw (e, same, rest) refl
        ]

  -- A copy of a value without maps that are empty but not nil, and without keys that are equal but for
  -- their case, is the value itself.
  pub copy-same : (t : GoType) (v : Value S t) → IsCopyable t v → copy S t v ≡ v
  unfolding copy
  copy-same t v h = merge_into_zero t v h
