-- ===== src/Config/Merge/Distinct.antt =====
-- Values without keys that are equal but for their case, and merging such values twice.
use goop.Base.{◌≡◌, refl, ap, inl, inr, [], ◌∷◌, none, some, All, Bool-cases}
use goop.Config.Merge.{
  Scalars, GoType, FieldTypes, scalar, pointer, slice, map_to, struct, end, field, Value, Values,
  zero_value, zero_values, is_empty, merge, merge_fields, fill,
}
use goop.Config.Merge.Entries.{IsFoldMap, IsMapOf}
use goop.Config.Merge.Again.{merge_maps_again}

module _ (S : Scalars) where
  unfoldable mutual
    unfolding Value IsFoldMap

    pub IsDistinct : (t : GoType) → Value S t → Type 0
    IsDistinct scalar v = Unit
    IsDistinct (pointer fs) none = Unit
    IsDistinct (pointer fs) (some v) = AreDistinct fs v
    IsDistinct (slice t) none = Unit
    IsDistinct (slice t) (some l) = All (λ v. IsDistinct t v) l
    IsDistinct (map_to t) m = IsMapOf (IsDistinct t) m
    IsDistinct (struct fs) v = AreDistinct fs v

    pub AreDistinct : (fs : FieldTypes) → Values S fs → Type 0
    AreDistinct end v = Unit
    AreDistinct (field t fs) (v, vs) = IsDistinct t v × AreDistinct fs vs

  mutual
    unfolding zero_value IsDistinct

    pub zero-IsDistinct : (t : GoType) → IsDistinct t (zero_value S t)
    zero-IsDistinct scalar = tt
    zero-IsDistinct (pointer fs) = tt
    zero-IsDistinct (slice t) = tt
    zero-IsDistinct (map_to t) = tt
    zero-IsDistinct (struct fs) = zero-AreDistinct fs

    pub zero-AreDistinct : (fs : FieldTypes) → AreDistinct fs (zero_values S fs)
    zero-AreDistinct end = tt
    zero-AreDistinct (field t fs) = (zero-IsDistinct t, zero-AreDistinct fs)

  mutual
    unfolding merge IsDistinct

    -- Filling in the same defaults again changes nothing.
    pub merge_again :
        (t : GoType) (v d : Value S t)
        → IsDistinct t v
        → IsDistinct t d
        → merge S fill t (merge S fill t v d) d ≡ merge S fill t v d
    merge_again scalar v d h k = elim (Bool-cases (S.is_zero v)) [
      | inl z ↦ rw z (elim (Bool-cases (S.is_zero d)) [ inl y ↦ rw y refl | inr n ↦ rw n refl ])
      | inr n ↦ rw (n, n) refl
    ]
    merge_again (pointer fs) v none h k = refl
    merge_again (pointer fs) none (some d) h k =
        ap some (merge_fields_again fs (zero_values S fs) d (zero-AreDistinct fs) k)
    merge_again (pointer fs) (some v) (some d) h k = ap some (merge_fields_again fs v d h k)
    merge_again (slice t) none none h k = refl
    merge_again (slice t) (some []) none h k = refl
    merge_again (slice t) (some (x ∷ l)) none h k = refl
    merge_again (slice t) none (some []) h k = refl
    merge_again (slice t) none (some (y ∷ d)) h k = refl
    merge_again (slice t) (some []) (some []) h k = refl
    merge_again (slice t) (some []) (some (y ∷ d)) h k = refl
    merge_again (slice t) (some (x ∷ l)) (some d) h k = refl
    merge_again (map_to t) v d h k =
        merge_maps_again (merge S fill t) (zero_value S t) (IsDistinct t) (zero-IsDistinct t)
          (merge_again t) v d h k
    merge_again (struct fs) v d h k = merge_fields_again fs v d h k

    pub merge_fields_again :
        (fs : FieldTypes) (v d : Values S fs)
        → AreDistinct fs v
        → AreDistinct fs d
        → merge_fields S fill fs (merge_fields S fill fs v d) d ≡ merge_fields S fill fs v d
    merge_fields_again end v d h k = refl
    merge_fields_again (field t fs) (v, vs) (d, ds) (h, hs) (k, ks) =
        let rest = merge_fields_again fs vs ds hs ks in
        elim (Bool-cases (is_empty S t d)) [
          | inl e ↦ rw e (ap (λ r. (v, r)) rest)
          | inr n ↦ rw n (rw (merge_again t v d h k) (ap (λ r. (merge S fill t v d, r)) rest))
        ]
