-- ===== src/Config/Reflect/Absent.antt =====
-- Names that a search does not find.
use goop.Base.{
  ◌≡◌, refl, sym, ap, ◌∙◌, inl, inr, true, false, List, ◌∷◌, Option, none, Str, str_eq, str_eq→eq,
  Bool-cases,
}
use mathlib.Core.Path.{subst}
use goop.Golang.Strings.{equal_fold}
use goop.Golang.Strings.Laws.{equal_fold_refl}
use goop.Config.Reflect.{
  Reflected, Entries, Fields, invalid, nil_ref, ref, slice, array, map_of, struct, plain,
  no_entries, entry, no_fields, field, find, find_exact, find_entry, find_field, try_name,
}

-- Texts that differ, whatever the case, are not equal.
pub fold-differ : (k j : Str) → equal_fold k j ≡ false → str_eq j k ≡ false
fold-differ k j h = elim (Bool-cases (str_eq j k)) [
  | inl e ↦
      let same : equal_fold k j ≡ true =
        subst (λ x. equal_fold k x ≡ true) (sym (str_eq→eq j k e)) (equal_fold_refl k) in
      cc
  | inr n ↦ n
]

module _ {A : Type 0} where
  -- No name at the top of the value is `k`, but for its case. In a list, any text may be a number.
  unfoldable mutual
    unfolding equal_fold

    pub Absent : Str → Reflected A → Type 0
    Absent k invalid = Unit
    Absent k nil_ref = Unit
    Absent k (ref v) = Absent k v
    Absent k (slice xs) = ⊥
    Absent k (array xs) = ⊥
    Absent k (map_of text es) = AbsentEntries k es
    Absent k (struct fs) = AbsentFields k fs
    Absent k (plain a) = Unit

    pub AbsentEntries : Str → Entries A → Type 0
    AbsentEntries k no_entries = Unit
    AbsentEntries k (entry j v es) = (equal_fold k j ≡ false) × AbsentEntries k es

    pub AbsentFields : Str → Fields A → Type 0
    AbsentFields k no_fields = Unit
    AbsentFields k (field false anonymous name v fs) = AbsentFields k fs
    AbsentFields k (field true false name v fs) = (equal_fold k name ≡ false) × AbsentFields k fs
    AbsentFields k (field true true name v fs) =
        (equal_fold k name ≡ false) × Absent k v × AbsentFields k fs

  -- No name that FlatMap lists at the top of the value is `k`, but for its case: the name of an anonymous
  -- field is not listed.
  unfoldable mutual
    unfolding Absent

    pub Unlisted : Str → Reflected A → Type 0
    Unlisted k invalid = Unit
    Unlisted k nil_ref = Unit
    Unlisted k (ref v) = Unlisted k v
    Unlisted k (slice xs) = ⊥
    Unlisted k (array xs) = ⊥
    Unlisted k (map_of text es) = AbsentEntries k es
    Unlisted k (struct fs) = UnlistedFields k fs
    Unlisted k (plain a) = Unit

    pub UnlistedFields : Str → Fields A → Type 0
    UnlistedFields k no_fields = Unit
    UnlistedFields k (field false anonymous name v fs) = UnlistedFields k fs
    UnlistedFields k (field true false name v fs) =
        (equal_fold k name ≡ false) × UnlistedFields k fs
    UnlistedFields k (field true true name v fs) = Unlisted k v × UnlistedFields k fs

  pub find_exact-AbsentEntries :
      (k : Str) (ks : List Str) (es : Entries A) → AbsentEntries k es → find_exact es k ks ≡ none
  unfolding find Absent
  find_exact-AbsentEntries k ks no_entries h = refl
  find_exact-AbsentEntries k ks (entry j v es) h =
      rw (fold-differ k j h.0) (find_exact-AbsentEntries k ks es h.1)

  pub find_entry-AbsentEntries :
      (k : Str) (ks : List Str) (es : Entries A)
      → AbsentEntries k es
      → find_entry es k ks ≡ (none, k ∷ ks)
  unfolding find Absent
  find_entry-AbsentEntries k ks no_entries h = refl
  find_entry-AbsentEntries k ks (entry j v es) h = rw h.0 (find_entry-AbsentEntries k ks es h.1)

  mutual
    unfolding find Absent

    pub find-Absent :
        (k : Str) (ks : List Str) (v : Reflected A) → Absent k v → find v (k ∷ ks) ≡ (none, k ∷ ks)
    find-Absent k ks invalid h = refl
    find-Absent k ks nil_ref h = refl
    find-Absent k ks (ref v) h = find-Absent k ks v h
    find-Absent k ks (slice xs) h = absurd h
    find-Absent k ks (array xs) h = absurd h
    find-Absent k ks (map_of true es) h =
        rw (find_exact-AbsentEntries k ks es h) (find_entry-AbsentEntries k ks es h)
    find-Absent k ks (map_of false es) h = find_entry-AbsentEntries k ks es h
    find-Absent k ks (struct fs) h = find_field-AbsentFields k ks fs none h
    find-Absent k ks (plain a) h = refl

    pub find_field-AbsentFields :
        (k : Str) (ks : List Str) (fs : Fields A) (anon : Option (Reflected A))
        → AbsentFields k fs
        → find_field fs anon k ks ≡ (anon, k ∷ ks)
    find_field-AbsentFields k ks no_fields anon h = refl
    find_field-AbsentFields k ks (field false anonymous name v fs) anon h =
        find_field-AbsentFields k ks fs anon h
    find_field-AbsentFields k ks (field true false name v fs) anon h =
        rw h.0 (find_field-AbsentFields k ks fs anon h.1)
    find_field-AbsentFields k ks (field true true name v fs) anon (n, a, h) =
        ap (try_name name (find v) (find_field fs) anon) (find-Absent k ks v a)
        ∙ rw n (find_field-AbsentFields k ks fs anon h)
