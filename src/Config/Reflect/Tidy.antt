-- ===== src/Config/Reflect/Tidy.antt =====
-- Values whose flat keys name one place each, and how flat keys are put together and split.
use goop.Base.{
  ℕ, suc, ◌<◌, ◌≡◌, ◌≢◌, ◌⊎◌, refl, sym, ap, ◌∙◌, true, false, List, [], ◌∷◌, ◌++◌, Str, codes, All,
  arith, ◌==◌, append_assoc, append-nil,
}
use goop.Golang.Strings.{equal_fold, join, split, split_from}
use goop.Golang.Strings.Laws.{split_from-part}
use goop.Golang.Strconv.{itoa, itoa-IsDigit, itoa-ne-nil, IsDigit}
use goop.Golang.Strconv.RoundTrip.{two63}
use goop.Config.Reflect.{
  Reflected, Items, Entries, Fields, invalid, nil_ref, ref, slice, array, map_of, struct, plain,
  no_items, item, no_entries, entry, no_fields, field, behind_prefix,
}
use goop.Config.Reflect.Absent.{Absent, AbsentEntries, AbsentFields, Unlisted, UnlistedFields}

-- A name that can stand between slashes.
abbrev pub IsName : Str → Type 0
IsName s = (s ≢ []) × All (λ c. (c == b'/') ≡ false) s

module _ {A : Type 0} where
  -- A structure, or a pointer to one.
  abbrev pub IsStruct : Reflected A → Type 0
  IsStruct (struct fs) = Unit
  IsStruct (ref v) = IsStruct v
  IsStruct _ = ⊥

  -- Every name can stand between slashes; an anonymous field is a structure; every index is an `int`; and
  -- no other key or field of the same place, those that an anonymous field brings up and the anonymous
  -- fields themselves included, has the name of one that is listed, but for its case. Two anonymous fields
  -- may have the same name, as those of the type `Config` in the configurations of gateways.
  unfoldable mutual
    unfolding equal_fold Absent Unlisted

    pub Tidy : Reflected A → Type 0
    Tidy invalid = Unit
    Tidy nil_ref = Unit
    Tidy (ref v) = Tidy v
    Tidy (slice xs) = TidyItems 0 xs
    Tidy (array xs) = TidyItems 0 xs
    Tidy (map_of text es) = TidyEntries es
    Tidy (struct fs) = TidyFields fs
    Tidy (plain a) = Unit

    pub TidyItems : ℕ → Items A → Type 0
    TidyItems i no_items = Unit
    TidyItems i (item v xs) = (i < two63) × Tidy v × TidyItems (suc i) xs

    pub TidyEntries : Entries A → Type 0
    TidyEntries no_entries = Unit
    TidyEntries (entry j v es) =
        IsName j
        × ((k : Str) → (equal_fold k j ≡ false) ⊎ AbsentEntries k es)
        × Tidy v
        × TidyEntries es

    pub TidyFields : Fields A → Type 0
    TidyFields no_fields = Unit
    TidyFields (field false anonymous name v fs) = TidyFields fs
    TidyFields (field true false name v fs) =
        IsName name
        × ((k : Str) → (equal_fold k name ≡ false) ⊎ UnlistedFields k fs)
        × Tidy v
        × TidyFields fs
    TidyFields (field true true name v fs) =
        IsStruct v
        × ((k : Str) → (equal_fold k name ≡ false) ⊎ Unlisted k v)
        × ((k : Str) → AbsentFields k fs ⊎ Unlisted k v)
        × ((k : Str) → ((equal_fold k name ≡ false) × Absent k v) ⊎ UnlistedFields k fs)
        × Tidy v
        × TidyFields fs

-- The key for names behind a prefix.
abbrev pub put_behind : Str → List Str → Str
put_behind prf [] = prf
put_behind prf (k ∷ ks) = behind_prefix prf (join (k ∷ ks) (codes "/"))

pub put_behind-behind_prefix :
    (prf k : Str) (ks : List Str)
    → k ≢ []
    → put_behind (behind_prefix prf k) ks ≡ put_behind prf (k ∷ ks)
unfolding join
put_behind-behind_prefix prf k [] h = refl
put_behind-behind_prefix [] [] (j ∷ ks) h = absurd (h refl)
put_behind-behind_prefix [] (c ∷ k) (j ∷ ks) h =
    sym (append_assoc (c ∷ k) (b'/' ∷ []) (join (j ∷ ks) (codes "/")))
put_behind-behind_prefix (d ∷ prf) k (j ∷ ks) h =
    let rest = join (j ∷ ks) (codes "/") in
    append_assoc (d ∷ prf) (b'/' ∷ k) (b'/' ∷ rest)
    ∙ ap (λ x. (d ∷ prf) ++ b'/' ∷ x) (sym (append_assoc k (b'/' ∷ []) rest))

pub itoa-IsName : (n : ℕ) → IsName (itoa n)
itoa-IsName n = (itoa-ne-nil n, no_slash (itoa n) (itoa-IsDigit n))
  where
    no_slash : (s : Str) → All IsDigit s → All (λ c. (c == b'/') ≡ false) s
    no_slash [] h = tt
    no_slash (c ∷ s) h = (ground arith, no_slash s h.1)

-- Names that are joined are split again.
split_from-join :
    (k : Str) (ks : List Str)
    → All IsName (k ∷ ks)
    → split_from b'/' [] (join (k ∷ ks) (codes "/")) ≡ k ∷ ks
unfolding split_from join
split_from-join k [] h =
    ap (split_from b'/' []) (sym (append-nil k)) ∙ split_from-part b'/' [] k [] h.0.1
split_from-join k (j ∷ ks) h =
    ap (split_from b'/' []) (append_assoc k (b'/' ∷ []) (join (j ∷ ks) (codes "/")))
    ∙ split_from-part b'/' [] k (b'/' ∷ join (j ∷ ks) (codes "/")) h.0.1
    ∙ ap (λ x. k ∷ x) (split_from-join j ks h.1)

pub split-join :
    (k : Str) (ks : List Str)
    → All IsName (k ∷ ks)
    → split (join (k ∷ ks) (codes "/")) b'/' ≡ k ∷ ks
unfolding split
split-join k ks h = split_from-join k ks h
