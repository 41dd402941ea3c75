-- ===== src/Config/Merge.antt =====
-- structs.go: Merge of a value into one of the same type, as Copy and MergeDefaults use it.
pub mod Entries
pub mod Again
pub mod Distinct
pub mod Filled
pub mod Copied
use goop.Base.{
  ℕ, Bool, true, false, not, ◌&&◌, ◌||◌, List, [], ◌∷◌, ◌++◌, map, Option, none, some, Str, codes,
  if◌then◌else◌,
}
use goop.Golang.Strings.{equal_fold}

-- What is asked of the kinds that hold no other value: a zero, and the test `empty` for it.
pub record Scalars : Type 1 where
  pub Scalar : Type 0
  pub zero : Scalar
  pub is_zero : Scalar → Bool

-- The types of the configuration: a scalar, a pointer to a structure, a list, a map with texts as keys,
-- and a structure, of whose fields those that are exported are given, without their names.
mutual
  pub data GoType : Type 0 where
    scalar : GoType
    pointer : FieldTypes → GoType
    slice map_to : GoType → GoType
    struct : FieldTypes → GoType

  pub data FieldTypes : Type 0 where
    end : FieldTypes
    field : GoType → FieldTypes → FieldTypes

-- MergeOptions
pub record Options : Type 0 where
  pub overwrite : Bool
  pub delete : Bool

module _ (S : Scalars) where
  -- The values of a type; a nil pointer, list or map is `none`.
  unfoldable mutual
    pub Value : GoType → Type 0
    Value scalar = S.Scalar
    Value (pointer fs) = Option (Values fs)
    Value (slice t) = Option (List (Value t))
    Value (map_to t) = Option (List (Str × Value t))
    Value (struct fs) = Values fs

    pub Values : FieldTypes → Type 0
    Values end = Unit
    Values (field t fs) = Value t × Values fs

  unfoldable mutual
    unfolding Value

    pub zero_value : (t : GoType) → Value t
    zero_value scalar = S.zero
    zero_value (pointer fs) = none
    zero_value (slice t) = none
    zero_value (map_to t) = none
    zero_value (struct fs) = zero_values fs

    pub zero_values : (fs : FieldTypes) → Values fs
    zero_values end = tt
    zero_values (field t fs) = (zero_value t, zero_values fs)

  -- empty
  abbrev is_nil {ℓ} : {A : Type ℓ} → Option (List A) → Bool
  is_nil none = true
  is_nil (some []) = true
  is_nil (some (x ∷ xs)) = false

  unfoldable pub is_empty : (t : GoType) → Value t → Bool
  unfolding Value
  is_empty scalar v = S.is_zero v
  is_empty (pointer fs) none = true
  is_empty (pointer fs) (some v) = false
  is_empty (slice t) v = is_nil v
  is_empty (map_to t) v = is_nil v
  is_empty (struct fs) v = false

-- The value of the last entry whose key is `k`, but for its case.
unfoldable pub last_fold {ℓ} : {A : Type ℓ} → Str → List (Str × A) → Option A
unfolding equal_fold
last_fold k [] = none
last_fold k ((j, v) ∷ m) = elim (last_fold k m) [
  | none ↦ if equal_fold k j then some v else none
  | some w ↦ some w
]

abbrev pub is_there {ℓ} : {A : Type ℓ} → Option A → Bool
is_there none = false
is_there (some v) = true

abbrev pub entries_of {ℓ} : {A : Type ℓ} → Option (List (Str × A)) → List (Str × A)
entries_of none = []
entries_of (some m) = m

-- A nil map is made only for an entry.
abbrev pub made_or {ℓ} :
    {A : Type ℓ} → Option (List (Str × A)) → List (Str × A) → Option (List (Str × A))
made_or none [] = none
made_or none (p ∷ m) = some (p ∷ m)
made_or (some dst) m = some m

-- mergeMaps and mergeMap: `keys` has one entry for all keys that are equal but for their case, which
-- leads to the last of them. First what becomes of the entries of `dst`, and then those that are new;
-- `merged` is the merge of two elements.
module _ {ℓ} {A : Type ℓ} (merged : A → A → A) (zero : A) (delete : Bool) where
  abbrev merge_old : Str → A → Option A → List (Str × A) → List (Str × A)
  merge_old k old none rest = if delete then rest else (k, old) ∷ rest
  merge_old k old (some v) rest = (k, merged old v) ∷ rest

  unfoldable pub old_entries : List (Str × A) → List (Str × A) → List (Str × A)
  unfolding last_fold
  old_entries [] src = []
  old_entries ((k, old) ∷ dst) src =
      let rest = old_entries dst src in
      if is_there (last_fold k dst) then (k, old) ∷ rest else merge_old k old (last_fold k src) rest

  unfoldable pub new_entries : List (Str × A) → List (Str × A) → List (Str × A)
  unfolding last_fold
  new_entries dst [] = []
  new_entries dst ((k, v) ∷ src) =
      let rest = new_entries dst src in
      if is_there (last_fold k src) || is_there (last_fold k dst)
      then rest
      else (k, merged zero v) ∷ rest

  unfoldable pub merge_maps :
      Option (List (Str × A)) → Option (List (Str × A)) → Option (List (Str × A))
  unfolding old_entries new_entries
  merge_maps dst src =
      let d = entries_of dst in
      let s = entries_of src in made_or dst (old_entries d s ++ new_entries d s)

module _ (S : Scalars) (opt : Options) where
  -- merge, of `src` into `dst`, and the loop over the fields.
  unfoldable mutual
    unfolding Value zero_value is_empty merge_maps

    pub merge : (t : GoType) → (dst src : Value S t) → Value S t
    merge scalar dst src = if S.is_zero dst || opt.overwrite then src else dst
    merge (pointer fs) dst none = if opt.overwrite then none else dst
    merge (pointer fs) none (some src) = some (merge_fields fs (zero_values S fs) src)
    merge (pointer fs) (some dst) (some src) = some (merge_fields fs dst src)
    merge (slice t) dst none = if not (is_nil S dst) && not opt.overwrite then dst else none
    merge (slice t) dst (some src) =
        let copied = map (merge t (zero_value S t)) src in
        if not (is_nil S dst) && not opt.overwrite then dst else some copied
    merge (map_to t) dst src = merge_maps (merge t) (zero_value S t) opt.delete dst src
    merge (struct fs) dst src = merge_fields fs dst src

    pub merge_fields : (fs : FieldTypes) → (dst src : Values S fs) → Values S fs
    merge_fields end dst src = tt
    merge_fields (field t fs) (d, dst) (s, src) =
        let rest = merge_fields fs dst src in
        let changed = merge t d s in
        (if is_empty S t s && not opt.overwrite then d else changed, rest)

-- The options of MergeDefaults.
abbrev pub fill : Options
fill = record { overwrite = false; delete = false }

-- Copy: a merge into a zero value.
unfoldable pub copy : (S : Scalars) (t : GoType) → Value S t → Value S t
unfolding merge
copy S t v = merge S (record { overwrite = true; delete = false }) t (zero_value S t) v
