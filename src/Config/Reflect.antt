-- ===== src/Config/Reflect.antt =====
-- structs.go: FlatMap, Find and Get. A value is seen as `reflect` sees it.
pub mod Absent
pub mod Tidy
pub mod Listed
pub mod Reached
pub mod Found
use goop.Base.{
  ℕ, zero, suc, ◌+◌, ◌≡◌, refl, Bool, true, false, not, ◌&&◌, ◌||◌, List, [], ◌∷◌, ◌++◌, Option,
  none, some, Str, codes, str_eq, if◌then◌else◌, ◌==◌, Error, unknown_key, Result, ok, err,
}
use goop.Base.Int.{ℤ, pos, negsuc}
use goop.Golang.Strings.{equal_fold, join, split}
use goop.Golang.Strconv.{itoa, parse_int}

-- A value by its kind. A pointer or interface is `ref`, or `nil_ref` where it is nil; a map says whether
-- its elements are strings, and has its keys as mapKey prints them; a field says whether it is exported
-- and whether it is anonymous, with its name; any other kind is `plain`.
mutual
  pub data Reflected (A : Type 0) : Type 0 where
    invalid nil_ref : Reflected A
    ref : Reflected A → Reflected A
    slice array : Items A → Reflected A
    map_of : Bool → Entries A → Reflected A
    struct : Fields A → Reflected A
    plain : A → Reflected A

  pub data Items (A : Type 0) : Type 0 where
    no_items : Items A
    item : Reflected A → Items A → Items A

  pub data Entries (A : Type 0) : Type 0 where
    no_entries : Entries A
    entry : Str → Reflected A → Entries A → Entries A

  pub data Fields (A : Type 0) : Type 0 where
    no_fields : Fields A
    field : (exported anonymous : Bool) → Str → Reflected A → Fields A → Fields A

-- The name behind a prefix.
abbrev pub behind_prefix : Str → Str → Str
behind_prefix [] name = name
behind_prefix (c ∷ prf) name = (c ∷ prf) ++ b'/' ∷ name

-- What a search leaves behind: the value, and the key with the names that it found.
abbrev pub Search : Type 0 → Type 0
Search A = Option (Reflected A) × List Str

abbrev pub named : {A : Type 0} → Str → Search A → Search A
named k (v, ks) = (v, k ∷ ks)

abbrev pub or_before : {A : Type 0} → Option A → Option A → Option A
or_before before none = before
or_before before (some v) = some v

abbrev pub index_of : Result ℤ → Option ℕ
index_of (err e) = none
index_of (ok (negsuc n)) = none
index_of (ok (pos n)) = some n

-- Behind an anonymous field: its name, and then the fields that follow.
abbrev pub try_name :
    {A : Type 0}
    → Str
    → (List Str → Search A)
    → (Option (Reflected A) → Str → List Str → Search A)
    → Option (Reflected A)
    → Search A
    → Search A
try_name name here next anon (v, []) = (or_before anon v, [])
try_name name here next anon (v, k ∷ ks) =
    if equal_fold k name then named name (here ks) else next (or_before anon v) k ks

module _ {A : Type 0} where
  -- flatMap: the assignments to `dst`, in their order.
  unfoldable mutual
    unfolding itoa

    pub flat_map : Str → Reflected A → List (Str × Reflected A)
    flat_map prf invalid = (prf, invalid) ∷ []
    flat_map prf nil_ref = (prf, nil_ref) ∷ []
    flat_map prf (ref v) = flat_map prf v
    flat_map prf (slice xs) = (prf, slice xs) ∷ flat_items prf 0 xs
    flat_map prf (array xs) = flat_items prf 0 xs
    flat_map prf (map_of text es) = (prf, map_of text es) ∷ flat_entries prf es
    flat_map prf (struct fs) = flat_fields prf fs
    flat_map prf (plain a) = (prf, plain a) ∷ []

    pub flat_items : Str → ℕ → Items A → List (Str × Reflected A)
    flat_items prf i no_items = []
    flat_items prf i (item v xs) =
        flat_map (behind_prefix prf (itoa i)) v ++ flat_items prf (suc i) xs

    pub flat_entries : Str → Entries A → List (Str × Reflected A)
    flat_entries prf no_entries = []
    flat_entries prf (entry k v es) = flat_map (behind_prefix prf k) v ++ flat_entries prf es

    pub flat_fields : Str → Fields A → List (Str × Reflected A)
    flat_fields prf no_fields = []
    flat_fields prf (field false anonymous name v fs) = flat_fields prf fs
    flat_fields prf (field true true name v fs) = flat_map prf v ++ flat_fields prf fs
    flat_fields prf (field true false name v fs) =
        flat_map (behind_prefix prf name) v ++ flat_fields prf fs

  -- find. `int` has 64 bits.
  unfoldable mutual
    unfolding parse_int equal_fold

    pub find : Reflected A → List Str → Search A
    find v [] = (some v, [])
    find invalid (k ∷ ks) = (none, k ∷ ks)
    find nil_ref (k ∷ ks) = (none, k ∷ ks)
    find (ref v) (k ∷ ks) = find v (k ∷ ks)
    find (slice xs) (k ∷ ks) = find_at xs (index_of (parse_int 64 k)) k ks
    find (array xs) (k ∷ ks) = find_at xs (index_of (parse_int 64 k)) k ks
    find (map_of true es) (k ∷ ks) = elim (find_exact es k ks) [
      | none ↦ find_entry es k ks
      | some found ↦ found
    ]
    find (map_of false es) (k ∷ ks) = find_entry es k ks
    find (struct fs) (k ∷ ks) = find_field fs none k ks
    find (plain a) (k ∷ ks) = (none, k ∷ ks)

    pub find_at : Items A → Option ℕ → Str → List Str → Search A
    find_at xs none k ks = (none, k ∷ ks)
    find_at no_items (some n) k ks = (none, k ∷ ks)
    find_at (item v xs) (some zero) k ks = named k (find v ks)
    find_at (item v xs) (some (suc n)) k ks = find_at xs (some n) k ks

    -- MapIndex
    pub find_exact : Entries A → Str → List Str → Option (Search A)
    find_exact no_entries k ks = none
    find_exact (entry j v es) k ks =
        let found = named k (find v ks) in
        let rest = find_exact es k ks in if str_eq j k then some found else rest

    pub find_entry : Entries A → Str → List Str → Search A
    find_entry no_entries k ks = (none, k ∷ ks)
    find_entry (entry j v es) k ks =
        let found = named j (find v ks) in
        let rest = find_entry es k ks in if equal_fold k j then found else rest

    -- The loop over the fields, with the value that an anonymous one gave.
    pub find_field : Fields A → Option (Reflected A) → Str → List Str → Search A
    find_field no_fields anon k ks = (anon, k ∷ ks)
    find_field (field false anonymous name v fs) anon k ks = find_field fs anon k ks
    find_field (field true false name v fs) anon k ks =
        let found = named name (find v ks) in
        let rest = find_field fs anon k ks in if equal_fold k name then found else rest
    find_field (field true true name v fs) anon k ks =
        try_name name (find v) (find_field fs) anon (find v (k ∷ ks))

-- Find; a key without a slash is one name.
unfoldable pub find_key : {A : Type 0} → Reflected A → Str → Option (Reflected A) × Str
unfolding find split
find_key v key = let (found, ks) = find v (split key b'/') in (found, join ks (codes "/"))

-- Get. `CanInterface` holds, as no field is read that is not exported.
abbrev pub found_or_unknown : {A : Type 0} → Option (Reflected A) → Result (Reflected A)
found_or_unknown none = err unknown_key
found_or_unknown (some v) = ok v

unfoldable pub get : {A : Type 0} → Reflected A → Str → Result (Reflected A)
unfolding find_key
get v key = found_or_unknown (find_key v key).0
