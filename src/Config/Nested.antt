-- ===== src/Config/Nested.antt =====
-- structs.go: DeleteEqual, which leaves out of a configuration what is as in the defaults.
pub mod Lookup
pub mod Saved
use goop.Base.{
  ◌≡◌, refl, sym, ap, ◌∙◌, inl, inr, Bool, true, false, List, [], ◌∷◌, Option, none, some, Str,
  str_eq, str_eq_refl, str_eq→eq, arith, Bool-cases, if◌then◌else◌,
}
use mathlib.Core.Path.{subst}

-- A nested map; what is not a map, is a leaf.
mutual
  pub data Value (A : Type 0) : Type 0 where
    leaf : A → Value A
    table : Table A → Value A

  pub data Table (A : Type 0) : Type 0 where
    end : Table A
    entry : Str → Value A → Table A → Table A

module _ {A : Type 0} where
  unfoldable pub find : Str → Table A → Option (Value A)
  find k end = none
  find k (entry j v m) = if str_eq j k then some v else find k m

  unfoldable pub remove : Str → Table A → Table A
  remove k end = end
  remove k (entry j v m) = if str_eq j k then remove k m else entry j v (remove k m)

  -- An assignment to a key that is there.
  unfoldable pub assign : Str → Value A → Table A → Table A
  assign k v end = end
  assign k v (entry j w m) = if str_eq j k then entry j v m else entry j w (assign k v m)

  -- `dst[k]` is a map: the entries of its own.
  abbrev within : Str → Table A → (Table A → Option (Table A)) → Value A → Option (Table A)
  within k d inner (leaf a) = some d
  within k d inner (table m) = elim (inner m) [
    | none ↦ none
    | some m' ↦ some (assign k (table m') d)
  ]

  -- The body of the loop; `equal` is reflect.DeepEqual.
  abbrev delete_entry :
      (Value A → Value A → Bool)
      → Str
      → Value A
      → Table A
      → (Table A → Option (Table A))
      → Option (Value A)
      → Option (Table A)
  delete_entry equal k v d inner none = some d
  delete_entry equal k v d inner (some w) =
      if equal v w then some (remove k d) else within k d inner w

  -- DeleteEqual: `none` where a type assertion panics.
  unfoldable pub delete_equal : (Value A → Value A → Bool) → Table A → Table A → Option (Table A)
  unfolding find remove assign
  delete_equal equal end d = some d
  delete_equal equal (entry k (leaf a) s) d =
      elim (delete_entry equal k (leaf a) d (λ m. none) (find k d)) [
        | none ↦ none
        | some d' ↦ delete_equal equal s d'
      ]
  delete_equal equal (entry k (table t) s) d =
      elim (delete_entry equal k (table t) d (λ m. delete_equal equal t m) (find k d)) [
        | none ↦ none
        | some d' ↦ delete_equal equal s d'
      ]
