-- ===== src/Examples/Merge.antt =====
-- Merging and copying configurations, on concrete values.
use goop.Base.{ℕ, ◌≡◌, refl, [], ◌∷◌, none, some, codes, ◌==◌}
use goop.Golang.Strings.{equal_fold}
use goop.Config.Merge.{
  Scalars, FieldTypes, scalar, pointer, slice, map_to, struct, end, field, Value, merge, copy, fill,
  last_fold,
}
use goop.Config.Merge.Entries.{IsFoldMap}
use goop.Config.Merge.Distinct.{IsDistinct}
use goop.Config.Merge.Filled.{IsFilled, merge_fills}
use goop.Config.Merge.Copied.{IsCopyable, copy-same}

abbrev numbers : Scalars
numbers = record { Scalar = ℕ; zero = 0; is_zero = λ n. n == 0 }

-- A number, a map of pointers to structures of two numbers, and a list of numbers.
abbrev fields : FieldTypes
fields =
    field scalar
      (field (map_to (pointer (field scalar (field scalar end)))) (field (slice scalar) end))

unfoldable given : Value numbers (struct fields)
unfolding Value
given = (0, (some ((codes "moon", some (3, (0, tt))) ∷ []), (none, tt)))

unfoldable defaults : Value numbers (struct fields)
unfolding Value
defaults = (
  7,
  (some ((codes "Moon", some (4, (5, tt))) ∷ (codes "grubby", none) ∷ []), (some (6 ∷ 0 ∷ []), tt)),
)

unfoldable both : Value numbers (struct fields)
unfolding Value
both = (
  7,
  (some ((codes "moon", some (3, (5, tt))) ∷ (codes "grubby", none) ∷ []), (some (6 ∷ 0 ∷ []), tt)),
)

merge_runs : merge numbers fill (struct fields) given defaults ≡ both
unfolding merge given defaults both equal_fold
merge_runs = refl

given-IsDistinct : IsDistinct numbers (struct fields) given
unfolding IsDistinct IsFoldMap given last_fold
given-IsDistinct = (tt, (((refl, tt), ((tt, (tt, tt)), tt)), (tt, tt)))

defaults-IsDistinct : IsDistinct numbers (struct fields) defaults
unfolding IsDistinct IsFoldMap defaults last_fold equal_fold
defaults-IsDistinct = (tt, (((refl, (refl, tt)), ((tt, (tt, tt)), (tt, tt))), ((tt, (tt, tt)), tt)))

merge_fills_example :
    IsFilled numbers
      (struct fields)
      given
      defaults
      (merge numbers fill (struct fields) given defaults)
    × (merge numbers fill
          (struct fields)
          (merge numbers fill (struct fields) given defaults)
          defaults
        ≡ merge numbers fill (struct fields) given defaults)
merge_fills_example =
    merge_fills numbers (struct fields) given defaults given-IsDistinct defaults-IsDistinct

defaults-IsCopyable : IsCopyable numbers (struct fields) defaults
unfolding IsCopyable IsFoldMap defaults last_fold equal_fold
defaults-IsCopyable = (tt, (((refl, (refl, tt)), ((tt, (tt, tt)), (tt, tt))), ((tt, (tt, tt)), tt)))

copy-same_example : copy numbers (struct fields) defaults ≡ defaults
copy-same_example = copy-same numbers (struct fields) defaults defaults-IsCopyable
