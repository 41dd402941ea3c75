-- ===== src/Examples/Nested.antt =====
-- Tests of structs.go (DeleteEqual) and the theorem on it applied.
use goop.Base.{
  ◌≡◌, refl, ap, Bool, false, List, [], Option, none, some, Str, codes, str_eq, str_eq→eq,
}
use mathlib.Core.Path.{subst}
use goop.Config.Nested.{Value, leaf, table, Table, end, entry, delete_equal}
use goop.Config.Nested.Saved.{leaf_at, or_default, IsShaped, IsDeep, delete_equal-IsReduced}

-- Leaves are texts, and maps never count as equal.
abbrev same_text : Value Str → Value Str → Bool
same_text (leaf a) (leaf b) = str_eq a b
same_text (leaf a) (table m) = false
same_text (table m) w = false

same_text-IsDeep : IsDeep same_text
same_text-IsDeep (leaf a) (leaf b) h p = ap (λ x. leaf_at p (leaf x)) (str_eq→eq a b h)
same_text-IsDeep (leaf a) (table m) h p = cc
same_text-IsDeep (table m) w h p = cc

-- The relay section of the defaults.
abbrev relay_default : Table Str
relay_default =
    entry (codes "Chat") (leaf (codes "true")) (entry (codes "Joins") (leaf (codes "false")) end)

abbrev by_default : Table Str
by_default =
    entry (codes "Log") (leaf (codes "true")) (entry (codes "Relay") (table relay_default) end)

abbrev relay_configured : Table Str
relay_configured =
    entry (codes "Chat") (leaf (codes "true")) (entry (codes "Joins") (leaf (codes "true")) end)

abbrev configured : Table Str
configured =
    entry (codes "Relay") (table relay_configured) (entry (codes "Log") (leaf (codes "true")) end)

abbrev reduced : Table Str
reduced = entry (codes "Relay") (table (entry (codes "Joins") (leaf (codes "true")) end)) end

-- What is as in the defaults goes, on every level.
reduced_test : delete_equal same_text by_default configured ≡ some reduced
unfolding delete_equal str_eq
reduced_test = refl

-- A leaf among the defaults where a map is configured: the type assertion panics.
panic_test :
    delete_equal same_text (entry (codes "Log") (leaf []) end) (entry (codes "Log") (table end) end)
    ≡ none
unfolding delete_equal str_eq
panic_test = refl

relay-IsShaped : IsShaped relay_default relay_configured
unfolding IsShaped str_eq
relay-IsShaped = (refl, (λ m e. cc), (refl, (λ m e. cc), tt))

-- The map that is found.
abbrev table_of : Option (Value Str) → Table Str
table_of none = end
table_of (some (leaf a)) = end
table_of (some (table m)) = m

configured-IsShaped : IsShaped by_default configured
unfolding IsShaped str_eq
configured-IsShaped = (
  refl,
  λ m e. cc,
  (refl, (λ m e. subst (IsShaped relay_default) (ap table_of e) relay-IsShaped), tt),
)

delete_equal-IsReduced_example :
    (d' : Table Str) × (delete_equal same_text by_default configured ≡ some d')
    × ((p : List Str)
        → or_default (leaf_at p (table d')) (leaf_at p (table by_default))
          ≡ or_default (leaf_at p (table configured)) (leaf_at p (table by_default)))
    × ((p : List Str) (a b : Str)
        → leaf_at p (table d') ≡ some a
        → leaf_at p (table by_default) ≡ some b
        → same_text (leaf b) (leaf a) ≡ false)
delete_equal-IsReduced_example =
    delete_equal-IsReduced same_text same_text-IsDeep by_default configured configured-IsShaped
