-- ===== src/Config/Nested/Saved.antt =====
-- DeleteEqual of structs.go: a configuration without its defaults, and the defaults, give the whole.
use goop.Base.{
  ◌≡◌, refl, sym, ap, ◌∙◌, inl, inr, Bool, true, false, List, [], ◌∷◌, Option, none, some, Str,
  str_eq, str_eq_sym, str_eq→eq, Bool-cases, if◌then◌else◌,
}
use mathlib.Core.Path.{subst}
use goop.Config.Nested.{
  Value, leaf, table, Table, end, entry, find, remove, assign, within, delete_entry, delete_equal,
}
use goop.Config.Nested.Lookup.{
  find-remove, find-remove_other, find-assign, find-assign_other, keys-differ, find-later,
  find-here, find-there,
}

module _ {A : Type 0} where
  -- The leaf that a path of keys leads to.
  unfoldable pub leaf_at : List Str → Value A → Option A
  unfolding find
  leaf_at [] (leaf a) = some a
  leaf_at [] (table m) = none
  leaf_at (k ∷ p) (leaf a) = none
  leaf_at (k ∷ p) (table m) = elim (find k m) [ none ↦ none | some v ↦ leaf_at p v ]

  abbrev pub leaf_at? : List Str → Option (Value A) → Option A
  leaf_at? p none = none
  leaf_at? p (some v) = leaf_at p v

  abbrev pub or_default : Option A → Option A → Option A
  or_default none o = o
  or_default (some a) o = some a

  -- What a path leads to in the first, or else in the second.
  abbrev overlay : List Str → Option (Value A) → Option (Value A) → Option A
  overlay p o o' = or_default (leaf_at? p o) (leaf_at? p o')

  -- Two maps of one shape: no key twice, and no map where the defaults have a leaf.
  unfoldable pub IsShaped : Table A → Table A → Type 0
  unfolding find
  IsShaped end d = Unit
  IsShaped (entry k (leaf a) s) d =
      (find k s ≡ none) × ((m : Table A) → ¬ find k d ≡ some (table m)) × IsShaped s d
  IsShaped (entry k (table t) s) d =
      (find k s ≡ none) × ((m : Table A) → find k d ≡ some (table m) → IsShaped t m) × IsShaped s d

  or_default_same : (o o' : Option A) → o' ≡ o → o' ≡ or_default o o'
  or_default_same none o' h = refl
  or_default_same (some a) o' h = h

  -- A change at one key leaves the shape at the others.
  IsShaped-change :
      (k : Str) (s d d' : Table A)
      → find k s ≡ none
      → ((j : Str) → str_eq k j ≡ false → find j d' ≡ find j d)
      → IsShaped s d
      → IsShaped s d'
  unfolding IsShaped
  IsShaped-change k end d d' n same h = tt
  IsShaped-change k (entry j (leaf a) s) d d' n same h =
      let at_j = same j (keys-differ k j (leaf a) s n) in
      (
        h.0,
        λ m e. h.1 m (sym at_j ∙ e),
        IsShaped-change k s d d' (find-later k j (leaf a) s n) same h.2,
      )
  IsShaped-change k (entry j (table t) s) d d' n same h =
      let at_j = same j (keys-differ k j (table t) s n) in
      (
        h.0,
        λ m e. h.1 m (sym at_j ∙ e),
        IsShaped-change k s d d' (find-later k j (table t) s n) same h.2,
      )

  -- At a path: the overlay is kept, and what is left differs from the default.
  abbrev Reduced :
      (Value A → Value A → Bool)
      → List Str
      → Option (Value A)
      → Option (Value A)
      → Option (Value A)
      → Type 0
  Reduced equal p o' o def =
      (overlay p o' def ≡ overlay p o def)
      × ((a b : A)
          → leaf_at? p o' ≡ some a
          → leaf_at? p def ≡ some b
          → equal (leaf b) (leaf a) ≡ false)

  -- What one step at a key does: it keeps the other keys, and reduces this one.
  abbrev Keeps : (Value A → Value A → Bool) → Str → Value A → Table A → Table A → Type 0
  Keeps equal k v d d' =
      ((j : Str) → str_eq k j ≡ false → find j d' ≡ find j d)
      × ((p : List Str) → Reduced equal p (find k d') (find k d) (some v))

  -- What all steps do.
  abbrev KeepsAll : (Value A → Value A → Bool) → Table A → Table A → Table A → Type 0
  KeepsAll equal s d d' =
      ((k : Str) → find k s ≡ none → find k d' ≡ find k d)
      × ((k : Str) (p : List Str) → Reduced equal p (find k d') (find k d) (find k s))

  KeepsAll-entry :
      (equal : Value A → Value A → Bool) (k : Str) (v : Value A) (s d d1 d' : Table A)
      → find k s ≡ none
      → Keeps equal k v d d1
      → KeepsAll equal s d1 d'
      → KeepsAll equal (entry k v s) d d'
  KeepsAll-entry equal k v s d d1 d' n one all = (
    λ j e. all.0 j (find-later j k v s e) ∙ one.0 j (str_eq_sym k j ∙ keys-differ j k v s e),
    λ j p. elim (Bool-cases (str_eq k j)) [
      | inl y ↦
          subst (λ x. Reduced equal p (find x d') (find x d) (find x (entry k v s)))
            (str_eq→eq k j y)
            (subst (λ o. Reduced equal p (find k d') (find k d) o) (sym (find-here k v s))
              (subst (λ o. Reduced equal p o (find k d) (some v)) (sym (all.0 k n)) (one.1 p)))
      | inr y ↦
          subst (λ o. Reduced equal p (find j d') (find j d) o) (sym (find-there k j v s y))
            (subst (λ o. Reduced equal p (find j d') o (find j s)) (one.0 j y) (all.1 j p))
    ],
  )

  -- What DeleteEqual needs of reflect.DeepEqual: equal values agree at every path.
  abbrev pub IsDeep : (Value A → Value A → Bool) → Type 0
  IsDeep equal = (v w : Value A) → equal v w ≡ true → (p : List Str) → leaf_at p v ≡ leaf_at p w

  module _ (equal : Value A → Value A → Bool) (deep : IsDeep equal) where
    abbrev Deleted : Table A → Table A → Option (Table A) → Type 0
    Deleted s d r = (d' : Table A) × (r ≡ some d') × KeepsAll equal s d d'

    abbrev EntryDone : Str → Value A → Table A → Option (Table A) → Type 0
    EntryDone k v d r = (d' : Table A) × (r ≡ some d') × Keeps equal k v d d'

    -- What is asked of the recursive call.
    abbrev InnerDone : Value A → (Table A → Option (Table A)) → Option (Value A) → Type 0
    InnerDone v inner o =
        (m : Table A)
        → o ≡ some (table m)
        → (m' : Table A) × (inner m ≡ some m')
          × ((p : List Str) → Reduced equal p (some (table m')) (some (table m)) (some v))

    -- A leaf that is not as the default stays.
    Reduced-leaf :
        (p : List Str) (v : Value A) (a : A)
        → equal v (leaf a) ≡ false
        → Reduced equal p (some (leaf a)) (some (leaf a)) (some v)
    unfolding leaf_at
    Reduced-leaf [] (leaf b) a n = (refl, λ x y e e'. cc)
    Reduced-leaf [] (table t) a n = (refl, λ x y e e'. cc)
    Reduced-leaf (k ∷ p) v a n = (refl, λ x y e e'. cc)

    within_lem :
        (k : Str) (v : Value A) (d : Table A) (inner : Table A → Option (Table A)) (w : Value A)
        → find k d ≡ some w
        → equal v w ≡ false
        → InnerDone v inner (some w)
        → EntryDone k v d (within k d inner w)
    within_lem k v d inner (leaf a) e n h = (
      d,
      refl,
      (λ j n. refl, λ p. subst (λ o. Reduced equal p o o (some v)) (sym e) (Reduced-leaf p v a n)),
    )
    within_lem k v d inner (table m) e n h =
        let r = h m refl in
        (
          assign k (table r.0) d,
          ap (λ o. elim o [ none ↦ none | some m' ↦ some (assign k (table m') d) ]) r.1,
          (
            λ j n. find-assign_other k j (table r.0) d n,
            λ p.
                subst (λ o. Reduced equal p o (find k d) (some v))
                  (sym (find-assign k (table r.0) (table m) d e))
                  (subst (λ o. Reduced equal p (some (table r.0)) o (some v)) (sym e) (r.2 p)),
          ),
        )

    delete_entry_lem :
        (k : Str) (v : Value A) (d : Table A) (inner : Table A → Option (Table A))
        (o : Option (Value A))
        → find k d ≡ o
        → InnerDone v inner o
        → EntryDone k v d (delete_entry equal k v d inner o)
    delete_entry_lem k v d inner none e h = (
      d,
      refl,
      (
        λ j n. refl,
        λ p. subst (λ o. Reduced equal p o o (some v)) (sym e) (refl, λ x y e' e''. cc),
      ),
    )
    delete_entry_lem k v d inner (some w) e h =
        let test = λ (b : Bool). if b then some (remove k d) else within k d inner w in
        elim (Bool-cases (equal v w)) [
          | inl y ↦ (
            remove k d,
            ap test y,
            (
              λ j n. find-remove_other k j d n,
              λ p.
                  subst (λ o. Reduced equal p o (find k d) (some v)) (sym (find-remove k d))
                    (subst (λ o. Reduced equal p none o (some v)) (sym e)
                      (
                        or_default_same (leaf_at p w) (leaf_at p v) (deep v w y p),
                        λ x y e' e''. cc,
                      )),
            ),
          )
          | inr n ↦ subst (λ b. EntryDone k v d (test b)) (sym n) (within_lem k v d inner w e n h)
        ]

    Reduced-within :
        (t m m' : Table A)
        → KeepsAll equal t m m'
        → (p : List Str) → Reduced equal p (some (table m')) (some (table m)) (some (table t))
    unfolding leaf_at
    Reduced-within t m m' h [] = (refl, λ a b e e'. cc)
    Reduced-within t m m' h (k ∷ p) = h.1 k p

    rest_lem :
        (k : Str) (v : Value A) (s d : Table A) (next : Table A → Option (Table A))
        (o : Option (Table A))
        → find k s ≡ none
        → EntryDone k v d o
        → ((d1 : Table A) → Keeps equal k v d d1 → Deleted s d1 (next d1))
        → Deleted (entry k v s) d (elim o [ none ↦ none | some d1 ↦ next d1 ])
    rest_lem k v s d next o n one all =
        let r = all one.0 one.2 in
        (
          r.0,
          ap (λ x. elim x [ none ↦ none | some d1 ↦ next d1 ]) one.1 ∙ r.1,
          KeepsAll-entry equal k v s d one.0 r.0 n one.2 r.2,
        )

    deletes : (s d : Table A) → IsShaped s d → Deleted s d (delete_equal equal s d)
    unfolding delete_equal IsShaped
    deletes end d h = (d, refl, (λ k n. refl, λ k p. (refl, λ a b e e'. cc)))
    deletes (entry k (leaf a) s) d h =
        rest_lem k (leaf a) s d (delete_equal equal s)
          (delete_entry equal k (leaf a) d (λ m. none) (find k d)) h.0
          (delete_entry_lem k (leaf a) d (λ m. none) (find k d) refl (λ m e. absurd (h.1 m e)))
          (λ d1 keeps. deletes s d1 (IsShaped-change k s d d1 h.0 keeps.0 h.2))
    deletes (entry k (table t) s) d h =
        rest_lem k (table t) s d (delete_equal equal s)
          (delete_entry equal k (table t) d (λ m. delete_equal equal t m) (find k d)) h.0
          (delete_entry_lem k (table t) d (λ m. delete_equal equal t m) (find k d) refl
            (λ m e. let r = deletes t m (h.1 m e) in (r.0, r.1, Reduced-within t m r.0 r.2)))
          (λ d1 keeps. deletes s d1 (IsShaped-change k s d d1 h.0 keeps.0 h.2))

  -- Where equal values agree at every path, and the defaults and the configuration are of one shape
  -- (no key twice among the defaults, and no map in the configuration where the defaults have a leaf),
  -- DeleteEqual does not panic; what every path leads to, in what is left or else in the defaults, is
  -- what it led to before; and no leaf is left that equals the default at its path.
  pub delete_equal-IsReduced :
      (equal : Value A → Value A → Bool)
      → IsDeep equal
      → (s d : Table A) → IsShaped s d
      → (d' : Table A) × (delete_equal equal s d ≡ some d')
        × ((p : List Str)
            → or_default (leaf_at p (table d')) (leaf_at p (table s))
              ≡ or_default (leaf_at p (table d)) (leaf_at p (table s)))
        × ((p : List Str) (a b : A)
            → leaf_at p (table d') ≡ some a
            → leaf_at p (table s) ≡ some b
            → equal (leaf b) (leaf a) ≡ false)
  delete_equal-IsReduced equal deep s d h =
      let r = deletes equal deep s d h in
      let at = Reduced-within equal deep s d r.0 r.2 in (r.0, r.1, (λ p. (at p).0), λ p. (at p).1)
