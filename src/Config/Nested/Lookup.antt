-- ===== src/Config/Nested/Lookup.antt =====
-- Lookups in the nested maps of structs.go, after a removal or an assignment.
use goop.Base.{
  ◌≡◌, refl, sym, ◌∙◌, inl, inr, false, none, some, Str, str_eq, str_eq_refl, str_eq_sym, str_eq→eq,
  arith, Bool-cases,
}
use mathlib.Core.Path.{subst}
use goop.Config.Nested.{Value, Table, end, entry, find, remove, assign}

module _ {A : Type 0} where
  pub find-remove : (k : Str) (d : Table A) → find k (remove k d) ≡ none
  unfolding find remove
  find-remove k end = refl
  find-remove k (entry j v d) = ground (arith, find-remove k d)

  pub find-remove_other :
      (k j : Str) (d : Table A) → str_eq k j ≡ false → find j (remove k d) ≡ find j d
  unfolding find remove
  find-remove_other k j end h = refl
  find-remove_other k j (entry i v d) h = elim (Bool-cases (str_eq i k)) [
    | inl e ↦
        let other : str_eq i j ≡ false =
          subst (λ x. str_eq x j ≡ false) (sym (str_eq→eq i k e)) h in
        rw (e, remove, other) (find-remove_other k j d h)
    | inr n ↦ elim (Bool-cases (str_eq i j)) [
      | inl y ↦ rw (n, remove, y) refl
      | inr m ↦ rw (n, remove, m) (find-remove_other k j d h)
    ]
  ]

  pub find-assign :
      (k : Str) (v w : Value A) (d : Table A) → find k d ≡ some w → find k (assign k v d) ≡ some v
  unfolding find assign
  find-assign k v w end h = cc
  find-assign k v w (entry j u d) h = ground (arith, find-assign k v w d)

  pub find-assign_other :
      (k j : Str) (v : Value A) (d : Table A)
      → str_eq k j ≡ false
      → find j (assign k v d) ≡ find j d
  unfolding find assign
  find-assign_other k j v end h = refl
  find-assign_other k j v (entry i u d) h = elim (Bool-cases (str_eq i k)) [
    | inl e ↦
        let other : str_eq i j ≡ false =
          subst (λ x. str_eq x j ≡ false) (sym (str_eq→eq i k e)) h in
        rw (e, assign, other) refl
    | inr n ↦ elim (Bool-cases (str_eq i j)) [
      | inl y ↦ rw (n, assign, y) refl
      | inr m ↦ rw (n, assign, m) (find-assign_other k j v d h)
    ]
  ]

  -- A key that is there, and one that is not, are different.
  pub keys-differ :
      (k j : Str) (v : Value A) (s : Table A) → find k (entry j v s) ≡ none → str_eq k j ≡ false
  unfolding find
  keys-differ k j v s h = elim (Bool-cases (str_eq j k)) [
    | inl e ↦ ground arith
    | inr n ↦ str_eq_sym k j ∙ n
  ]

  pub find-later :
      (k j : Str) (v : Value A) (s : Table A) → find k (entry j v s) ≡ none → find k s ≡ none
  unfolding find
  find-later k j v s h = ground arith

  pub find-here : (k : Str) (v : Value A) (s : Table A) → find k (entry k v s) ≡ some v
  unfolding find
  find-here k v s = rw (str_eq_refl k) refl

  pub find-there :
      (k j : Str) (v : Value A) (s : Table A) → str_eq k j ≡ false → find j (entry k v s) ≡ find j s
  unfolding find
  find-there k j v s n = rw n refl
