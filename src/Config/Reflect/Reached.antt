-- ===== src/Config/Reflect/Reached.antt =====
-- How the entries, fields and items below a value are reached, and that those before do not hide them.
use goop.Base.{
  ℕ, suc, ◌+◌, ◌<◌, ◌≡◌, ◌⊎◌, ap, ◌∙◌, inl, inr, true, false, List, ◌∷◌, Option, some, Str,
  str_eq_refl, arith,
}
use goop.Golang.Strings.{equal_fold}
use goop.Golang.Strings.Laws.{equal_fold_refl}
use goop.Golang.Strconv.{itoa}
use goop.Golang.Strconv.RoundTrip.{two63}
use goop.Config.Reflect.{
  Reflected, Items, Entries, Fields, item, entry, field, named, try_name, find, find_at, find_exact,
  find_entry, find_field,
}
use goop.Config.Reflect.Absent.{
  Absent, AbsentEntries, AbsentFields, Unlisted, UnlistedFields, fold-differ, find-Absent,
  find_entry-AbsentEntries, find_field-AbsentFields,
}

not_right : (P : Type 0) {Q : Type 0} → (P ⊎ Q) → (Q → ⊥) → P
not_right P (inl p) h = p
not_right P (inr q) h = absurd (h q)

module _ {A : Type 0} where
  abbrev pub ReachesEntry : Entries A → Str → List Str → Reflected A → Type 0
  ReachesEntry es k ks w =
      (find_entry es k ks ≡ (some w, k ∷ ks)) × (find_exact es k ks ≡ some (some w, k ∷ ks))

  abbrev pub ReachesField : Fields A → Str → List Str → Reflected A → Type 0
  ReachesField fs k ks w =
      (UnlistedFields k fs → ⊥)
      × ((anon : Option (Reflected A)) → find_field fs anon k ks ≡ (some w, k ∷ ks))

  -- The index `i` is that of the first item.
  abbrev pub ReachesItem : ℕ → Items A → Str → List Str → Reflected A → Type 0
  ReachesItem i xs k ks w =
      (n : ℕ) × (i + n < two63) × (k ≡ itoa (i + n)) × (find_at xs (some n) k ks ≡ (some w, k ∷ ks))

  -- A name that is reached is not absent.
  differs_of_reached :
      (k : Str) (ks : List Str) (w : Reflected A) (j : Str) (es : Entries A)
      → ((equal_fold k j ≡ false) ⊎ AbsentEntries k es)
      → find_entry es k ks ≡ (some w, k ∷ ks)
      → equal_fold k j ≡ false
  differs_of_reached k ks w j es (inl n) h = n
  differs_of_reached k ks w j es (inr a) h = let gone = find_entry-AbsentEntries k ks es a in cc

  pub entry_reached :
      (j : Str) (v : Reflected A) (es : Entries A) (k : Str) (ks : List Str) (w : Reflected A)
      → ((k : Str) → (equal_fold k j ≡ false) ⊎ AbsentEntries k es)
      → ReachesEntry es k ks w
      → ReachesEntry (entry j v es) k ks w
  unfolding find
  entry_reached j v es k ks w apart (h, h') =
      let n = differs_of_reached k ks w j es (apart k) h in (rw n h, rw (fold-differ k j n) h')

  pub entry_here :
      (j : Str) (v : Reflected A) (es : Entries A) (ks : List Str) (w : Reflected A)
      → find v ks ≡ (some w, ks)
      → ReachesEntry (entry j v es) j ks w
  unfolding find
  entry_here j v es ks w h =
      (rw (equal_fold_refl j) (ap (named j) h), rw (str_eq_refl j) (ap (λ r. some (named j r)) h))

  pub named_reached :
      (j : Str) (v : Reflected A) (fs : Fields A) (k : Str) (ks : List Str) (w : Reflected A)
      → ((k : Str) → (equal_fold k j ≡ false) ⊎ UnlistedFields k fs)
      → ReachesField fs k ks w
      → ReachesField (field true false j v fs) k ks w
  unfolding find Unlisted
  named_reached j v fs k ks w apart (listed, h) =
      (λ u. listed u.1, λ anon. rw (not_right _ (apart k) listed) (h anon))

  pub named_here :
      (j : Str) (v : Reflected A) (fs : Fields A) (ks : List Str) (w : Reflected A)
      → find v ks ≡ (some w, ks)
      → ReachesField (field true false j v fs) j ks w
  unfolding find Unlisted
  named_here j v fs ks w h = (
    λ u. let same = equal_fold_refl j in let differs = u.0 in cc,
    λ anon. rw (equal_fold_refl j) (ap (named j) h),
  )

  pub anonymous_reached :
      (j : Str) (v : Reflected A) (fs : Fields A) (k : Str) (ks : List Str) (w : Reflected A)
      → ((k : Str) → ((equal_fold k j ≡ false) × Absent k v) ⊎ UnlistedFields k fs)
      → ReachesField fs k ks w
      → ReachesField (field true true j v fs) k ks w
  unfolding find Unlisted
  anonymous_reached j v fs k ks w apart (listed, h) =
      let (n, a) = not_right ((equal_fold k j ≡ false) × Absent k v) (apart k) listed in
      (
        λ u. listed u.1,
        λ anon.
            ap (try_name j (find v) (find_field fs) anon) (find-Absent k ks v a) ∙ rw n (h anon),
      )

  pub anonymous_here :
      (j : Str) (v : Reflected A) (fs : Fields A) (k : Str) (ks : List Str) (w : Reflected A)
      → ((k : Str) → (equal_fold k j ≡ false) ⊎ Unlisted k v)
      → ((k : Str) → AbsentFields k fs ⊎ Unlisted k v)
      → find v (k ∷ ks) ≡ (some w, k ∷ ks)
      → (Unlisted k v → ⊥)
      → ReachesField (field true true j v fs) k ks w
  unfolding find Unlisted
  anonymous_here j v fs k ks w own apart h listed =
      let differs : equal_fold k j ≡ false = not_right (equal_fold k j ≡ false) (own k) listed in
      let rest : AbsentFields k fs = not_right (AbsentFields k fs) (apart k) listed in
      (
        λ u. listed u.0,
        λ anon.
            ap (try_name j (find v) (find_field fs) anon) h
            ∙ rw differs (find_field-AbsentFields k ks fs (some w) rest),
      )

  pub item_reached :
      (i : ℕ) (v : Reflected A) (xs : Items A) (k : Str) (ks : List Str) (w : Reflected A)
      → ReachesItem (suc i) xs k ks w
      → ReachesItem i (item v xs) k ks w
  unfolding find
  item_reached i v xs k ks w (n, bound, e, h) =
      let same : suc i + n ≡ i + suc n = omega arith in (suc n, omega arith, e ∙ ap itoa same, h)

  pub item_here :
      (i : ℕ) (v : Reflected A) (xs : Items A) (ks : List Str) (w : Reflected A)
      → i < two63
      → find v ks ≡ (some w, ks)
      → ReachesItem i (item v xs) (itoa i) ks w
  unfolding find
  item_here i v xs ks w bound h =
      let same : i ≡ i + 0 = omega arith in (0, omega arith, ap itoa same, ap (named (itoa i)) h)
