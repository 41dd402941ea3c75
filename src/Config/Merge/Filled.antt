-- ===== src/Config/Merge/Filled.antt =====
-- What filling in defaults comes to.
use goop.Base.{
  ◌≡◌, refl, sym, ap, inl, inr, true, false, List, [], ◌∷◌, ◌++◌, map, Option, none, some, Str, All,
  All-map, Bool-cases,
}
use mathlib.Core.Path.{subst}
use mathlib.Core.List.{Memᴰ}
use goop.Config.Merge.{
  Scalars, GoType, FieldTypes, scalar, pointer, slice, map_to, struct, end, field, Value, Values,
  zero_value, zero_values, is_empty, is_nil, entries_of, made_or, last_fold, is_there, merge,
  merge_fields, merge_maps, fill,
}
use goop.Config.Merge.Entries.{
  IsFoldMap, IsMapOf, olds, news, new_value, olds-Mem, news-Mem, there_again, looked_up,
  last_fold-All,
}
use goop.Config.Merge.Distinct.{
  IsDistinct, AreDistinct, zero-IsDistinct, zero-AreDistinct, merge_again,
}

module _ {A : Type 0} where
  -- An entry that stays is filled with what the defaults have for its key, or is as it was.
  abbrev pub FilledEntry : (A → A → A → Type 0) → A → Option A → A → Type 0
  FilledEntry K x none y = y ≡ x
  FilledEntry K x (some w) y = K x w y

  -- A default whose key is not there is filled into the zero value.
  abbrev pub AddedEntry : (A → A → A → Type 0) → A → List (Str × A) → Str × A → Option A → Type 0
  AddedEntry K zero r p (some old) = Unit
  AddedEntry K zero r p none = (y : A) × Memᴰ (p.0, y) r × K zero p.1 y

  -- Each entry of `dst` stays, filled; every key of the defaults `src` is there, and those that are new
  -- have their default.
  abbrev pub FilledMap : (A → A → A → Type 0) → A → (dst src r : List (Str × A)) → Type 0
  FilledMap K zero dst src r =
      All (λ p. (y : A) × Memᴰ (p.0, y) r × FilledEntry K p.1 (last_fold p.0 src) y) dst
      × All (λ p. is_there (last_fold p.0 r) ≡ true) src
      × All (λ p. AddedEntry K zero r p (last_fold p.0 dst)) src

  -- The items of the defaults, one by one, filled into zero values.
  abbrev pub FilledItems : (A → A → A → Type 0) → A → (d r : List A) → Type 0
  FilledItems K zero [] [] = Unit
  FilledItems K zero (x ∷ d) (y ∷ r) = K zero x y × FilledItems K zero d r
  FilledItems K zero _ _ = ⊥

  abbrev pub items_of : Option (List A) → List A
  items_of none = []
  items_of (some l) = l

  Memᴰ-back : (x : Str × A) (a b : List (Str × A)) → Memᴰ x b → Memᴰ x (a ++ b)
  Memᴰ-back x [] b m = m
  Memᴰ-back x (y ∷ a) b m = Memᴰ.tail (Memᴰ-back x a b m)

  Memᴰ-front : (x : Str × A) (a b : List (Str × A)) → Memᴰ x a → Memᴰ x (a ++ b)
  Memᴰ-front x [] b m = elim m [ ]
  Memᴰ-front x (y ∷ a) b (Memᴰ.head e) = Memᴰ.head e
  Memᴰ-front x (y ∷ a) b (Memᴰ.tail m) = Memᴰ.tail (Memᴰ-front x a b m)

  All-Memᴰ : (m : List (Str × A)) → All (λ p. Memᴰ p m) m
  All-Memᴰ [] = tt
  All-Memᴰ (p ∷ m) = (
    Memᴰ.head refl,
    All-map (λ q. Memᴰ q m) (λ q. Memᴰ q (p ∷ m)) m (λ q. Memᴰ.tail) (All-Memᴰ m),
  )

  entries-made_or :
      (dst : Option (List (Str × A))) (r : List (Str × A)) → entries_of (made_or dst r) ≡ r
  entries-made_or none [] = refl
  entries-made_or none (p ∷ r) = refl
  entries-made_or (some m) r = refl

  filled_of_empty :
      (K : A → A → A → Type 0) (zero : A) (m : List (Str × A)) → FilledMap K zero m [] m
  unfolding last_fold
  filled_of_empty K zero m =
      (All-map (λ p. Memᴰ p m) _ m (λ p there. (p.1, there, refl)) (All-Memᴰ m), tt, tt)

  module _ (merged : A → A → A) (zero : A) (P : A → Type 0) (K : A → A → A → Type 0)
      (P_zero : P zero) (fills : (v d : A) → P v → P d → K v d (merged v d)) where
    FilledItems-map : (d : List A) → All P d → FilledItems K zero d (map (merged zero) d)
    FilledItems-map [] h = tt
    FilledItems-map (x ∷ d) (h, hs) = (fills zero x P_zero h, FilledItems-map d hs)

    entries-FilledMap :
        (dst src : List (Str × A))
        → IsFoldMap dst
        → IsFoldMap src
        → All (λ p. P p.1) dst
        → All (λ p. P p.1) src
        → FilledMap K zero dst src (olds merged zero dst src ++ news merged zero dst src)
    entries-FilledMap dst src hd hs pd ps = (
      stay dst pd (olds-Mem merged zero dst src hd),
      All-map (λ p. last_fold p.0 src ≡ some p.1)
          (λ p.
            is_there (last_fold p.0 (olds merged zero dst src ++ news merged zero dst src)) ≡ true)
          src (λ p e. there_again merged zero dst src hd hs p.0 (ap is_there e)) (looked_up src hs),
      add src ps (news-Mem merged zero dst src hs),
    )
      where
        filled_with :
            (k : Str) (x : A) (o : Option A)
            → last_fold k src ≡ o
            → P x
            → FilledEntry K x o (new_value merged zero x o)
        filled_with k x none e p = refl
        filled_with k x (some w) e p = fills x w p (last_fold-All P k src w ps e)

        added_with :
            (p : Str × A) (o : Option A)
            → last_fold p.0 dst ≡ o
            → P p.1
            → (is_there (last_fold p.0 dst) ≡ false
                → Memᴰ (p.0, merged zero p.1) (news merged zero dst src))
            → AddedEntry K zero (olds merged zero dst src ++ news merged zero dst src) p o
        added_with p (some old) e h there = tt
        added_with p none e h there = (
          merged zero p.1,
          Memᴰ-back _ (olds merged zero dst src) (news merged zero dst src) (there (ap is_there e)),
          fills zero p.1 P_zero h,
        )

        add :
            (m : List (Str × A))
            → All (λ p. P p.1) m
            → All
                (λ p.
                  is_there (last_fold p.0 dst) ≡ false
                  → Memᴰ (p.0, merged zero p.1) (news merged zero dst src))
                m
            → All
                (λ p.
                  AddedEntry K zero
                    (olds merged zero dst src ++ news merged zero dst src)
                    p
                    (last_fold p.0 dst))
                m
        add [] h there = tt
        add (p ∷ m) (h, hs) (there, theres) =
            (added_with p (last_fold p.0 dst) refl h there, add m hs theres)

        stay :
            (m : List (Str × A))
            → All (λ p. P p.1) m
            → All
                (λ p.
                  Memᴰ
                    (p.0, new_value merged zero p.1 (last_fold p.0 src))
                    (olds merged zero dst src))
                m
            → All
                (λ p.
                  (y : A) × Memᴰ (p.0, y) (olds merged zero dst src ++ news merged zero dst src)
                  × FilledEntry K p.1 (last_fold p.0 src) y)
                m
        stay [] h there = tt
        stay ((k, x) ∷ m) (h, hs) (there, theres) = (
          (
            new_value merged zero x (last_fold k src),
            Memᴰ-front _ (olds merged zero dst src) (news merged zero dst src) there,
            filled_with k x (last_fold k src) refl h,
          ),
          stay m hs theres,
        )

module _ (S : Scalars) where
  -- The result `r` of filling `d` in for what is not set in `v`. A scalar stays if it is set, and else is
  -- the default if that is set, and not set otherwise. A pointer stays nil only for a nil default. A list
  -- stays if it has an item, and else has the items of the default.
  unfoldable mutual
    unfolding Value zero_value is_empty last_fold

    pub IsFilled : (t : GoType) → (v d r : Value S t) → Type 0
    IsFilled scalar v d r =
        (S.is_zero v ≡ false → r ≡ v)
        × (S.is_zero v ≡ true → S.is_zero d ≡ false → r ≡ d)
        × (S.is_zero v ≡ true → S.is_zero d ≡ true → S.is_zero r ≡ true)
    IsFilled (pointer fs) v none r = r ≡ v
    IsFilled (pointer fs) none (some d) none = ⊥
    IsFilled (pointer fs) (some v) (some d) none = ⊥
    IsFilled (pointer fs) none (some d) (some r) = AreFilled fs (zero_values S fs) d r
    IsFilled (pointer fs) (some v) (some d) (some r) = AreFilled fs v d r
    IsFilled (slice t) v d r =
        (is_nil S v ≡ false → r ≡ v)
        × (is_nil S v ≡ true → FilledItems (IsFilled t) (zero_value S t) (items_of d) (items_of r))
    IsFilled (map_to t) v d r =
        FilledMap (IsFilled t) (zero_value S t) (entries_of v) (entries_of d) (entries_of r)
    IsFilled (struct fs) v d r = AreFilled fs v d r

    pub AreFilled : (fs : FieldTypes) → (v d r : Values S fs) → Type 0
    AreFilled end v d r = Unit
    AreFilled (field t fs) (v, vs) (d, ds) (r, rs) = IsFilled t v d r × AreFilled fs vs ds rs

  -- An empty default fills nothing in.
  empty-IsFilled : (t : GoType) (v d : Value S t) → is_empty S t d ≡ true → IsFilled t v d v
  unfolding IsFilled is_empty
  empty-IsFilled scalar v d e = (λ h. refl, λ h set. cc, λ h unset. h)
  empty-IsFilled (pointer fs) v none e = refl
  empty-IsFilled (pointer fs) v (some d) e = cc
  empty-IsFilled (slice t) none none e = (λ h. refl, λ h. tt)
  empty-IsFilled (slice t) none (some []) e = (λ h. refl, λ h. tt)
  empty-IsFilled (slice t) (some []) none e = (λ h. refl, λ h. tt)
  empty-IsFilled (slice t) (some []) (some []) e = (λ h. refl, λ h. tt)
  empty-IsFilled (slice t) (some (x ∷ l)) none e = (λ h. refl, λ h. cc)
  empty-IsFilled (slice t) (some (x ∷ l)) (some []) e = (λ h. refl, λ h. cc)
  empty-IsFilled (slice t) v (some (y ∷ d)) e = cc
  empty-IsFilled (map_to t) v none e = filled_of_empty (IsFilled t) (zero_value S t) (entries_of v)
  empty-IsFilled (map_to t) v (some []) e =
      filled_of_empty (IsFilled t) (zero_value S t) (entries_of v)
  empty-IsFilled (map_to t) v (some (p ∷ m)) e = cc
  empty-IsFilled (struct fs) v d e = cc

  map-IsFilled :
      (t : GoType)
      → ((v d : Value S t)
          → IsDistinct S t v
          → IsDistinct S t d
          → IsFilled t v d (merge S fill t v d))
      → (v d : Option (List (Str × Value S t))) → IsMapOf (IsDistinct S t) v
      → IsMapOf (IsDistinct S t) d
      → FilledMap
          (IsFilled t)
          (zero_value S t)
          (entries_of v)
          (entries_of d)
          (entries_of (merge_maps (merge S fill t) (zero_value S t) false v d))
  unfolding merge_maps IsFoldMap
  map-IsFilled t fills v d h k =
      let (hv, pv) = entries-IsMapOf v h in
      let (hd, pd) = entries-IsMapOf d k in
      let m = merge S fill t in
      let z = zero_value S t in
      let ev = entries_of v in
      let ed = entries_of d in
      subst (FilledMap (IsFilled t) z ev ed)
        (sym (entries-made_or v (olds m z ev ed ++ news m z ev ed)))
        (entries-FilledMap m z (IsDistinct S t) (IsFilled t) (zero-IsDistinct S t) fills ev ed hv hd
          pv pd)
    where
      entries-IsMapOf :
          (o : Option (List (Str × Value S t)))
          → IsMapOf (IsDistinct S t) o
          → IsFoldMap (entries_of o) × All (λ p. IsDistinct S t p.1) (entries_of o)
      entries-IsMapOf none h = (tt, tt)
      entries-IsMapOf (some m) h = h

  merged_items :
      (t : GoType)
      → ((v d : Value S t)
          → IsDistinct S t v
          → IsDistinct S t d
          → IsFilled t v d (merge S fill t v d))
      → (d : List (Value S t)) → All (λ x. IsDistinct S t x) d
      → FilledItems (IsFilled t) (zero_value S t) d (map (merge S fill t (zero_value S t)) d)
  merged_items t fills d k =
      FilledItems-map (merge S fill t) (zero_value S t) (IsDistinct S t) (IsFilled t)
        (zero-IsDistinct S t) fills d k

  mutual
    unfolding merge IsFilled IsDistinct

    pub merge-IsFilled :
        (t : GoType) (v d : Value S t)
        → IsDistinct S t v
        → IsDistinct S t d
        → IsFilled t v d (merge S fill t v d)
    merge-IsFilled scalar v d h k = elim (Bool-cases (S.is_zero v)) [
      | inl z ↦ rw z (λ set. cc, λ unset set. refl, λ unset unset'. unset')
      | inr n ↦ rw n (λ set. refl, λ unset. cc, λ unset. cc)
    ]
    merge-IsFilled (pointer fs) v none h k = refl
    merge-IsFilled (pointer fs) none (some d) h k =
        merge_fields-AreFilled fs (zero_values S fs) d (zero-AreDistinct S fs) k
    merge-IsFilled (pointer fs) (some v) (some d) h k = merge_fields-AreFilled fs v d h k
    merge-IsFilled (slice t) none none h k = (λ e. refl, λ e. tt)
    merge-IsFilled (slice t) (some []) none h k = (λ e. cc, λ e. tt)
    merge-IsFilled (slice t) (some (x ∷ l)) none h k = (λ e. refl, λ e. cc)
    merge-IsFilled (slice t) none (some d) h k =
        (λ e. cc, λ e. merged_items t (merge-IsFilled t) d k)
    merge-IsFilled (slice t) (some []) (some d) h k =
        (λ e. cc, λ e. merged_items t (merge-IsFilled t) d k)
    merge-IsFilled (slice t) (some (x ∷ l)) (some d) h k = (λ e. refl, λ e. cc)
    merge-IsFilled (map_to t) v d h k = map-IsFilled t (merge-IsFilled t) v d h k
    merge-IsFilled (struct fs) v d h k = merge_fields-AreFilled fs v d h k

    pub merge_fields-AreFilled :
        (fs : FieldTypes) (v d : Values S fs)
        → AreDistinct S fs v
        → AreDistinct S fs d
        → AreFilled fs v d (merge_fields S fill fs v d)
    merge_fields-AreFilled end v d h k = tt
    merge_fields-AreFilled (field t fs) (v, vs) (d, ds) (h, hs) (k, ks) =
        let rest = merge_fields-AreFilled fs vs ds hs ks in
        elim (Bool-cases (is_empty S t d)) [
          | inl e ↦ rw e (empty-IsFilled t v d e, rest)
          | inr n ↦ rw n (merge-IsFilled t v d h k, rest)
        ]

  -- Where no map has keys that are equal but for their case, MergeDefaults' merge of defaults `d` into
  -- `v` gives what is to be filled in: what is set in `v` stays at every depth; a scalar that is not set
  -- becomes the default, where that is set; a list without items gets all the items of the default, each
  -- filled into a zero value; and a map keeps its entries, filled with the defaults for their keys, and
  -- gets an entry for every other key of the defaults, filled into a zero value. Merging the same defaults
  -- again changes nothing.
  pub merge_fills :
      (t : GoType) (v d : Value S t)
      → IsDistinct S t v
      → IsDistinct S t d
      → IsFilled t v d (merge S fill t v d)
        × (merge S fill t (merge S fill t v d) d ≡ merge S fill t v d)
  merge_fills t v d h k = (merge-IsFilled t v d h k, merge_again S t v d h k)
