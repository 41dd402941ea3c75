-- ===== src/Config/Reflect/Found.antt =====
-- What FlatMap lists, Get finds.
use goop.Base.{
  ℕ, suc, ◌+◌, ◌≡◌, ◌≢◌, refl, sym, ap, ◌∙◌, Bool, true, false, List, [], ◌∷◌, none, some, Str,
  codes, All, All-append, All-map, arith, ok,
}
use mathlib.Core.Path.{subst}
use goop.Base.Int.{pos}
use goop.Golang.Strings.{join, split}
use goop.Golang.Strconv.{itoa, parse_int}
use goop.Golang.Strconv.RoundTrip.{parse_int-itoa}
use goop.Config.Reflect.{
  Reflected, Items, Entries, Fields, invalid, nil_ref, ref, slice, array, map_of, struct, plain,
  no_items, item, no_entries, entry, no_fields, field, behind_prefix, index_of, find, find_at,
  flat_map, flat_items, flat_entries, flat_fields, find_key, get, found_or_unknown,
}
use goop.Config.Reflect.Absent.{Unlisted, AbsentEntries, find_entry-AbsentEntries}
use goop.Config.Reflect.Tidy.{
  IsName, IsStruct, Tidy, TidyItems, TidyEntries, TidyFields, put_behind, itoa-IsName, split-join,
}
use goop.Config.Reflect.Listed.{
  target, IsListedName, Listed, Below, Below-map, Below-Listed, Listed-Below, Listed-here,
}
use goop.Config.Reflect.Reached.{
  ReachesEntry, ReachesField, ReachesItem, entry_reached, entry_here, named_reached, named_here,
  anonymous_reached, anonymous_here, item_reached, item_here,
}

module _ {A : Type 0} where
  Listed-ref :
      (v : Reflected A) (prf : Str) (p : Str × Reflected A) → Listed v prf p → Listed (ref v) prf p
  unfolding find target Unlisted
  Listed-ref v prf p b = go b.names b.same_key b.are_names b.is_found b.is_listed
    where
      go :
          (ks : List Str)
          → p.0 ≡ put_behind prf ks
          → All IsName ks
          → find v ks ≡ (some b.there, ks)
          → IsListedName v ks
          → Listed (ref v) prf p
      go [] key names found listed = record {
        names = [];
        there = ref v;
        same_key = key;
        are_names = tt;
        is_found = refl;
        is_listed = tt;
        same_value = let same : v ≡ b.there = cc in ap target same ∙ b.same_value;
        no_struct = b.no_struct;
      }
      go (k ∷ ks) key names found listed = record {
        names = k ∷ ks;
        there = b.there;
        same_key = key;
        are_names = names;
        is_found = found;
        is_listed = listed;
        same_value = b.same_value;
        no_struct = b.no_struct;
      }

  target-IsStruct : (v : Reflected A) → IsStruct v → IsStruct (target v)
  unfolding target
  target-IsStruct (ref v) h = target-IsStruct v h
  target-IsStruct (struct fs) h = tt
  target-IsStruct invalid h = absurd h
  target-IsStruct nil_ref h = absurd h
  target-IsStruct (slice xs) h = absurd h
  target-IsStruct (array xs) h = absurd h
  target-IsStruct (map_of text es) h = absurd h
  target-IsStruct (plain a) h = absurd h

  -- Nothing is listed for a structure itself.
  Below-struct :
      (R : Str → List Str → Reflected A → Type 0) (v : Reflected A) (prf : Str)
      (p : Str × Reflected A)
      → IsStruct v
      → ((k : Str) (ks : List Str) (w : Reflected A)
          → find v (k ∷ ks) ≡ (some w, k ∷ ks)
          → (Unlisted k v → ⊥)
          → R k ks w)
      → Listed v prf p
      → Below R prf p
  unfolding find
  Below-struct R v prf p s f b = go b.names b.same_key b.are_names b.is_found b.is_listed
    where
      go :
          (ks : List Str)
          → p.0 ≡ put_behind prf ks
          → All IsName ks
          → find v ks ≡ (some b.there, ks)
          → IsListedName v ks
          → Below R prf p
      go [] key names found listed =
          let same : v ≡ b.there = cc in
          absurd
            (b.no_struct (subst IsStruct (ap target same ∙ b.same_value) (target-IsStruct v s)))
      go (k ∷ ks) key names found listed = record {
        first = k;
        names = ks;
        there = b.there;
        same_key = key;
        are_names = names;
        is_reached = f k ks b.there found listed;
        same_value = b.same_value;
        no_struct = b.no_struct;
      }

  index_found :
      (xs : Items A) (k : Str) (ks : List Str) (w : Reflected A)
      → ReachesItem 0 xs k ks w
      → (find_at xs (index_of (parse_int 64 k)) k ks ≡ (some w, k ∷ ks)) × (⊥ → ⊥)
  index_found xs k ks w (n, bound, e, h) =
      let same : 0 + n ≡ n = omega arith in
      let reads : parse_int 64 k ≡ ok (pos n) =
        ap (parse_int 64) (e ∙ ap itoa same) ∙ parse_int-itoa n (omega arith) in
      (ap (λ r. find_at xs (index_of r) k ks) reads ∙ h, λ x. x)

  entry_found :
      (text : Bool) (es : Entries A) (k : Str) (ks : List Str) (w : Reflected A)
      → ReachesEntry es k ks w
      → (find (map_of text es) (k ∷ ks) ≡ (some w, k ∷ ks)) × (AbsentEntries k es → ⊥)
  unfolding find
  entry_found true es k ks w (h, h') =
      (rw h' refl, λ a. let gone = find_entry-AbsentEntries k ks es a in cc)
  entry_found false es k ks w (h, h') =
      (h, λ a. let gone = find_entry-AbsentEntries k ks es a in cc)

  mutual
    unfolding flat_map find Tidy target Unlisted

    pub flat_map-Listed :
        (v : Reflected A) (prf : Str) → Tidy v → All (Listed v prf) (flat_map prf v)
    flat_map-Listed invalid prf h = (Listed-here invalid prf refl (λ x. x), tt)
    flat_map-Listed nil_ref prf h = (Listed-here nil_ref prf refl (λ x. x), tt)
    flat_map-Listed (ref v) prf h =
        All-map (Listed v prf) (Listed (ref v) prf) (flat_map prf v) (Listed-ref v prf)
          (flat_map-Listed v prf h)
    flat_map-Listed (slice xs) prf h = (
      Listed-here (slice xs) prf refl (λ x. x),
      Listed-Below (ReachesItem 0 xs) (slice xs) prf (flat_items prf 0 xs) (index_found xs)
          (flat_items-Below xs prf 0 h),
    )
    flat_map-Listed (array xs) prf h =
        Listed-Below (ReachesItem 0 xs) (array xs) prf (flat_items prf 0 xs) (index_found xs)
          (flat_items-Below xs prf 0 h)
    flat_map-Listed (map_of text es) prf h = (
      Listed-here (map_of text es) prf refl (λ x. x),
      Listed-Below (ReachesEntry es) (map_of text es) prf (flat_entries prf es)
          (entry_found text es) (flat_entries-Below es prf h),
    )
    flat_map-Listed (struct fs) prf h =
        Listed-Below (ReachesField fs) (struct fs) prf (flat_fields prf fs)
          (λ k ks w r. (r.1 none, r.0)) (flat_fields-Below fs prf h)
    flat_map-Listed (plain a) prf h = (Listed-here (plain a) prf refl (λ x. x), tt)

    flat_items-Below :
        (xs : Items A) (prf : Str) (i : ℕ)
        → TidyItems i xs
        → All (Below (ReachesItem i xs) prf) (flat_items prf i xs)
    flat_items-Below no_items prf i h = tt
    flat_items-Below (item v xs) prf i (bound, hv, hs) =
        All-append (Below (ReachesItem i (item v xs)) prf) (flat_map (behind_prefix prf (itoa i)) v)
          (flat_items prf (suc i) xs)
          (Below-Listed (ReachesItem i (item v xs)) v prf (itoa i) _ (itoa-IsName i)
            (λ ks w. item_here i v xs ks w bound)
            (flat_map-Listed v (behind_prefix prf (itoa i)) hv))
          (Below-map (ReachesItem (suc i) xs) (ReachesItem i (item v xs)) prf _
            (item_reached i v xs) (flat_items-Below xs prf (suc i) hs))

    flat_entries-Below :
        (es : Entries A) (prf : Str)
        → TidyEntries es
        → All (Below (ReachesEntry es) prf) (flat_entries prf es)
    flat_entries-Below no_entries prf h = tt
    flat_entries-Below (entry j v es) prf (name, apart, hv, hs) =
        All-append (Below (ReachesEntry (entry j v es)) prf) (flat_map (behind_prefix prf j) v)
          (flat_entries prf es)
          (Below-Listed (ReachesEntry (entry j v es)) v prf j _ name (entry_here j v es)
            (flat_map-Listed v (behind_prefix prf j) hv))
          (Below-map (ReachesEntry es) (ReachesEntry (entry j v es)) prf _
            (λ k ks w. entry_reached j v es k ks w apart) (flat_entries-Below es prf hs))

    flat_fields-Below :
        (fs : Fields A) (prf : Str)
        → TidyFields fs
        → All (Below (ReachesField fs) prf) (flat_fields prf fs)
    flat_fields-Below no_fields prf h = tt
    flat_fields-Below (field false anonymous j v fs) prf h = flat_fields-Below fs prf h
    flat_fields-Below (field true false j v fs) prf (name, apart, hv, hs) =
        All-append (Below (ReachesField (field true false j v fs)) prf)
          (flat_map (behind_prefix prf j) v) (flat_fields prf fs)
          (Below-Listed (ReachesField (field true false j v fs)) v prf j _ name (named_here j v fs)
            (flat_map-Listed v (behind_prefix prf j) hv))
          (Below-map (ReachesField fs) (ReachesField (field true false j v fs)) prf _
            (λ k ks w. named_reached j v fs k ks w apart) (flat_fields-Below fs prf hs))
    flat_fields-Below (field true true j v fs) prf (s, own, later, apart, hv, hs) =
        All-append (Below (ReachesField (field true true j v fs)) prf) (flat_map prf v)
          (flat_fields prf fs)
          (All-map (Listed v prf) (Below (ReachesField (field true true j v fs)) prf)
            (flat_map prf v)
            (λ p.
              Below-struct (ReachesField (field true true j v fs)) v prf p s
                (λ k ks w. anonymous_here j v fs k ks w own later))
            (flat_map-Listed v prf hv))
          (Below-map (ReachesField fs) (ReachesField (field true true j v fs)) prf _
            (λ k ks w. anonymous_reached j v fs k ks w apart) (flat_fields-Below fs prf hs))

  -- The value is found under the key, and the key is in its proper case.
  abbrev pub IsGot : Reflected A → Str × Reflected A → Type 0
  IsGot v (key, w) =
      key ≢ []
      → (there : Reflected A) × (get v key ≡ ok there)
        × (target there ≡ w)
        × ((find_key v key).1 ≡ key)

  Listed-IsGot : (v : Reflected A) (p : Str × Reflected A) → Listed v [] p → IsGot v p
  unfolding get find_key
  Listed-IsGot v p b some_key = go b.names b.same_key b.are_names b.is_found
    where
      go :
          (ks : List Str)
          → p.0 ≡ put_behind [] ks
          → All IsName ks
          → find v ks ≡ (some b.there, ks)
          → (there : Reflected A) × (get v p.0 ≡ ok there)
            × (target there ≡ p.1)
            × ((find_key v p.0).1 ≡ p.0)
      go [] key names found = absurd (some_key key)
      go (k ∷ ks) key names found =
          let parts : split p.0 b'/' ≡ k ∷ ks =
            ap (λ s. split s b'/') key ∙ split-join k ks names in
          let search : find v (split p.0 b'/') ≡ (some b.there, k ∷ ks) =
            ap (find v) parts ∙ found in
          (
            b.there,
            ap (λ r. found_or_unknown r.0) search,
            b.same_value,
            ap (λ r. join r.1 (codes "/")) search ∙ sym key,
          )

  -- In a value that is tidy, Get finds whatever FlatMap lists: for each key that it lists, but the empty
  -- one, a value that leads to the one listed, through pointers if need be; and Find gives the key back
  -- as it is.
  pub flat_map-IsGot : (v : Reflected A) → Tidy v → All (IsGot v) (flat_map [] v)
  flat_map-IsGot v h =
      All-map (Listed v []) (IsGot v) (flat_map [] v) (Listed-IsGot v) (flat_map-Listed v [] h)
