-- ===== src/Config/Merge/Again.antt =====
-- Merging the same map a second time.
use goop.Base.{
  ◌≡◌, refl, sym, ap, ◌∙◌, inl, inr, true, false, ◌||◌, List, [], ◌∷◌, ◌++◌, append-nil, Option,
  none, some, Str, All, All-append, All-map, Bool-cases, Option-cases,
}
use mathlib.Core.Path.{subst}
use goop.Config.Merge.{
  last_fold, is_there, old_entries, new_entries, merge_maps, made_or, entries_of,
}
use goop.Config.Merge.Entries.{
  IsFoldMap, IsMapOf, last_fold-All, looked_up, olds, news, new_value, olds-cons, there_again,
}

module _ {ℓ} {A : Type ℓ} (merged : A → A → A) (zero : A) where
  -- Merging `src` again leaves such an entry as it is.
  abbrev Settled : List (Str × A) → Str × A → Type ℓ
  Settled src p = (v : A) → last_fold p.0 src ≡ some v → merged p.1 v ≡ p.1

  olds-Settled : (r src : List (Str × A)) → All (Settled src) r → olds merged zero r src ≡ r
  unfolding old_entries
  olds-Settled [] src h = refl
  olds-Settled ((k, x) ∷ r) src (first, h) =
      let ih = olds-Settled r src h in
      elim (Bool-cases (is_there (last_fold k r))) [
        | inl later ↦ rw later (ap (λ m. (k, x) ∷ m) ih)
        | inr last ↦ elim (Option-cases (last_fold k src)) [
          | inl e ↦ rw (last, e) (ap (λ m. (k, x) ∷ m) ih)
          | inr (v, e) ↦ rw (last, e) (rw (first v e) (ap (λ m. (k, x) ∷ m) ih))
        ]
      ]

  module _ (P : A → Type 0) (P_zero : P zero)
      (again : (old v : A) → P old → P v → merged (merged old v) v ≡ merged old v) where
    abbrev AllP : List (Str × A) → Type 0
    AllP m = All (λ p. P p.1) m

    Settled-old :
        (dst src : List (Str × A))
        → IsFoldMap dst
        → AllP dst
        → AllP src
        → All (Settled src) (olds merged zero dst src)
    unfolding IsFoldMap old_entries
    Settled-old [] src h p q = tt
    Settled-old ((k, old) ∷ dst) src (first, h) (p, ps) q =
        let head = settled_value (last_fold k src) refl in
        subst (All (Settled src)) (sym (olds-cons merged zero k old dst src first))
          (head, Settled-old dst src h ps q)
      where
        settled_value :
            (o : Option A) → last_fold k src ≡ o → Settled src (k, new_value merged zero old o)
        settled_value none e v e' = let none_some : none ≡ some v = sym e ∙ e' in cc
        settled_value (some w) e v e' =
            let some_some : some w ≡ some v = sym e ∙ e' in
            let same : w ≡ v = cc in
            let settled = again old w p (last_fold-All P k src w q e) in
            ap (merged (merged old w)) (sym same) ∙ settled

    Settled-new :
        (dst s src : List (Str × A))
        → AllP s
        → All (λ p. last_fold p.0 src ≡ some p.1) s
        → All (Settled src) (news merged zero dst s)
    unfolding new_entries
    Settled-new dst [] src q e = tt
    Settled-new dst ((k, v) ∷ s) src (q, qs) (e, es) =
        let rest = Settled-new dst s src qs es in
        elim (Bool-cases (is_there (last_fold k s) || is_there (last_fold k dst))) [
          | inl skip ↦ rw skip rest
          | inr take ↦ rw take (
            λ w e'.
                let some_some : some v ≡ some w = sym e ∙ e' in
                let same : v ≡ w = cc in
                ap (merged (merged zero v)) (sym same) ∙ again zero v P_zero q,
            rest,
          )
        ]

    news-none :
        (r s : List (Str × A))
        → All (λ p. is_there (last_fold p.0 r) ≡ true) s
        → news merged zero r s ≡ []
    unfolding new_entries
    news-none r [] h = refl
    news-none r ((k, v) ∷ s) (first, h) = elim (Bool-cases (is_there (last_fold k s))) [
      | inl y ↦ rw y (news-none r s h)
      | inr n ↦ rw (n, first) (news-none r s h)
    ]

    entries-IsMapOf :
        (m : Option (List (Str × A))) → IsMapOf P m → IsFoldMap (entries_of m) × AllP (entries_of m)
    unfolding IsFoldMap
    entries-IsMapOf none h = (tt, tt)
    entries-IsMapOf (some m) h = h

    -- A second merge of the same map changes nothing.
    pub merge_maps_again :
        (dst src : Option (List (Str × A)))
        → IsMapOf P dst
        → IsMapOf P src
        → merge_maps merged zero false (merge_maps merged zero false dst src) src
          ≡ merge_maps merged zero false dst src
    unfolding merge_maps
    merge_maps_again dst src h k =
        let (hd, pd) = entries-IsMapOf dst h in
        let (hs, ps) = entries-IsMapOf src k in
        let d = entries_of dst in
        let s = entries_of src in
        let r = olds merged zero d s ++ news merged zero d s in
        let settled : All (Settled s) r =
          All-append (Settled s) (olds merged zero d s) (news merged zero d s)
            (Settled-old d s hd pd ps) (Settled-new d s s ps (looked_up s hs)) in
        let there =
          All-map (λ p. last_fold p.0 s ≡ some p.1) (λ p. is_there (last_fold p.0 r) ≡ true) s
            (λ p e. there_again merged zero d s hd hs p.0 (ap is_there e)) (looked_up s hs) in
        let same : olds merged zero r s ++ news merged zero r s ≡ r =
          ap (λ m. olds merged zero r s ++ m) (news-none r s there)
          ∙ append-nil (olds merged zero r s)
          ∙ olds-Settled r s settled in
        made_again dst r s same
      where
        made_again :
            (dst : Option (List (Str × A))) (r s : List (Str × A))
            → olds merged zero r s ++ news merged zero r s ≡ r
            → let m = made_or dst r in
              let e = entries_of m in made_or m (olds merged zero e s ++ news merged zero e s) ≡ m
        made_again none [] s same = ap (made_or none) same
        made_again none (p ∷ r) s same = ap some same
        made_again (some dst) r s same = ap some same
