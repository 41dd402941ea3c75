-- ===== src/Config/Reflect/Listed.antt =====
-- What it means that a listed key is found.
use goop.Base.{◌≡◌, refl, ◌∙◌, List, [], ◌∷◌, some, Str, All, All-map}
use goop.Config.Reflect.{Reflected, ref, behind_prefix, find}
use goop.Config.Reflect.Absent.{Unlisted}
use goop.Config.Reflect.Tidy.{IsName, IsStruct, put_behind, put_behind-behind_prefix}

module _ {A : Type 0} where
  -- What pointers and interfaces lead to.
  unfoldable pub target : Reflected A → Reflected A
  target (ref v) = target v
  target v = v

  -- The first of the names is one that is listed.
  abbrev pub IsListedName : Reflected A → List Str → Type 0
  IsListedName v [] = Unit
  IsListedName v (k ∷ ks) = Unlisted k v → ⊥

  -- A listed key and value, behind a prefix: the names after the prefix, which the search finds as they
  -- are, with a value that leads to the listed one.
  pub record Listed (v : Reflected A) (prf : Str) (p : Str × Reflected A) : Type 0 where
    pub names : List Str
    pub there : Reflected A
    pub same_key : p.0 ≡ put_behind prf names
    pub are_names : All IsName names
    pub is_found : find v names ≡ (some there, names)
    pub is_listed : IsListedName v names
    pub same_value : target there ≡ p.1
    pub no_struct : IsStruct p.1 → ⊥

  -- The same for at least one name, where `Reaches` says how it is found.
  pub record Below (Reaches : Str → List Str → Reflected A → Type 0) (prf : Str)
      (p : Str × Reflected A) : Type 0 where
    pub first : Str
    pub names : List Str
    pub there : Reflected A
    pub same_key : p.0 ≡ put_behind prf (first ∷ names)
    pub are_names : All IsName (first ∷ names)
    pub is_reached : Reaches first names there
    pub same_value : target there ≡ p.1
    pub no_struct : IsStruct p.1 → ⊥

  pub Below-map :
      (R S : Str → List Str → Reflected A → Type 0) (prf : Str) (l : List (Str × Reflected A))
      → ((k : Str) (ks : List Str) (w : Reflected A) → R k ks w → S k ks w)
      → All (Below R prf) l
      → All (Below S prf) l
  Below-map R S prf l f = All-map (Below R prf) (Below S prf) l (λ p b. record {
    first = b.first;
    names = b.names;
    there = b.there;
    same_key = b.same_key;
    are_names = b.are_names;
    is_reached = f b.first b.names b.there b.is_reached;
    same_value = b.same_value;
    no_struct = b.no_struct;
  })

  -- One name further up.
  pub Below-Listed :
      (R : Str → List Str → Reflected A → Type 0) (v : Reflected A) (prf k : Str)
      (l : List (Str × Reflected A))
      → IsName k
      → ((ks : List Str) (w : Reflected A) → find v ks ≡ (some w, ks) → R k ks w)
      → All (Listed v (behind_prefix prf k)) l
      → All (Below R prf) l
  Below-Listed R v prf k l name f = All-map (Listed v (behind_prefix prf k)) (Below R prf) l (λ p b.
      record {
        first = k;
        names = b.names;
        there = b.there;
        same_key = b.same_key ∙ put_behind-behind_prefix prf k b.names name.0;
        are_names = (name, b.are_names);
        is_reached = f b.names b.there b.is_found;
        same_value = b.same_value;
        no_struct = b.no_struct;
      })

  pub Listed-Below :
      (R : Str → List Str → Reflected A → Type 0) (v : Reflected A) (prf : Str)
      (l : List (Str × Reflected A))
      → ((k : Str) (ks : List Str) (w : Reflected A)
          → R k ks w
          → (find v (k ∷ ks) ≡ (some w, k ∷ ks)) × (Unlisted k v → ⊥))
      → All (Below R prf) l
      → All (Listed v prf) l
  Listed-Below R v prf l f = All-map (Below R prf) (Listed v prf) l (λ p b. record {
    names = b.first ∷ b.names;
    there = b.there;
    same_key = b.same_key;
    are_names = b.are_names;
    is_found = (f b.first b.names b.there b.is_reached).0;
    is_listed = (f b.first b.names b.there b.is_reached).1;
    same_value = b.same_value;
    no_struct = b.no_struct;
  })

  -- A value that is listed itself.
  pub Listed-here :
      (v : Reflected A) (prf : Str) → target v ≡ v → (IsStruct v → ⊥) → Listed v prf (prf, v)
  unfolding find
  Listed-here v prf same none_of = record {
    names = [];
    there = v;
    same_key = refl;
    are_names = tt;
    is_found = refl;
    is_listed = tt;
    same_value = same;
    no_struct = none_of;
  }
