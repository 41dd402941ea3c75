-- ===== src/Config/Compact/Kept.antt =====
-- Which answers writing and reading the relay section keeps.
use goop.Base.{
  ◌≡◌, ◌≢◌, refl, sym, ap, ◌∙◌, inl, inr, Bool, true, false, ◌||◌, List, [], ◌∷◌, Option, none,
  some, Str, str_eq, arith, str_eq→eq, str_eq_refl, Bool-cases, if◌then◌else◌,
}
use mathlib.Core.Path.{subst}
use goop.Base.Int.{eq_ℤ→eq, eq_ℤ_refl}
use goop.Relay.{RelayConfig}
use goop.Config.Merge.{last_fold, is_there}
use goop.Config.Merge.Entries.{IsFoldMap, there-cons}
use goop.Config.Reflect.Absent.{fold-differ}
use goop.Goop.{lookup}
use goop.Config.RelayTable.{
  RelayTo, RelayTable, config_or, entry_or, config_of, to_entry, from_config,
}
use goop.Config.Compact.{
  same_bool, same_config, Written, is_implied, write_from, write_to, is_gone, write_each,
  default_or, zero_config, read_each, rewritten, last_keys,
}

same_bool→eq : (a b : Bool) → same_bool a b ≡ true → a ≡ b
same_bool→eq true true h = refl
same_bool→eq true false h = cc
same_bool→eq false true h = cc
same_bool→eq false false h = refl

pub same_config→eq : (a b : RelayConfig) → same_config a b ≡ true → a ≡ b
unfolding same_config
same_config→eq a b h =
    let e_log = same_bool→eq a.log b.log (ground arith) in
    let e_system = same_bool→eq a.system b.system (ground arith) in
    let e_channel = same_bool→eq a.channel b.channel (ground arith) in
    let e_joins = same_bool→eq a.joins b.joins (ground arith) in
    let e_chat = same_bool→eq a.chat b.chat (ground arith) in
    let e_private_chat = same_bool→eq a.private_chat b.private_chat (ground arith) in
    let e_say = same_bool→eq a.say b.say (ground arith) in
    let e_join_access = eq_ℤ→eq a.join_access b.join_access (ground arith) in
    let e_chat_access = eq_ℤ→eq a.chat_access b.chat_access (ground arith) in
    let e_private_chat_access =
      eq_ℤ→eq a.private_chat_access b.private_chat_access (ground arith) in
    cc

pub same_config_refl : (a : RelayConfig) → same_config a a ≡ true
unfolding same_config
same_config_refl a =
    ground
      (arith, eq_ℤ_refl a.join_access, eq_ℤ_refl a.chat_access, eq_ℤ_refl a.private_chat_access)

or_false : (a b : Bool) → (a || b) ≡ false → (a ≡ false) × (b ≡ false)
or_false a b h = ground arith

-- No key occurs twice.
unfoldable pub IsMap {ℓ} : {A : Type ℓ} → List (Str × A) → Type ℓ
unfolding lookup
IsMap [] = Unit
IsMap ((k, a) ∷ m) = (lookup k m ≡ none) × IsMap m

-- Keys that are not equal but for their case.
module _ {ℓ} {A : Type ℓ} where
  lookup_of_last_fold :
      (k : Str) (m : List (Str × A)) → is_there (last_fold k m) ≡ false → lookup k m ≡ none
  unfolding lookup
  lookup_of_last_fold k [] h = refl
  lookup_of_last_fold k ((j, v) ∷ m) h =
      let (before, differs) = or_false _ _ (sym (there-cons k j v m) ∙ h) in
      let other : str_eq j k ≡ false = fold-differ k j differs in
      rw other (lookup_of_last_fold k m before)

  pub IsFoldMap-IsMap : (m : List (Str × A)) → IsFoldMap m → IsMap m
  unfolding IsMap IsFoldMap
  IsFoldMap-IsMap [] h = tt
  IsFoldMap-IsMap ((k, v) ∷ m) h = (lookup_of_last_fold k m h.0, IsFoldMap-IsMap m h.1)

  pub last_keys_same : (m : List (Str × A)) → IsFoldMap m → last_keys m ≡ m
  unfolding last_keys IsFoldMap
  last_keys_same [] h = refl
  last_keys_same ((k, v) ∷ m) h = rw h.0 (ap (λ t. (k, v) ∷ t) (last_keys_same m h.1))

module _ (self default : RelayConfig) (to : Str) where
  there-write_from :
      (k : Str) (m : List (Str × RelayConfig))
      → is_there (last_fold k m) ≡ false
      → is_there (last_fold k (write_from self default to m)) ≡ false
  unfolding write_from
  there-write_from k [] h = h
  there-write_from k ((j, cfg) ∷ m) h =
      let (before, differs) = or_false _ _ (sym (there-cons k j cfg m) ∙ h) in
      let ih = there-write_from k m before in
      elim (Bool-cases (is_implied self default to j cfg)) [
        | inl y ↦ rw y ih
        | inr n ↦ rw n (there-cons k j cfg (write_from self default to m) ∙ rw (ih, differs) refl)
      ]

  pub write_from-IsFoldMap :
      (m : List (Str × RelayConfig)) → IsFoldMap m → IsFoldMap (write_from self default to m)
  unfolding write_from IsFoldMap
  write_from-IsFoldMap [] h = tt
  write_from-IsFoldMap ((j, cfg) ∷ m) h = elim (Bool-cases (is_implied self default to j cfg)) [
    | inl y ↦ rw y (write_from-IsFoldMap m h.1)
    | inr n ↦ rw n (there-write_from j m h.0, write_from-IsFoldMap m h.1)
  ]

  abbrev pub unless_implied : Str → Option RelayConfig → Option RelayConfig
  unless_implied from none = none
  unless_implied from (some cfg) = if is_implied self default to from cfg then none else some cfg

  lookup-write_from :
      (from : Str) (m : List (Str × RelayConfig))
      → IsMap m
      → lookup from (write_from self default to m) ≡ unless_implied from (lookup from m)
  unfolding lookup write_from IsMap
  lookup-write_from from [] h = refl
  lookup-write_from from ((j, cfg) ∷ m) h =
      let ih = lookup-write_from from m h.1 in
      elim (Bool-cases (str_eq j from)) [
        | inl e ↦
            let same : j ≡ from = str_eq→eq j from e in
            let gone : lookup from (write_from self default to m) ≡ none =
              ih ∙ ap (unless_implied from) (subst (λ x. lookup x m ≡ none) same h.0) in
            elim (Bool-cases (is_implied self default to from cfg)) [
              | inl y ↦ rw (e, same, y) gone
              | inr n ↦ rw (e, same, n, str_eq_refl from) refl
            ]
        | inr e ↦ elim (Bool-cases (is_implied self default to j cfg)) [
          | inl y ↦ rw (e, y) ih
          | inr n ↦ rw (e, n, e) ih
        ]
      ]

  -- The answer, for the default `d` that is read and the entry `o` of the gateway.
  abbrev answer : Str → RelayConfig → Option RelayConfig → RelayConfig
  answer from d o = config_or to from self d o

  pub answer_self :
      (from : Str) (d : RelayConfig) (o : Option RelayConfig)
      → str_eq to from ≡ true
      → answer from d (unless_implied from o) ≡ answer from default o
  answer_self from d none y = rw y refl
  answer_self from d (some cfg) y = elim (Bool-cases (same_config self cfg)) [
    | inl e ↦ rw (y, e, y) (same_config→eq self cfg e)
    | inr n ↦ rw (y, n) refl
  ]

  pub answer_default :
      (from : Str) (d : RelayConfig) (o : Option RelayConfig)
      → d ≡ default
      → answer from d (unless_implied from o) ≡ answer from default o
  answer_default from d o same = elim (Bool-cases (str_eq to from)) [
    | inl y ↦ answer_self from d o y
    | inr n ↦ go o n
  ]
    where
      go :
          (o : Option RelayConfig)
          → str_eq to from ≡ false
          → answer from d (unless_implied from o) ≡ answer from default o
      go none n = rw n same
      go (some cfg) n = elim (Bool-cases (same_config default cfg)) [
        | inl e ↦ rw (n, e, n) (same ∙ same_config→eq default cfg e)
        | inr d' ↦ rw (n, d') refl
      ]

  pub answer_listed :
      (from : Str) (d : RelayConfig) (o : Option RelayConfig)
      → str_eq to from ≡ false
      → answer from default o ≢ default
      → answer from d (unless_implied from o) ≡ answer from default o
  answer_listed from d none n h = absurd (h (rw n refl))
  answer_listed from d (some cfg) n h = elim (Bool-cases (same_config default cfg)) [
    | inl e ↦ absurd (h (sym (same_config→eq default cfg e)))
    | inr e ↦ rw (n, e) refl
  ]

  pub answer_lost :
      (from : Str) (d : RelayConfig) (o : Option RelayConfig)
      → str_eq to from ≡ false
      → answer from default o ≡ default
      → answer from d (unless_implied from o) ≡ d
  answer_lost from d none n h = rw n refl
  answer_lost from d (some cfg) n h = rw (n, h, same_config_refl default, n) refl

module _ (c : RelayTable) where
  abbrev pub read_one : Written → RelayTo
  read_one w = record { default = default_or w.default; from = last_keys w.from }

  abbrev pub unless_gone : Written → Option RelayTo
  unless_gone w = if is_gone w then none else some (read_one w)

  abbrev pub read_entry : Str → Option RelayTo → Option RelayTo
  read_entry to none = none
  read_entry to (some e) = unless_gone (write_to c to e)

  there-write_each :
      (k : Str) (m : List (Str × RelayTo))
      → is_there (last_fold k m) ≡ false
      → is_there (last_fold k (write_each c m)) ≡ false
  unfolding write_each last_fold
  there-write_each k [] h = h
  there-write_each k ((j, e) ∷ m) h =
      let (before, differs) = or_false _ _ (sym (there-cons k j e m) ∙ h) in
      let ih = there-write_each k m before in
      elim (Bool-cases (is_gone (write_to c j e))) [
        | inl y ↦ rw y ih
        | inr n ↦ rw n (there-cons k j (write_to c j e) (write_each c m) ∙ rw (ih, differs) refl)
      ]

  write_each-IsFoldMap : (m : List (Str × RelayTo)) → IsFoldMap m → IsFoldMap (write_each c m)
  unfolding write_each IsFoldMap
  write_each-IsFoldMap [] h = tt
  write_each-IsFoldMap ((j, e) ∷ m) h = elim (Bool-cases (is_gone (write_to c j e))) [
    | inl y ↦ rw y (write_each-IsFoldMap m h.1)
    | inr n ↦ rw n (there-write_each j m h.0, write_each-IsFoldMap m h.1)
  ]

  pub lookup-read_each :
      (to : Str) (m : List (Str × RelayTo))
      → IsMap m
      → lookup to (read_each (write_each c m)) ≡ read_entry to (lookup to m)
  unfolding lookup write_each read_each IsMap
  lookup-read_each to [] h = refl
  lookup-read_each to ((j, e) ∷ m) h =
      let ih = lookup-read_each to m h.1 in
      elim (Bool-cases (str_eq j to)) [
        | inl y ↦
            let same : j ≡ to = str_eq→eq j to y in
            let gone : lookup to (read_each (write_each c m)) ≡ none =
              ih ∙ ap (read_entry to) (subst (λ x. lookup x m ≡ none) same h.0) in
            elim (Bool-cases (is_gone (write_to c to e))) [
              | inl g ↦ rw (y, same, g) gone
              | inr k ↦ rw (y, same, k, str_eq_refl to) refl
            ]
        | inr n ↦ elim (Bool-cases (is_gone (write_to c j e))) [
          | inl g ↦ rw (n, g) ih
          | inr k ↦ rw (n, k, n) ih
        ]
      ]

  -- What is looked up in the section that is read again.
  pub lookup-rewritten :
      (to : Str) → IsFoldMap c.to → lookup to (rewritten c).to ≡ read_entry to (lookup to c.to)
  unfolding rewritten
  lookup-rewritten to h =
      ap (λ m. lookup to (read_each m))
        (last_keys_same (write_each c c.to) (write_each-IsFoldMap c.to h))
      ∙ lookup-read_each to c.to (IsFoldMap-IsMap c.to h)

  -- The default that is read again for an entry without one, by what is written of its list.
  abbrev pub default_again : List (Str × RelayConfig) → RelayConfig
  default_again [] = c.default_relay
  default_again (p ∷ m) = zero_config

  module _ (to from : Str) (e : RelayTo) where
    abbrev pub written : List (Str × RelayConfig)
    written = write_from c.default_self e.default to e.from

    abbrev pub default_read : Bool → List (Str × RelayConfig) → RelayConfig
    default_read general l = if general then default_again l else e.default

    answer_read :
        (general : Bool) (l : List (Str × RelayConfig)) (o : Option RelayConfig)
        → last_keys l ≡ l
        → lookup from l ≡ o
        → from_config c to from (
            entry_or c (
              unless_gone
                (record { default = if general then none else some e.default; from = l })))
          ≡ config_or to from c.default_self (default_read general l) o
    unfolding from_config lookup
    answer_read true [] o same h = ap (config_or to from c.default_self c.default_relay) h
    answer_read true (p ∷ m) o same h =
        ap (config_or to from c.default_self zero_config) (ap (lookup from) same ∙ h)
    answer_read false l o same h =
        ap (config_or to from c.default_self e.default) (ap (lookup from) same ∙ h)

    -- What is answered for a gateway with an entry, once the section was written and read again.
    pub rewritten_answer :
        lookup to c.to ≡ some e
        → IsFoldMap c.to
        → IsFoldMap e.from
        → config_of (rewritten c) to from
          ≡ config_or to from c.default_self
              (default_read (same_config c.default_relay e.default) written)
              (unless_implied c.default_self e.default to (from) (lookup from e.from))
    unfolding from_config to_entry rewritten
    rewritten_answer found h h' =
        ap (λ o. from_config c to from (entry_or c o))
          (lookup-rewritten to h ∙ ap (read_entry to) found)
        ∙ answer_read (same_config c.default_relay e.default) written
            (unless_implied c.default_self e.default to from (lookup from e.from))
            (last_keys_same written (write_from-IsFoldMap c.default_self e.default to e.from h'))
            (lookup-write_from c.default_self e.default to from e.from (IsFoldMap-IsMap e.from h'))

    pub kept_answer :
        lookup to c.to ≡ some e
        → config_of c to from ≡ config_or to from c.default_self e.default (lookup from e.from)
    unfolding from_config to_entry
    kept_answer found = ap (λ o. from_config c to from (entry_or c o)) found
