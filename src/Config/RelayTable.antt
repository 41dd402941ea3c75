-- ===== src/Config/RelayTable.antt =====
-- config.go: GetRelay, which looks a relay's configuration up and keeps what it made up.
use goop.Base.{
  ◌≡◌, refl, sym, ap, ◌∙◌, inl, inr, false, List, [], ◌∷◌, Option, none, some, Str, str_eq,
  str_eq_refl, str_eq→eq, arith, Bool-cases, if◌then◌else◌,
}
use mathlib.Core.Path.{subst}
use goop.Relay.{RelayConfig}
use goop.Goop.{lookup}

-- RelayToConfig and RelayConfigWithDefault; a missing entry and a nil pointer are the same.
pub record RelayTo : Type 0 where
  pub default : RelayConfig
  pub from : List (Str × RelayConfig)

pub record RelayTable : Type 0 where
  pub default_relay : RelayConfig
  pub default_self : RelayConfig
  pub to : List (Str × RelayTo)

-- An assignment to a key.
unfoldable pub put {ℓ} : {A : Type ℓ} → Str → A → List (Str × A) → List (Str × A)
put k a [] = (k, a) ∷ []
put k a ((j, b) ∷ m) = if str_eq j k then (k, a) ∷ m else (j, b) ∷ put k a m

-- `c.Relay.To[to]`, made up where it is missing.
abbrev pub entry_or : RelayTable → Option RelayTo → RelayTo
entry_or c (some e) = e
entry_or c none = record { default = c.default_relay; from = [] }

unfoldable pub to_entry : RelayTable → Str → RelayTo
unfolding lookup
to_entry c to = entry_or c (lookup to c.to)

-- `c.Relay.To[to].From[from]`, made up where it is missing.
abbrev pub config_or : Str → Str → RelayConfig → RelayConfig → Option RelayConfig → RelayConfig
config_or to from self default (some cfg) = cfg
config_or to from self default none = if str_eq to from then self else default

unfoldable pub from_config : RelayTable → Str → Str → RelayTo → RelayConfig
unfolding lookup
from_config c to from e = config_or to from c.default_self e.default (lookup from e.from)

-- GetRelay: the configuration, and the table behind it.
unfoldable pub get_relay : RelayTable → Str → Str → RelayConfig × RelayTable
unfolding to_entry from_config put
get_relay c to from =
    let e = to_entry c to in
    let cfg = from_config c to from e in
    (cfg, record c { to = put to (record e { from = put from cfg e.from }) c.to })

lookup-put {ℓ} : {A : Type ℓ} (k : Str) (a : A) (m : List (Str × A)) → lookup k (put k a m) ≡ some a
unfolding lookup put
lookup-put k a [] = rw (str_eq_refl k) refl
lookup-put k a ((j, b) ∷ m) = ground (arith, lookup-put k a m, str_eq_refl k)

lookup-put_other {ℓ} :
    {A : Type ℓ} (k j : Str) (a : A) (m : List (Str × A))
    → str_eq k j ≡ false
    → lookup j (put k a m) ≡ lookup j m
unfolding lookup put
lookup-put_other k j a [] h = rw h refl
lookup-put_other k j a ((i, b) ∷ m) h = elim (Bool-cases (str_eq i k)) [
  | inl e ↦
      let other : str_eq i j ≡ false = subst (λ x. str_eq x j ≡ false) (sym (str_eq→eq i k e)) h in
      rw (e, put, h, other) refl
  | inr e ↦ elim (Bool-cases (str_eq i j)) [
    | inl y ↦ rw (e, put, y) refl
    | inr n ↦ rw (e, put, n) (lookup-put_other k j a m h)
  ]
]

-- What `GetRelay` answers.
abbrev pub config_of : RelayTable → Str → Str → RelayConfig
config_of c to from = from_config c to from (to_entry c to)

-- An entry with an answer kept gives the same answers.
from_config-put :
    (c : RelayTable) (to from from' : Str) (e : RelayTo)
    → from_config c to from' (record e { from = put from (from_config c to from e) e.from })
      ≡ from_config c to from' e
unfolding from_config
from_config-put c to from from' e =
    let kept = put from (from_config c to from e) e.from in
    let answer = λ (x : Str). config_or to x c.default_self e.default in
    elim (Bool-cases (str_eq from from')) [
      | inl y ↦
          subst (λ x. answer x (lookup x kept) ≡ answer x (lookup x e.from))
            (str_eq→eq from from' y)
            (ap (answer from) (lookup-put from (from_config c to from e) e.from))
      | inr n ↦ ap (answer from') (lookup-put_other from from' (from_config c to from e) e.from n)
    ]

to_entry-put :
    (c : RelayTable) (to : Str) (e : RelayTo) → to_entry (record c { to = put to e c.to }) to ≡ e
unfolding to_entry
to_entry-put c to e = ap (entry_or c) (lookup-put to e c.to)

to_entry-put_other :
    (c : RelayTable) (to to' : Str) (e : RelayTo)
    → str_eq to to' ≡ false
    → to_entry (record c { to = put to e c.to }) to' ≡ to_entry c to'
unfolding to_entry
to_entry-put_other c to to' e n = ap (entry_or c) (lookup-put_other to to' e c.to n)

-- Keeping a configuration that was asked for changes no later answer, for whichever two gateways.
get_relay_stable :
    (c : RelayTable) (to from to' from' : Str)
    → (get_relay (get_relay c to from).1 to' from').0 ≡ (get_relay c to' from').0
unfolding get_relay from_config
get_relay_stable c to from to' from' =
    let e = to_entry c to in
    let e' = record e { from = put from (from_config c to from e) e.from } in
    elim (Bool-cases (str_eq to to')) [
      | inl y ↦
          subst
            (λ x.
              from_config c x from' (to_entry (record c { to = put to e' c.to }) x)
              ≡ from_config c x from' (to_entry c x))
            (str_eq→eq to to' y)
            (ap (from_config c to from') (to_entry-put c to e') ∙ from_config-put c to from from' e)
      | inr n ↦ ap (from_config c to' from') (to_entry-put_other c to to' e' n)
    ]

-- The configuration comes from the section for the two gateways, if any; for a gateway and itself, from
-- the section for that; else from the section of the target, if any; else from the section for all.
-- Keeping a configuration that was asked for changes no later answer, for whichever two gateways.
pub get_relay_answers :
    (c : RelayTable) (to from : Str)
    → ((t : RelayTo) (cfg : RelayConfig)
        → lookup to c.to ≡ some t
        → lookup from t.from ≡ some cfg
        → (get_relay c to from).0 ≡ cfg)
      × ((t : RelayTo)
          → lookup to c.to ≡ some t
          → lookup from t.from ≡ none
          → (get_relay c to from).0 ≡ (if str_eq to from then c.default_self else t.default))
      × (lookup to c.to ≡ none
          → (get_relay c to from).0 ≡ (if str_eq to from then c.default_self else c.default_relay))
      × ((to' from' : Str)
          → (get_relay (get_relay c to' from').1 to from).0 ≡ (get_relay c to from).0)
unfolding get_relay to_entry from_config
get_relay_answers c to from =
    let answer = λ (o : Option RelayTo). from_config c to from (entry_or c o) in
    (
      λ t cfg e e'. ap answer e ∙ ap (config_or to from c.default_self t.default) e',
      λ t e e'. ap answer e ∙ ap (config_or to from c.default_self t.default) e',
      λ e. ap answer e,
      λ to' from'. get_relay_stable c to' from' to from,
    )
