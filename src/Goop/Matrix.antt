-- ===== src/Goop/Matrix.antt =====
-- The relays between the gateways.
use goop.Base.{
  ℕ, suc, ◌+◌, ◌*◌, ◌≤◌, ◌≡◌, refl, ap, ◌∙◌, inl, inr, Bool, true, false, ◌&&◌, List, [], ◌∷◌, ◌++◌,
  Option, some, none, arith, Str, str_eq, str_eq_refl, str_eq_sym, Bool-cases, if◌then◌else◌, All,
  All-append,
}
use mathlib.Core.Path.{subst}
use native.Mathlib.Nat.{suc-mul, mul-suc}
use goop.Gateway.Api.{Gateway}
use goop.Relay.{RelayConfig}
use goop.Goop.{Goop, Relay, lookup, connect, gateway_added, command_added, set_id}
use goop.Goop.Registry.{Reachable, key_count, add_gateway-ok, add_command-ok, Reachable-IsRegistry}

-- How many relays lead from one gateway to another.
unfoldable pub relay_count : Str → Str → List Relay → ℕ
relay_count from to [] = 0
relay_count from to (r ∷ rs) =
    if str_eq r.from from && str_eq r.to to
    then suc (relay_count from to rs)
    else relay_count from to rs

relay_count-append :
    (from to : Str) (rs qs : List Relay)
    → relay_count from to (rs ++ qs) ≡ relay_count from to rs + relay_count from to qs
unfolding relay_count
relay_count-append from to [] qs = omega arith
relay_count-append from to (r ∷ rs) qs = ground (arith, relay_count-append from to rs qs)

-- What `connect` adds between a new gateway and the older ones.
relay_count-connect {ℓ} :
    {A : Type ℓ} (gr : Str → Str → RelayConfig) (id from to : Str) (m : List (Str × A))
    → lookup id m ≡ none
    → relay_count from to (connect gr id m)
      ≡ (if str_eq id to then key_count from m else 0)
        + (if str_eq id from then key_count to m else 0)
unfolding relay_count connect key_count lookup
relay_count-connect gr id from to [] h = ground arith
relay_count-connect gr id from to ((wid, a) ∷ m) h =
    ground (arith, relay_count-connect gr id from to m, str_eq_sym wid id)

connect_self :
    (gr : Str → Str → RelayConfig) (id : Str) (gw : Gateway) (m : List (Str × Gateway))
    → connect gr id ((id, gw) ∷ m)
      ≡ record { from = id; to = id; config = gr id id } ∷ connect gr id m
unfolding connect
connect_self gr id gw m = rw (str_eq_refl id) refl

grown_product :
    (a b : Bool) (m n : ℕ)
    → let rest = (if b then m else 0) + (if a then n else 0) in
      (if a && b then suc rest else rest) + m * n
      ≡ (if a then suc m else m) * (if b then suc n else n)
grown_product true true m n = omega (arith, suc-mul m (suc n), mul-suc m n)
grown_product true false m n = omega (arith, suc-mul m n)
grown_product false true m n = omega (arith, mul-suc m n)
grown_product false false m n = omega arith

relay_count-gateway_added :
    (gr : Str → Str → RelayConfig) (id : Str) (gw : Gateway) (g : Goop) (from to : Str)
    → lookup id g.gateways ≡ none
    → relay_count from to g.relay ≡ key_count from g.gateways * key_count to g.gateways
    → let g' = gateway_added gr id gw g in
      relay_count from to g'.relay ≡ key_count from g'.gateways * key_count to g'.gateways
unfolding gateway_added relay_count key_count
relay_count-gateway_added gr id gw g from to new h =
    let mine = set_id id gw in
    let fresh = relay_count-connect gr id from to g.gateways new in
    let sum = relay_count-append from to (connect gr id ((id, mine) ∷ g.gateways)) g.relay in
    let self = ap (relay_count from to) (connect_self gr id mine g.gateways) in
    let product =
      grown_product (str_eq id from) (str_eq id to) (key_count from g.gateways)
        (key_count to g.gateways) in
    sum ∙ ap (λ n. n + relay_count from to g.relay) self ∙ rw (h, fresh) product

-- The relays are counted by the product of the keys, so by 1 or 0.
relay_count-Reachable :
    (gr : Str → Str → RelayConfig) (g : Goop) (from to : Str)
    → Reachable gr g
    → relay_count from to g.relay ≡ key_count from g.gateways * key_count to g.gateways
unfolding relay_count key_count command_added
relay_count-Reachable gr _ from to Reachable.initial = refl
relay_count-Reachable gr g' from to (Reachable.with_gateway {g} id gw r h) =
    let (new, e) = add_gateway-ok gr id gw g g' h in
    subst (λ x. relay_count from to x.relay ≡ key_count from x.gateways * key_count to x.gateways) e
      (relay_count-gateway_added gr id gw g from to new (relay_count-Reachable gr g from to r))
relay_count-Reachable gr g' from to (Reachable.with_command {g} name c r h) =
    let (new, e) = add_command-ok name c g g' h in
    subst (λ x. relay_count from to x.relay ≡ key_count from x.gateways * key_count to x.gateways) e
      (relay_count-Reachable gr g from to r)

abbrev pub is_found {ℓ} : {A : Type ℓ} → Option A → Bool
is_found none = false
is_found (some a) = true

key_count_of_once {ℓ} :
    {A : Type ℓ} (k : Str) (m : List (Str × A))
    → key_count k m ≤ 1
    → key_count k m ≡ (if is_found (lookup k m) then 1 else 0)
unfolding key_count lookup
key_count_of_once k [] h = refl
key_count_of_once k ((j, a) ∷ m) h = elim (Bool-cases (str_eq j k)) [
  | inl e ↦ let once = rw e at h in rw e (omega arith)
  | inr e ↦ let rest = rw e at h in rw e (key_count_of_once k m rest)
]

abbrev pub IsConfigured : (Str → Str → RelayConfig) → Relay → Type 0
IsConfigured gr r = r.config ≡ gr r.to r.from

connect-IsConfigured {ℓ} :
    {A : Type ℓ} (gr : Str → Str → RelayConfig) (id : Str) (m : List (Str × A))
    → All (IsConfigured gr) (connect gr id m)
unfolding connect
connect-IsConfigured gr id [] = tt
connect-IsConfigured gr id ((wid, a) ∷ m) = elim (Bool-cases (str_eq id wid)) [
  | inl e ↦ rw e (refl, connect-IsConfigured gr id m)
  | inr e ↦ rw e (refl, (refl, connect-IsConfigured gr id m))
]

relay-IsConfigured :
    (gr : Str → Str → RelayConfig) (g : Goop) → Reachable gr g → All (IsConfigured gr) g.relay
unfolding gateway_added command_added
relay-IsConfigured gr _ Reachable.initial = tt
relay-IsConfigured gr g' (Reachable.with_gateway {g} id gw r h) =
    let (new, e) = add_gateway-ok gr id gw g g' h in
    subst (λ x. All (IsConfigured gr) x.relay) e
      (All-append (IsConfigured gr) (connect gr id ((id, set_id id gw) ∷ g.gateways)) g.relay
        (connect-IsConfigured gr id ((id, set_id id gw) ∷ g.gateways)) (relay-IsConfigured gr g r))
relay-IsConfigured gr g' (Reachable.with_command {g} name c r h) =
    let (new, e) = add_command-ok name c g g' h in
    subst (λ x. All (IsConfigured gr) x.relay) e (relay-IsConfigured gr g r)

-- In every state that the program can come to, there is exactly one relay from each registered
-- gateway to each registered gateway, itself included, there is no other relay, and each has the
-- configuration of its two ends.
pub relay_matrix :
    (gr : Str → Str → RelayConfig) (g : Goop)
    → Reachable gr g
    → ((from to : Str)
        → relay_count from to g.relay
          ≡ (if is_found (lookup from g.gateways) && is_found (lookup to g.gateways) then 1 else 0))
      × All (IsConfigured gr) g.relay
relay_matrix gr g r =
    let once = (Reachable-IsRegistry gr g r).gateways_once in
    (
      λ from to.
          let there = key_count_of_once from g.gateways (once from) in
          let here = key_count_of_once to g.gateways (once to) in
          relay_count-Reachable gr g from to r ∙ rw (there, here) (by_found _ _),
      relay-IsConfigured gr g r,
    )
  where
    by_found :
        (a b : Bool) → (if a then 1 else 0) * (if b then 1 else 0) ≡ (if a && b then 1 else 0)
    by_found true true = refl
    by_found true false = refl
    by_found false true = refl
    by_found false false = refl
