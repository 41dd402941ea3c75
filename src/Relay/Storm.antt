-- ===== src/Relay/Storm.antt =====
-- What becomes of an error that a relay meets: it is an event of the target, which the relays from
-- there pass on.
use goop.Base.{
  ℕ, zero, suc, ◌+◌, ◌≤◌, ◌≡◌, refl, true, false, List, [], ◌∷◌, ◌++◌, Option, none, some, Str,
  codes, Error, arith, length, length-append, All, All-map, ap, inl, inr, Bool-cases,
}
use mathlib.Core.List.{Memᴰ}
use goop.Gateway.Events.{Event, async_error}
use goop.Relay.Filter.{Wanted-or_nothing, handle-Wanted}
use goop.Relay.{RelayConfig, Target, Step, relayed, fired, after_relay, relay, on_log, handle}

-- The steps, each event fired followed by what it leads to.
unfoldable pub follow : (Event → List Step) → List Step → List Step
follow next [] = []
follow next (relayed e ∷ steps) = relayed e ∷ follow next steps
follow next (fired e ∷ steps) = fired e ∷ next e ++ follow next steps

-- The relays from one gateway, one after the other.
unfoldable pub on_each : (Str × Target → List Step) → List (Str × Target) → List Step
on_each f [] = []
on_each f (t ∷ ts) = f t ++ on_each f ts

-- All gateways, and the configuration of the relay to one from another. The event `ev` is fired on the
-- gateway `from`, and the relays from there handle it: there is one to each gateway, `from` included.
-- `Fire` calls the handlers before it returns, so an error that a relay fires on its target goes to the
-- target's own relays at once. `fuel` bounds the depth of the calls.
module _ (targets : List (Str × Target)) (config : Str → Str → RelayConfig) where
  unfoldable pub fire_on : ℕ → Str → Event → List Step
  unfolding handle follow on_each
  fire_on zero from ev = []
  fire_on (suc fuel) from ev =
      on_each (λ t. follow (fire_on fuel t.0) (handle t.1 (config t.0 from) ev)) targets

-- The target fails to relay any error, and not because it was closed.
abbrev pub Refuses : Target → Type 0
Refuses to =
    (src : Str) (e : Error)
    → (e' : Error) × (to.relay_result (async_error src e) ≡ some e')
      × (to.is_close_error e' ≡ false)

handle-refused :
    (to : Target) (cfg : RelayConfig) (src : Str) (e : Error)
    → cfg.log ≡ true
    → (r : Refuses to)
    → handle to cfg (async_error src e)
      ≡ relayed (async_error src e) ∷ fired (async_error (codes "Relay") (r src e).0) ∷ []
unfolding handle on_log relay after_relay
handle-refused to cfg src e log r =
    let (e', fails, open') = r src e in rw (log, relay, fails, open') refl

-- What one relay does is part of what all do.
length-on_each :
    (f : Str × Target → List Step) (t : Str × Target) (ts : List (Str × Target))
    → Memᴰ t ts
    → length (f t) ≤ length (on_each f ts)
unfolding on_each
length-on_each f t [] m = elim m [ ]
length-on_each f t (u ∷ ts) (Memᴰ.head e) =
    let sum = length-append (f u) (on_each f ts) in
    let same : length (f t) ≡ length (f u) = ap (λ x. length (f x)) e in omega arith
length-on_each f t (u ∷ ts) (Memᴰ.tail m) =
    let sum = length-append (f u) (on_each f ts) in
    let rest = length-on_each f t ts m in omega arith

on_each-nothing :
    (f : Str × Target → List Step) (ts : List (Str × Target))
    → All (λ t. f t ≡ []) ts
    → on_each f ts ≡ []
unfolding on_each
on_each-nothing f [] h = refl
on_each-nothing f (t ∷ ts) (e, h) = rw (e, on_each-nothing f ts h) refl

on_each-same :
    (f g : Str × Target → List Step) (ts : List (Str × Target))
    → All (λ t. f t ≡ g t) ts
    → on_each f ts ≡ on_each g ts
unfolding on_each
on_each-same f g [] h = refl
on_each-same f g (t ∷ ts) (e, h) = rw (e, on_each-same f g ts h) refl

follow-after_relay :
    (to : Target) (next : Event → List Step) (r : Option Error)
    → ((e : Error) → next (async_error (codes "Relay") e) ≡ [])
    → follow next (after_relay to r) ≡ after_relay to r
unfolding after_relay follow
follow-after_relay to next none quiet = refl
follow-after_relay to next (some e) quiet = elim (Bool-cases (to.is_close_error e)) [
  | inl h ↦ rw (h, follow) refl
  | inr h ↦ rw (h, follow, quiet e) refl
]

follow-relay :
    (to : Target) (next : Event → List Step) (ev : Event)
    → ((e : Error) → next (async_error (codes "Relay") e) ≡ [])
    → follow next (relay to ev) ≡ relay to ev
unfolding relay follow
follow-relay to next ev quiet =
    ap (λ steps. relayed ev ∷ steps) (follow-after_relay to next (to.relay_result ev) quiet)

follow-handle :
    (to : Target) (cfg : RelayConfig) (next : Event → List Step) (ev : Event)
    → ((e : Error) → next (async_error (codes "Relay") e) ≡ [])
    → follow next (handle to cfg ev) ≡ handle to cfg ev
unfolding follow
follow-handle to cfg next ev quiet = elim (Wanted-or_nothing to cfg ev) [
  | inl w ↦ rw (handle-Wanted to cfg ev w) (follow-relay to next ev quiet)
  | inr e ↦ rw e refl
]

module _ (targets : List (Str × Target)) (config : Str → Str → RelayConfig) where
  abbrev fire : ℕ → Str → Event → List Step
  fire fuel from ev = fire_on targets config fuel from ev

  -- A gateway that fails to relay errors.
  abbrev pub IsRefusing : Str × Target → Type 0
  IsRefusing t = Memᴰ t targets × Refuses t.1

  grows :
      (fuel : ℕ) (a b : Str × Target) (src : Str) (e : Error)
      → IsRefusing a
      → IsRefusing b
      → (config b.0 a.0).log ≡ true
      → (config a.0 b.0).log ≡ true
      → fuel + fuel ≤ length (fire fuel a.0 (async_error src e))
  unfolding fire_on follow
  grows zero a b src e ra rb there back = omega arith
  grows (suc fuel) a b src e ra rb there back =
      let (in_targets, refuses) = rb in
      let next = fire fuel b.0 in
      let rest = grows fuel b a (codes "Relay") (refuses src e).0 rb ra back there in
      let part =
        length-on_each
          (λ t. follow (fire fuel t.0) (handle t.1 (config t.0 a.0) (async_error src e))) b targets
          in_targets in
      let steps : List Step = next (async_error (codes "Relay") (refuses src e).0) in
      let made =
        ap (λ l. length (follow next l))
          (handle-refused b.1 (config b.0 a.0) src e there refuses) in
      let sum = length-append steps [] in omega arith

  -- No relay from the gateway takes errors.
  abbrev pub IsQuiet : Str → Type 0
  IsQuiet from = All (λ t. (config t.0 from).log ≡ false) targets

  fire-quiet :
      (fuel : ℕ) (from : Str) (e : Error)
      → IsQuiet from
      → fire fuel from (async_error (codes "Relay") e) ≡ []
  unfolding fire_on handle on_log follow
  fire-quiet zero from e h = refl
  fire-quiet (suc fuel) from e h =
      on_each-nothing _ targets
        (All-map (λ t. (config t.0 from).log ≡ false) _ targets (λ t off. rw off refl) h)

  settles :
      (fuel : ℕ) (from : Str) (ev : Event)
      → All (λ t. IsQuiet t.0) targets
      → fire (suc fuel) from ev ≡ on_each (λ t. handle t.1 (config t.0 from) ev) targets
  unfolding fire_on
  settles fuel from ev quiet = on_each-same _ _ targets (
      All-map (λ t. IsQuiet t.0) _ targets
        (λ t h.
          follow-handle t.1 (config t.0 from) (fire fuel t.0) ev (λ e. fire-quiet fuel t.0 e h))
        quiet)

  -- Take two gateways, or one as both, which fail to relay any error, and not because of a closed
  -- connection, and an error that is fired on the first. If errors are relayed from each to the other,
  -- that sets off relays without end: up to every depth n of the calls, at least 2 n steps are made. If
  -- instead no relay from any gateway takes errors, then any event, on any gateway, sets off the steps
  -- of the relays from there, and no more, however deep the calls may go.
  pub fire_on_outcome :
      (fuel : ℕ) (a b : Str × Target) (src : Str) (e : Error)
      → IsRefusing a
      → IsRefusing b
      → ((config b.0 a.0).log ≡ true
          → (config a.0 b.0).log ≡ true
          → fuel + fuel ≤ length (fire_on targets config fuel a.0 (async_error src e)))
        × (All (λ t. IsQuiet t.0) targets
            → (from : Str) (ev : Event)
            → fire_on targets config (suc fuel) from ev
              ≡ on_each (λ t. handle t.1 (config t.0 from) ev) targets)
  fire_on_outcome fuel a b src e ra rb = (
    λ there back. grows fuel a b src e ra rb there back,
    λ quiet from ev. settles fuel from ev quiet,
  )
