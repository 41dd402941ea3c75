-- ===== src/Goop/Permission.antt =====
-- Which commands a trigger starts.
use goop.Base.{◌≡◌, refl, inl, inr, true, List, [], ◌∷◌, some, Str, Bool-cases, Option-cases, All}
use mathlib.Core.Path.{subst}
use goop.Golang.Strings.{to_lower, split}
use goop.Golang.Strings.Laws.{to_lower_idem}
use goop.Gateway.Common.{delimiter}
use goop.Gateway.Api.{Gateway, Trigger, History}
use goop.Goop.{
  Command, Goop, Job, lookup, split_last, is_routed, route_jobs, route_to, exec_remote,
  exec_trigger,
}

-- The command is registered under the name in the trigger, its check lets the trigger through, and
-- the trigger has the sender and the arguments of the original.
pub record IsPermitted (g : Goop) (t : Trigger) (j : Job) : Type 0 where
  pub registered : lookup j.trigger.cmd g.commands ≡ some j.command
  pub permitted : j.command.can_execute j.trigger ≡ true
  pub same_user : j.trigger.user ≡ t.user
  pub same_arg : (j.trigger.arg ≡ t.arg) × (j.trigger.raw ≡ t.raw)

module _ (h : History) (g : Goop) where
  route_jobs-All :
      (t : Trigger) (c : Command) (t' : Trigger) (route : List Str) (gws : List (Str × Gateway))
      → lookup t'.cmd g.commands ≡ some c
      → c.can_execute t' ≡ true
      → t'.user ≡ t.user
      → (t'.arg ≡ t.arg) × (t'.raw ≡ t.raw)
      → All (IsPermitted g t) (route_jobs h c t' route gws)
  unfolding route_jobs
  route_jobs-All t c t' route [] reg ok' user arg = tt
  route_jobs-All t c t' route ((k, gw) ∷ gws) reg ok' user arg =
      let rest = route_jobs-All t c t' route gws reg ok' user arg in
      elim (Bool-cases (is_routed h route (k, gw))) [
        | inl e ↦
            rw (e, route_jobs)
              (record { registered = reg; permitted = ok'; same_user = user; same_arg = arg }, rest)
        | inr e ↦ rw (e, route_jobs) rest
      ]

  route_to-All :
      (t t' : Trigger) (r : List Str × Str)
      → t'.user ≡ t.user
      → (t'.arg ≡ t.arg) × (t'.raw ≡ t.raw)
      → All (IsPermitted g t) (route_to h g t' r)
  unfolding route_to
  route_to-All t t' (route, name) user arg = elim (Option-cases (lookup name g.commands)) [
    | inl e ↦ rw (e, route_to) tt
    | inr (c, e) ↦ elim (Bool-cases (c.can_execute (record t' { cmd = name }))) [
      | inl y ↦
          rw (e, y, route_to)
            (route_jobs-All t c (record t' { cmd = name }) route g.gateways e y user arg)
      | inr n ↦ rw (e, n, route_to) tt
    ]
  ]

  exec_remote-All :
      (t t' : Trigger) (parts : List Str)
      → t'.user ≡ t.user
      → (t'.arg ≡ t.arg) × (t'.raw ≡ t.raw)
      → All (IsPermitted g t) (exec_remote h g t' parts)
  unfolding exec_remote
  exec_remote-All t t' [] user arg = tt
  exec_remote-All t t' (s ∷ []) user arg = tt
  exec_remote-All t t' (s ∷ u ∷ more) user arg =
      route_to-All t t' (split_last s (u ∷ more)) user arg

  -- Every execution that a trigger starts, on the gateway that it comes from or on another, is of a
  -- command registered under the name that the execution's trigger carries, whose own check lets
  -- that trigger through, and it has the sender, with the same access, and the arguments of the
  -- original.
  pub exec_trigger-IsPermitted :
      (gw : Gateway) (t : Trigger) → All (IsPermitted g t) (exec_trigger h g gw t)
  unfolding exec_trigger
  exec_trigger-IsPermitted gw t =
      let t' = record t { cmd = to_lower t.cmd } in
      elim (Option-cases (lookup (to_lower t'.cmd) g.commands)) [
        | inl e ↦
            rw (e, exec_trigger) (exec_remote-All t t' (split t'.cmd delimiter) refl (refl, refl))
        | inr (c, e) ↦ elim (Bool-cases (c.can_execute t')) [
          | inl y ↦
              let reg = subst (λ s. lookup s g.commands ≡ some c) (to_lower_idem t.cmd) e in
              rw (e, y, exec_trigger)
                (
                  record {
                    registered = reg;
                    permitted = y;
                    same_user = refl;
                    same_arg = (refl, refl);
                  },
                  tt,
                )
          | inr n ↦ rw (e, n, exec_trigger) tt
        ]
      ]
