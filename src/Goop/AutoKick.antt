-- ===== src/Goop/AutoKick.antt =====
-- Who is removed on joining the channel or talking in it.
use goop.Base.{
  ◌≢◌, inl, inr, Bool, true, false, List, [], ◌∷◌, Option, none, some, Error, Bool-cases,
  not_implemented, no_permission, codes, arith,
}
use goop.Base.Int.{◌<ℤ◌, ◌≤ℤ◌, ltb_ℤ, leb_ℤ}
use goop.Gateway.Access.{access_kick, access_ban}
use goop.Gateway.Common.{User}
use goop.Gateway.Api.{Gateway, kick, ban, History}
use goop.Goop.{MainEvent, main_error, kick_outcome, auto_kick, auto_kick_event}

-- What the answer of the gateway leads to: whether the handlers behind are kept from the event, and
-- the errors reported.
pub data Outcome : Option Error → Bool → List MainEvent → Type 0 where
  removed : Outcome none true []
  cannot : Outcome (some not_implemented) false []
  may_not : Outcome (some no_permission) false []
  failed :
      (e : Error)
      → e ≢ not_implemented
      → e ≢ no_permission
      → Outcome (some e) false (main_error (codes "autoKick") e ∷ [])

-- What becomes of a user who joins or talks, from the history `h` on.
pub data Judged (gw : Gateway) (u : User) (h : History)
    : Bool → List MainEvent → History → Type 0 where
  left_alone : access_kick <ℤ u.access → Judged gw u h false [] h
  kicked :
      (b : Bool) (es : List MainEvent)
      → access_ban <ℤ u.access
      → u.access ≤ℤ access_kick
      → Outcome (gw.kick_result h u.id) b es
      → Judged gw u h b es (kick u.id ∷ h)
  banned :
      (b : Bool) (es : List MainEvent)
      → u.access ≤ℤ access_ban
      → Outcome (gw.ban_result h u.id) b es
      → Judged gw u h b es (ban u.id ∷ h)

kick_outcome-Outcome : (r : Option Error) → Outcome r (kick_outcome r).0 (kick_outcome r).1
unfolding kick_outcome
kick_outcome-Outcome none = Outcome.removed
kick_outcome-Outcome (some Error.not_implemented) = Outcome.cannot
kick_outcome-Outcome (some Error.no_permission) = Outcome.may_not
kick_outcome-Outcome (some e) =
    let can : e ≢ not_implemented = λ h. cc in
    let may : e ≢ no_permission = λ h. cc in Outcome.failed e can may

module _ (gw : Gateway) (u : User) where
  -- A user above the kick level is left alone; one at or below the ban level is banned, once; one in
  -- between is kicked, once. The handlers behind are kept from the event just if the gateway did it,
  -- and an error is reported just if the gateway failed in another way than not to support it or not
  -- to be permitted it.
  pub auto_kick_event-Judged :
      (h : History) → let r = auto_kick_event gw u h in Judged gw u h r.0.0 r.0.1 r.1
  unfolding auto_kick_event auto_kick
  auto_kick_event-Judged h = elim (Bool-cases (ltb_ℤ access_kick u.access)) [
    | inl y ↦ rw (y, auto_kick_event) (Judged.left_alone (ground arith))
    | inr n ↦ elim (Bool-cases (leb_ℤ u.access access_ban)) [
      | inl low ↦
          rw (n, low, auto_kick_event)
            (Judged.banned _ _ (ground arith) (kick_outcome-Outcome (gw.ban_result h u.id)))
      | inr high ↦
          rw (n, high, auto_kick_event)
            (Judged.kicked _ _ (ground arith) (ground arith)
              (kick_outcome-Outcome (gw.kick_result h u.id)))
    ]
  ]
