-- ===== src/Gateway/Discord/Relay/Length.antt =====
-- What is sent to Discord is no longer than it takes.
use goop.Base.{
  ℕ, zero, suc, ◌≤◌, ◌<◌, ◌≡◌, refl, inl, inr, false, List, [], ◌∷◌, ◌++◌, Option, none, some,
  codes, length, length-append, take, ltb, ltb→lt, arith, Bool-cases, Result, ok, err,
}
use goop.Gateway.Discord.Online.{Online}
use goop.Gateway.Api.{Gateway}
use goop.Gateway.Discord.Relay.{Post, truncate, sent_content}

length-take : (n : ℕ) (s : List ℕ) → length (take n s) ≤ n
length-take zero s = omega arith
length-take (suc n) [] = omega arith
length-take (suc n) (c ∷ s) = omega (arith, length-take n s)

ltb-false : (a b : ℕ) → ltb a b ≡ false → b ≤ a
ltb-false a b h = ground arith

-- A text that is short enough is sent whole; a longer one is cut.
pub truncate_lem :
    (s : List ℕ)
    → (length (truncate s) ≤ 2000)
      × (length s ≤ 2000 → truncate s ≡ s)
      × (2000 < length s → truncate s ≡ take 1997 s ++ codes "...")
unfolding truncate
truncate_lem s = elim (Bool-cases (ltb 2000 (length s))) [
  | inl e ↦
      let bound = length-take 1997 s in
      let sum = length-append (take 1997 s) (codes "...") in
      let more = ltb→lt 2000 (length s) e in
      (rw e (omega arith), λ h. absurd (omega arith), λ h. rw e refl)
  | inr e ↦
      let short = ltb-false 2000 (length s) e in
      (rw e short, λ h. rw e refl, λ h. absurd (omega arith))
]

-- Nothing, an error, or a text that is short enough when it is sent.
abbrev pub IsSendable : Result (Option Post) → Type 0
IsSendable (err e) = Unit
IsSendable (ok none) = Unit
IsSendable (ok (some p)) = length (sent_content p) ≤ 2000

-- A text that is sent is at most so long.
abbrev pub IsWithin : ℕ → Option (List ℕ) → Type 0
IsWithin n none = Unit
IsWithin n (some s) = length s ≤ n
