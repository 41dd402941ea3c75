-- ===== src/Examples/Reconnect.antt =====
-- Connecting again, on concrete inputs.
use goop.Base.{
  ℕ, ◌*◌, ◌^◌, ◌<◌, ◌≡◌, refl, Bool, true, List, [], ◌∷◌, ◌++◌, map, length, get_elem?, Option,
  some, codes, All, Error,
}
use goop.Base.Int.{pos}
use goop.Gateway.Reconnect.{Attempt, refused, ran, said, clamp, run}
use goop.Gateway.Reconnect.Pace.{waits, at_most, IsInRange, Reconnects, run-IsPaced}

abbrev always : Error → Bool
always e = true

run-IsPaced_example :
    let w = λ (attempts : List Attempt).
      waits
        (run always
          (said (codes "/join w3") ∷ [])
          (codes "a")
          (codes "b")
          (pos 30000000000)
          attempts).0 in
    ((attempts : List Attempt) → All IsInRange (w attempts))
    × ((es : List Error) (rest : List Attempt) (k : ℕ)
        → Reconnects always es
        → k < length es
        → get_elem? (w (map refused es ++ rest)) k
          ≡ some (at_most (clamp (pos 30000000000) * 2 ^ k)))
    × ((e : Option Error) (done : Bool) (rest : List Attempt) → w (ran e done ∷ rest) ≡ w rest)
run-IsPaced_example =
    run-IsPaced always (said (codes "/join w3") ∷ []) (codes "a") (codes "b") (pos 30000000000) refl
