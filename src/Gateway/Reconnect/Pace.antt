-- ===== src/Gateway/Reconnect/Pace.antt =====
-- How long Run waits between its attempts.
use goop.Base.{
  ℕ, zero, suc, ◌*◌, ◌^◌, ◌≤◌, ◌<◌, ◌≡◌, refl, sym, ap, ◌∙◌, Bool, true, false, List, [], ◌∷◌, ◌++◌,
  map, Option, none, some, Str, Error, All, get_elem?, length, ltb, arith, Bool-cases, inl, inr,
  if◌then◌else◌,
}
use mathlib.Core.Path.{subst}
use goop.Base.Int.{ℤ, pos, negsuc}
use goop.Gateway.Events.{disconnected, clear, async_error}
use goop.Gateway.Reconnect.{
  ten_seconds, four_hours, clamp, Attempt, refused, refused_late, ran, Happening, fired, waited,
  said, run_error, run_from, run, Outcome, failed,
}

-- The waits among what happens.
abbrev pub waits : List Happening → List ℕ
waits [] = []
waits (waited d ∷ l) = d ∷ waits l
waits (fired e ∷ l) = waits l
waits (said s ∷ l) = waits l

-- A delay no longer than four hours.
abbrev pub at_most : ℕ → ℕ
at_most n = if ltb four_hours n then four_hours else n

clamp_bounds : (b : ℤ) → (ten_seconds ≤ clamp b) × (clamp b ≤ four_hours)
unfolding clamp
clamp_bounds (pos n) = ground arith
clamp_bounds (negsuc n) = (omega arith, omega arith)

clamp-double : (w : ℕ) → ten_seconds ≤ w → clamp (pos (2 * w)) ≡ at_most (2 * w)
unfolding clamp
clamp-double w h = ground arith

two_pow : (k : ℕ) → 2 ^ suc k ≡ 2 * 2 ^ k
two_pow k = omega arith

one-le-pow : (k : ℕ) → 1 ≤ 2 ^ k
one-le-pow zero = omega arith
one-le-pow (suc k) = omega (arith, one-le-pow k, two_pow k)

mul_mono : (x y p : ℕ) → x ≤ y → x * p ≤ y * p
mul_mono x y p h = grind arith

at_most-mul : (x p : ℕ) → 1 ≤ p → at_most (at_most x * p) ≡ at_most (x * p)
at_most-mul x p h = elim (Bool-cases (ltb four_hours x)) [
  | inl e ↦
      let big : four_hours * 1 ≤ four_hours * p = grind arith in
      let more : four_hours * p ≤ x * p = mul_mono four_hours x p (ground arith) in
      rw e (ground arith)
  | inr e ↦ rw e refl
]

regroup : (w k : ℕ) → 2 * w * 2 ^ k ≡ w * 2 ^ suc k
regroup w k = grind (arith, two_pow k)

waits-append : (a b : List Happening) → waits (a ++ b) ≡ waits a ++ waits b
waits-append [] b = refl
waits-append (fired e ∷ a) b = waits-append a b
waits-append (waited d ∷ a) b = ap (λ l. d ∷ l) (waits-append a b)
waits-append (said s ∷ a) b = waits-append a b

waits-run_error :
    (src : Str) (e : Option Error) (done : Bool) (l : List Happening)
    → waits (run_error src e done ++ l) ≡ waits l
waits-run_error src none done l = refl
waits-run_error src (some e) true l = refl
waits-run_error src (some e) false l = refl

abbrev pub IsInRange : ℕ → Type 0
IsInRange d = (ten_seconds ≤ d) × (d ≤ four_hours)

-- Every error is worth another attempt.
abbrev pub Reconnects : (Error → Bool) → List Error → Type 0
Reconnects reconnects es = All (λ e. reconnects e ≡ true) es

module _ (reconnects : Error → Bool) (greeting : List Happening) (connect_src run_src : Str)
    (delay : ℤ) (silent : waits greeting ≡ []) where
  abbrev from : ℤ → List Attempt → List Happening
  from backoff attempts =
      (run_from reconnects greeting connect_src run_src delay backoff attempts).0

  waits-ran :
      (b : ℤ) (e : Option Error) (done : Bool) (rest : List Attempt)
      → waits (from b (ran e done ∷ rest)) ≡ waits (from delay rest)
  unfolding run_from
  waits-ran b e done rest =
      let last = fired disconnected ∷ fired clear ∷ from delay rest in
      waits-append greeting (run_error run_src e done ++ last)
      ∙ ap (λ l. l ++ waits (run_error run_src e done ++ last)) silent
      ∙ waits-run_error run_src e done last

  waits-refused :
      (b : ℤ) (e : Error) (rest : List Attempt)
      → reconnects e ≡ true
      → waits (from b (refused e ∷ rest)) ≡ clamp b ∷ waits (from (pos (2 * clamp b)) rest)
  unfolding run_from
  waits-refused b e rest h =
      let later = run_from reconnects greeting connect_src run_src delay (pos (2 * clamp b)) rest in
      let again = fired (async_error connect_src e) ∷ waited (clamp b) ∷ later.0 in
      let pick : Bool → List Happening × Outcome =
        λ t. if t then (again, later.1) else ([], failed e) in
      ap (λ t. waits (pick t).0) h

  waits-given_up :
      (b : ℤ) (e : Error) (rest : List Attempt)
      → reconnects e ≡ false
      → waits (from b (refused e ∷ rest)) ≡ []
  unfolding run_from
  waits-given_up b e rest h =
      let later = run_from reconnects greeting connect_src run_src delay (pos (2 * clamp b)) rest in
      let again = fired (async_error connect_src e) ∷ waited (clamp b) ∷ later.0 in
      let pick : Bool → List Happening × Outcome =
        λ t. if t then (again, later.1) else ([], failed e) in
      ap (λ t. waits (pick t).0) h

  in_range : (b : ℤ) (attempts : List Attempt) → All IsInRange (waits (from b attempts))
  unfolding run_from
  in_range b [] = tt
  in_range b (refused_late e ∷ rest) = tt
  in_range b (refused e ∷ rest) = elim (Bool-cases (reconnects e)) [
    | inl y ↦
        subst (All IsInRange) (sym (waits-refused b e rest y))
          (clamp_bounds b, in_range (pos (2 * clamp b)) rest)
    | inr n ↦ subst (All IsInRange) (sym (waits-given_up b e rest n)) tt
  ]
  in_range b (ran e done ∷ rest) =
      subst (All IsInRange) (sym (waits-ran b e done rest)) (in_range delay rest)

  doubles :
      (b : ℤ) (es : List Error) (rest : List Attempt) (k : ℕ)
      → Reconnects reconnects es
      → k < length es
      → get_elem? (waits (from b (map refused es ++ rest))) k ≡ some (at_most (clamp b * 2 ^ k))
  doubles b [] rest k h lt = absurd (omega arith)
  doubles b (e ∷ es) rest zero h lt =
      let bound = clamp_bounds b in
      ap (λ l. get_elem? l 0) (waits-refused b e (map refused es ++ rest) h.0)
      ∙ ap some (ground arith)
  doubles b (e ∷ es) rest (suc k) h lt =
      let w = clamp b in
      ap (λ l. get_elem? l (suc k)) (waits-refused b e (map refused es ++ rest) h.0)
      ∙ doubles (pos (2 * w)) es rest k h.1 (omega arith)
      ∙ ap some (
          ap (λ x. at_most (x * 2 ^ k)) (clamp-double w (clamp_bounds b).0)
          ∙ at_most-mul (2 * w) (2 ^ k) (one-le-pow k)
          ∙ ap at_most (regroup w k))

  -- Where what is said on a connection is no wait: every wait is between 10 seconds and 4 hours; of
  -- failures in a row that are worth another attempt, at the start or after a connection that was made,
  -- the k-th one from 0 is followed by a wait of 2^k times the configured delay (put into those bounds),
  -- or of 4 hours where that is more.
  pub run-IsPaced :
      ((attempts : List Attempt)
        → All IsInRange (waits (run reconnects greeting connect_src run_src delay attempts).0))
      × ((es : List Error) (rest : List Attempt) (k : ℕ)
          → Reconnects reconnects es
          → k < length es
          → get_elem?
              (waits (run reconnects greeting connect_src run_src delay (map refused es ++ rest)).0)
              k
            ≡ some (at_most (clamp delay * 2 ^ k)))
      × ((e : Option Error) (done : Bool) (rest : List Attempt)
          → waits (run reconnects greeting connect_src run_src delay (ran e done ∷ rest)).0
            ≡ waits (run reconnects greeting connect_src run_src delay rest).0)
  unfolding run
  run-IsPaced = (in_range delay, doubles delay, waits-ran delay)
