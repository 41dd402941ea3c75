-- ===== src/Gateway/Reconnect.antt =====
-- The method Run of gateway/bnet/bnet.go, gateway/capi/capi.go and gateway/discord/discord.go: connecting
-- again. What comes of an attempt is an input, and the end of the attempts is the context's end.
pub mod Pace
use goop.Base.{
  ℕ, zero, suc, ◌*◌, Bool, true, false, List, [], ◌∷◌, ◌++◌, Option, none, some, Str, codes, Error,
  ltb, if◌then◌else◌,
}
use goop.Base.Int.{ℤ, pos, negsuc}
use goop.Gateway.Events.{Event, connected, disconnected, clear, async_error}

-- Nanoseconds.
abbrev pub ten_seconds : ℕ
ten_seconds = 10000000000

abbrev pub two_minutes : ℕ
two_minutes = 120000000000

abbrev pub four_hours : ℕ
four_hours = 14400000000000

-- The bounds that are put on the delay, which the configuration gives as a signed number.
unfoldable pub clamp : ℤ → ℕ
clamp (negsuc n) = ten_seconds
clamp (pos n) =
    if ltb n ten_seconds then ten_seconds else if ltb four_hours n then four_hours else n

-- The connection fails while the context lives, or when it is done; or the client runs until it returns
-- an error or none, with the context done by then or not.
pub data Attempt : Type 0 where
  refused refused_late : Error → Attempt
  ran : Option Error → Bool → Attempt

pub data Happening : Type 0 where
  fired : Event → Happening
  waited : ℕ → Happening
  said : Str → Happening

-- What Run returns: the context's error, or that of the connection.
pub data Outcome : Type 0 where
  stopped : Outcome
  failed : Error → Outcome

abbrev run_error : Str → Option Error → Bool → List Happening
run_error src none done = []
run_error src (some e) true = []
run_error src (some e) false = fired (async_error src e) ∷ []

-- The loop. `reconnects` says which errors are worth another attempt, `greeting` is what is said on a
-- connection, and the names are the sources of the errors. Doubling is exact in float64 up to 4 hours.
module _ (reconnects : Error → Bool) (greeting : List Happening) (connect_src run_src : Str)
    (delay : ℤ) where
  unfoldable pub run_from : ℤ → List Attempt → List Happening × Outcome
  unfolding clamp
  run_from backoff [] = ([], stopped)
  run_from backoff (refused_late e ∷ rest) = ([], failed e)
  run_from backoff (refused e ∷ rest) =
      let later = run_from (pos (2 * clamp backoff)) rest in
      if reconnects e
      then (fired (async_error connect_src e) ∷ waited (clamp backoff) ∷ later.0, later.1)
      else ([], failed e)
  run_from backoff (ran e done ∷ rest) =
      let later = run_from delay rest in
      (
        fired connected
            ∷ (greeting
                ++ (run_error run_src e done ++ fired disconnected ∷ fired clear ∷ later.0)),
        later.1,
      )

  unfoldable pub run : List Attempt → List Happening × Outcome
  unfolding run_from
  run attempts = run_from delay attempts

-- Run of capi.go.
unfoldable pub run_capi : (Error → Bool) → ℤ → List Attempt → List Happening × Outcome
unfolding run
run_capi reconnects delay = run reconnects [] (codes "Run[Connect]") (codes "Run[Bot]") delay

-- The channel to join: the client's, or else the one configured.
abbrev join_text : Str → Str → List Happening
join_text [] [] = []
join_text [] (c ∷ home) = said (codes "/join " ++ c ∷ home) ∷ []
join_text (c ∷ channel) home = said (codes "/join " ++ c ∷ channel) ∷ []

-- Run of bnet.go.
unfoldable pub run_bnet :
    (Error → Bool) → ℤ → (channel home : Str) → List Attempt → List Happening × Outcome
unfolding run
run_bnet reconnects delay channel home =
    run reconnects (join_text channel home) (codes "Run[Logon]") (codes "Run[Client]") delay

-- The loop of discord.go, for the tries that are left and the error of the last one; an attempt is the
-- error of Open or none, and their end is the context's end.
unfoldable pub open_from : ℕ → Option Error → List (Option Error) → List Happening × Option Error
open_from zero last opens = ([], last)
open_from (suc tries) last [] = ([], last)
open_from (suc tries) last (none ∷ opens) = ([], none)
open_from (suc tries) last (some e ∷ opens) =
    let later = open_from tries (some e) opens in
    (fired (async_error (codes "Run[Open]") e) ∷ waited two_minutes ∷ later.0, later.1)

-- Run of discord.go: what it does before it waits for the context, and its error if it gives up.
unfoldable pub run_discord : List (Option Error) → List Happening × Option Error
unfolding open_from
run_discord opens = open_from 59 none opens
