-- ===== src/Examples/Relay.antt =====
-- Relays, on concrete inputs.
use goop.Base.{
  ◌≡◌, ◌≢◌, ◌↔◌, ◌+◌, ◌≤◌, refl, true, false, List, [], ◌∷◌, some, Str, codes, length, All,
  say_buffer_full,
}
use mathlib.Core.List.{Memᴰ}
use goop.Base.Int.{pos}
use goop.Gateway.Events.{Event, async_error, chat_event}
use goop.Relay.{RelayConfig, Target, handle}
use goop.Relay.Filter.{Wanted, handle_iff}
use goop.Relay.Storm.{Refuses, fire_on, on_each, IsRefusing, IsQuiet, fire_on_outcome}
use goop.Examples.{guest}

abbrev log_and_chat : RelayConfig
log_and_chat = record {
  log = true;
  system = false;
  channel = false;
  joins = false;
  chat = true;
  private_chat = false;
  say = false;
  join_access = pos 0;
  chat_access = pos 1;
  private_chat_access = pos 0;
}

-- A gateway whose buffer stays full.
abbrev full : Target
full = record { relay_result = λ ev. some say_buffer_full; is_close_error = λ e. false }

-- Two such gateways, each of which relays errors to both.
abbrev two_full : List (Str × Target)
two_full = (codes "bnet:a", full) ∷ (codes "bnet:b", full) ∷ []

abbrev all_log : Str → Str → RelayConfig
all_log to from = log_and_chat

handle_iff_example :
    (handle full log_and_chat (chat_event guest (codes "hi")) ≢ [])
    ↔ Wanted log_and_chat (chat_event guest (codes "hi"))
handle_iff_example = handle_iff full log_and_chat (chat_event guest (codes "hi"))

full-Refuses : Refuses full
full-Refuses src e = (say_buffer_full, refl, refl)

first-IsRefusing : IsRefusing two_full all_log (codes "bnet:a", full)
first-IsRefusing = (Memᴰ.head refl, full-Refuses)

second-IsRefusing : IsRefusing two_full all_log (codes "bnet:b", full)
second-IsRefusing = (Memᴰ.tail (Memᴰ.head refl), full-Refuses)

fire_on_outcome_example :
    (true ≡ true
      → true ≡ true
      → 9 + 9
        ≤ length (
            fire_on two_full all_log 9
              (codes "bnet:a")
              (async_error (codes "say") say_buffer_full)))
    × (All (λ t. IsQuiet two_full all_log t.0) two_full
        → (from : Str) (ev : Event)
        → fire_on two_full all_log 10 from ev
          ≡ on_each (λ t. handle t.1 (all_log t.0 from) ev) two_full)
fire_on_outcome_example =
    fire_on_outcome two_full all_log 9 (codes "bnet:a", full) (codes "bnet:b", full) (codes "say")
      say_buffer_full first-IsRefusing second-IsRefusing
