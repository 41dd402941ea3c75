-- ===== src/Examples/Discord.antt =====
-- The Discord gateway, the configuration of relays and the listing of users, on concrete inputs.
use goop.Base.{
  ◌≡◌, refl, true, List, [], ◌∷◌, none, some, Str, codes, if◌then◌else◌, str_eq, ok, arith,
}
use goop.Gateway.Common.{User}
use goop.Gateway.Events.{leave_event}
use goop.Gateway.Discord.JoinMode.{mode_string, unmarshal_mode, relay_joins_both}
use goop.Gateway.Discord.JoinMode.RoundTrip.{unmarshal_mode-mode_string}
use goop.Gateway.Discord.Online.{Online, relay_online, lists_joins}
use goop.Gateway.Discord.Online.Count.{entry_count, count_after, entry_count-relay_online}
use goop.Relay.{RelayConfig}
use goop.Goop.{lookup}
use goop.Config.RelayTable.{RelayTable, RelayTo, get_relay, get_relay_answers}
use goop.Examples.{guest, friend}
use goop.Examples.Goop.{silent}

abbrev entry : User → Online
entry u = record { user = u; gateway = codes "bnet:azeroth"; discr = codes "azeroth"; since = 0 }

abbrev both_online : List Online
both_online = entry friend ∷ entry guest ∷ []

lists_both : lists_joins relay_joins_both ≡ true
unfolding lists_joins
lists_both = refl

unmarshal_mode-mode_string_example : unmarshal_mode (mode_string 0x1F) ≡ ok 0x1F
unmarshal_mode-mode_string_example = unmarshal_mode-mode_string 0x1F (omega arith)

entry_count-relay_online_example :
    entry_count (codes "bnet:azeroth") (codes "moon") (
      relay_online
        (λ l. l)
        relay_joins_both
        (codes "bnet:azeroth")
        (codes "azeroth")
        5
        (leave_event friend)
        both_online)
    ≡ count_after
        (codes "bnet:azeroth")
        (codes "moon")
        (codes "bnet:azeroth")
        (leave_event friend)
        (entry_count (codes "bnet:azeroth") (codes "moon") both_online)
entry_count-relay_online_example =
    entry_count-relay_online (λ l. l) relay_joins_both (codes "bnet:azeroth") (codes "azeroth") 5
      (leave_event friend) both_online (codes "bnet:azeroth") (codes "moon") (λ l. refl) lists_both

abbrev chatty : RelayConfig
chatty = record silent { chat = true }

abbrev table : RelayTable
table = record {
  default_relay = silent;
  default_self = silent;
  to = (codes "std:io", record { default = chatty; from = [] }) ∷ [];
}

get_relay_answers_example :
    ((t : RelayTo) (cfg : RelayConfig)
      → lookup (codes "std:io") table.to ≡ some t
      → lookup (codes "bnet:a") t.from ≡ some cfg
      → (get_relay table (codes "std:io") (codes "bnet:a")).0 ≡ cfg)
    × ((t : RelayTo)
        → lookup (codes "std:io") table.to ≡ some t
        → lookup (codes "bnet:a") t.from ≡ none
        → (get_relay table (codes "std:io") (codes "bnet:a")).0
          ≡ (if str_eq (codes "std:io") (codes "bnet:a") then table.default_self else t.default))
    × (lookup (codes "std:io") table.to ≡ none
        → (get_relay table (codes "std:io") (codes "bnet:a")).0 ≡ (
            if str_eq (codes "std:io") (codes "bnet:a")
            then table.default_self
            else table.default_relay))
    × ((to' from' : Str)
        → (get_relay (get_relay table to' from').1 (codes "std:io") (codes "bnet:a")).0
          ≡ (get_relay table (codes "std:io") (codes "bnet:a")).0)
get_relay_answers_example = get_relay_answers table (codes "std:io") (codes "bnet:a")
