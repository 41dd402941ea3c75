-- ===== src/Gateway/Capi/Handlers.antt =====
-- gateway/capi/capi.go: the handlers of users that come, change and go, and of a connection.
use goop.Base.{Bool, List, [], ◌∷◌, Option, none, some, Str, if◌then◌else◌}
use goop.Base.Int.{ℤ, pos, eq_ℤ}
use goop.Golang.Strings.{to_lower}
use goop.Gateway.Events.{Event, clear, channel_event, user_event, join_event, leave_event}
use goop.Gateway.Bnet.{delete, insert}
use goop.Gateway.Capi.{BotUser, Capi, is_self, find_id, user_from_capi}

-- The events of the bot that these handlers take.
pub data Seen : Type 0 where
  connected : Str → Seen
  joined updated left : BotUser → Seen

-- `b.users[id] == u.UserID`, where a missing key has the ID 0.
abbrev pub same_id : Option ℤ → ℤ → Bool
same_id none id = eq_ℤ (pos 0) id
same_id (some known) id = eq_ℤ known id

unfoldable pub on_connect_event : Str → Capi → Capi × List Event
on_connect_event name b =
    (record b { users = [] }, clear ∷ channel_event (record { id = name; name = name }) ∷ [])

unfoldable pub on_user_joined : BotUser → Capi → Capi × List Event
unfolding insert user_from_capi
on_user_joined u b = if is_self u.user_id then (record b { name = u.username }, []) else (
  record b { users = insert (to_lower u.username) u.user_id b.users },
  join_event (user_from_capi b.config u) ∷ [],
)

unfoldable pub on_user_update : BotUser → Capi → Capi × List Event
unfolding user_from_capi
on_user_update u b =
    if is_self u.user_id then (b, []) else (b, user_event (user_from_capi b.config u) ∷ [])

unfoldable pub on_user_left : BotUser → Capi → Capi × List Event
unfolding delete find_id user_from_capi
on_user_left u b =
    if is_self u.user_id
    then (b, [])
    else (if same_id (find_id (to_lower u.username) b.users) u.user_id
        then (
          record b { users = delete (to_lower u.username) b.users },
          leave_event (user_from_capi b.config u) ∷ [],
        )
        else (b, []))

unfoldable pub on_seen : Seen → Capi → Capi × List Event
unfolding on_connect_event on_user_joined on_user_update on_user_left
on_seen (connected name) b = on_connect_event name b
on_seen (joined u) b = on_user_joined u b
on_seen (updated u) b = on_user_update u b
on_seen (left u) b = on_user_left u b

-- The state behind a history, whose newest event is the first.
unfoldable pub after_seen : List Seen → Capi → Capi
unfolding on_seen
after_seen [] b = b
after_seen (e ∷ h) b = (on_seen e (after_seen h b)).0
