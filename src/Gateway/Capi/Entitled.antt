-- ===== src/Gateway/Capi/Entitled.antt =====
-- gateway/capi/capi.go: what a message may do: which triggers it fires, and what levels it changes.
use goop.Base.{
  ◌≡◌, refl, sym, inl, inr, Bool, ◌&&◌, List, [], ◌∷◌, Option, none, some, Str, codes, str_eq,
  str_eq→eq, All, All-append, arith, Bool-cases,
}
use goop.Base.Int.{ℤ, ◌≤ℤ◌, ltb_ℤ}
use goop.Golang.Strings.{to_lower}
use goop.Golang.Strings.Laws.{to_lower_idem}
use goop.Gateway.Access.{AccessLevel, access_default, access_ban, access_whitelist}
use goop.Gateway.Common.{User, responder}
use goop.Gateway.Trigger.{Extracted, extracted, no_trigger, panics}
use goop.Gateway.Find.{access_of}
use goop.Gateway.Events.{Event}
use goop.Gateway.Bnet.Bans.{Kept, unchanged, find_banned, ban_verb, unban_verb}
use goop.Gateway.Bnet.Users.{access_of-with_access, access_of-with_access_other}
use goop.Gateway.Capi.{Bot, Capi, user_from_id, set_user_access}
use goop.Gateway.Capi.Messages.{
  MessageType, emote, channel, whisper, server_info, other, Fired, event, trigger, is_whisper,
  fire_found, find_capi_trigger, on_talk, set_silently, keep_ban, keep_unban, keep, events,
  on_server_info, on_message_event,
}

-- A trigger is of the user given, who has the access that commands need, and is answered in private
-- where the configuration or the kind of message wants it.
abbrev pub IsAllowed : Capi → User → Bool → Fired → Type 0
IsAllowed b u private (event e) = Unit
IsAllowed b u private (trigger t r) =
    (t.user ≡ u)
    × (b.config.commands.access ≤ℤ u.access)
    × (r ≡ responder b.config.commands u.id private)

module _ (bot : Bot) (b : Capi) where
  module _ (u : User) (kind : MessageType) where
    abbrev AllAllowed : List Fired → Type 0
    AllAllowed l = All (IsAllowed b u (is_whisper kind)) l

    fire_found-AllAllowed :
        (x : Extracted)
        → b.config.commands.access ≤ℤ u.access
        → AllAllowed (fire_found bot b u (is_whisper kind) x)
    fire_found-AllAllowed no_trigger h = tt
    fire_found-AllAllowed panics h = tt
    fire_found-AllAllowed (extracted p) h = ((refl, h, refl), tt)

    on_talk-AllAllowed : (s : Str) → AllAllowed (on_talk bot b kind u s)
    unfolding on_talk
    on_talk-AllAllowed s = elim (Bool-cases (ltb_ℤ u.access b.config.commands.access)) [
      | inl e ↦ rw (e, on_talk) (tt, tt)
      | inr e ↦
          rw (e, on_talk)
            (
              tt,
              fire_found-AllAllowed (find_capi_trigger bot b.name b.config.commands.trigger s)
                  (ground arith),
            )
    ]

    events-AllAllowed : (es : List Event) → AllAllowed (events bot es)
    events-AllAllowed [] = tt
    events-AllAllowed (e ∷ es) = (tt, events-AllAllowed es)

    on_server_info-AllAllowed : (name s : Str) → AllAllowed (on_server_info bot b name s).1
    unfolding on_server_info
    on_server_info-AllAllowed name s = elim (Bool-cases (str_eq s (codes "No one hears you."))) [
      | inl e ↦ rw (e, on_server_info) tt
      | inr e ↦
          let evs = (keep bot b (find_banned ban_verb s) (find_banned unban_verb s)).1 in
          rw (e, on_server_info)
            (All-append (IsAllowed b u (is_whisper kind)) (events bot evs) _ (events-AllAllowed evs)
              (tt, tt))
    ]

  module _ (k : Str) where
    -- The level of `k` is kept, or changed as an announcement of the server says.
    abbrev IsKept : Capi → Type 0
    IsKept b' = Kept (access_of b.config.access_user k) (access_of b'.config.access_user k)

    set_silently-IsKept :
        (u : Str) (a : AccessLevel)
        → to_lower u ≡ u
        → Kept (access_of b.config.access_user u) a
        → IsKept (set_silently bot b u a).0
    unfolding set_silently set_user_access to_lower
    set_silently-IsKept [] a low h = unchanged
    set_silently-IsKept (d ∷ s) a low h =
        let u = d ∷ s in
        rw low (elim (Bool-cases (str_eq u k)) [
          | inl e ↦ rw (sym (str_eq→eq u k e), access_of-with_access u a b.config.access_user) h
          | inr e ↦ rw (access_of-with_access_other u k a b.config.access_user e) unchanged
        ])

    keep_ban-IsKept : (u : Str) → to_lower u ≡ u → IsKept (keep_ban bot b u).0
    unfolding keep_ban
    keep_ban-IsKept u low =
        let a = access_of b.config.access_user u in
        elim (Bool-cases (ltb_ℤ access_ban a && ltb_ℤ a access_whitelist)) [
          | inl e ↦
              rw (e, keep_ban)
                (set_silently-IsKept u access_ban low (Kept.banned (ground arith) (ground arith)))
          | inr e ↦ rw (e, keep_ban) unchanged
        ]

    keep_unban-IsKept : (u : Str) → to_lower u ≡ u → IsKept (keep_unban bot b u).0
    unfolding keep_unban
    keep_unban-IsKept u low =
        elim (Bool-cases (ltb_ℤ (access_of b.config.access_user u) access_default)) [
          | inl e ↦
              rw (e, keep_unban)
                (set_silently-IsKept u access_default low (Kept.unbanned (ground arith)))
          | inr e ↦ rw (e, keep_unban) unchanged
        ]

    keep-IsKept : (x y : Option Str) → IsKept (keep bot b x y).0
    unfolding keep
    keep-IsKept (some u) y = keep_ban-IsKept (to_lower u) (to_lower_idem u)
    keep-IsKept none (some u) = keep_unban-IsKept (to_lower u) (to_lower_idem u)
    keep-IsKept none none = unchanged

    on_server_info-IsKept : (name s : Str) → IsKept (on_server_info bot b name s).0
    unfolding on_server_info
    on_server_info-IsKept name s = elim (Bool-cases (str_eq s (codes "No one hears you."))) [
      | inl e ↦ rw (e, on_server_info) unchanged
      | inr e ↦
          rw (e, on_server_info) (keep-IsKept (find_banned ban_verb s) (find_banned unban_verb s))
    ]

  -- Whatever the bot is told: each trigger that is fired is of the user with the ID given, who has at
  -- least the access that commands need, and its answer goes to that user in private where the message
  -- was a whisper or the configuration wants it, else to the channel; and each level kept is as before,
  -- or is now the ban level where it was between that and the whitelist level, or is now the default
  -- level where it was below that.
  on_message_event-IsSafe :
      (kind : MessageType) (id : ℤ) (s : Str)
      → All
          (IsAllowed b (user_from_id b.config bot id) (is_whisper kind))
          (on_message_event bot b kind id s).1
        × ((k : Str) → IsKept k (on_message_event bot b kind id s).0)
  unfolding on_message_event
  on_message_event-IsSafe kind id [] = (tt, λ k. unchanged)
  on_message_event-IsSafe (server_info name) id (d ∷ s) = (
    on_server_info-AllAllowed (user_from_id b.config bot id) (server_info name) name (d ∷ s),
    λ k. on_server_info-IsKept k name (d ∷ s),
  )
  on_message_event-IsSafe (other name) id (d ∷ s) = ((tt, tt), λ k. unchanged)
  on_message_event-IsSafe emote id (d ∷ s) =
      (on_talk-AllAllowed (user_from_id b.config bot id) emote (d ∷ s), λ k. unchanged)
  on_message_event-IsSafe channel id (d ∷ s) =
      (on_talk-AllAllowed (user_from_id b.config bot id) channel (d ∷ s), λ k. unchanged)
  on_message_event-IsSafe whisper id (d ∷ s) =
      (on_talk-AllAllowed (user_from_id b.config bot id) whisper (d ∷ s), λ k. unchanged)
