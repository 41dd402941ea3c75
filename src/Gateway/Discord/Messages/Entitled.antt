-- ===== src/Gateway/Discord/Messages/Entitled.antt =====
-- Which triggers a Discord message fires.
use goop.Base.{
  ◌≡◌, refl, inl, inr, Bool, true, false, List, [], ◌∷◌, Option, none, some, Str, All, arith,
  Bool-cases, ok, err, Result, if◌then◌else◌,
}
use goop.Base.Int.{◌≤ℤ◌, ltb_ℤ}
use goop.Gateway.Common.{User, responder}
use goop.Gateway.Trigger.{Extracted, extracted, no_trigger, panics, find_trigger}
use goop.Gateway.Discord.Users.{
  Session, DiscordChannel, DiscordConfig, channel_user, user_of_account,
}
use goop.Gateway.Discord.Messages.{
  Message, Sent, event, direct_trigger, channel_trigger, Place, gateway, channel, on_direct,
  direct_found, channel_found, find_channel_trigger, on_channel_chat, on_unmanaged, on_managed,
  on_message_in, on_message_create,
}

module _ (d : Session) (g : DiscordConfig) (msg : Message) where
  -- In a direct message: the sender has the access that commands need there, and is answered there.
  abbrev pub IsEntitled : Option DiscordChannel → Place × Sent → Type 0
  IsEntitled place (at, event e) = Unit
  IsEntitled none (at, direct_trigger t cid) =
      (at ≡ gateway)
      × (t.user ≡ user_of_account d g msg.author)
      × (g.commands.access ≤ℤ t.user.access)
      × (cid ≡ msg.channel_id)
  IsEntitled (some c) (at, channel_trigger t r) =
      (at ≡ channel c.channel_id)
      × (channel_user d c msg.author.id ≡ ok (some t.user))
      × (c.commands.access ≤ℤ t.user.access)
      × (r ≡ responder c.commands t.user.id false)
  IsEntitled place _ = ⊥

  abbrev AllEntitled : Option DiscordChannel → List (Place × Sent) → Type 0
  AllEntitled place l = All (IsEntitled place) l

  direct_found-AllEntitled :
      (x : Extracted)
      → let u = user_of_account d g msg.author in
        g.commands.access ≤ℤ u.access → AllEntitled none (direct_found d g u msg.channel_id x)
  direct_found-AllEntitled no_trigger h = tt
  direct_found-AllEntitled panics h = tt
  direct_found-AllEntitled (extracted p) h = ((refl, refl, h, refl), tt)

  on_direct-AllEntitled : AllEntitled none (on_direct d g msg)
  unfolding on_direct
  on_direct-AllEntitled =
      let u = user_of_account d g msg.author in
      elim (Bool-cases (ltb_ℤ u.access g.commands.access)) [
        | inl e ↦ rw (e, on_direct) (tt, tt)
        | inr e ↦
            rw (e, on_direct)
              (
                tt,
                direct_found-AllEntitled (find_trigger g.commands.trigger msg.content)
                    (ground arith),
              )
      ]

  on_unmanaged-AllEntitled : (r : Result Bool) → AllEntitled none (on_unmanaged d g msg r)
  on_unmanaged-AllEntitled (err e) = (tt, tt)
  on_unmanaged-AllEntitled (ok false) = tt
  on_unmanaged-AllEntitled (ok true) = on_direct-AllEntitled

  module _ (c : DiscordChannel) where
    channel_found-AllEntitled :
        (u : User) (x : Extracted)
        → channel_user d c msg.author.id ≡ ok (some u)
        → c.commands.access ≤ℤ u.access
        → AllEntitled (some c) (channel_found d g c u x)
    channel_found-AllEntitled u no_trigger e h = tt
    channel_found-AllEntitled u panics e h = tt
    channel_found-AllEntitled u (extracted p) e h = ((refl, e, h, refl), tt)

    on_channel_chat-AllEntitled :
        (u : User)
        → channel_user d c msg.author.id ≡ ok (some u)
        → AllEntitled (some c) (on_channel_chat d g c msg u)
    unfolding on_channel_chat
    on_channel_chat-AllEntitled u e = elim (Bool-cases (ltb_ℤ u.access c.commands.access)) [
      | inl low ↦ rw (low, on_channel_chat) (tt, tt)
      | inr high ↦
          rw (high, on_channel_chat)
            (
              tt,
              channel_found-AllEntitled u (find_channel_trigger d c msg.content) e (ground arith),
            )
    ]

    on_managed-AllEntitled :
        (r : Result (Option User))
        → channel_user d c msg.author.id ≡ r
        → AllEntitled (some c) (on_managed d g c msg r)
    on_managed-AllEntitled (err e) h = (tt, tt)
    on_managed-AllEntitled (ok none) h = tt
    on_managed-AllEntitled (ok (some u)) h = on_channel_chat-AllEntitled u h

  on_message_in-AllEntitled :
      (place : Option DiscordChannel) (direct : Result Bool)
      → AllEntitled place (on_message_in d g msg place direct)
  on_message_in-AllEntitled none direct = on_unmanaged-AllEntitled direct
  on_message_in-AllEntitled (some c) direct =
      on_managed-AllEntitled c (channel_user d c msg.author.id) refl

  -- Whatever a message holds, each trigger that it fires is of its author as a user: in a direct
  -- message with at least the access that commands need there, and answered in that channel; in a
  -- managed channel a member of the guild who is no bot, with at least the access that commands need in
  -- that channel, and answered as the channel's configuration wants it. A message of a bot, or one
  -- without text, fires nothing at all.
  pub on_message_create-IsEntitled :
      (place : Option DiscordChannel) (direct : Result Bool)
      → AllEntitled place (on_message_create d g msg place direct)
        × (msg.author.bot ≡ true → on_message_create d g msg place direct ≡ [])
        × (msg.content ≡ [] → on_message_create d g msg place direct ≡ [])
  unfolding on_message_create
  on_message_create-IsEntitled place direct =
      (all msg.content, none_of_bot msg.content, λ e. rw (e, on_message_create) refl)
    where
      all :
          (s : Str)
          → AllEntitled place (elim s [
            | [] ↦ []
            | c ∷ t ↦ if msg.author.bot then [] else on_message_in d g msg place direct
          ])
      all [] = tt
      all (c ∷ t) = elim (Bool-cases msg.author.bot) [
        | inl e ↦ rw e tt
        | inr e ↦ rw e (on_message_in-AllEntitled place direct)
      ]

      none_of_bot :
          (s : Str)
          → msg.author.bot ≡ true
          → elim s [
            | [] ↦ []
            | c ∷ t ↦ if msg.author.bot then [] else on_message_in d g msg place direct
          ]
            ≡ []
      none_of_bot [] e = refl
      none_of_bot (c ∷ t) e = rw e refl
