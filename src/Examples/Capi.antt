-- ===== src/Examples/Capi.antt =====
-- The Chat API gateway, on concrete inputs.
use goop.Base.{◌≡◌, ◌↔◌, refl, false, List, [], ◌∷◌, none, some, codes}
use goop.Base.Int.{pos, negsuc}
use goop.Gateway.Capi.{BotUser, Bot, Capi, find_id}
use goop.Gateway.Capi.Handlers.{Seen, joined, left, after_seen}
use goop.Gateway.Capi.Present.{IsPresent, after_seen_iff}

abbrev grubby : BotUser
grubby = record { user_id = pos 7; username = codes "Grubby"; operator = false }

abbrev bot : Bot
bot = record { channel = codes "w3"; users = (pos 7, grubby) ∷ []; user = λ id. none }

abbrev capi : Capi
capi = record {
  config = record {
    commands = record { trigger = codes "."; access = pos 1; respond_private = false };
    avatar_default_url = [];
    access_whisper = negsuc 0;
    access_talk = pos 1;
    access_operator = pos 200;
    access_user = (codes "grubby", pos 100) ∷ [];
  };
  users = [];
  name = [];
}

-- The user came, left, and came again with another ID.
abbrev seen : List Seen
seen = joined (record grubby { user_id = pos 8 }) ∷ left grubby ∷ joined grubby ∷ []

after_seen_iff_example :
    (find_id (codes "grubby") (after_seen seen capi).users ≡ some (pos 8))
    ↔ IsPresent (codes "grubby") (pos 8) seen
after_seen_iff_example = after_seen_iff capi seen (codes "grubby") (pos 8) refl
