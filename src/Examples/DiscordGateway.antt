-- ===== src/Examples/DiscordGateway.antt =====
-- The Discord gateway's users, presences and messages, on concrete inputs.
use goop.Base.{
  List, ◌≡◌, refl, true, false, [], ◌∷◌, some, Str, codes, str_eq, All, no_user, ok, err, arith,
}
use goop.Base.Int.{pos, negsuc}
use goop.Gateway.Discord.Users.{Account, Session, DiscordChannel, DiscordConfig}
use goop.Gateway.Discord.Presence.{Tracked, has_user, update_presence}
use goop.Gateway.Discord.Presence.Tracking.{NoJoin, NoLeave, any_join, update_presence-IsTracked}
use goop.Gateway.Discord.Messages.{Message, on_message_create}
use goop.Gateway.Discord.Messages.Entitled.{IsEntitled, on_message_create-IsEntitled}
use goop.Gateway.Discord.Mentions.{GuildNames, parse}
use goop.Gateway.Discord.Mentions.Muted.{IsMuted}
use goop.Gateway.Discord.Mentions.Guild.{IsPlainGuild, parse-IsMuted}
use goop.Gateway.Discord.Online.{Online}

abbrev account : Account
account = record { id = codes "42"; username = codes "moon"; avatar_url = []; bot = false }

abbrev session : Session
session = record {
  self = some (record { id = codes "1"; username = codes "goop"; avatar_url = []; bot = true });
  member = λ guild uid. ok (record { account = account; nick = []; roles = codes "7" ∷ [] });
  is_present = λ guild uid. true;
  role = λ guild rid. ok (codes "Crew");
  may_view = λ uid cid. ok true;
  presences = λ guild. ok (codes "42" ∷ []);
  account = λ uid. ok account;
  channel_name = λ cid. codes "general";
}

abbrev place : DiscordChannel
place = record {
  guild_id = codes "g";
  commands = record { trigger = codes "."; access = pos 1; respond_private = false };
  channel_id = codes "c";
  webhook = [];
  relay_joins = 0;
  access_mentions = pos 100;
  access_talk = pos 0;
  access_role = (codes "crew", pos 1) ∷ [];
  access_user = [];
}

abbrev direct : DiscordConfig
direct = record {
  commands = record { trigger = codes "."; access = pos 1; respond_private = false };
  access_dm = negsuc 0;
  access_user = [];
}

abbrev tracked : Tracked
tracked = record {
  users = [];
  guilds = (codes "g", codes "c" ∷ []) ∷ [];
  channels = (codes "c", place) ∷ [];
}

update_presence-IsTracked_example :
    let came =
      update_presence session (record { account = account; offline = false }) (codes "g") tracked in
    let went =
      update_presence session (record { account = account; offline = true }) (codes "g") tracked in
    (has_user (codes "42") tracked.users ≡ true → came ≡ (tracked, []))
    × (has_user (codes "42") tracked.users ≡ false
        → All NoLeave came.1 × (has_user (codes "42") came.0.users ≡ any_join came.1))
    × (has_user (codes "42") tracked.users ≡ false → went ≡ (tracked, []))
    × (has_user (codes "42") tracked.users ≡ true
        → All NoJoin went.1 × (has_user (codes "42") went.0.users ≡ false))
    × ((j : Str)
        → str_eq (codes "42") j ≡ false
        → (has_user j came.0.users ≡ has_user j tracked.users)
          × (has_user j went.0.users ≡ has_user j tracked.users))
update_presence-IsTracked_example =
    update_presence-IsTracked session account (codes "g") tracked refl

abbrev message : Message
message = record {
  content = codes ".ping";
  author = account;
  channel_id = codes "c";
  with_names = err no_user;
}

on_message_create-IsEntitled_example :
    All
      (IsEntitled session direct message (some place))
      (on_message_create session direct message (some place) (ok false))
    × (false ≡ true → on_message_create session direct message (some place) (ok false) ≡ [])
    × (codes ".ping" ≡ [] → on_message_create session direct message (some place) (ok false) ≡ [])
on_message_create-IsEntitled_example =
    on_message_create-IsEntitled session direct message (some place) (ok false)

abbrev names : GuildNames
names = record {
  channels = record { name = codes "general"; mention = codes "<#9>" } ∷ [];
  roles = record { mentionable = true; name = codes "crew"; mention = codes "<@&7>" } ∷ [];
  members = [];
}

abbrev as_is : List Online → List Online
as_is os = os

-- It lists joins.
abbrev listing : DiscordChannel
listing = record place { relay_joins = 2 }

names-IsPlainGuild : IsPlainGuild names
names-IsPlainGuild = record {
  plain_roles = (omega arith, tt);
  plain_members = tt;
  muted_channels = (ground arith, tt);
}

parse-IsMuted_example : IsMuted (parse (pos 100) (some names) (codes "hi @crew, @everyone") (pos 0))
parse-IsMuted_example =
    parse-IsMuted (pos 100) (pos 0) (some names) (codes "hi @crew, @everyone") (ground arith)
      names-IsPlainGuild
