-- ===== src/Examples/Commands.antt =====
-- Commands on the small world.
use goop.Base.{◌≡◌, refl, false, str_eq, filter, List, [], ◌∷◌, map, none, Str, codes}
use goop.Base.Int.{pos}
use goop.Gateway.Api.{Trigger, kick, respond, History}
use goop.Gateway.Api.Grows.{Emits}
use goop.Gateway.Find.{find_user_in_channel}
use goop.Golang.Strings.{to_lower}
use goop.Golang.Glob.{glob}
use goop.Cmd.{Cmd, Protection, quoted, report, or_as_given, is_protected}
use goop.Cmd.Protected.{IsTarget, targets, passed_over}
use goop.Cmd.Kick.{kick_execute, kick_users, after_kick}
use goop.Cmd.Kick.Safety.{kick_execute_safe, KickAllowed, named_in_channel}
use goop.Cmd.Ban.{ban_execute, unban_execute}
use goop.Cmd.Ban.Safety.{ban_execute_safe, BanAllowed, banned_by}
use goop.Cmd.Ban.Complete.{ban_execute_complete, Accepts}
use goop.Cmd.Ban.Complete as BanComplete
use goop.Cmd.Ban.Lifting.{unban_execute_safe, UnbanAllowed, IsUnbanTarget, unbanned_by}
use goop.Cmd.Set.{Set, set_execute}
use goop.Cmd.Set.Safety.{set_execute_safe, SetAllowed, IsGranted, IsSetTarget, named}
use goop.Gateway.Common.{User}
use goop.Examples.{world, sent}

abbrev any_user : Cmd
any_user = record { disabled = false; priviledge = pos 0 }

-- Whitelisted users are protected from all but admins.
abbrev protect : Protection
protect = record { base = any_user; access_protect = pos 100; access_override = pos 300 }

abbrev set_command : Set
set_command = record { base = any_user; default_access = pos 100 }

abbrev kick_all : Trigger
kick_all = sent (codes "kick") (codes "*" ∷ [])

kick_runs :
    kick_execute world protect kick_all []
    ≡ (none, respond (codes "Kicked `grubby`") ∷ kick (codes "grubby") ∷ [])
unfolding kick_execute find_user_in_channel is_protected report kick_users filter glob to_lower
    str_eq after_kick
kick_runs = refl

kick_execute_safe_example :
    Emits
      (KickAllowed
        (IsTarget protect kick_all (named_in_channel world protect kick_all [] (codes "*" ∷ []))))
      (kick_execute world protect kick_all)
      []
kick_execute_safe_example = kick_execute_safe world protect kick_all []

-- Nobody refuses a kick in this world.
kicks_granted : (h : History) (uid : Str) → world.kick_result h uid ≡ none
kicks_granted h uid = refl

abbrev everybody : List User
everybody = find_user_in_channel world [] (codes "*")

abbrev ban_guest : Trigger
ban_guest = sent (codes "ban") (codes "grub*" ∷ [])

ban_execute_safe_example :
    Emits
      (BanAllowed
        (IsTarget protect ban_guest (banned_by world protect ban_guest [] (codes "grub*" ∷ []))))
      (ban_execute world protect ban_guest)
      []
ban_execute_safe_example = ban_execute_safe world protect ban_guest []

all_granted : Accepts world
all_granted = record { access = λ h uid. (pos 0, refl); ban = λ h uid. refl }

abbrev guests : List User
guests = or_as_given (codes "grub*") (find_user_in_channel world [] (codes "grub*"))

ban_execute_complete_example :
    ban_execute world protect ban_guest []
    ≡ BanComplete.reported world protect ban_guest all_granted guests
        (passed_over protect ban_guest guests)
        (map (λ u. quoted u.name) (targets protect ban_guest guests))
        []
ban_execute_complete_example =
    ban_execute_complete world protect ban_guest all_granted (codes "grub*") [] [] refl

unban_execute_safe_example :
    Emits
      (UnbanAllowed (
        IsUnbanTarget protect ban_guest
          (unbanned_by world protect ban_guest [] (codes "grub*" ∷ []))))
      (unban_execute world protect ban_guest)
      []
unban_execute_safe_example = unban_execute_safe world protect ban_guest []

abbrev promote : Trigger
promote = sent (codes "set") (codes "grubby" ∷ codes "voice" ∷ [])

set_execute_safe_example :
    Emits
      (SetAllowed (IsGranted set_command promote (codes "grubby" ∷ codes "voice" ∷ [])) (
        IsSetTarget promote
          (named world set_command promote [] (codes "grubby" ∷ codes "voice" ∷ []))))
      (set_execute world set_command promote)
      []
set_execute_safe_example = set_execute_safe world set_command promote []
