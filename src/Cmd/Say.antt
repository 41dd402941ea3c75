-- ===== src/Cmd/Say.antt =====
-- goop/cmd/say.go, goop/cmd/whois.go, goop/cmd/ping.go and goop/cmd/trigger.go
use goop.Base.{
  ℕ, ◌/◌, List, [], ◌∷◌, ◌++◌, Option, none, some, Str, codes, Error, not_implemented, Result, ok,
  err,
}
use goop.Golang.Strings.{join}
use goop.Golang.Strconv.{itoa}
use goop.Gateway.Access.{to_string}
use goop.Gateway.Common.{User}
use goop.Gateway.Api.{Gateway, Trigger, M, ◌>>=◌, pure, gets, do_respond, do_say, do_say_private}
use goop.Gateway.Find.{find_user}
use goop.Cmd.{give_up, quoted, msg_no_user_found, msg_more_user_found, msg_internal_error}

module _ (gw : Gateway) where
  -- Echo.Execute
  unfoldable pub echo_execute : Trigger → M (Option Error)
  echo_execute t = do_respond gw (join t.raw [])

  -- Say.Execute
  unfoldable pub say_execute : Trigger → M (Option Error)
  say_execute t = do_say gw (join t.raw [])

  unfoldable pub after_private : Option Error → M (Option Error)
  after_private none = pure none
  after_private (some not_implemented) = pure none
  after_private (some e) = give_up gw msg_internal_error e

  -- `len(u)` of 0 goes on with the argument as ID.
  unfoldable pub say_to : Str → List Str → List User → M (Option Error)
  unfolding after_private
  say_to arg raw [] = do e ← do_say_private gw arg (join raw []); after_private e
  say_to arg raw (u ∷ []) = do e ← do_say_private gw u.id (join raw []); after_private e
  say_to arg raw (u ∷ v ∷ us) = do_respond gw msg_more_user_found

  abbrev behind : List Str → List Str
  behind [] = []
  behind (r ∷ raw) = raw

  unfoldable pub say_private_first : List Str → List Str → M (Option Error)
  unfolding say_to
  say_private_first raw [] = do_respond gw (codes "Expected 2 arguments: [user] [message]")
  say_private_first raw (pat ∷ []) = do_respond gw (codes "Expected 2 arguments: [user] [message]")
  say_private_first raw (pat ∷ a ∷ args) = do
    users ← gets (λ h. find_user gw h pat)
    say_to pat (behind raw) users

  -- SayPrivate.Execute; a trigger has as many raw arguments as arguments.
  unfoldable pub say_private_execute : Trigger → M (Option Error)
  unfolding say_private_first
  say_private_execute t = say_private_first t.raw t.arg

  -- userToString
  unfoldable pub user_to_string : User → Str
  user_to_string u =
      codes "NAME="
      ++ quoted u.name
      ++ codes " ID=`"
      ++ u.id
      ++ codes "@"
      ++ gw.discriminator
      ++ codes "` ACCESS=<"
      ++ to_string u.access
      ++ codes ">"

  unfoldable pub whois_found : List User → M (Option Error)
  unfolding user_to_string
  whois_found [] = do_respond gw msg_no_user_found
  whois_found (u ∷ []) = do_respond gw (user_to_string u)
  whois_found (u ∷ v ∷ us) = do_respond gw msg_more_user_found

  unfoldable pub whois_first : List Str → M (Option Error)
  unfolding whois_found
  whois_first [] = do_respond gw (codes "Expected 1 argument: [user]")
  whois_first (pat ∷ rest) = do users ← gets (λ h. find_user gw h pat); whois_found users

  -- Whois.Execute
  unfoldable pub whois_execute : Trigger → M (Option Error)
  unfolding whois_first
  whois_execute t = whois_first t.arg

  -- Whoami.Execute
  unfoldable pub whoami_execute : Trigger → M (Option Error)
  unfolding user_to_string
  whoami_execute t = do_respond gw (user_to_string t.user)

  -- The time is in nanoseconds.
  unfoldable pub after_ping : User → Result ℕ → M (Option Error)
  after_ping u (ok d) =
      do_respond gw
        (codes "Ping to " ++ quoted u.name ++ codes " is " ++ itoa (d / 1000000) ++ codes "ms")
  after_ping u (err not_implemented) = pure none
  after_ping u (err e) = do_respond gw msg_internal_error

  unfoldable pub ping_found : List User → M (Option Error)
  unfolding after_ping
  ping_found [] = do_respond gw msg_no_user_found
  ping_found (u ∷ []) = do r ← gets (λ h. gw.ping_result h u.id); after_ping u r
  ping_found (u ∷ v ∷ us) = do_respond gw msg_more_user_found

  unfoldable pub ping_first : List Str → M (Option Error)
  unfolding ping_found
  ping_first [] = do_respond gw (codes "Expected 1 argument: [user]")
  ping_first (pat ∷ rest) = do users ← gets (λ h. find_user gw h pat); ping_found users

  -- Ping.Execute
  unfoldable pub ping_execute : Trigger → M (Option Error)
  unfolding ping_first
  ping_execute t = ping_first t.arg

  -- Trigger.Execute
  unfoldable pub trigger_execute : Trigger → M (Option Error)
  trigger_execute t = do_respond gw gw.trigger
