-- ===== src/Gateway/Api.antt =====
-- gateway/gateway.go: the interface `Gateway` as a command sees it. A gateway is any object whose
-- answers depend on the calls made to it before, so its state is the history of those calls.
pub mod Grows
use goop.Base.{ℕ, Bool, List, [], ◌∷◌, Option, none, some, Str, Error, Result}
use goop.Gateway.Access.{AccessLevel}
use goop.Gateway.Common.{User, Channel}

-- The event `Trigger`. `Resp` is the call `respond` below.
pub record Trigger : Type 0 where
  pub user : User
  pub cmd : Str
  pub raw : List Str
  pub arg : List Str

-- The calls that can change something or that a user can notice.
pub data Call : Type 0 where
  set_user_access : Str → AccessLevel → Call
  say respond : Str → Call
  say_private : Str → Str → Call
  kick ban unban : Str → Call
  fire : Trigger → Call

-- The newest call first.
abbrev pub History : Type 0
History = List Call

-- `users` is a Go map: the order of the list is one that a `range` may take.
pub record Gateway : Type 0 where
  pub id : Str
  pub discriminator : Str
  pub trigger : Str
  pub channel : History → Option Channel
  pub channel_users : History → List User
  pub user : History → Str → Result (Option User)
  pub users : History → List (Str × AccessLevel)
  pub access_result : History → Str → AccessLevel → Result AccessLevel
  pub say_result : History → Str → Option Error
  pub private_result : History → Str → Str → Option Error
  pub kick_result : History → Str → Option Error
  pub ban_result : History → Str → Option Error
  pub unban_result : History → Str → Option Error
  pub ping_result : History → Str → Result ℕ
  pub respond_result : History → Str → Option Error

-- A command reads the history and adds its calls to it.
abbrev pub M : Type 0 → Type 0
M A = History → A × History

infixl 5 ◌>>=◌ ◌>>◌
abbrev pub ◌>>=◌ : {A B : Type 0} → M A → (A → M B) → M B
◌>>=◌ m f h = let (a, h') = m h in f a h'

abbrev pub ◌>>◌ : {A B : Type 0} → M A → M B → M B
m >> k = m >>= λ _. k

abbrev pub pure : {A : Type 0} → A → M A
pure a h = (a, h)

abbrev pub gets : {A : Type 0} → (History → A) → M A
gets f h = (f h, h)

abbrev pub call : {A : Type 0} → Call → (History → A) → M A
call c answer h = (answer h, c ∷ h)

-- Every call of a command, on the gateway that it runs on.
module _ (gw : Gateway) where
  abbrev pub do_respond : Str → M (Option Error)
  do_respond s = call (respond s) (λ h. gw.respond_result h s)

  abbrev pub do_say : Str → M (Option Error)
  do_say s = call (say s) (λ h. gw.say_result h s)

  abbrev pub do_say_private : Str → Str → M (Option Error)
  do_say_private uid s = call (say_private uid s) (λ h. gw.private_result h uid s)

  abbrev pub do_set_user_access : Str → AccessLevel → M (Result AccessLevel)
  do_set_user_access uid a = call (set_user_access uid a) (λ h. gw.access_result h uid a)

  abbrev pub do_kick : Str → M (Option Error)
  do_kick uid = call (kick uid) (λ h. gw.kick_result h uid)

  abbrev pub do_ban : Str → M (Option Error)
  do_ban uid = call (ban uid) (λ h. gw.ban_result h uid)

  abbrev pub do_unban : Str → M (Option Error)
  do_unban uid = call (unban uid) (λ h. gw.unban_result h uid)
