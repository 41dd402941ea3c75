-- ===== src/Gateway/Discord/Mentions/Guild.antt =====
-- Who may not mention anybody, does not.
use goop.Base.{
  ◌≡◌, ◌≢◌, refl, sym, inl, inr, true, false, List, [], ◌∷◌, Option, none, some, Str, length,
  str_eq, All, arith, Bool-cases,
}
use mathlib.Core.Path.{subst}
use goop.Base.Int.{◌<ℤ◌, ltb_ℤ}
use goop.Golang.Strings.{equal_fold, to_lower}
use goop.Gateway.Access.{AccessLevel}
use goop.Gateway.Discord.Mentions.{
  NamedChannel, NamedRole, NamedMember, GuildNames, zero_width, mute, replace_tags, mention_channel,
  mention_member, mention_role, mention_user, put_mentions, parse, behind_tag,
}
use goop.Gateway.Discord.Mentions.Muted.{IsMuted, mute-IsMuted}
use goop.Gateway.Discord.Mentions.Tags.{replaced-IsMuted, replace-same}

-- A name does not begin with the space of no width.
abbrev pub IsPlainName : Str → Type 0
IsPlainName [] = Unit
IsPlainName (c ∷ s) = c ≢ zero_width

-- No role or member has such a name, and no mention of a channel mentions anybody.
pub record IsPlainGuild (g : GuildNames) : Type 0 where
  pub plain_roles : All (λ r. IsPlainName r.name) g.roles
  pub plain_members :
      All (λ u. IsPlainName u.nick × IsPlainName u.username × IsPlainName u.full_name) g.members
  pub muted_channels : All (λ ch. IsMuted ch.mention) g.channels

unequal : (t name : Str) → IsPlainName name → equal_fold (zero_width ∷ t) name ≡ false
unfolding equal_fold to_lower str_eq
unequal t [] h = refl
unequal t (c ∷ name) h = ground arith

mention_channel-IsMuted :
    (chs : List NamedChannel) (m : Str)
    → All (λ ch. IsMuted ch.mention) chs
    → IsMuted m
    → IsMuted (mention_channel chs m)
unfolding mention_channel
mention_channel-IsMuted [] m hs h = h
mention_channel-IsMuted (ch ∷ chs) m hs h = elim (Bool-cases (equal_fold (behind_tag m) ch.name)) [
  | inl e ↦ rw (e, mention_channel) hs.0
  | inr n ↦ rw (n, mention_channel) (mention_channel-IsMuted chs m hs.1 h)
]

module _ (t : Str) where
  abbrev token : Str
  token = b'@' ∷ zero_width ∷ t

  mention_member-token :
      (us : List NamedMember)
      → All (λ u. IsPlainName u.nick × IsPlainName u.username × IsPlainName u.full_name) us
      → mention_member us token ≡ token
  unfolding mention_member
  mention_member-token [] h = refl
  mention_member-token (u ∷ us) h =
      let nick = unequal t u.nick h.0.0 in
      let username = unequal t u.username h.0.1 in
      let full = unequal t u.full_name h.0.2 in
      let rest = mention_member-token us h.1 in ground arith

  mention_role-token :
      (rs : List NamedRole) (us : List NamedMember)
      → All (λ r. IsPlainName r.name) rs
      → mention_member us token ≡ token
      → mention_role rs us token ≡ token
  unfolding mention_role
  mention_role-token [] us h m = m
  mention_role-token (r ∷ rs) us h m =
      let name = unequal t r.name h.0 in let rest = mention_role-token rs us h.1 m in ground arith

  mention_user-token : (g : GuildNames) → IsPlainGuild g → mention_user g token ≡ token
  unfolding mention_user str_eq
  mention_user-token g plain =
      mention_role-token g.roles g.members plain.plain_roles
        (mention_member-token g.members plain.plain_members)

-- Nothing is asked of a guild that is not known.
abbrev pub ArePlain : Option GuildNames → Type 0
ArePlain none = Unit
ArePlain (some g) = IsPlainGuild g

put_mentions-IsMuted :
    (g : GuildNames) (s : Str) → IsPlainGuild g → IsMuted s → IsMuted (put_mentions g s)
unfolding put_mentions
put_mentions-IsMuted g s plain h =
    let f = mention_channel g.channels in
    let s' = replace_tags b'#' f (length s) false s in
    let muted : IsMuted s' =
      replaced-IsMuted f (λ m. mention_channel-IsMuted g.channels m plain.muted_channels) (length s)
        false s h in
    subst IsMuted
      (sym (
        replace-same (mention_user g) (λ t. mention_user-token t g plain) (length s') false s'
          muted))
      muted

-- Where no role, nick or user name of the guild begins with a space of no width, and no mention of a
-- channel mentions anybody: `parse` makes a text of what an author below the level for mentions has
-- written in which a space of no width follows every `@`, whatever was written, so that it mentions
-- nobody. This is the content by itself, before it is cut to its length and before the author's name is
-- put in front.
pub parse-IsMuted :
    (access_mentions l : AccessLevel) (guild : Option GuildNames) (s : Str)
    → l <ℤ access_mentions
    → ArePlain guild
    → IsMuted (parse access_mentions guild s l)
unfolding parse
parse-IsMuted access_mentions l none s low plain =
    let e : ltb_ℤ l access_mentions ≡ true = ground arith in rw e (mute-IsMuted s)
parse-IsMuted access_mentions l (some g) s low plain =
    let e : ltb_ℤ l access_mentions ≡ true = ground arith in
    rw e (put_mentions-IsMuted g (mute s) plain (mute-IsMuted s))
