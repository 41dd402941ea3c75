-- ===== src/Gateway/Discord/Mentions.antt =====
-- gateway/discord/channel.go: parse, which puts the names in a relayed text into Discord's notation.
pub mod Muted
pub mod Tags
pub mod Guild
use goop.Base.{
  ℕ, zero, suc, Bool, true, false, not, ◌&&◌, ◌||◌, List, [], ◌∷◌, ◌++◌, Option, none, some, Str,
  codes, length, str_eq, leb, if◌then◌else◌, ◌==◌,
}
use goop.Base.Int.{ltb_ℤ}
use goop.Golang.Strings.{equal_fold}
use goop.Gateway.Access.{AccessLevel}
use goop.Gateway.Trigger.{span, is_re_space}

-- What the session knows of a guild; each entry comes with the text of its method Mention, and a member
-- with that of the user as well, and with `name#number`.
pub record NamedChannel : Type 0 where
  pub name : Str
  pub mention : Str

pub record NamedRole : Type 0 where
  pub mentionable : Bool
  pub name : Str
  pub mention : Str

pub record NamedMember : Type 0 where
  pub nick : Str
  pub username : Str
  pub full_name : Str
  pub mention : Str
  pub user_mention : Str

pub record GuildNames : Type 0 where
  pub channels : List NamedChannel
  pub roles : List NamedRole
  pub members : List NamedMember

-- U+200B, a space of no width.
abbrev pub zero_width : ℕ
zero_width = 0x200B

-- Replace of `@` by `@` and the space of no width.
unfoldable pub mute : Str → Str
mute [] = []
mute (c ∷ s) = if c == b'@' then c ∷ zero_width ∷ mute s else c ∷ mute s

-- `\w`
abbrev pub is_word : ℕ → Bool
is_word c =
    (leb b'0' c && leb c b'9')
    || (leb b'A' c && leb c b'Z')
    || c == b'_'
    || (leb b'a' c && leb c b'z')

-- `\S`
unfoldable pub no_space : ℕ → Bool
unfolding is_re_space
no_space c = not (is_re_space c)

-- ReplaceAllStringFunc of `\B(@\S+)` or `\B(#\S+)`. Both begin with a character that is none of `\w`, so
-- `\B` wants that the character before is none either: `word` says whether it is. What follows a match
-- is a blank or the end. A match takes at least one character, so the length is fuel enough.
unfoldable pub replace_tags : ℕ → (Str → Str) → ℕ → Bool → Str → Str
unfolding span no_space
replace_tags tag f zero word s = s
replace_tags tag f (suc fuel) word [] = []
replace_tags tag f (suc fuel) word (c ∷ s) = elim (c == tag && not word) [
  | false ↦ c ∷ replace_tags tag f fuel (is_word c) s
  | true ↦ elim (span no_space s).0 [
    | [] ↦ c ∷ replace_tags tag f fuel false s
    | d ∷ t ↦ f (c ∷ d ∷ t) ++ replace_tags tag f fuel false (span no_space s).1
  ]
]

-- The text behind the first character, `m[1:]`.
abbrev pub behind_tag : Str → Str
behind_tag [] = []
behind_tag (c ∷ s) = s

unfoldable pub mention_channel : List NamedChannel → Str → Str
mention_channel [] m = m
mention_channel (ch ∷ chs) m =
    if equal_fold (behind_tag m) ch.name then ch.mention else mention_channel chs m

-- The loop over the members.
unfoldable pub mention_member : List NamedMember → Str → Str
mention_member [] m = m
mention_member (u ∷ us) m =
    if not (str_eq u.nick []) && equal_fold (behind_tag m) u.nick
    then u.mention
    else if equal_fold (behind_tag m) u.username || equal_fold (behind_tag m) u.full_name
    then u.user_mention
    else mention_member us m

-- The loop over the roles, with that over the members behind it.
unfoldable pub mention_role : List NamedRole → List NamedMember → Str → Str
unfolding mention_member
mention_role [] us m = mention_member us m
mention_role (r ∷ rs) us m =
    if r.mentionable && equal_fold (behind_tag m) r.name then r.mention else mention_role rs us m

unfoldable pub mention_user : GuildNames → Str → Str
unfolding mention_role
mention_user g m =
    if str_eq m (codes "@everyone") || str_eq m (codes "@here")
    then m
    else mention_role g.roles g.members m

unfoldable pub put_mentions : GuildNames → Str → Str
unfolding replace_tags mention_channel mention_user
put_mentions g s =
    let s' = replace_tags b'#' (mention_channel g.channels) (length s) false s in
    replace_tags b'@' (mention_user g) (length s') false s'

abbrev with_guild : Option GuildNames → Str → Str
with_guild none s = s
with_guild (some g) s = put_mentions g s

-- parse, for the level of the author; the guild may be unknown.
unfoldable pub parse : AccessLevel → Option GuildNames → Str → AccessLevel → Str
unfolding mute put_mentions
parse access_mentions guild s l = with_guild guild (if ltb_ℤ l access_mentions then mute s else s)
