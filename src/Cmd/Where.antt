-- ===== src/Cmd/Where.antt =====
-- goop/cmd/where.go
use goop.Base.{
  ℕ, ◌+◌, Bool, true, false, List, [], ◌∷◌, ◌++◌, map, Option, none, some, Str, codes, Error,
  length, leb, ltb, ◌==◌, if◌then◌else◌,
}
use goop.Base.Int.{leb_ℤ, ltb_ℤ, eq_ℤ}
use goop.Golang.Strings.{join, to_lower}
use goop.Golang.Strconv.{itoa}
use goop.Gateway.Access.{AccessLevel, access_max, access_operator, access_ignore}
use goop.Gateway.Common.{User, Channel}
use goop.Gateway.Api.{Gateway, History, M, ◌>>=◌, gets, do_respond}

abbrev named_channel : Gateway → Option Channel → List Str → List Str
named_channel gw none l = l
named_channel gw (some c) l = (c.name ++ codes "@" ++ gw.discriminator) ∷ l

-- The loop of Where over the gateways.
unfoldable pub channel_names : History → List (Str × Gateway) → List Str
channel_names h [] = []
channel_names h ((k, gw) ∷ gws) = named_channel gw (gw.channel h) (channel_names h gws)

-- Where.Execute; `sort` is sort.Strings.
unfoldable pub where_execute :
    (List Str → List Str) → List (Str × Gateway) → Gateway → M (Option Error)
unfolding channel_names
where_execute sort gws gw = do
  l ← gets (λ h. channel_names h gws)
  do_respond gw (codes "Present in channels: [" ++ join (sort l) (codes ", ") ++ codes "]")

-- The struct `whoList`: the names with their access.
abbrev pub WhoList : Type 0
WhoList = List (Str × AccessLevel)

-- `<` of strings, by code point.
unfoldable pub str_less : Str → Str → Bool
str_less s [] = false
str_less [] (d ∷ t) = true
str_less (c ∷ s) (d ∷ t) = if ltb c d then true else if c == d then str_less s t else false

-- Less
unfoldable pub who_less : Str × AccessLevel → Str × AccessLevel → Bool
unfolding str_less to_lower
who_less (name, access) (name', access') =
    if eq_ℤ access access' then str_less (to_lower name) (to_lower name') else ltb_ℤ access' access

unfoldable pub who_user : Gateway → User → WhoList → WhoList
who_user gw u l =
    if leb_ℤ access_operator u.access
    then (codes "[" ++ u.name ++ codes "@" ++ gw.discriminator ++ codes "]", u.access) ∷ l
    else if ltb_ℤ access_ignore u.access
    then (u.name ++ codes "@" ++ gw.discriminator, u.access) ∷ l
    else l

-- The loop over the users of a gateway.
unfoldable pub who_users : Gateway → List User → WhoList → WhoList
unfolding who_user
who_users gw [] l = l
who_users gw (u ∷ us) l = who_user gw u (who_users gw us l)

unfoldable pub who_gateway : Gateway → List User → WhoList → WhoList
unfolding who_users
who_gateway gw users l =
    if leb 10 (length users)
    then (
      codes "<" ++ itoa (length users) ++ codes " in " ++ gw.discriminator ++ codes ">",
      access_max,
    )
      ∷ l
    else who_users gw users l

-- The loop over the gateways: the number of users, and the list.
unfoldable pub who_gateways : History → List (Str × Gateway) → ℕ × WhoList
unfolding who_gateway
who_gateways h [] = (0, [])
who_gateways h ((k, gw) ∷ gws) =
    let (total, l) = who_gateways h gws in
    (length (gw.channel_users h) + total, who_gateway gw (gw.channel_users h) l)

-- Who.Execute; `sort` is sort.Sort with `who_less`.
unfoldable pub who_execute : (WhoList → WhoList) → List (Str × Gateway) → Gateway → M (Option Error)
unfolding who_gateways
who_execute sort gws gw = do
  r ← gets (λ h. who_gateways h gws)
  do_respond gw (
      itoa r.0
      ++ codes " user"
      ++ (if r.0 == 1 then [] else codes "s")
      ++ codes " online: "
      ++ join (map (λ p. p.0) (sort r.1)) (codes " "))
