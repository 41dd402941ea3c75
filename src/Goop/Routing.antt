-- ===== src/Goop/Routing.antt =====
-- Which gateways a command with a gateway in front of it is sent to.
use goop.Base.{
  ◌≡◌, ◌≢◌, ◌↔◌, refl, sym, ap, ◌∙◌, true, ◌&&◌, List, [], ◌∷◌, ◌++◌, append_assoc, All-append,
  Option, none, some, arith, Str, All,
}
use goop.Golang.Strings.{to_lower, lower_char, join}
use goop.Golang.Glob.{glob}
use goop.Golang.Glob.Laws.{IsPlain}
use goop.Golang.Glob.Find.{anywhere, NoSlash, glob-anywhere_iff}
use goop.Gateway.Common.{Channel, delimiter}
use goop.Gateway.Api.{Gateway, History}
use goop.Goop.{is_routed, route_pattern, route_name, has_channel}

to_lower-append : (s t : Str) → to_lower (s ++ t) ≡ to_lower s ++ to_lower t
unfolding to_lower
to_lower-append [] t = refl
to_lower-append (c ∷ s) t = ap (λ r. lower_char c ∷ r) (to_lower-append s t)

to_lower-IsPlain : (s : Str) → All IsPlain s → All IsPlain (to_lower s)
unfolding to_lower
to_lower-IsPlain [] h = tt
to_lower-IsPlain (c ∷ s) h = (ground arith, to_lower-IsPlain s h.1)

to_lower-NoSlash : (s : Str) → All NoSlash s → All NoSlash (to_lower s)
unfolding to_lower
to_lower-NoSlash [] h = tt
to_lower-NoSlash (c ∷ s) h = (ground arith, to_lower-NoSlash s h.1)

-- The route between delimiters, in lower case.
abbrev pub route_text : List Str → Str
route_text route = to_lower (delimiter ∷ join route (delimiter ∷ []) ++ delimiter ∷ [])

route_pattern-anywhere : (route : List Str) → route_pattern route ≡ anywhere (route_text route)
unfolding route_pattern to_lower
route_pattern-anywhere route =
    let r = join route (delimiter ∷ []) in
    ap (λ s. b'*' ∷ delimiter ∷ s)
      (to_lower-append r (delimiter ∷ b'*' ∷ [])
        ∙ rw (to_lower-append r (delimiter ∷ []))
            (sym (append_assoc (to_lower r) (delimiter ∷ []) (b'*' ∷ []))))

-- The gateway is named by the route: between delimiters, the ID has the route in it, in any case.
abbrev pub IsNamed : List Str → Str → Type 0
IsNamed route k = (a : Str) × (b : Str) × (route_name k ≡ a ++ (route_text route ++ b))

glob_route_iff :
    (route : List Str) (k : Str)
    → All IsPlain (join route (delimiter ∷ []))
    → All NoSlash k
    → (glob (route_pattern route) (route_name k) ≡ true) ↔ IsNamed route k
unfolding route_name to_lower
glob_route_iff route k plain flat =
    let r = join route (delimiter ∷ []) in
    let plain_end = All-append IsPlain r (delimiter ∷ []) plain (ground arith) in
    let plain' = to_lower-IsPlain (delimiter ∷ r ++ delimiter ∷ []) (ground arith) in
    let flat' : All NoSlash (route_name k) = (
      ground arith,
      All-append NoSlash (to_lower k) (delimiter ∷ []) (to_lower-NoSlash k flat) (ground arith),
    ) in
    rw (route_pattern-anywhere route)
      (glob-anywhere_iff (route_text route) (route_name k) plain' flat')

-- A command is sent to the gateways that have joined a channel and whose ID has the route in it
-- between delimiters, in any case: where the route has none of the characters `*`, `?`, `[` and `\`,
-- and the ID has no slash.
pub is_routed_iff :
    (h : History) (route : List Str) (k : Str) (gw : Gateway)
    → All IsPlain (join route (delimiter ∷ []))
    → All NoSlash k
    → (is_routed h route (k, gw) ≡ true) ↔ (IsNamed route k × (gw.channel h ≢ none))
unfolding is_routed
is_routed_iff h route k gw plain flat = go (gw.channel h)
  where
    named : (glob (route_pattern route) (route_name k) ≡ true) ↔ IsNamed route k
    named = glob_route_iff route k plain flat

    go :
        (ch : Option Channel)
        → ((glob (route_pattern route) (route_name k) && has_channel ch) ≡ true)
          ↔ (IsNamed route k × (ch ≢ none))
    go none = (λ e. ground arith, λ (n, c). absurd (c refl))
    go (some ch) =
        (λ e. (named.0 (ground arith), λ h. cc), λ (n, c). let g = named.1 n in ground arith)
