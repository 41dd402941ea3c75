-- ===== src/Gateway/Discord/JoinMode.antt =====
-- gateway/discord/const.go: how joins are relayed, printed and read.
pub mod RoundTrip
use Prim.Native.Nat.{bit_or}
use goop.Base.{
  ℕ, zero, suc, ◌+◌, ◌-◌, ◌*◌, ◌/◌, ◌%◌, ◌≡◌, refl, Bool, true, false, ◌||◌, List, [], ◌∷◌, ◌++◌,
  Str, codes, drop, ltb, ◌==◌, if◌then◌else◌, str_eq, num_syntax, Result, ok, err, ◌>>=◌,
}
use goop.Base.Int.{to_bits}
use goop.Golang.Strings.{to_lower, split}
use goop.Golang.Strconv.{parse_int}

-- The 32 bits of a RelayJoinMode.
abbrev pub JoinMode : Type 0
JoinMode = ℕ

abbrev pub relay_joins_say : JoinMode
relay_joins_say = 1

abbrev pub relay_joins_list : JoinMode
relay_joins_list = 2

abbrev pub relay_joins_both : JoinMode
relay_joins_both = 3

abbrev hex_digit : ℕ → ℕ
hex_digit d = if ltb d 10 then b'0' + d else b'A' + (d - 10)

-- The last digit first; `fuel` is at least the number of digits.
unfoldable pub hex_from : ℕ → ℕ → Str → Str
hex_from zero n out = out
hex_from (suc fuel) n out =
    let rest = hex_from fuel (n / 16) (hex_digit (n % 16) ∷ out) in if n == 0 then out else rest

-- `%02X`
unfoldable pub hex2 : ℕ → Str
unfolding hex_from
hex2 n = if ltb n 16 then b'0' ∷ hex_digit n ∷ [] else hex_from 8 n []

-- String, and MarshalText
unfoldable pub mode_string : JoinMode → Str
unfolding hex2
mode_string r =
    let rest = r / 4 * 4 in
    drop 1 (
      (if r % 2 == 1 then codes "|say" else [])
      ++ (if r / 2 % 2 == 1 then codes "|list" else [])
      ++ (if rest == 0 then [] else codes "|0x" ++ hex2 rest))

unfoldable pub mode_part : JoinMode → Str → Result JoinMode
mode_part t v =
    if str_eq v (codes "say")
    then ok (bit_or t relay_joins_say)
    else if str_eq v (codes "list")
    then ok (bit_or t relay_joins_list)
    else parse_int 32 v >>= λ n. ok (bit_or t (to_bits n))

-- The loop over the parts.
unfoldable pub mode_parts : JoinMode → List Str → Result JoinMode
unfolding mode_part
mode_parts t [] = ok t
mode_parts t (v ∷ s) = mode_part t v >>= λ t'. mode_parts t' s

-- UnmarshalText: the new value, or the error, on which the old value stays.
unfoldable pub unmarshal_mode : Str → Result JoinMode
unfolding mode_parts
unmarshal_mode text = mode_parts 0 (split (to_lower text) b'|')
