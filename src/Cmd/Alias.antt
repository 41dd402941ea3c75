-- ===== src/Cmd/Alias.antt =====
-- goop/cmd/alias.go
pub mod Replace
pub mod Index
use goop.Base.{
  ℕ, zero, suc, ◌+◌, ◌-◌, ◌≡◌, refl, Bool, true, false, ◌||◌, List, [], ◌∷◌, ◌++◌, map, Option,
  none, some, Str, codes, length, get_elem?, take, drop, leb, ltb, ◌==◌, if◌then◌else◌, Error,
  Result, ok, err,
}
use goop.Base.Int.{pos, eq_ℤ}
use goop.Golang.Strings.{join, strip_prefix}
use goop.Golang.Strconv.{is_digit, itoa}
use goop.Golang.Atoi.{atoi}
use goop.Gateway.Access.{AccessLevel, access_default, to_string}
use goop.Gateway.Common.{User, delimiter}
use goop.Gateway.Trigger.{span}
use goop.Gateway.Api.{Gateway, Trigger, M, ◌>>=◌, ◌>>◌, pure, call, fire, do_respond}
use goop.Cmd.{Cmd}

-- `arg` is nil, or the arguments to send.
pub record Alias : Type 0 where
  pub base : Cmd
  pub exe : Str
  pub arg : Option (List Str)
  pub arg_expected : ℕ
  pub with_priviledge : AccessLevel

-- The keys of `Placeholders`. Those with an index name a list, and the part of it that is taken.
pub data Part : Type 0 where
  at until onward : Part

pub data Key : Type 0 where
  cmd_key raw_key args_key nargs_key uid_key ustr_key ulvl_key : Key
  gwid_key gwdis_key gwdel_key : Key
  rarg_key arg_key : Part → Key

-- What a key looks like: the text before the digits, and behind them where it has digits.
abbrev pub placeholders : List (Key × Str × Option Str)
placeholders =
    (cmd_key, codes "%CMD%", none)
    ∷ (raw_key, codes "%RAW%", none)
    ∷ (args_key, codes "%ARGS%", none)
    ∷ (nargs_key, codes "%NARGS%", none)
    ∷ (uid_key, codes "%UID%", none)
    ∷ (ustr_key, codes "%USTR%", none)
    ∷ (ulvl_key, codes "%ULVL%", none)
    ∷ (gwid_key, codes "%GWID%", none)
    ∷ (gwdis_key, codes "%GWDIS%", none)
    ∷ (gwdel_key, codes "%GWDEL%", none)
    ∷ (rarg_key at, codes "%RARG", some (codes "%"))
    ∷ (rarg_key until, codes "%..RARG", some (codes "%"))
    ∷ (rarg_key onward, codes "%RARG", some (codes "..%"))
    ∷ (arg_key at, codes "%ARG", some (codes "%"))
    ∷ (arg_key until, codes "%..ARG", some (codes "%"))
    ∷ (arg_key onward, codes "%ARG", some (codes "..%"))
    ∷ []

-- A match of `replacersPat`: its key, its digits, its text, and the text behind it.
pub record Match : Type 0 where
  pub key : Key
  pub digits : Str
  pub text : Str
  pub rest : Str

unfoldable pub match_suffix : Key → Str → Str → Str → Option Str → Option Match
match_suffix key prefix digits suffix none = none
match_suffix key prefix digits suffix (some rest) =
    some (record { key = key; digits = digits; text = prefix ++ digits ++ suffix; rest = rest })

-- `\d+` and the text behind it.
unfoldable pub match_digits : Key → Str → Str → Str × Str → Option Match
unfolding match_suffix
match_digits key prefix suffix ([], s) = none
match_digits key prefix suffix (d ∷ ds, s) =
    match_suffix key prefix (d ∷ ds) suffix (strip_prefix suffix s)

unfoldable pub match_key : Key → Str → Option Str → Option Str → Option Match
unfolding match_digits span
match_key key prefix suffix none = none
match_key key prefix none (some rest) =
    some (record { key = key; digits = []; text = prefix; rest = rest })
match_key key prefix (some suffix) (some s) = match_digits key prefix suffix (span is_digit s)

abbrev first_match : Option Match → Option Match → Option Match
first_match none b = b
first_match (some a) b = some a

unfoldable pub find_placeholder : List (Key × Str × Option Str) → Str → Option Match
unfolding match_key strip_prefix
find_placeholder [] s = none
find_placeholder ((key, prefix, suffix) ∷ rest) s =
    first_match (match_key key prefix suffix (strip_prefix prefix s)) (find_placeholder rest s)

-- The element before index `i`, or nothing.
abbrev pub element : List Str → ℕ → Str
element xs i = elim (get_elem? xs i) [ none ↦ [] | some x ↦ x ]

-- The part of `xs` for the index `i - 1`, its elements joined by `sep`.
unfoldable pub part_of : Part → List Str → Str → ℕ → Str
part_of at xs sep i = element xs (i - 1)
part_of until xs sep i = join (take (i - 1) xs) sep
part_of onward xs sep i = join (drop (i - 1) xs) sep

-- The guard of the keys with an index, and the match itself where it fails.
unfoldable pub indexed : Part → List Str → Str → Str → Result ℕ → Str
unfolding part_of
indexed part xs sep text (err e) = text
indexed part xs sep text (ok i) =
    if i == 0 || leb (length xs) i then text else part_of part xs sep i

module _ (gw : Gateway) (t : Trigger) where
  -- `Placeholders[key](m, t, gw, g)`
  unfoldable pub placeholder : Key → Str → Str → Str
  unfolding indexed atoi
  placeholder cmd_key digits text = t.cmd
  placeholder raw_key digits text = join t.raw []
  placeholder args_key digits text = join t.arg (codes " ")
  placeholder nargs_key digits text = itoa (length t.arg)
  placeholder uid_key digits text = t.user.id
  placeholder ustr_key digits text = t.user.name
  placeholder ulvl_key digits text = to_string t.user.access
  placeholder gwid_key digits text = gw.id
  placeholder gwdis_key digits text = gw.discriminator
  placeholder gwdel_key digits text = delimiter ∷ []
  placeholder (rarg_key part) digits text = indexed part t.raw [] text (atoi digits)
  placeholder (arg_key part) digits text = indexed part t.arg (codes " ") text (atoi digits)

  -- The matches from left to right; `fuel` is at least the text's length.
  unfoldable pub replace_from : ℕ → Str → Str
  unfolding placeholder find_placeholder
  replace_from zero s = s
  replace_from (suc fuel) [] = []
  replace_from (suc fuel) (c ∷ s) = elim (find_placeholder placeholders (c ∷ s)) [
    | none ↦ c ∷ replace_from fuel s
    | some m ↦ placeholder m.key m.digits m.text ++ replace_from fuel m.rest
  ]

  -- Replace
  unfoldable pub replace : Str → Str
  unfolding replace_from
  replace s = replace_from (length s) s

  -- The arguments of the new trigger: the raw ones end in a space.
  unfoldable pub alias_raw : Option (List Str) → List Str
  alias_raw none = t.raw
  alias_raw (some args) = map (λ a. replace a ++ codes " ") args

  unfoldable pub alias_arg : Option (List Str) → List Str
  alias_arg none = t.arg
  alias_arg (some args) = map replace args

  unfoldable pub alias_access : AccessLevel → AccessLevel
  alias_access priviledge = if eq_ℤ priviledge access_default then t.user.access else priviledge

  -- The copy of the trigger that is fired.
  unfoldable pub alias_trigger : Alias → Trigger
  unfolding alias_raw alias_arg alias_access
  alias_trigger c = record {
    user = record {
      id = t.user.id;
      name = t.user.name;
      access = alias_access c.with_priviledge;
      avatar_url = t.user.avatar_url;
    };
    cmd = c.exe;
    raw = alias_raw c.arg;
    arg = alias_arg c.arg;
  }

  -- Execute
  unfoldable pub alias_execute : Alias → M (Option Error)
  unfolding alias_trigger
  alias_execute c = elim (ltb (length t.arg) c.arg_expected) [
    | true ↦ do_respond gw (codes "Expected " ++ itoa c.arg_expected ++ codes " arguments")
    | false ↦ call (fire (alias_trigger c)) (λ h. none)
  ]
