-- ===== src/Examples/Alias.antt =====
-- Placeholders, on concrete inputs.
use goop.Base.{◌≡◌, [], ◌∷◌, ◌-◌, ◌||◌, leb, ◌==◌, if◌then◌else◌, length, codes, arith}
use goop.Golang.Strconv.{itoa}
use goop.Gateway.Api.{Trigger}
use goop.Cmd.Alias.{replace, element}
use goop.Cmd.Alias.Index.{replace_arg, arg_text}
use goop.Examples.{world, sent}

abbrev whisper : Trigger
whisper = sent (codes "w") (codes "moon" ∷ codes "hello" ∷ [])

-- The last of the two arguments.
replace_arg_example : replace world whisper (arg_text (itoa 2)) ≡ (
    if 2 == 0 || leb (length whisper.arg) 2 then arg_text (itoa 2) else element whisper.arg (2 - 1))
replace_arg_example = replace_arg world whisper 2 (ground arith)
