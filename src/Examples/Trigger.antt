-- ===== src/Examples/Trigger.antt =====
-- Messages cut into commands, on concrete inputs.
use goop.Base.{◌≡◌, ◌≢◌, refl, [], ◌∷◌, ◌++◌, codes, arith, All}
use goop.Golang.Strings.{join}
use goop.Gateway.Trigger.{Parsed, extract_trigger, extracted, panics, is_space, is_re_space}
use goop.Gateway.Trigger.Fuel.{extract_trigger-ne-panics}
use goop.Gateway.Trigger.Text.{Follows, StartsSolid}
use goop.Gateway.Trigger.Words.{extract_trigger-join, raw_words, IsWord}
use goop.Gateway.Trigger.Verbatim.{extract_trigger_verbatim, NoQuote}

extract_trigger-ne-panics_example : extract_trigger (codes "\"") ≢ panics
extract_trigger-ne-panics_example = extract_trigger-ne-panics (codes "\"")

two_words : All IsWord (codes "kick" ∷ codes "moon" ∷ [])
unfolding is_space is_re_space
two_words = ground arith

extract_trigger-join_example :
    extract_trigger (join (codes "kick" ∷ codes "moon" ∷ []) (codes " "))
    ≡ extracted (record {
      cmd = codes "kick";
      raw = raw_words (codes "moon" ∷ []);
      arg = codes "moon" ∷ [];
    })
extract_trigger-join_example = extract_trigger-join (codes "kick") (codes "moon" ∷ []) two_words

one-IsWord : IsWord (codes "say")
unfolding is_space is_re_space
one-IsWord = ground arith

one_space : Follows (codes " ") (codes "hi  all")
unfolding is_re_space
one_space = ground arith

solid_start : StartsSolid (codes "hi  all")
unfolding is_re_space
solid_start = refl

no_quote : NoQuote (codes "hi  all")
no_quote = ground arith

extract_trigger_verbatim_example :
    (p : Parsed) × (extract_trigger (codes "say" ++ (codes " " ++ codes "hi  all")) ≡ extracted p)
    × (p.cmd ≡ codes "say")
    × (join p.raw [] ≡ codes "hi  all")
extract_trigger_verbatim_example =
    extract_trigger_verbatim (codes "say") (codes " ") (codes "hi  all") one-IsWord one_space
      solid_start no_quote
