-- ===== src/Examples/Access.antt =====
-- Access levels and gateway IDs on concrete inputs.
use goop.Base.{◌≡◌, refl, ok, codes, arith, ◌∷◌, ◌++◌, ◌-◌, ◌<◌, All}
use goop.Base.Int.{pos, negsuc, IsInt32, two31, wrap32, ◌-ℤ◌, ◌+ℤ◌}
use goop.Golang.Strings.{equal_fold}
use goop.Golang.Strconv.{itoa, itoa_ℤ, parse_int, scan_char}
use goop.Golang.Strconv.Errors.{FailsAsNumber}
use goop.Gateway.Access.{AccessLevel, constants, to_string, unmarshal_text}
use goop.Gateway.Access.RoundTrip.{unmarshal_text-to_string}
use goop.Gateway.Access.Names.{unmarshal_text_outcome}

level_runs :
    (to_string (pos 250) ≡ codes "operator+50")
    × (to_string (negsuc 149) ≡ codes "kick-50")
    × (to_string (pos 0) ≡ codes "")
    × (unmarshal_text (codes "Operator+50") ≡ ok (pos 250))
unfolding to_string unmarshal_text itoa_ℤ wrap32 ◌-ℤ◌ equal_fold parse_int scan_char ◌+ℤ◌
level_runs = (refl, refl, refl, refl)

unmarshal_text-to_string_example : unmarshal_text (to_string (pos 250)) ≡ ok (pos 250)
unmarshal_text-to_string_example = unmarshal_text-to_string (pos 250) (ground arith)

unmarshal_text_outcome_example :
    ((l : AccessLevel) → unmarshal_text (codes "chief") ≡ ok l → IsInt32 l)
    × FailsAsNumber (unmarshal_text (codes "chief"))
    × All
        (λ e.
          (unmarshal_text (e.0 ++ b'+' ∷ itoa 1) ≡ ok (wrap32 (e.1 +ℤ pos 1)))
          × (unmarshal_text (e.0 ++ b'-' ∷ itoa 2) ≡ ok (wrap32 (e.1 +ℤ negsuc 1))))
        constants
    × (0 < 1 → unmarshal_text (codes "max" ++ b'+' ∷ itoa 1) ≡ ok (negsuc (two31 - 1)))
unmarshal_text_outcome_example = unmarshal_text_outcome (codes "chief") 1 (ground arith)
