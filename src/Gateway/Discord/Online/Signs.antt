-- ===== src/Gateway/Discord/Online/Signs.antt =====
-- Which signs the list shows.
use goop.Base.{◌≡◌, ◌≢◌, inl, inr, true, arith, Bool-cases}
use goop.Base.Int.{leb_ℤ, ltb_ℤ}
use goop.Gateway.Access.{AccessLevel, access_operator, access_whitelist, access_voice}
use goop.Gateway.Discord.Online.{poo, badge}

-- No user ever has the sign for banned users.
badge-ne-poo : (a : AccessLevel) → badge a ≢ poo
unfolding badge
badge-ne-poo a = elim (Bool-cases (leb_ℤ access_operator a)) [
  | inl e ↦ rw (e, badge) (λ h. cc)
  | inr no_op ↦ elim (Bool-cases (leb_ℤ access_whitelist a)) [
    | inl e ↦ rw (no_op, e, badge) (λ h. cc)
    | inr no_star ↦ elim (Bool-cases (leb_ℤ access_voice a)) [
      | inl e ↦ rw (no_op, no_star, e, badge) (λ h. cc)
      | inr no_voice ↦
          let low : ltb_ℤ a access_voice ≡ true = ground arith in
          rw (no_op, no_star, no_voice, low, badge) (λ h. cc)
    ]
  ]
]
