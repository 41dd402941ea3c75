-- ===== src/Gateway/Discord/Mentions/Muted.antt =====
-- Texts that mention nobody.
use goop.Base.{ℕ, ◌≡◌, ◌≢◌, refl, ap, inl, inr, true, [], ◌∷◌, ◌++◌, Str, arith, Bool-cases, ◌==◌}
use goop.Gateway.Trigger.{span}
use goop.Gateway.Discord.Mentions.{zero_width, mute, no_space}

-- A space of no width follows each `@`, so that none begins a mention.
abbrev pub IsMuted : Str → Type 0
IsMuted [] = Unit
IsMuted (c ∷ []) = c ≢ b'@'
IsMuted (c ∷ d ∷ s) = (c ≡ b'@' → d ≡ zero_width) × IsMuted (d ∷ s)

pub IsMuted-cons : (c : ℕ) (s : Str) → c ≢ b'@' → IsMuted s → IsMuted (c ∷ s)
IsMuted-cons c [] n h = n
IsMuted-cons c (d ∷ s) n h = (λ e. absurd (n e), h)

pub IsMuted-tail : (c : ℕ) (s : Str) → IsMuted (c ∷ s) → IsMuted s
IsMuted-tail c [] h = tt
IsMuted-tail c (d ∷ s) h = h.1

pub IsMuted-append : (a b : Str) → IsMuted a → IsMuted b → IsMuted (a ++ b)
IsMuted-append [] b ha hb = hb
IsMuted-append (c ∷ []) b ha hb = IsMuted-cons c b ha hb
IsMuted-append (c ∷ d ∷ a) b ha hb = (ha.0, IsMuted-append (d ∷ a) b ha.1 hb)

pub mute-IsMuted : (s : Str) → IsMuted (mute s)
unfolding mute
mute-IsMuted [] = tt
mute-IsMuted (c ∷ s) = elim (Bool-cases (c == b'@')) [
  | inl e ↦
      rw (e, mute) (λ x. refl, IsMuted-cons zero_width (mute s) (omega arith) (mute-IsMuted s))
  | inr n ↦ rw (n, mute) (IsMuted-cons c (mute s) (ground arith) (mute-IsMuted s))
]

no_space-zero_width : no_space zero_width ≡ true
unfolding no_space
no_space-zero_width = refl

-- A run of characters that are no blanks ends where the muting is whole.
pub IsMuted-span :
    (c : ℕ) (s : Str)
    → IsMuted (c ∷ s)
    → IsMuted (c ∷ (span no_space s).0) × IsMuted (span no_space s).1
unfolding span
IsMuted-span c [] h = (h, tt)
IsMuted-span c (d ∷ s) h = elim (Bool-cases (no_space d)) [
  | inl y ↦ let ih = IsMuted-span d s h.1 in rw (y, span) ((h.0, ih.0), ih.1)
  | inr n ↦ rw (n, span) (λ e. cc (ap no_space (h.0 e), no_space-zero_width), h.1)
]
