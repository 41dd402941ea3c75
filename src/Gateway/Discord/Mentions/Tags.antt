-- ===== src/Gateway/Discord/Mentions/Tags.antt =====
-- What the replacement of tags does to a text that mentions nobody.
use goop.Base.{
  ℕ, zero, suc, ◌≡◌, refl, sym, ap, ◌∙◌, inl, inr, Bool, false, not, ◌&&◌, [], ◌∷◌, ◌++◌, Str,
  arith, Bool-cases, ◌==◌,
}
use mathlib.Core.Path.{subst}
use goop.Gateway.Trigger.{span}
use goop.Gateway.Trigger.Fuel.{span-append}
use goop.Gateway.Discord.Mentions.{zero_width, is_word, no_space, replace_tags}
use goop.Gateway.Discord.Mentions.Muted.{
  IsMuted, IsMuted-cons, IsMuted-tail, IsMuted-append, IsMuted-span,
}

-- Replacing tags that keeps muted texts muted, for a tag that is not the space of no width.
module _ (f : Str → Str) (keeps : (m : Str) → IsMuted m → IsMuted (f m)) where
  abbrev replaced : ℕ → Bool → Str → Str
  replaced fuel word s = replace_tags b'#' f fuel word s

  -- The character in front keeps what it says of the first one.
  in_front :
      (c fuel : ℕ) (word : Bool) (s : Str)
      → IsMuted (c ∷ s)
      → IsMuted (replaced fuel word s)
      → IsMuted (c ∷ replaced fuel word s)
  unfolding replace_tags
  in_front c zero word s h r = h
  in_front c (suc fuel) word [] h r = h
  in_front c (suc fuel) word (d ∷ s) h r = elim (Bool-cases (c == b'@')) [
    | inl e ↦
        let no_tag : (d == b'#') ≡ false = ap (λ x. x == b'#') (h.0 (ground arith)) in
        let out : replaced (suc fuel) word (d ∷ s) ≡ d ∷ replaced fuel (is_word d) s =
          rw (no_tag, replace_tags) refl in
        subst (λ x. IsMuted (c ∷ x)) (sym out) (h.0, subst IsMuted out r)
    | inr n ↦ IsMuted-cons c (replaced (suc fuel) word (d ∷ s)) (ground arith) r
  ]

  after_tag :
      (c : ℕ) (tok x y : Str)
      → IsMuted (c ∷ x)
      → IsMuted y
      → IsMuted (c ∷ tok)
      → IsMuted (elim tok [ [] ↦ c ∷ x | d ∷ t ↦ f (c ∷ d ∷ t) ++ y ])
  after_tag c [] x y hx hy h = hx
  after_tag c (d ∷ t) x y hx hy h = IsMuted-append (f (c ∷ d ∷ t)) y (keeps (c ∷ d ∷ t) h) hy

  pub replaced-IsMuted :
      (fuel : ℕ) (word : Bool) (s : Str) → IsMuted s → IsMuted (replaced fuel word s)
  unfolding replace_tags
  replaced-IsMuted zero word s h = h
  replaced-IsMuted (suc fuel) word [] h = tt
  replaced-IsMuted (suc fuel) word (c ∷ s) h =
      let tail = IsMuted-tail c s h in
      elim (Bool-cases (c == b'#' && not word)) [
        | inl e ↦
            let parts = IsMuted-span c s h in
            rw (e, replace_tags)
              (after_tag c (span no_space s).0 (replaced fuel false s)
                (replaced fuel false (span no_space s).1)
                (in_front c fuel false s h (replaced-IsMuted fuel false s tail))
                (replaced-IsMuted fuel false (span no_space s).1 parts.1) parts.0)
        | inr n ↦
            rw (n, replace_tags)
              (in_front c fuel (is_word c) s h (replaced-IsMuted fuel (is_word c) s tail))
      ]

-- Replacing what begins with `@` and the space of no width by itself.
module _ (f : Str → Str)
    (same : (t : Str) → f (b'@' ∷ zero_width ∷ t) ≡ b'@' ∷ zero_width ∷ t) where
  same_token :
      (c : ℕ) (tok rest : Str)
      → c ≡ b'@'
      → IsMuted (c ∷ tok ++ rest)
      → (x : Str) → x ≡ tok ++ rest
      → (y : Str) → y ≡ rest
      → elim tok [ [] ↦ c ∷ x | d ∷ t ↦ f (c ∷ d ∷ t) ++ y ] ≡ c ∷ tok ++ rest
  same_token c [] rest e h x ex y ey = ap (λ t. c ∷ t) ex
  same_token c (d ∷ t) rest e h x ex y ey =
      let zero : d ≡ zero_width = h.0 e in
      rw (e, zero) (ap (λ w. w ++ y) (same t) ∙ ap (λ w. (b'@' ∷ zero_width ∷ t) ++ w) ey)

  pub replace-same :
      (fuel : ℕ) (word : Bool) (s : Str) → IsMuted s → replace_tags b'@' f fuel word s ≡ s
  unfolding replace_tags
  replace-same zero word s h = refl
  replace-same (suc fuel) word [] h = refl
  replace-same (suc fuel) word (c ∷ s) h =
      let tail = IsMuted-tail c s h in
      elim (Bool-cases (c == b'@' && not word)) [
        | inl e ↦
            let parts = IsMuted-span c s h in
            let whole = span-append no_space s in
            rw (e, replace_tags)
              (same_token c (span no_space s).0 (span no_space s).1 (ground arith)
                  (subst (λ x. IsMuted (c ∷ x)) (sym whole) h) (replace_tags b'@' f fuel false s)
                  (replace-same fuel false s tail ∙ sym whole)
                  (replace_tags b'@' f fuel false (span no_space s).1)
                  (replace-same fuel false (span no_space s).1 parts.1)
                ∙ ap (λ x. c ∷ x) whole)
        | inr n ↦ rw (n, replace_tags) (ap (λ x. c ∷ x) (replace-same fuel (is_word c) s tail))
      ]
