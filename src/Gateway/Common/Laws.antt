-- ===== src/Gateway/Common/Laws.antt =====
-- The discriminator is the name between the first two delimiters.
use goop.Base.{
  ℕ, suc, ◌≡◌, ◌≢◌, refl, sym, ap, ◌∙◌, [], ◌∷◌, ◌++◌, append_assoc, append-nil, arith, Str, All,
}
use goop.Gateway.Common.{delimiter, split_n_from, discriminator}

abbrev pub NoDelimiter : Str → Type 0
NoDelimiter = All (λ c. c ≢ delimiter)

split_n_from_skip :
    (cuts : ℕ) (cur t rest : Str)
    → NoDelimiter t
    → split_n_from (suc cuts) delimiter cur (t ++ rest)
      ≡ split_n_from (suc cuts) delimiter (cur ++ t) rest
unfolding split_n_from
split_n_from_skip cuts cur [] rest h = rw append-nil
split_n_from_skip cuts cur (c ∷ t) rest h =
    ground (arith, split_n_from_skip cuts (cur ++ c ∷ []) t rest h.1, append_assoc cur (c ∷ []) t)

split_n_from_cut :
    (cuts : ℕ) (cur rest : Str)
    → split_n_from (suc cuts) delimiter cur (delimiter ∷ rest)
      ≡ cur ∷ split_n_from cuts delimiter [] rest
unfolding split_n_from
split_n_from_cut cuts cur rest = refl

-- A part that no delimiter ends, and one that a delimiter ends.
split_n_from_last :
    (cuts : ℕ) (t : Str) → NoDelimiter t → split_n_from (suc cuts) delimiter [] t ≡ t ∷ []
split_n_from_last cuts t h =
    ap (split_n_from (suc cuts) delimiter []) (sym (append-nil t))
    ∙ split_n_from_skip cuts [] t [] h
    ∙ (unfold split_n_from in refl)

split_n_from_part :
    (cuts : ℕ) (t rest : Str)
    → NoDelimiter t
    → split_n_from (suc cuts) delimiter [] (t ++ delimiter ∷ rest)
      ≡ t ∷ split_n_from cuts delimiter [] rest
split_n_from_part cuts t rest h =
    split_n_from_skip cuts [] t (delimiter ∷ rest) h ∙ split_n_from_cut cuts t rest

-- Where `kind` and `name` hold no delimiter, the discriminator of `kind:name` and of
-- `kind:name:more` is `name`, whatever `more` holds, and that of `kind` is `kind`.
pub discriminator_lem :
    (kind name more : Str)
    → NoDelimiter kind
    → NoDelimiter name
    → (discriminator (kind ++ delimiter ∷ name) ≡ name)
      × (discriminator (kind ++ delimiter ∷ (name ++ delimiter ∷ more)) ≡ name)
      × (discriminator kind ≡ kind)
unfolding discriminator
discriminator_lem kind name more hk hn = (
  rw (split_n_from_part 1 kind name hk, split_n_from_last 0 name hn),
  rw (split_n_from_part 1 kind (name ++ delimiter ∷ more) hk, split_n_from_part 0 name more hn),
  rw (split_n_from_last 1 kind hk),
)
