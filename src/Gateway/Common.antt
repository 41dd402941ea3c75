-- ===== src/Gateway/Common.antt =====
-- gateway/gateway.go: users, channels, the shared configuration, and the discriminator of an ID.
pub mod Laws
use goop.Base.{
  ℕ, zero, suc, ◌≡◌, refl, Bool, true, false, not, ◌&&◌, List, [], ◌∷◌, ◌++◌, Option, none, some,
  Str, codes, ◌==◌, if◌then◌else◌,
}
use goop.Gateway.Access.{AccessLevel}

pub record User : Type 0 where
  pub id : Str
  pub name : Str
  pub access : AccessLevel
  pub avatar_url : Str

pub record Channel : Type 0 where
  pub id : Str
  pub name : Str

abbrev pub delimiter : ℕ
delimiter = b':'

-- The loop of SplitN: `cuts` separators are left to be cut at.
unfoldable pub split_n_from : ℕ → ℕ → Str → Str → List Str
split_n_from cuts sep cur [] = cur ∷ []
split_n_from zero sep cur (c ∷ s) = (cur ++ c ∷ s) ∷ []
split_n_from (suc cuts) sep cur (c ∷ s) = elim (c == sep) [
  | true ↦ cur ∷ split_n_from cuts sep [] s
  | false ↦ split_n_from (suc cuts) sep (cur ++ c ∷ []) s
]

-- `s[1]` if there are two parts, else the ID.
abbrev second_or : Str → List Str → Str
second_or id [] = id
second_or id (a ∷ []) = id
second_or id (a ∷ b ∷ rest) = b

-- Discriminator: strings.SplitN(id, ":", 3) cuts at most twice.
unfoldable pub discriminator : Str → Str
unfolding split_n_from
discriminator id = second_or id (split_n_from 2 delimiter [] id)

pub record TriggerConfig : Type 0 where
  pub trigger : Str
  pub access : AccessLevel
  pub respond_private : Bool

-- Where an answer goes: to the channel, or to a user in private.
pub data Responder : Type 0 where
  public : Responder
  private_to : Str → Responder

-- Responder
unfoldable pub responder : TriggerConfig → Str → Bool → Responder
responder c uid force_private =
    if not c.respond_private && not force_private then public else private_to uid

discriminator_runs :
    (discriminator (codes "std:io") ≡ codes "io")
    × (discriminator (codes "std") ≡ codes "std")
    × (discriminator (codes "discord:main:123:4") ≡ codes "main")
unfolding discriminator
discriminator_runs = (refl, refl, refl)
