-- ===== src/Base/Errors.antt =====
-- Go's `error` values, and a result `(value, error)`.
use mathlib.Core.Path.{◌≡◌, refl}
use goop.Base.Text.{Str}

-- The errors that the program compares with `==`, those of the library calls that it tests against
-- nil, and `other` for one that comes from code outside the repository.
pub data Error : Type 0 where
  unknown_event unknown_access no_channel no_user no_permission not_implemented : Error
  duplicate_gateway duplicate_command : Error
  say_buffer_full say_command invalid_guild : Error
  unknown_key type_mismatch : Error
  num_syntax num_range : Error
  other : Str → Error

pub data Result {κ} (X : Type κ) : Type κ where
  err : Error → Result X
  ok : X → Result X

infixl 5 ◌>>=◌
abbrev pub ◌>>=◌ {κ μ} : {X : Type κ} {Y : Type μ} → Result X → (X → Result Y) → Result Y
err fault >>= next = err fault
ok x >>= next = next x

pub >>=-eq-ok {κ μ} :
    {X : Type κ} {Y : Type μ} (first : Result X) (next : X → Result Y) {y : Y}
    → (first >>= next) ≡ ok y
    → (x : X) × (first ≡ ok x) × (next x ≡ ok y)
>>=-eq-ok (err fault) next h = cc
>>=-eq-ok (ok x) next h = (x, refl, h)
