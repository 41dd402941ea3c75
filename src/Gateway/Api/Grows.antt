-- ===== src/Gateway/Api/Grows.antt =====
-- Which calls a command makes, and after which others: a step relation on histories.
use goop.Base.{Str, Error, some, ◌∷◌}
use goop.Gateway.Api.{Gateway, Call, respond, History, M, ◌>>◌, pure, do_respond}

-- `Grows P h h'`: calls were added to `h` one by one, each of which `P` allows after the history
-- that it came upon, and none was taken away.
pub data Grows (P : History → Call → Type 0) (h : History) : History → Type 0 where
  done : Grows P h h
  step : {h' : History} (c : Call) → Grows P h h' → P h' c → Grows P h (c ∷ h')

module _ {P : History → Call → Type 0} where
  pub Grows-one : (h : History) (c : Call) → P h c → Grows P h (c ∷ h)
  Grows-one h c p = Grows.step c Grows.done p

  pub Grows-trans : {h i j : History} → Grows P h i → Grows P i j → Grows P h j
  Grows-trans g Grows.done = g
  Grows-trans g (Grows.step c g' p) = Grows.step c (Grows-trans g g') p

  pub Grows-weaken :
      {Q : History → Call → Type 0} {h i : History}
      → ((j : History) (c : Call) → P j c → Q j c)
      → Grows P h i
      → Grows Q h i
  Grows-weaken f Grows.done = Grows.done
  Grows-weaken f (Grows.step {h'} c g p) = Grows.step c (Grows-weaken f g) (f h' c p)

-- `P` allows every answer.
pub record Answers (P : History → Call → Type 0) : Type 0 where
  pub respond_ok : (h : History) (s : Str) → P h (respond s)

-- The calls of `m` from `h` on are allowed.
abbrev pub Emits : {A : Type 0} → (History → Call → Type 0) → M A → History → Type 0
Emits P m h = Grows P h (m h).1

module _ {P : History → Call → Type 0} (gw : Gateway) (answers : Answers P) where
  pub Emits-respond : (s : Str) (h : History) → Emits P (do_respond gw s) h
  Emits-respond s h = Grows-one h (respond s) (answers.respond_ok h s)

  pub Emits-give_up :
      (s : Str) (e : Error) (h : History) → Emits P (do_respond gw s >> pure (some e)) h
  Emits-give_up s e h = Emits-respond s h
