-- ===== src/Base/Outcome.antt =====
-- What a call of kernel code comes to: it returns, it halts the machine, or it goes wrong.
use mathlib.Core.Path.{◌≡◌, ap, ◌∙◌}

pub data Outcome {ℓ} (A : Type ℓ) : Type ℓ where
  -- the call returns
  ok : A → Outcome A
  -- OS_ERROR_HALT: a message, then `hlt` for ever
  halted : Outcome A
  -- undefined behaviour: a NULL pointer was read or written through, an argument was read that was
  -- not passed, or a buffer was overrun
  fault : Outcome A
  -- a loop of the model had no fuel left
  out_of_fuel : Outcome A

infixl 5 ◌>>=◌ ◌>>◌
abbrev pub ◌>>=◌ {ℓ κ} : {A : Type ℓ} {B : Type κ} → Outcome A → (A → Outcome B) → Outcome B
ok a >>= f = f a
halted >>= f = halted
fault >>= f = fault
out_of_fuel >>= f = out_of_fuel

abbrev pub ◌>>◌ {ℓ} : {B : Type ℓ} → Outcome (Unit {0}) → Outcome B → Outcome B
m >> k = m >>= λ _. k

-- The call returns, and what it returns satisfies `P`.
abbrev pub Returns {ℓ κ} : {A : Type ℓ} → Outcome A → (A → Type κ) → Type (ℓ ⊔ κ)
Returns {A} r P = (a : A) × (r ≡ ok a) × P a

-- A call after another: the second is met with what the first returns.
pub Returns-bind {ℓ κ ι} :
    {A B : Type ℓ} {m : Outcome A} {k : A → Outcome B} {P : A → Type κ} {Q : B → Type ι}
    → Returns m P
    → ((a : A) → P a → Returns (k a) Q)
    → Returns (m >>= k) Q
Returns-bind {k = k} (a, e, p) on = let (b, e', q) = on a p in (b, ap (λ m. m >>= k) e ∙ e', q)
