-- ===== src/Base/Memory.antt =====
-- Memory as a function of addresses.
use Prim.Native.Nat.{ℕ}
use mathlib.Core.Path.{◌≡◌}
use mathlib.Core.Logic.{◌≢◌}
use native.Mathlib.Omega.{arith}
use csc.Base.Tests.{◌==◌, if◌then◌else◌}

-- The NULL pointer.
abbrev pub null : ℕ
null = 0

module _ {ℓ} {A : Type ℓ} where
  unfoldable pub update : (ℕ → A) → ℕ → A → ℕ → A
  update f a v x = if x == a then v else f x

  pub update_self : (f : ℕ → A) (a : ℕ) (v : A) → update f a v a ≡ v
  unfolding update
  update_self f a v = ground arith

  pub update_ne : (f : ℕ → A) (a : ℕ) (v : A) (x : ℕ) → x ≢ a → update f a v x ≡ f x
  unfolding update
  update_ne f a v x h = ground arith
