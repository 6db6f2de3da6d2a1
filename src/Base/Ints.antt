-- ===== src/Base/Ints.antt =====
-- The `int` results of the kernel's functions, and the difference of two bytes.
use Prim.Native.Nat.{ℕ, ◌-◌}
use csc.Base.Tests.{leb, if◌then◌else◌}

pub data ℤ : Type 0 where
  pos : ℕ → ℤ
  negsuc : ℕ → ℤ

abbrev pub minus_one : ℤ
minus_one = negsuc 0

abbrev pub sub_int : ℕ → ℕ → ℤ
sub_int a b = if leb b a then pos (a - b) else negsuc (b - a - 1)
