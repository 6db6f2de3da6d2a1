-- ===== src/Kmalloc/Round.antt =====
-- ROUND_UP of kmalloc.h.
use Prim.Native.Nat.{bit_or}
use csc.Base.{ℕ, ◌+◌, ◌-◌, ◌*◌, ◌/◌, ◌%◌, ◌^◌, ◌≤◌, ◌<◌, ◌≡◌, ap, ◌∙◌, arith}
use csc.Base.Bits.{bit_or_mask}
use csc.Kmalloc.{round_up, align_size, bin_size, sub64}

or_fifteen : (m : ℕ) → bit_or m 15 ≡ m / 16 * 16 + 15
or_fifteen m = ap (λ t. bit_or t 15) (omega arith) ∙ bit_or_mask 4 (m / 16) (m % 16) (omega arith)

or_bin : (m : ℕ) → bit_or m 65535 ≡ m / 65536 * 65536 + 65535
or_bin m =
    ap (λ t. bit_or t 65535) (omega arith) ∙ bit_or_mask 16 (m / 65536) (m % 65536) (omega arith)

-- The least multiple of 16 that is no less.
pub round_up_align : (n : ℕ) → 0 < n → n ≤ 2 ^ 64 - 16 → round_up n align_size ≡ (n + 15) / 16 * 16
unfolding round_up
round_up_align n pos small = omega (arith, or_fifteen (sub64 n 1))

pub round_up_bin :
    (n : ℕ) → 0 < n → n ≤ 2 ^ 64 - 65536 → round_up n bin_size ≡ (n + 65535) / 65536 * 65536
unfolding round_up
round_up_bin n pos small = omega (arith, or_bin (sub64 n 1))

-- Rounding 1 to 2^32 - 1 up to 16 or to 65536 gives a multiple of that number which is no less,
-- and less than that number more.
pub round_up_bounds :
    (n : ℕ)
    → 0 < n
    → n < 2 ^ 32
    → (round_up n align_size % 16 ≡ 0)
      × (n ≤ round_up n align_size)
      × (round_up n align_size < n + 16)
      × (round_up n bin_size % 65536 ≡ 0)
      × (n ≤ round_up n bin_size)
      × (round_up n bin_size < n + 65536)
round_up_bounds n pos small = omega (arith, round_up_align n pos, round_up_bin n pos)
