-- ===== src/Base/Bits.antt =====
-- Laws of the bitwise operations. The native operations mean a recursion on binary digits; here it
-- is one equation for the lowest digit, and from it come the laws for masks and fields.
use Prim.Native.Nat.{
  ℕ, zero, suc, ◌+◌, ◌-◌, ◌*◌, ◌/◌, ◌%◌, ◌^◌, ◌≤◌, ◌<◌, max, bit_or, digits, bit_or-bitwise,
}
use native.Mathlib.Nat.{pow-suc}
use mathlib.Core.Path.{◌≡◌, refl, ap, ap₂}
use mathlib.Core.Bool.{Bool, true, ◌&&◌}
use native.Mathlib.Omega.{arith}

-- Two bounds on the first operand give the same digits.
module _ (rest : ℕ → ℕ) (join : ℕ → ℕ → ℕ) where
  digits_bound :
      (big small x y : ℕ)
      → x ≤ big
      → x ≤ small
      → digits rest join big x y ≡ digits rest join small x y
  digits_bound zero zero x y h k = refl
  digits_bound zero (suc small) zero y h k = refl
  digits_bound zero (suc small) (suc x) y h k = absurd (omega arith)
  digits_bound (suc big) zero zero y h k = refl
  digits_bound (suc big) zero (suc x) y h k = absurd (omega arith)
  digits_bound (suc big) (suc small) zero y h k = refl
  digits_bound (suc big) (suc small) (suc x) y h k =
      rw (digits_bound big small (suc x / 2) (y / 2) (omega arith) (omega arith))

pub bit_or_step : (x y : ℕ) → bit_or x y ≡ bit_or (x / 2) (y / 2) * 2 + max (x % 2) (y % 2)
bit_or_step zero y = omega (arith, bit_or-bitwise 0 y, bit_or-bitwise 0 (y / 2))
bit_or_step (suc x) y = omega (
  arith,
  bit_or-bitwise (suc x) y,
  bit_or-bitwise (suc x / 2) (y / 2),
  digits_bound (λ z. z) max x (suc x / 2) (suc x / 2) (y / 2) (omega arith) (omega arith),
)

bit_or-zero_below : (k x : ℕ) → x ≤ k → bit_or x 0 ≡ x
bit_or-zero_below zero zero h = refl
bit_or-zero_below zero (suc x) h = absurd (omega arith)
bit_or-zero_below (suc k) zero h = refl
bit_or-zero_below (suc k) (suc x) h =
    omega (arith, bit_or_step (suc x) 0, bit_or-zero_below k (suc x / 2) (omega arith))

pub bit_or-zero : (x : ℕ) → bit_or x 0 ≡ x
bit_or-zero x = bit_or-zero_below x x (omega arith)

-- The next power of two, in products.
module _ (k : ℕ) where
  two_pow_suc : 2 ^ suc k ≡ 2 ^ k + 2 ^ k
  two_pow_suc = omega (arith, pow-suc 2 k)

  mul-two_pow_suc : (n : ℕ) → n * 2 ^ suc k ≡ n * 2 ^ k + n * 2 ^ k
  mul-two_pow_suc n = omega (arith, ap (λ (t : ℕ). n * t) two_pow_suc)

two_pow_pos : (k : ℕ) → 0 < 2 ^ k
two_pow_pos zero = omega arith
two_pow_pos (suc k) = omega (arith, two_pow_pos k, two_pow_suc k)

-- Two fields that do not overlap are put together by addition.
pub bit_or_fields : (k hi lo : ℕ) → lo < 2 ^ k → bit_or (hi * 2 ^ k) lo ≡ hi * 2 ^ k + lo
bit_or_fields zero hi lo h =
    let none_left : lo ≡ 0 = omega arith in rw none_left (omega (arith, bit_or-zero (hi * 1)))
bit_or_fields (suc k) hi lo h = omega (
  arith,
  two_pow_suc k,
  bit_or_step (hi * 2 ^ suc k) lo,
  halves,
  bit_or_fields k hi (lo / 2) (omega (arith, two_pow_suc k)),
  mul-two_pow_suc k hi,
)
  where
    halves : bit_or (hi * 2 ^ suc k / 2) (lo / 2) ≡ bit_or (hi * 2 ^ k) (lo / 2)
    halves = ap (λ t. bit_or t (lo / 2)) (omega (arith, mul-two_pow_suc k hi))

-- `x | (2 ^ k - 1)` sets the k lowest bits, and keeps the others.
pub bit_or_mask :
    (k hi lo : ℕ) → lo < 2 ^ k → bit_or (hi * 2 ^ k + lo) (2 ^ k - 1) ≡ hi * 2 ^ k + (2 ^ k - 1)
bit_or_mask zero hi lo h =
    let none_left : lo ≡ 0 = omega arith in rw none_left (omega (arith, bit_or-zero (hi * 1 + 0)))
bit_or_mask (suc k) hi lo h = omega (
  arith,
  two_pow_suc k,
  two_pow_pos k,
  bit_or_step (hi * 2 ^ suc k + lo) (2 ^ suc k - 1),
  halves,
  bit_or_mask k hi (lo / 2) (omega (arith, two_pow_suc k)),
  mul-two_pow_suc k hi,
)
  where
    halves :
        bit_or ((hi * 2 ^ suc k + lo) / 2) ((2 ^ suc k - 1) / 2)
        ≡ bit_or (hi * 2 ^ k + lo / 2) (2 ^ k - 1)
    halves = ap₂ bit_or (omega (arith, mul-two_pow_suc k hi)) (omega (arith, two_pow_suc k))

-- A test holds of the numbers under a bound; where the bound is a literal, this is found by running it.
unfoldable pub all_below : ℕ → (ℕ → Bool) → Bool
all_below zero test = true
all_below (suc top) test = all_below top test && test top

pub all_below_sound :
    (bound : ℕ) (test : ℕ → Bool) (i : ℕ) → all_below bound test ≡ true → i < bound → test i ≡ true
unfolding all_below
all_below_sound zero test i held inside = absurd (omega arith)
all_below_sound (suc top) test i held inside =
    let before = all_below_sound top test i in ground (arith, before)
