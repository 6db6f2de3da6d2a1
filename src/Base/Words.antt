-- ===== src/Base/Words.antt =====
-- 64-bit words: addition and subtraction that wrap, and the fields of a word.
use Prim.Native.Nat.{ℕ, ◌+◌, ◌-◌, ◌*◌, ◌/◌, ◌%◌, ◌^◌}

abbrev pub add64 : ℕ → ℕ → ℕ
add64 a b = (a + b) % 2 ^ 64

abbrev pub sub64 : ℕ → ℕ → ℕ
sub64 a b = (a + 2 ^ 64 - b) % 2 ^ 64

-- The `width` bits of `w` from bit `low` on.
abbrev pub get_field : ℕ → ℕ → ℕ → ℕ
get_field low width w = w / 2 ^ low % 2 ^ width

-- A store to a bit-field keeps the bits that fit, and leaves the others as they were.
abbrev pub set_field : ℕ → ℕ → ℕ → ℕ → ℕ
set_field low width v w =
    w / 2 ^ (low + width) * 2 ^ (low + width) + v % 2 ^ width * 2 ^ low + w % 2 ^ low
