-- ===== src/Strings/Blocks.antt =====
-- memset and memcpy.
use csc.Base.{ℕ, zero, suc, ◌+◌, ◌-◌, ◌%◌, ◌≤◌, ◌≡◌, ◌&&◌, leb, ltb, if◌then◌else◌, arith, update}
use csc.Strings.{Memory, memset, memcpy}

-- memset writes its byte at the n addresses from its first one on, and at no other.
pub memset_lem :
    (d c n : ℕ) (mem : Memory) (x : ℕ)
    → memset d c n mem x ≡ (if leb d x && ltb x (d + n) then c % 256 else mem x)
unfolding memset update
memset_lem d c zero mem x = ground arith
memset_lem d c (suc n) mem x = ground (arith, memset_lem (d + 1) c n (update mem d (c % 256)) x)

-- memcpy to an address that is no higher than the source writes what stood in the source before,
-- also when the two overlap, and nothing else.
pub memcpy_lem :
    (d s n : ℕ) (mem : Memory) (x : ℕ)
    → d ≤ s
    → memcpy d s n mem x ≡ (if leb d x && ltb x (d + n) then mem (s + (x - d)) else mem x)
unfolding memcpy update
memcpy_lem d s zero mem x le = ground arith
memcpy_lem d s (suc n) mem x le =
    ground (arith, memcpy_lem (d + 1) (s + 1) n (update mem d (mem s)) x (omega arith))
