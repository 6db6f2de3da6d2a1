-- ===== src/Common.antt =====
-- The flags register and the atomic operations of Bric_OS/lib/common.c, which are instructions of
-- the processor: `pushf` and `popf` read and write the register, `cli` clears its bit 9, and
-- `cmpxchg` compares a word with one register and exchanges it with another. No other part calls
-- these functions.
pub mod Sections
use csc.Base.{ℕ, Bool, not, ◌==◌, if◌then◌else◌, update}
use csc.Base.Words.{get_field, set_field}

-- The interrupt flag.
abbrev pub interrupt_flag : ℕ → ℕ
interrupt_flag flags = get_field 9 1 flags

unfoldable pub are_interrupts_enabled : ℕ → Bool
are_interrupts_enabled flags = not (interrupt_flag flags == 0)

-- The flags that are returned, and those that hold then.
unfoldable pub save_irqdisable : ℕ → ℕ × ℕ
save_irqdisable flags = (flags, set_field 9 1 0 flags)

unfoldable pub irqrestore : ℕ → ℕ → ℕ
irqrestore flags now = flags

-- The word that was there, and memory with the exchange made if it is the expected one.
unfoldable pub atomic_test_and_set : ℕ → ℕ → ℕ → (ℕ → ℕ) → ℕ × (ℕ → ℕ)
atomic_test_and_set value compare swap mem =
    (mem value, if mem value == compare then update mem value swap else mem)

unfoldable pub atomic_swap : ℕ → ℕ → (ℕ → ℕ) → (ℕ → ℕ)
unfolding atomic_test_and_set
atomic_swap val_a val_b mem =
    let (old, mem1) = atomic_test_and_set val_a (mem val_a) (mem val_b) mem in
    if val_a == val_b then mem else update mem1 val_b old
