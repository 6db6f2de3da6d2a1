-- ===== src/Common/Sections.antt =====
-- Sections without interrupts may be nested, and a swap exchanges two words.
use csc.Base.{ℕ, ◌≡◌, ◌≢◌, refl, false, update, arith}
use csc.Common.{
  are_interrupts_enabled, save_irqdisable, irqrestore, atomic_test_and_set, atomic_swap,
}

-- What a section does, and the sections inside of it, one behind the other.
pub data Section : Type 0 where
  work : Section
  guarded : Section → Section → Section

-- The flags after a section: `guarded a b` saves them, runs `a`, restores them, and runs `b`.
abbrev pub run : Section → ℕ → ℕ
run work flags = flags
run (guarded a b) flags =
    let (saved, off) = save_irqdisable flags in run b (irqrestore saved (run a off))

-- However save_irqdisable and irqrestore are nested, the flags are those of before at the end.
pub irqrestore-save_irqdisable : (a : Section) (flags : ℕ) → run a flags ≡ flags
unfolding save_irqdisable irqrestore
irqrestore-save_irqdisable work flags = refl
irqrestore-save_irqdisable (guarded a b) flags = irqrestore-save_irqdisable b flags

-- In between interrupts are off.
pub save_irqdisable-off : (flags : ℕ) → are_interrupts_enabled (save_irqdisable flags).1 ≡ false
unfolding are_interrupts_enabled save_irqdisable
save_irqdisable-off flags = ground arith

-- atomic_swap exchanges two words, which may be one, and no other word changes.
pub atomic_swap-exchanged :
    (a b : ℕ) (mem : ℕ → ℕ)
    → (atomic_swap a b mem a ≡ mem b)
      × (atomic_swap a b mem b ≡ mem a)
      × ((x : ℕ) → x ≢ a → x ≢ b → atomic_swap a b mem x ≡ mem x)
unfolding atomic_swap atomic_test_and_set update
atomic_swap-exchanged a b mem = (ground arith, ground arith, λ x p q. ground arith)
