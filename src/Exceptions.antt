-- ===== src/Exceptions.antt =====
-- What is shown for an interrupt, print_irq and exception_handler of Bric_OS/src/ISR/irq_handler.c. The
-- numbers stand for `int` values that are not negative.
pub mod Report
mod Tests
use Prim.Native.String.{String}
use csc.Base.{ℕ, ◌/◌, ◌%◌, ◌==◌, ◌||◌, List, [], ◌∷◌, if◌then◌else◌}
use csc.Base.Ports.{Device}
use csc.Base.Outcome.{Outcome, ok, ◌>>=◌}
use csc.Base.Text.{codes}
use csc.Strings.{Memory}
use csc.Irq.{is_exception}
use csc.Printk.Format.{Console, printk}

-- A call of printk with a literal.
abbrev pub say : Device → Memory → String → List ℕ → Console → Outcome Console
say dev mem text args s = printk dev mem (codes text) args s

-- The switch of print_irq.
unfoldable pub irq_name : ℕ → List ℕ
irq_name irq =
    if irq == 0
    then codes "Divide by zero error\n"
    else if irq == 1
    then codes "Debug exception\n"
    else if irq == 2
    then codes "Non-maskable interrupt\n"
    else if irq == 3
    then codes "Breakpoint exception\n"
    else if irq == 4
    then codes "Overflow exception\n"
    else if irq == 5
    then codes "Bound range exceeded exception\n"
    else if irq == 6
    then codes "Invalid opcode exception\n"
    else if irq == 7
    then codes "Device not available exception\n"
    else if irq == 8
    then codes "Double fault exception\n"
    else if irq == 9
    then codes "Coprocessor segment overrun exception\n"
    else if irq == 10
    then codes "Invalid TSS exception\n"
    else if irq == 11
    then codes "Segment not present exception\n"
    else if irq == 12
    then codes "Stack segment exception\n"
    else if irq == 13
    then codes "General protection exception\n"
    else if irq == 14
    then codes "Page fault exception\n"
    else if irq == 16
    then codes "x87 floating-point exception\n"
    else if irq == 17
    then codes "Alignment check exception\n"
    else if irq == 18
    then codes "Machine check exception\n"
    else if irq == 19
    then codes "SIMD floating point exception\n"
    else if irq == 20
    then codes "Virtualization exception\n"
    else if irq == 21
    then codes "Control protection exception\n"
    else if irq == 30
    then codes "Security exception\n"
    else codes "We should absolutely never be here!?\n"

unfoldable pub print_irq : Device → Memory → ℕ → Console → Outcome Console
unfolding irq_name printk is_exception
print_irq dev mem irq s = do
  s ←
      (if is_exception irq
        then say dev mem "  Exception 0x%X: " (irq ∷ []) s
        else say dev mem "  IRQ 0x%X: " (irq ∷ []) s)
  printk dev mem (irq_name irq) [] s

-- The inner switch: the table that the selector is in.
unfoldable pub table_name : ℕ → List ℕ
table_name error =
    let t = error / 2 % 4 in
    if t == 0 then codes "GDT\n" else if (t == 1) || (t == 3) then codes "IDT\n" else codes "LDT\n"

unfoldable pub print_error : Device → Memory → ℕ → Console → Outcome Console
unfolding table_name printk
print_error dev mem error s = do
  s ← say dev mem "Selector Error Code: 0x%X\n" (error ∷ []) s
  s ← say dev mem "External: %d\n" (error % 2 ∷ []) s
  s ← say dev mem "Table: " [] s
  s ← printk dev mem (table_name error) [] s
  say dev mem "Index: 0x%X\n" (error / 8 % 0x2000 ∷ []) s

-- What has been put out when the machine halts.
unfoldable pub exception_handler : Device → Memory → ℕ → ℕ → Console → Outcome Console
unfolding print_irq print_error printk
exception_handler dev mem irq error s = do
  s ← print_irq dev mem irq s
  s ← (if error == 0 then ok s else print_error dev mem error s)
  say dev mem "  Halting... \n\n" [] s
