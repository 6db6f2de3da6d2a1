-- ===== src/Boot.antt =====
-- The start of the kernel, Bric_OS/src/boot/kernel_main.c, and IRQ_init of Bric_OS/src/ISR/irq_handler.c:
-- the drivers are set up one after the other, on the state that they share.
pub mod Masked
mod Tests
use Prim.Native.String.{String}
use csc.Base.{ℕ, zero, suc, Bool, true, false, not, ◌==◌, List, [], ◌∷◌, ◌++◌, if◌then◌else◌}
use csc.Base.Ports.{Device}
use csc.Base.Outcome.{Outcome, ok, halted, ◌>>=◌}
use csc.Base.Text.{codes}
use csc.Strings.{Memory}
use csc.Pic.{pic_init}
use csc.Irq.{Irq, irq_disable, irq_enable}
use csc.Timer.{timer_init}
use csc.Vga.{clear}
use csc.Vga.Place.{vga_driver_init}
use csc.Serial.{Serial, serial_driver_init, serial_print}
use csc.Keyboard.Start.{ps2_keyboard_driver_init}
use csc.Printk.Format.{Console, printk}
use csc.Descriptors.{Gdt, gdt_init, Idt, idt_init}
use csc.Mmu.{Mmu}
use csc.Mmu.Init.{mmu_init}
use csc.Sched.{Sched}
use csc.Proc.{Proc, run}

-- What the hardware, the linker and the boot loader fix: the devices, the strings in memory, the
-- words of the boot information, where the kernel stands, the addresses of the handlers, the stubs
-- and the stacks, the text of the splash screen, where a text is put together on the stack, and
-- fuel for the loops.
pub record Setting : Type 0 where
  pub dev : Device
  pub mem : Memory
  pub info : ℕ → ℕ
  pub kernel_start : ℕ
  pub kernel_end : ℕ
  pub page_fault_irq : ℕ
  pub serial_tx_irq_handler : ℕ
  pub timer_isr : ℕ
  pub ps2_keyboard_irq_handler : ℕ
  pub isr_stub_table : ℕ → ℕ
  pub tss : ℕ
  pub stack : ℕ → ℕ
  pub splash : List ℕ
  pub err_msg : ℕ
  pub fuel : ℕ

-- The interrupt state is that of the serial port in the console.
pub record Machine : Type 0 where
  pub console : Console
  pub mmu : Mmu
  pub gdt : Gdt
  pub idt : Idt
  -- `enabled` of the timer
  pub timer_enabled : Bool

abbrev pub irq_of : Machine → Irq
irq_of m = m.console.serial.irq

abbrev pub with_irq : Irq → Machine → Machine
with_irq q m = record m {
  console = record m.console { serial = record m.console.serial { irq = q } };
}

unfoldable pub info : Setting → String → Machine → Outcome Machine
unfolding printk
info e text m = do
  c ← printk e.dev e.mem (codes "INFO: " ++ codes text) [] m.console
  ok (record m { console = c })

-- OS_ERROR, and the result 1 of the caller.
unfoldable pub error : Setting → String → Machine → Outcome (Bool × Machine)
unfolding printk
error e text m = do
  c ← printk e.dev e.mem (codes "ERROR: " ++ codes text) [] m.console
  ok (false, record m { console = c })

-- The message of success, and the result 0 of the caller; `true` stands for it.
abbrev done : Setting → String → Machine → Outcome (Bool × Machine)
done e text m = info e text m >>= λ m. ok (true, m)

-- IRQ_init; it always succeeds.
unfoldable pub irq_init : Setting → Machine → Machine
irq_init e m =
    let q = irq_disable (irq_of m) in
    let (enabled, q) = timer_init e.dev e.timer_isr false (record q { io = pic_init e.dev q.io }) in
    with_irq q (record m {
      gdt = gdt_init e.tss e.stack m.gdt;
      idt = idt_init e.isr_stub_table m.idt;
      timer_enabled = enabled;
    })

-- VGA_init; VGA_driver_init always succeeds.
unfoldable pub vga_init : Setting → Machine → Outcome (Bool × Machine)
unfolding info
vga_init e m =
    let v = clear (vga_driver_init e.dev (record m.console.vga { irq = irq_of m })) in
    done e "VGA driver initialization is complete!\n\n"
      (with_irq v.irq (record m { console = record m.console { vga = v } }))

unfoldable pub ser_init : Setting → Machine → Outcome (Bool × Machine)
unfolding info error serial_driver_init
ser_init e m =
    let (started, s) = serial_driver_init e.dev e.serial_tx_irq_handler m.console.serial in
    let with_serial = λ (s : Serial). record m { console = record m.console { serial = s } } in
    if not started
    then error e "\nSerial driver initialization failed!\n" (with_serial s)
    else done e "Serial driver initialization is complete!\n\n"
        (with_serial (serial_print e.dev (27 ∷ codes "c") s))

-- MMU_init halts where it fails; the message of its failure is never reached.
unfoldable pub mem_init : Setting → ℕ → ℕ → Machine → Outcome (Bool × Machine)
unfolding info error mmu_init
mem_init e magic addr m =
    if not (magic == 0x36D76289) then error e "\nInvalid Multiboot2 header!\n" m else (do
      (mmu, q) ←
          mmu_init e.fuel e.info e.kernel_start e.kernel_end addr e.page_fault_irq m.mmu (irq_of m)
      done e "Memory manager initialization is complete!\n\n" (with_irq q (record m { mmu = mmu })))

unfoldable pub isr_init : Setting → Machine → Outcome (Bool × Machine)
unfolding info irq_init
isr_init e m = done e "ISR initialization is complete!\n\n" (irq_init e m)

unfoldable pub kb_init : Setting → Machine → Outcome (Bool × Machine)
unfolding info error ps2_keyboard_driver_init
kb_init e m = do
  (started, c) ←
      ps2_keyboard_driver_init e.dev e.mem e.err_msg e.fuel e.fuel e.ps2_keyboard_irq_handler true
        m.console
  let m = record m { console = c }
  if not started
      then error e "\nKeyboard driver initialization failed!\n" m
      else done e "Keyboard driver initialization is complete!\n\n" m

-- The next step is taken only where the one before has succeeded.
abbrev pub and_then :
    Outcome (Bool × Machine) → (Machine → Outcome (Bool × Machine)) → Outcome (Bool × Machine)
and_then r next = r >>= λ (good, m). elim good [ true ↦ next m | false ↦ ok (false, m) ]

-- splash_screen: each byte by itself.
unfoldable pub splash_screen : Setting → List ℕ → Machine → Outcome Machine
unfolding printk
splash_screen e [] m = ok m
splash_screen e (b ∷ bs) m = do
  c ← printk e.dev e.mem (codes "%c") (b ∷ []) m.console
  splash_screen e bs (record m { console = c })

unfoldable pub finish : Setting → Machine → Outcome (Bool × Machine)
unfolding info splash_screen irq_enable printk
finish e m = do
  m ← info e "System initialization is complete!\n" m
  m ← splash_screen e e.splash m
  let m1 = with_irq (irq_enable (irq_of m)) m
  c ← printk e.dev e.mem (codes "\n") [] m1.console
  ok (true, record m1 { console = c })

unfoldable pub system_initialization : Setting → ℕ → ℕ → Machine → Outcome (Bool × Machine)
unfolding vga_init ser_init mem_init isr_init kb_init finish
system_initialization e magic addr m = and_then (vga_init e m) λ m. and_then (ser_init e m) λ m.
    and_then (mem_init e magic addr m)
      λ m. and_then (isr_init e m) λ m. and_then (kb_init e m) λ m. finish e m

-- The state when the machine is stopped at the end. PROC_run gets the addresses that its calls of
-- kmalloc return.
unfoldable pub kernel_main : Setting → ℕ → ℕ → ℕ → Sched → Machine → Proc → Outcome (Machine × Proc)
unfolding system_initialization info run
kernel_main e magic addr thread rr_pool m p = do
  (good, m) ← system_initialization e magic addr m
  if not good then halted else (do
    m ← info e "Testing PROC_run()...\n" m
    p ← run thread rr_pool p
    m ← info e "Done!\n" m
    ok (m, p))
