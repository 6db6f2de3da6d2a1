-- ===== src/Serial/Interrupt.antt =====
-- serial_tx_irq_handler of serial_io_driver.c, whose messages go to the screen and to the same ring.
use Prim.Native.Nat.{bit_and}
use csc.Base.{◌+◌, refl, true, ◌==◌, [], ◌∷◌, if_both, if◌then◌else◌}
use csc.Base.Ports.{Device}
use csc.Base.Outcome.{Outcome, ok, Returns, Returns-bind, ◌>>=◌}
use csc.Base.Text.{codes}
use csc.Strings.{Memory}
use csc.Vga.Bounds.{OnScreen}
use csc.Printk.Format.{Console}
use csc.Printk.Pieces.{number, plain, upper_hex}
use csc.Printk.Safe.{IsSound}
use csc.Exceptions.{say}
use csc.Exceptions.Report.{plain-IsSound, around-IsSound}
use csc.Serial.{Serial, serial_port, hw_write, read_port}
use csc.Serial.Ring.{IsRing}
use csc.Serial.Order.{hw_write-Kept}

abbrev with_serial : Serial → Console → Console
with_serial t s = record s { serial = t }

pub serial_tx_irq_handler : Device → Memory → Console → Outcome Console
serial_tx_irq_handler dev mem s = do
  s ← say dev mem "INFO: Serial TX IRQ!\n" [] s
  let (iir, t) = read_port dev (serial_port + 2) s.serial
  let ready = (read_port dev serial_port t).1
  let unknown =
      say dev mem "INFO: Serial TX IRQ: Unknown interrupt, IIR: 0x%X\n" (iir ∷ []) (with_serial t s)
  if bit_and iir 0x0E == 0x02
      then ok (with_serial (hw_write dev (record ready { idle_flag = true })) s)
      else if bit_and iir 0x0E == 0x06
      then ok (with_serial (read_port dev (serial_port + 5) t).1 s)
      else unknown

-- An interrupt of the serial port, whatever its cause, is handled to the end with its messages:
-- the ring is well formed behind it, the cursor is still on the screen, and no cell behind the
-- screen has changed. The cursor is on the screen and the ring well formed before.
pub serial_tx_irq_handler-IsSound :
    (dev : Device) (mem : Memory) (s : Console)
    → OnScreen s.vga
    → IsRing s.serial
    → Returns (serial_tx_irq_handler dev mem s) (IsSound s)
unfolding serial_tx_irq_handler
serial_tx_irq_handler-IsSound dev mem s on ring =
    Returns-bind {P = IsSound s}
      (plain-IsSound dev mem (codes "INFO: Serial TX IRQ!\n") s s refl (on, ring, λ x out. refl))
      λ u (on', ring', same).
        let P = λ (m : Outcome Console). Returns m (IsSound s) in
        let (iir, t) = read_port dev (serial_port + 2) u.serial in
        let ready = (read_port dev serial_port t).1 in
        if_both P (bit_and iir 0x0E == 0x02)
          (_, refl, (on', (hw_write-Kept dev (record ready { idle_flag = true }) ring').0, same))
          (if_both P (bit_and iir 0x0E == 0x06) (_, refl, (on', ring', same))
            (around-IsSound dev mem s (number plain upper_hex iir)
              (codes "INFO: Serial TX IRQ: Unknown interrupt, IIR: 0x") (codes "\n")
              (with_serial t u) tt refl refl (on', ring', same)))
