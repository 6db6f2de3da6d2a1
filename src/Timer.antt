-- ===== src/Timer.antt =====
-- The timer, Bric_OS/src/drivers/timer_driver.c: its handler, and its set-up.
pub mod Twice
mod Tests
use csc.Base.{ℕ, Bool, true, false, not, [], if◌then◌else◌, null}
use csc.Base.Outcome.{Outcome, ok, ◌>>=◌}
use csc.Base.Text.{codes}
use csc.Strings.{Memory}
use csc.Printk.Format.{Console, printk}
use csc.Base.Ports.{Device}
use csc.Pic.{pic1_min_irq, pic_send_eoi, pic_set_mask, pic_clear_mask}
use csc.Irq.{Irq, irq_set_handler}

-- IRQ32_TIMER.
abbrev pub timer_irq : ℕ
timer_irq = pic1_min_irq

-- The interrupt state is that of the serial port in the console; a message may change it.
unfoldable pub timer_isr : Device → Memory → Bool → Console → Outcome Console
unfolding printk
timer_isr dev mem enabled s = do
  s ←
      (if not enabled
        then printk dev mem (codes "ERROR: Timer interrupt called but not enabled!\n") [] s
        else ok s)
  let q = s.serial.irq
  ok (record s { serial = record s.serial { irq = record q { io = pic_send_eoi timer_irq q.io } } })

-- The handler's address is an argument. The results are `enabled` and the state.
unfoldable pub timer_init : Device → ℕ → Bool → Irq → Bool × Irq
unfolding irq_set_handler pic_set_mask pic_clear_mask
timer_init dev isr enable s =
    let s1 = (irq_set_handler timer_irq isr null s).1 in
    if enable
    then (true, record s1 { io = (pic_clear_mask dev timer_irq s1.io).1 })
    else (false, record s1 { io = (pic_set_mask dev timer_irq s1.io).1 })
