-- ===== src/Timer/Twice.antt =====
-- A timer interrupt after timer_init.
use csc.Base.{
  ℕ, ◌≡◌, ◌≢◌, refl, ◌∙◌, Bool, true, false, length, get_or, get_or-set_self, null, arith,
}
use csc.Base.Outcome.{ok, ◌>>=◌}
use csc.Strings.{Memory}
use csc.Printk.Format.{Console}
use csc.Base.Ports.{Device}
use csc.Pic.{pic_send_eoi}
use csc.Irq.{
  Irq, Handlers, idt_max_irq, no_handler, irq_set_handler, interrupt_handler, is_valid_irq,
  is_exception,
}
use csc.Irq.Dispatch.{interrupt_handler-calls}
use csc.Timer.{timer_init, timer_isr, timer_irq}

-- The entry that timer_init leaves in the table.
installed :
    (dev : Device) (isr : ℕ) (enable : Bool) (s : Irq)
    → length s.irq_handler_table ≡ idt_max_irq
    → get_or (timer_init dev isr enable s).1.irq_handler_table timer_irq no_handler
      ≡ record { handler = isr; arg = null }
unfolding timer_init irq_set_handler is_valid_irq is_exception
installed dev isr true s full =
    get_or-set_self s.irq_handler_table timer_irq _ no_handler (omega (arith, full))
installed dev isr false s full =
    get_or-set_self s.irq_handler_table timer_irq _ no_handler (omega (arith, full))

-- What the handler does to the interrupt state, whatever is on the screen and in the ring.
abbrev pub RunsTimer : Device → Memory → Handlers → ℕ → Bool → Type 0
RunsTimer dev mem call isr enabled =
    (error : ℕ) (c : Console)
    → call isr timer_irq error null c.serial.irq
      ≡ (timer_isr dev mem enabled c >>= λ (c' : Console). ok c'.serial.irq)

-- After timer_init( true ), on a complete table and with an address that is not NULL and runs
-- timer_isr with the timer enabled, a timer interrupt returns and is acknowledged at the
-- controllers twice; nothing else changes in the interrupt state.
pub timer_init-twice :
    (dev : Device) (mem : Memory) (call : Handlers) (isr error : ℕ) (c : Console)
    → length c.serial.irq.irq_handler_table ≡ idt_max_irq
    → isr ≢ null
    → RunsTimer dev mem call isr (timer_init dev isr true c.serial.irq).0
    → let s' = (timer_init dev isr true c.serial.irq).1 in
      interrupt_handler call timer_irq error s'
      ≡ ok (record s' { io = pic_send_eoi timer_irq (pic_send_eoi timer_irq s'.io) })
unfolding timer_isr timer_init
timer_init-twice dev mem call isr error c full there runs =
    let s' = (timer_init dev isr true c.serial.irq).1 in
    interrupt_handler-calls call timer_irq error isr null s' (omega arith) there
      (installed dev isr true c.serial.irq full)
    ∙ rw (runs error (record c { serial = record c.serial { irq = s' } })) refl
