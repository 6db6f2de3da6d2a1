-- ===== src/Timer/Tests.antt =====
-- A timer interrupt on a fresh table.
use csc.Base.{◌≡◌, refl, true, false, [], arith, replicate}
use csc.Base.Outcome.{ok}
use csc.Base.Ports.{Device}
use csc.Printk.Format.{Console}
use csc.Pic.{pic_send_eoi}
use csc.Irq.{Irq, Handlers, idt_max_irq, no_handler, interrupt_handler}
use csc.Timer.{timer_init, timer_isr, timer_irq}
use csc.Timer.Twice.{timer_init-twice}

abbrev fresh : Irq
fresh = record {
  irq_handler_table = replicate idt_max_irq no_handler;
  status_prev = false;
  status_curr = false;
  interrupt_flag = false;
  io = [];
}

abbrev quiet : Device
quiet io port = 0

abbrev console : Console
console = record {
  vga = record { cells = λ i. 0; row = 0; col = 0; irq = fresh };
  serial = record {
    buff = replicate 16 0;
    prod = 0;
    cons = 0;
    count = 0;
    idle_flag = true;
    irq = fresh;
  };
}

-- The timer is enabled, so that its handler only acknowledges.
abbrev timer_only : Handlers
timer_only h irq error a s = ok (record s { io = pic_send_eoi timer_irq s.io })

timer_init-twice_example :
    let s' = (timer_init quiet 4096 true fresh).1 in
    interrupt_handler timer_only timer_irq 0 s'
    ≡ ok (record s' { io = pic_send_eoi timer_irq (pic_send_eoi timer_irq s'.io) })
unfolding timer_init timer_isr
timer_init-twice_example =
    timer_init-twice quiet (λ a. 0) timer_only 4096 0 console refl (λ e. omega arith)
      (λ error c. refl)
