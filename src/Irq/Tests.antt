-- ===== src/Irq/Tests.antt =====
-- The interrupt theorems at an empty table.
use csc.Base.{◌≡◌, refl, true, false, [], arith, replicate, get_or}
use csc.Base.Ints.{pos}
use csc.Base.Outcome.{ok, ◌>>=◌}
use csc.Pic.{pic_send_eoi}
use csc.Irq.{
  Irq, Handlers, no_handler, idt_max_irq, irq_set_handler, interrupt_handler, irq_disable,
}
use csc.Irq.Dispatch.{irq_set_handler-interrupt}

abbrev empty : Irq
empty = record {
  irq_handler_table = replicate idt_max_irq no_handler;
  status_prev = false;
  status_curr = true;
  interrupt_flag = false;
  io = [];
}

-- Each handler disables interrupts.
abbrev quiet : Handlers
quiet h irq error a s = ok (irq_disable s)

irq_set_handler-interrupt_example :
    let (ret, s') = irq_set_handler 36 4096 7 empty in
    (ret ≡ pos 0)
    × (interrupt_handler quiet 36 0 s'
        ≡ (do s'' ← quiet 4096 36 0 7 s'; ok (record s'' { io = pic_send_eoi 36 s''.io })))
    × (get_or s'.irq_handler_table 33 no_handler ≡ get_or empty.irq_handler_table 33 no_handler)
irq_set_handler-interrupt_example =
    irq_set_handler-interrupt quiet 36 0 4096 7 33 empty refl (omega arith) (omega arith)
      (λ e. omega arith) (λ e. omega arith)
