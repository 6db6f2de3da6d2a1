-- ===== src/Irq/Dispatch.antt =====
-- interrupt_handler and the two functions that install a handler.
use csc.Base.{
  ℕ, ◌≤◌, ◌<◌, ◌≡◌, ◌≢◌, refl, sym, ◌∙◌, true, false, ◌==◌, ltb, length, null, get_or,
  get_or-set_self, get_or-set_ne, arith, ne→==,
}
use csc.Base.Ints.{pos}
use csc.Base.Outcome.{Outcome, ok, ◌>>=◌}
use csc.Pic.{is_pic_irq, pic_send_eoi}
use csc.Irq.{
  Irq, Handlers, no_handler, install, irq_set_handler, interrupt_handler, acknowledge, is_valid_irq,
  is_exception, idt_max_irq,
}

-- What an interrupt calls when its entry is known.
abbrev pub calls : Handlers → ℕ → ℕ → ℕ → ℕ → Irq → Outcome Irq
calls call irq error h a s = do s' ← call h irq error a s; ok (acknowledge irq s')

pub interrupt_handler-calls :
    (call : Handlers) (irq error h a : ℕ) (s : Irq)
    → irq < idt_max_irq
    → h ≢ null
    → get_or s.irq_handler_table irq no_handler ≡ record { handler = h; arg = a }
    → interrupt_handler call irq error s ≡ calls call irq error h a s
unfolding interrupt_handler
interrupt_handler-calls call irq error h a s in_table there entry =
    let inside : ltb irq idt_max_irq ≡ true = ground arith in
    let live : (h == null) ≡ false = ne→== h null there in rw (inside, entry, live) refl

valid_irq : (irq : ℕ) → 32 ≤ irq → irq < idt_max_irq → is_valid_irq irq ≡ true
unfolding is_valid_irq is_exception
valid_irq irq low high = ground arith

-- IRQ_set_handler accepts every interrupt of the two controllers: when it comes the handler is
-- called with its argument, and the interrupt is acknowledged where the handler returns; every
-- other entry stays as it was. The table is complete and the handler is not NULL.
pub irq_set_handler-interrupt :
    (call : Handlers) (irq error h a j : ℕ) (s : Irq)
    → length s.irq_handler_table ≡ idt_max_irq
    → 32 ≤ irq
    → irq < idt_max_irq
    → h ≢ null
    → j ≢ irq
    → let (ret, s') = irq_set_handler irq h a s in
      (ret ≡ pos 0)
      × (interrupt_handler call irq error s'
          ≡ (do s'' ← call h irq error a s'; ok (record s'' { io = pic_send_eoi irq s''.io })))
      × (get_or s'.irq_handler_table j no_handler ≡ get_or s.irq_handler_table j no_handler)
unfolding irq_set_handler
irq_set_handler-interrupt call irq error h a j s full low high there other =
    let valid = valid_irq irq low high in
    let in_pic : is_pic_irq irq ≡ true = ground arith in
    rw valid (
      refl,
      (interrupt_handler-calls call irq error h a (install irq h a s) high there
            (get_or-set_self s.irq_handler_table irq _ no_handler (omega arith))
          ∙ rw in_pic refl),
      get_or-set_ne s.irq_handler_table _ no_handler (λ e. other (sym e)),
    )
