-- ===== src/Irq.antt =====
-- Interrupts, Bric_OS/src/ISR/irq_handler.c and irq_handler.h: the table of handlers, the dispatch of
-- an interrupt, and the flag that says whether interrupts are let in.
-- A handler is its address. What a handler does is an argument of the dispatch, since the drivers
-- give them. Messages are left out.
pub mod Dispatch
mod Tests
use csc.Base.{
  ℕ, ◌+◌, Bool, true, false, ◌&&◌, ◌||◌, not, ◌==◌, ltb, List, if◌then◌else◌, null, get_or, set,
}
use csc.Base.Ints.{ℤ, pos, minus_one}
use csc.Base.Outcome.{Outcome, ok, halted, fault, ◌>>=◌}
use csc.Base.Ports.{Access}
use csc.Pic.{is_pic_irq, pic2_max_irq, pic_send_eoi}

-- `irq_handler_entry_t`.
pub record Entry : Type 0 where
  pub handler : ℕ
  pub arg : ℕ

pub record Irq : Type 0 where
  pub irq_handler_table : List Entry
  -- IRQ_status_prev and IRQ_status_curr: true for ENABLED
  pub status_prev : Bool
  pub status_curr : Bool
  -- the processor's interrupt flag: `sti` sets it, `cli` clears it
  pub interrupt_flag : Bool
  pub io : List Access

abbrev pub idt_max_irq : ℕ
idt_max_irq = pic2_max_irq + 1

abbrev pub no_handler : Entry
no_handler = record { handler = null; arg = null }

unfoldable pub is_exception : ℕ → Bool
is_exception irq =
    (irq == 0x06)
    || (irq == 0x08)
    || (irq == 0x0A)
    || (irq == 0x0B)
    || (irq == 0x0C)
    || (irq == 0x0D)
    || (irq == 0x0E)
    || (irq == 0x11)
    || (irq == 0x1E)

unfoldable pub is_valid_irq : ℕ → Bool
unfolding is_exception
is_valid_irq irq = is_pic_irq irq && not (is_exception irq)

abbrev pub install : ℕ → ℕ → ℕ → Irq → Irq
install irq h a s = record s {
  irq_handler_table = set s.irq_handler_table irq (record { handler = h; arg = a });
}

unfoldable pub irq_set_handler : ℕ → ℕ → ℕ → Irq → ℤ × Irq
unfolding is_valid_irq
irq_set_handler irq handler arg s =
    if not (is_valid_irq irq) then (minus_one, s) else (pos 0, install irq handler arg s)

unfoldable pub irq_set_exception_handler : ℕ → ℕ → ℕ → Irq → ℤ × Irq
unfolding is_exception
irq_set_exception_handler irq handler arg s =
    if not (is_exception irq) then (minus_one, s) else (pos 0, install irq handler arg s)

abbrev pub irqs_are_enabled : Irq → Bool
irqs_are_enabled s = s.status_curr

-- The instruction is `cli`.
unfoldable pub irq_enable : Irq → Irq
irq_enable s = record s { status_prev = s.status_curr; status_curr = true; interrupt_flag = false }

-- The instruction is `sti`.
unfoldable pub irq_disable : Irq → Irq
irq_disable s = record s {
  interrupt_flag = if s.status_curr then true else s.interrupt_flag;
  status_prev = s.status_curr;
  status_curr = false;
}

unfoldable pub irq_reenable : Irq → Irq
unfolding irq_enable
irq_reenable s = if s.status_prev && not s.status_curr then irq_enable s else s

-- What the handlers do: handler, interrupt, error code, argument.
abbrev pub Handlers : Type 0
Handlers = ℕ → ℕ → ℕ → ℕ → Irq → Outcome Irq

-- The end of interrupt_handler.
abbrev pub acknowledge : ℕ → Irq → Irq
acknowledge irq s = if is_pic_irq irq then record s { io = pic_send_eoi irq s.io } else s

-- exception_handler prints the error code and halts. A read behind the table is a fault.
unfoldable pub interrupt_handler : Handlers → ℕ → ℕ → Irq → Outcome Irq
unfolding is_exception pic_send_eoi
interrupt_handler call irq error s =
    let e = get_or s.irq_handler_table irq no_handler in
    let called = (do s' ← call e.handler irq error e.arg s; ok (acknowledge irq s')) in
    if not (ltb irq idt_max_irq)
    then fault
    else if not (e.handler == null)
    then called
    else if is_exception irq
    then halted
    else ok s
