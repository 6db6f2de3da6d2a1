-- ===== src/Boot/Tests.antt =====
-- IRQ_init where the interrupts of the timer and the serial port were let in before.
use csc.Base.{
  ℕ, ◌+◌, ◌*◌, ◌≡◌, refl, true, false, ◌==◌, List, [], ◌∷◌, if◌then◌else◌, replicate, null, arith,
}
use csc.Base.Ints.{pos}
use csc.Base.Ports.{Access, got, sent}
use csc.Pic.{pic1_data, pic_get_mask}
use csc.Irq.{Irq, no_handler, idt_max_irq}
use csc.Boot.{Setting, Machine, irq_of, irq_init}
use csc.Boot.Masked.{irq_init-masked}

-- Every port reads as it was last written.
abbrev last : ℕ → List Access → ℕ
last port [] = 0
last port (got p v ∷ io) = last port io
last port (sent p v ∷ io) = if p == port then v else last port io

abbrev setting : Setting
setting = record {
  dev = λ io port. last port io;
  mem = λ a. 0;
  info = λ a. 0;
  kernel_start = 1048576;
  kernel_end = 1280000;
  page_fault_irq = 1048592;
  serial_tx_irq_handler = 1048608;
  timer_isr = 1048624;
  ps2_keyboard_irq_handler = 1048640;
  isr_stub_table = λ i. 1049000 + i * 16;
  tss = 1060000;
  stack = λ i. 1070000 + i * 4096;
  splash = [];
  err_msg = 2097152;
  fuel = 100;
}

abbrev irq : Irq
irq = record {
  irq_handler_table = replicate idt_max_irq no_handler;
  status_prev = false;
  status_curr = true;
  interrupt_flag = false;
  -- 0xEE: IRQ 32 and 36
  io = sent pic1_data 238 ∷ [];
}

abbrev machine : Machine
machine = record {
  console = record {
    vga = record { cells = λ i. 0; row = 0; col = 0; irq = irq };
    serial = record {
      buff = replicate 16 0;
      prod = 0;
      cons = 0;
      count = 0;
      idle_flag = true;
      irq = irq;
    };
  };
  mmu = record {
    word = λ a. 0;
    range = λ a. record { start = 0; curr_frame = 0; end = 0; next_entry = null };
    addr_range_head = 0;
    addr_range_curr = 0;
    addr_range_tail = 0;
    pml4 = 0;
    pf_free_list_head = 0;
    local_heap_ptr = 4096;
    virt_addr_bank = λ i. 0;
  };
  gdt = record {
    gdt = λ i. [];
    tss = record {
      rsp0 = 0;
      rsp1 = 0;
      rsp2 = 0;
      ist1 = 0;
      ist2 = 0;
      ist3 = 0;
      ist4 = 0;
      ist5 = 0;
      ist6 = 0;
      ist7 = 0;
      iomap_base = 0;
    };
  };
  idt = λ i. record {
    isr_low = 0;
    kernel_cs = 0;
    ist = 0;
    attributes = 0;
    isr_mid = 0;
    isr_high = 0;
    reserved = 0;
  };
  timer_enabled = true;
}

irq_init-masked_example :
    (pic_get_mask setting.dev 36 (irq_of (irq_init setting machine)).io).0 ≡ pos 1
irq_init-masked_example =
    irq_init-masked setting machine 36 (λ io v. refl) (omega arith) (omega arith)
