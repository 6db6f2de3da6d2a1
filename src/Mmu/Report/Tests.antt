-- ===== src/Mmu/Report/Tests.antt =====
-- The report of a fault at a page behind tables that are there, but that is not mapped itself.
use csc.Base.{
  ℕ, ◌+◌, ◌^◌, ◌≤◌, ◌==◌, refl, true, false, [], replicate, arith, if◌then◌else◌, length, null,
}
use csc.Base.Outcome.{Returns}
use csc.Base.Ports.{Device}
use csc.Strings.{Memory}
use csc.Irq.{Irq}
use csc.Serial.{Serial}
use csc.Serial.Ring.{IsRing}
use csc.Printk.Format.{Console, string_at}
use csc.Printk.Safe.{IsSound}
use csc.Mmu.{Mmu}
use csc.Mmu.Report.{fault_report}
use csc.Mmu.Report.Whole.{fault_report-IsSound}

abbrev quiet : Device
quiet io port = 0x20

-- The name of the file, of two characters.
abbrev memory : Memory
memory a = if a == 4096 then 109 else if a == 4097 then 99 else 0

few : length (string_at 4096 memory) ≤ 31
unfolding string_at
few = omega arith

abbrev irq : Irq
irq = record {
  irq_handler_table = [];
  status_prev = false;
  status_curr = true;
  interrupt_flag = true;
  io = [];
}

abbrev idle : Serial
idle = record { buff = replicate 16 0; prod = 3; cons = 3; count = 0; idle_flag = true; irq = irq }

idle-IsRing : IsRing idle
idle-IsRing = record {
  full_length = refl;
  cons_in = omega arith;
  room = omega arith;
  prod_at = refl;
}

abbrev console : Console
console = record { vga = record { cells = λ i. 0; row = 20; col = 0; irq = irq }; serial = idle }

-- Tables at 8192, 12288, 16384 and 20480, for the page at 2 ^ 40.
abbrev words : ℕ → ℕ
words a = if a == 8208 then 12291 else if a == 12288 then 16387 else if a == 16384 then 20483 else 0

abbrev mmu : Mmu
mmu = record {
  word = words;
  range = λ a. record { start = 0; curr_frame = 24576; end = 102400; next_entry = null };
  addr_range_head = 4096;
  addr_range_curr = 4096;
  addr_range_tail = 4096;
  pml4 = 8192;
  pf_free_list_head = null;
  local_heap_ptr = 4128;
  virt_addr_bank = λ r. 2 ^ 40 + 4096;
}

fault_report-IsSound_example :
    Returns (fault_report quiet memory 4096 766 (2 ^ 40) 2 20480 mmu console) (IsSound console)
fault_report-IsSound_example =
    fault_report-IsSound quiet memory 4096 766 (2 ^ 40) 2 20480 mmu console few
      (omega arith, omega arith) idle-IsRing
