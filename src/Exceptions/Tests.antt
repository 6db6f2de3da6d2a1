-- ===== src/Exceptions/Tests.antt =====
-- The report of an exception on an empty screen and an idle serial port.
use csc.Base.{refl, true, false, [], replicate, arith}
use csc.Base.Outcome.{Returns}
use csc.Base.Ports.{Device}
use csc.Irq.{Irq}
use csc.Serial.{Serial}
use csc.Serial.Ring.{IsRing}
use csc.Printk.Format.{Console}
use csc.Printk.Safe.{IsSound}
use csc.Exceptions.{exception_handler}
use csc.Exceptions.Report.{exception_handler-IsSound}

-- The line status always says that the transmitter is free.
abbrev quiet : Device
quiet io port = 0x20

abbrev irq : Irq
irq = record {
  irq_handler_table = [];
  status_prev = false;
  status_curr = true;
  interrupt_flag = true;
  io = [];
}

abbrev idle : Serial
idle = record {
  buff = replicate 16 0;
  prod = 15;
  cons = 15;
  count = 0;
  idle_flag = true;
  irq = irq;
}

idle-IsRing : IsRing idle
idle-IsRing = record {
  full_length = refl;
  cons_in = omega arith;
  room = omega arith;
  prod_at = refl;
}

-- The cursor is on the last cell, so that the first line scrolls the screen.
abbrev console : Console
console = record { vga = record { cells = λ i. 0; row = 24; col = 79; irq = irq }; serial = idle }

-- A general protection fault with the selector of the task state.
exception_handler-IsSound_example :
    Returns (exception_handler quiet (λ a. 0) 13 0x28 console) (IsSound console)
exception_handler-IsSound_example =
    exception_handler-IsSound quiet (λ a. 0) console 13 0x28 (omega arith, omega arith) idle-IsRing
