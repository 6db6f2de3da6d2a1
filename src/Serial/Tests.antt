-- ===== src/Serial/Tests.antt =====
-- The serial port's theorems at an empty ring.
use csc.Base.{ℕ, ◌≤◌, ◌≡◌, refl, true, false, List, [], ◌∷◌, ◌++◌, arith, replicate, take}
use csc.Base.Ports.{Device}
use csc.Serial.{Serial, serial_write}
use csc.Serial.Ring.{IsRing}
use csc.Serial.Order.{stream, bytes, serial_write-stream}
use csc.Base.Outcome.{Returns}
use csc.Printk.Format.{Console}
use csc.Printk.Safe.{IsSound}
use csc.Serial.Interrupt.{serial_tx_irq_handler, serial_tx_irq_handler-IsSound}

abbrev empty : Serial
empty = record {
  buff = replicate 16 0;
  prod = 5;
  cons = 5;
  count = 0;
  idle_flag = true;
  irq = record {
    irq_handler_table = [];
    status_prev = false;
    status_curr = true;
    interrupt_flag = false;
    io = [];
  };
}

empty-IsRing : IsRing empty
empty-IsRing = record {
  full_length = refl;
  cons_in = omega arith;
  room = omega arith;
  prod_at = refl;
}

-- The transmitter answers that it is the cause of every interrupt.
abbrev ready : Device
ready io port = 2

abbrev greeting : List ℕ
greeting = 72 ∷ 105 ∷ 33 ∷ []

serial_write-stream_example :
    let (n, s') = serial_write ready greeting empty in
    IsRing s' × (stream s' ≡ stream empty ++ take n (bytes greeting)) × (n ≤ 3)
serial_write-stream_example = serial_write-stream ready greeting empty empty-IsRing

abbrev console : Console
console = record {
  vga = record { cells = λ i. 0; row = 0; col = 0; irq = empty.irq };
  serial = empty;
}

serial_tx_irq_handler-IsSound_example :
    Returns (serial_tx_irq_handler ready (λ a. 0) console) (IsSound console)
serial_tx_irq_handler-IsSound_example =
    serial_tx_irq_handler-IsSound ready (λ a. 0) console (omega arith, omega arith) empty-IsRing
