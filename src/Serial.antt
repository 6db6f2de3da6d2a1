-- ===== src/Serial.antt =====
-- The serial port, Bric_OS/src/drivers/serial_io_driver.c: a ring of 16 bytes between the kernel, which
-- adds bytes, and the transmitter, which takes one when it is idle.
-- The two pointers into the ring are indices. The interrupt handler, which
-- prints, is in Serial.Interrupt.
pub mod Ring
pub mod Order
pub mod Interrupt
mod Tests
use Prim.Native.Nat.{bit_and}
use csc.Base.{
  ℕ, zero, suc, ◌+◌, ◌-◌, ◌%◌, ◌^◌, Bool, true, false, ◌&&◌, ◌||◌, not, ◌==◌, ltb, leb, List, [],
  ◌∷◌, if◌then◌else◌, null, length, get_or, set, replicate,
}
use csc.Base.Ints.{ℤ, pos, negsuc, minus_one}
use csc.Base.Ports.{Access, Device, inb, outb}
use csc.Pic.{pic_clear_mask}
use csc.Irq.{Irq, irq_disable, irq_reenable, irq_set_handler}

abbrev pub serial_buff_size : ℕ
serial_buff_size = 16

abbrev pub serial_port : ℕ
serial_port = 0x3F8

abbrev pub serial_irq : ℕ
serial_irq = 0x24

-- `serial_fifo_t`, and what else the driver's calls change.
pub record Serial : Type 0 where
  pub buff : List ℕ
  pub prod : ℕ
  pub cons : ℕ
  pub count : ℕ
  pub idle_flag : Bool
  pub irq : Irq

-- The pointer behind the last byte goes back to the first.
abbrev pub wrap : ℕ → ℕ
wrap p = if leb serial_buff_size p then 0 else p

abbrev pub with_io : (List Access → List Access) → Serial → Serial
with_io f s = record s { irq = record s.irq { io = f s.irq.io } }

-- A port is read for its effect or its value.
abbrev pub read_port : Device → ℕ → Serial → ℕ × Serial
read_port dev port s =
    let (v, io) = inb dev port s.irq.io in (v, record s { irq = record s.irq { io = io } })

unfoldable pub serial_fifo_init : Serial → Serial
serial_fifo_init s = record s {
  buff = replicate serial_buff_size 0;
  prod = 0;
  cons = 0;
  idle_flag = true;
  count = 0;
}

-- The result, the byte and the new state.
unfoldable pub cons_get : Serial → ℤ × ℕ × Serial
unfolding irq_disable irq_reenable
cons_get s =
    let left = s.count - 1 in
    let taken = record s {
      irq = irq_reenable (irq_disable s.irq);
      cons = wrap (s.cons + 1);
      count = left;
      idle_flag = if left == 0 then true else s.idle_flag;
    } in
    if s.count == 0 then (minus_one, 0, s) else (pos 0, get_or s.buff s.cons 0, taken)

-- The byte is sent if there is one.
abbrev pub send_taken : ℤ × ℕ × Serial → Serial
send_taken (pos zero, d, s) = with_io (λ io. outb serial_port d io) s
send_taken (_, d, s) = s

unfoldable pub hw_write : Device → Serial → Serial
unfolding cons_get
hw_write dev s =
    let taken = send_taken (cons_get (record s { idle_flag = false })) in
    let (line, looked) = read_port dev (serial_port + 5) s in
    if s.idle_flag
    then taken
    else if bit_and line 0x20 == 0x20
    then record looked { idle_flag = true }
    else looked

-- The byte is stored; nothing else happens yet.
unfoldable pub put : ℕ → Serial → Serial
put d s = record s {
  buff = set s.buff s.prod (d % 256);
  count = s.count + 1;
  prod = wrap (s.prod + 1);
}

unfoldable pub prod_add : Device → ℕ → Serial → ℤ × Serial
unfolding put hw_write irq_disable irq_reenable
prod_add dev d s =
    let s1 = record s { irq = irq_disable s.irq } in
    let s2 = put d s1 in
    let s3 = if s2.count == 1 then hw_write dev s2 else s2 in
    if not (s1.count == serial_buff_size)
    then (pos 0, record s3 { irq = irq_reenable s3.irq })
    else (minus_one, record s1 { irq = irq_reenable s1.irq })

-- The number of bytes that the ring had room for, and the new state.
abbrev next_byte : ℤ → ℕ × Serial → Serial → ℕ × Serial
next_byte (pos zero) (i, s) stopped = (suc i, s)
next_byte _ rest stopped = (0, stopped)

unfoldable pub serial_write : Device → List ℕ → Serial → ℕ × Serial
unfolding prod_add
serial_write dev [] s = (0, s)
serial_write dev (d ∷ ds) s =
    let rest = serial_write dev ds (prod_add dev d s).1 in
    next_byte (prod_add dev d s).0 rest (prod_add dev d s).1

-- The string is not NULL.
abbrev pub serial_print : Device → List ℕ → Serial → Serial
serial_print dev cs s = (serial_write dev cs s).1

-- The handler's address is an argument. The result is true for SUCCESS.
unfoldable pub serial_driver_init : Device → ℕ → Serial → Bool × Serial
unfolding serial_fifo_init irq_set_handler pic_clear_mask
serial_driver_init dev handler s =
    let set_up =
      with_io
        (λ io. outb serial_port 0xAE (
          outb (serial_port + 4) 0x1F (
            outb (serial_port + 2) 0x07 (
              outb (serial_port + 3) 0x03 (
                outb (serial_port + 1) 0x00 (
                  outb serial_port 0x01
                    (outb (serial_port + 3) 0x80 (outb (serial_port + 1) 0x00 io))))))))
        (serial_fifo_init s) in
    let (echo, tested) = read_port dev serial_port set_up in
    let ready =
      with_io (λ io. outb (serial_port + 1) 0x0E (outb (serial_port + 4) 0x0F io)) tested in
    let installed = irq_set_handler serial_irq handler null ready.irq in
    let unmasked = record installed.1 { io = (pic_clear_mask dev serial_irq installed.1.io).1 } in
    if not (echo == 0xAE)
    then (false, tested)
    else finish installed.0 (record ready { irq = installed.1 }) (record ready { irq = unmasked })
  where
    finish : ℤ → Serial → Serial → Bool × Serial
    finish (pos zero) failed done = (true, done)
    finish _ failed done = (false, failed)
