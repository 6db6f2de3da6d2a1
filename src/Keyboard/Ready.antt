-- ===== src/Keyboard/Ready.antt =====
-- ps2_keyboard_driver_init on a keyboard that is ready whenever it is asked.
use Prim.Native.Nat.{bit_and}
use Prim.Native.String.{String}
use mathlib.Core.Path.{subst}
use csc.Base.{
  ℕ, zero, suc, ◌+◌, ◌≤◌, sym, ap, ◌∙◌, ◌||◌, leb, ltb, get_or, length, [], ◌∷◌, arith, ◌%◌, ◌≡◌,
  ◌≢◌, refl, Bool, true, false, ◌&&◌, not, ◌==◌, List, if◌then◌else◌, null, Bool-cases, if_both,
  inl, inr, ne→==, set,
}
use csc.Base.Ports.{Access, Device, io_wait_n}
use csc.Base.Outcome.{Outcome, Returns, Returns-bind}
use csc.Base.Text.{codes}
use csc.Strings.{Memory, count, strlen, strnlen}
use csc.Vga.Bounds.{OnScreen}
use csc.Serial.Ring.{IsRing}
use csc.Printk.Format.{Console, characters, string_at, printk}
use csc.Printk.Pieces.{number, string, plain, upper_hex, format, arguments}
use csc.Printk.Safe.{IsSound}
use csc.Exceptions.{say}
use csc.Exceptions.Report.{is_plain, around, around-IsSound}
use csc.Mmu.Report.Whole.{Whole, fields-Whole}
use csc.Irq.{Irq, Entry, irq_set_handler}
use csc.Keyboard.{
  data_port, status_register, io_wait_len, keyboard_read, keyboard_write, poll_input, poll_output,
}
use csc.Keyboard.Start.{
  Tested, passed, bad_controller, bad_port, bad_reset, self_test, prepare, failure, set_up_keyboard,
  with_message, port_error, keyboard_irq, set_scan_code, verify_scan_code, enable_port, with_io,
  ps2_keyboard_driver_init,
}

-- The status says that a byte can be read and that one can be written, and no answer is "resend".
pub record IsReady (dev : Device) : Type 0 where
  pub full : (io : List Access) → bit_and (dev io status_register % 256) 1 ≢ 0
  pub taken : (io : List Access) → bit_and (dev io status_register % 256) 2 ≡ 0
  pub no_resend : (io : List Access) → dev io data_port % 256 ≢ 0xFE

-- Nothing but the port accesses and the table has changed.
abbrev pub Installs : Irq → List Entry → Irq → Type 0
Installs q table q' =
    (q'.irq_handler_table ≡ table)
    × (q'.status_prev ≡ q.status_prev)
    × (q'.status_curr ≡ q.status_curr)
    × (q'.interrupt_flag ≡ q.interrupt_flag)

module _ (dev : Device) (ready : IsReady dev) (wait : ℕ) where
  keyboard_read-Returns :
      (io : List Access) → Returns (keyboard_read dev (suc wait) true io) (λ (b, io'). b ≢ 0xFE)
  unfolding keyboard_read poll_output
  keyboard_read-Returns io =
      rw (ne→== _ 0 (ready.full (io_wait_n io_wait_len io))) (_, refl, ready.no_resend _)

  keyboard_write-Returns :
      (byte : ℕ) (io : List Access)
      → Returns (keyboard_write dev (suc wait) byte true io) (λ io'. Unit {0})
  unfolding keyboard_write poll_input
  keyboard_write-Returns byte io = rw (ready.taken (io_wait_n io_wait_len io)) (_, refl, tt)

  set_scan_code-Returns :
      (k : ℕ) (io : List Access) → Returns (set_scan_code dev (suc wait) (suc k) io) (λ t. Unit {0})
  unfolding set_scan_code
  set_scan_code-Returns k io =
      Returns-bind {P = λ io'. Unit {0}} (keyboard_write-Returns 0xF0 io) λ io1 _.
        Returns-bind {P = λ io'. Unit {0}} (keyboard_write-Returns 0x02 io1) λ io2 _.
          Returns-bind {P = λ (b, io'). b ≢ 0xFE} (keyboard_read-Returns io2)
            λ (b, io3) other. rw (ne→== b 0xFE other) (_, refl, tt)

  verify_scan_code-Returns :
      (status : ℕ) (io : List Access)
      → Returns (verify_scan_code dev (suc wait) status io) (λ t. Unit {0})
  unfolding verify_scan_code
  verify_scan_code-Returns status io =
      Returns-bind {P = λ io'. Unit {0}} (keyboard_write-Returns 0xF0 io) λ io1 _.
        Returns-bind {P = λ io'. Unit {0}} (keyboard_write-Returns 0x00 io1) λ io2 _.
          Returns-bind {P = λ (b, io'). b ≢ 0xFE} (keyboard_read-Returns io2) λ (b, io3) other.
            elim (Bool-cases (b == 0xFA)) [
              | inl e ↦ rw e (
                  Returns-bind {P = λ (b, io'). b ≢ 0xFE} (keyboard_read-Returns io3)
                    λ (c, io4) other. (_, refl, tt))
              | inr e ↦ rw e (_, refl, tt)
            ]

abbrev entry_for : ℕ → Entry
entry_for handler = record { handler = handler; arg = null }

enable_port-Installs :
    (dev : Device) (handler : ℕ) (irq_enable : Bool) (q : Irq)
    → Installs q
        (if irq_enable
          then set q.irq_handler_table keyboard_irq (entry_for handler)
          else q.irq_handler_table)
        (enable_port dev handler irq_enable q)
unfolding enable_port irq_set_handler
enable_port-Installs dev handler true q = (refl, refl, refl, refl)
enable_port-Installs dev handler false q = (refl, refl, refl, refl)

-- The text of an error ends within its array.
count-le : (s k n : ℕ) (mem : Memory) → mem (s + n) ≡ 0 → count s k mem ≤ n
unfolding count
count-le s zero n mem ends = omega arith
count-le s (suc k) zero mem ends =
    let here : mem s ≡ 0 = ap mem (omega arith) ∙ ends in rw here (omega arith)
count-le s (suc k) (suc n) mem ends =
    let rest = count-le (s + 1) k n mem (ap mem (omega arith) ∙ ends) in
    if_both (λ t. t ≤ suc n) (mem s == 0) (omega arith) (omega arith)

length-characters : (p n : ℕ) (mem : Memory) → length (characters p n mem) ≡ n
length-characters p zero mem = refl
length-characters p (suc n) mem = ap suc (length-characters (p + 1) n mem)

counted-le :
    (p k n : ℕ) (mem : Memory) → mem (p + n) ≡ 0 → length (characters p (count p k mem) mem) ≤ n
counted-le p k n mem ends =
    subst (λ t. t ≤ n) (sym (length-characters p (count p k mem) mem)) (count-le p k n mem ends)

zero_le : (n : ℕ) → 0 ≤ n
zero_le n = omega arith

string_at-le : (p n : ℕ) (mem : Memory) → mem (p + n) ≡ 0 → length (string_at p mem) ≤ n
unfolding string_at strlen strnlen
string_at-le p n mem ends =
    let P = λ (t : List ℕ). length t ≤ n in
    let counted = counted-le p 65536 n mem ends in
    if_both P (p == null) (zero_le n) (
      if_both (λ t. length (characters p t mem) ≤ n) ((p == null) || (65536 == 0) || (mem p == 0))
        (zero_le n) counted)

message-le :
    (err_msg b : ℕ) (mem : Memory)
    → length (string_at err_msg (with_message err_msg (port_error b) mem)) ≤ 31
message-le err_msg b mem =
    string_at-le err_msg 31 (with_message err_msg (port_error b) mem)
      (rw inside (ap (λ i. get_or (port_error b) i 0) (omega arith) ∙ ends))
  where
    inside : (leb err_msg (err_msg + 31) && ltb (err_msg + 31) (err_msg + 32)) ≡ true
    inside = ground arith

    ends : get_or (port_error b) 31 0 ≡ 0
    ends =
        let P = λ (t : List ℕ). get_or t 31 0 ≡ 0 in
        if_both P (b == 1) refl
          (if_both P (b == 2) refl (if_both P (b == 3) refl (if_both P (b == 4) refl refl)))

-- What is so at the end. After a failure the report has come out whole, and the screen and the ring are
-- sound; after a success only the interrupt state has changed, by port accesses and the handler.
abbrev pub Started : ℕ → Bool → Console → Bool × Console → Type 0
Started handler irq_enable s (false, s') = IsSound s s'
Started handler irq_enable s (true, s') =
    Installs s.serial.irq
      (if irq_enable
        then set s.serial.irq.irq_handler_table keyboard_irq (entry_for handler)
        else s.serial.irq.irq_handler_table)
      s'.serial.irq
    × (s' ≡ record s { serial = record s.serial { irq = s'.serial.irq } })

module _ (dev : Device) (s : Console) (on : OnScreen s.vga) (ring : IsRing s.serial) where
  failure-Started :
      (mem : Memory) (text : String) (args : List ℕ) (io : List Access) (handler : ℕ)
      (irq_enable : Bool)
      → Whole dev mem s (say dev mem text args)
      → Returns (failure dev mem text args io s) (Started handler irq_enable s)
  unfolding failure
  failure-Started mem text args io handler irq_enable whole =
      Returns-bind {P = IsSound s}
        (whole (record s { serial = record s.serial { irq = with_io io s.serial.irq } })
          (on, ring, λ x out. refl))
        λ t sound. ((false, t), refl, sound)

  number-Whole :
      (mem : Memory) (before behind : List ℕ) (b : ℕ)
      → is_plain before ≡ true
      → is_plain behind ≡ true
      → Whole dev mem s (
          printk dev mem
            (format (around (number plain upper_hex b) before behind))
            (arguments (around (number plain upper_hex b) before behind)))
  number-Whole mem before behind b h k t sound =
      around-IsSound dev mem s (number plain upper_hex b) before behind t tt h k sound

  set_up_keyboard-Started :
      (mem : Memory) (wait fuel handler : ℕ) (irq_enable : Bool) (io : List Access)
      → IsReady dev
      → Returns
          (set_up_keyboard dev mem (suc wait) (suc fuel) handler irq_enable io s)
          (Started handler irq_enable s)
  unfolding set_up_keyboard
  set_up_keyboard-Started mem wait fuel handler irq_enable io ready =
      let P = λ (m : Outcome (Bool × Console)). Returns m (Started handler irq_enable s) in
      Returns-bind {P = λ t. Unit {0}} (set_scan_code-Returns dev ready wait fuel io)
        λ (status, io1) _.
          if_both P (not (status == 0xFA))
            (failure-Started mem "ERROR: Get scan code returned 0x%X\n" (status ∷ []) io1 handler
              irq_enable
              (number-Whole mem (codes "ERROR: Get scan code returned 0x") (codes "\n") status refl
                refl))
            (Returns-bind {P = λ t. Unit {0}} (verify_scan_code-Returns dev ready wait status io1)
              λ (same, shown, io2) _.
                if_both P (not same)
                  (failure-Started mem "ERROR: Get scan code returned 0x%X\n\n" (shown ∷ []) io2
                    handler irq_enable
                    (number-Whole mem (codes "ERROR: Get scan code returned 0x") (codes "\n\n")
                      shown refl refl))
                  (
                    _,
                    refl,
                    (enable_port-Installs dev handler irq_enable (with_io io2 s.serial.irq), refl),
                  ))

-- On a keyboard whose status always says that a byte can be read and written, and that never asks
-- for a byte again, ps2_keyboard_driver_init returns, with one round for each wait. On success the
-- handler is installed if interrupts are asked for, and nothing else has changed but the ports. On
-- failure its report does not overrun the buffer of printk, the cursor is still on the screen, no
-- cell behind the screen has changed, and the ring of the serial port is well formed. The cursor
-- is on the screen and the ring well formed before.
pub ps2_keyboard_driver_init-Started :
    (dev : Device) (mem : Memory) (err_msg wait fuel handler : ℕ) (irq_enable : Bool) (s : Console)
    → IsReady dev
    → OnScreen s.vga
    → IsRing s.serial
    → Returns
        (ps2_keyboard_driver_init dev mem err_msg (suc wait) (suc fuel) handler irq_enable s)
        (Started handler irq_enable s)
unfolding ps2_keyboard_driver_init
ps2_keyboard_driver_init-Started dev mem err_msg wait fuel handler irq_enable s ready on ring =
    let (config, io) = prepare dev irq_enable s.serial.irq.io in tests (self_test dev config io)
  where
    tests :
        (r : Tested × List Access)
        → Returns
            (elim r.0 [
              | passed ↦ set_up_keyboard dev mem (suc wait) (suc fuel) handler irq_enable r.1 s
              | bad_controller b ↦
                  failure dev mem "ERROR: PS/2 Controller Self Test Failed! Exit code = 0x%X\n\n"
                    (b ∷ [])
                    r.1
                    s
              | bad_port b ↦
                  failure dev
                    (with_message err_msg (port_error b) mem)
                    "ERROR: PS/2 Port 1 Interface Test Failed! Exit code = 0x%X ( %s )\n\n"
                    (b ∷ err_msg ∷ [])
                    r.1
                    s
              | bad_reset b ↦
                  failure dev mem "ERROR: PS/2 Port 1 Reset Failed! Exit code = 0x%X\n\n"
                    (b ∷ [])
                    r.1
                    s
            ])
            (Started handler irq_enable s)
    tests (passed, io) =
        set_up_keyboard-Started dev s on ring mem wait fuel handler irq_enable io ready
    tests (bad_controller b, io) =
        failure-Started dev s on ring mem
          "ERROR: PS/2 Controller Self Test Failed! Exit code = 0x%X\n\n" (b ∷ []) io handler
          irq_enable
          (number-Whole dev s on ring mem
            (codes "ERROR: PS/2 Controller Self Test Failed! Exit code = 0x") (codes "\n\n") b refl
            refl)
    tests (bad_port b, io) =
        let mem' = with_message err_msg (port_error b) mem in
        failure-Started dev s on ring mem'
          "ERROR: PS/2 Port 1 Interface Test Failed! Exit code = 0x%X ( %s )\n\n" (b ∷ err_msg ∷ [])
          io handler irq_enable
          (fields-Whole dev mem' s []
            ((
              codes "ERROR: PS/2 Port 1 Interface Test Failed! Exit code = 0x",
              number plain upper_hex b,
            )
              ∷ (codes " ( ", string err_msg)
              ∷ [])
            (codes " )\n\n")
            (codes "ERROR: PS/2 Port 1 Interface Test Failed! Exit code = 0x%X ( %s )\n\n")
            (b ∷ err_msg ∷ []) refl (refl, tt, (refl, message-le err_msg b mem, refl)) refl refl)
    tests (bad_reset b, io) =
        failure-Started dev s on ring mem "ERROR: PS/2 Port 1 Reset Failed! Exit code = 0x%X\n\n"
          (b ∷ []) io handler irq_enable
          (number-Whole dev s on ring mem (codes "ERROR: PS/2 Port 1 Reset Failed! Exit code = 0x")
            (codes "\n\n") b refl refl)
