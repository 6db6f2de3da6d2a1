-- ===== src/Keyboard/Start.antt =====
-- The start of the keyboard, ps2_keyboard_driver_init of ps2_keyboard_driver.c, and its interrupt.
-- The addresses of the handlers are arguments; the character of the interrupt handler, which goes to
-- VGA_display_char, is its result.
use Prim.Native.Nat.{bit_and, bit_or}
use Prim.Native.String.{String}
use csc.Base.{
  ◌+◌, ◌-◌, ◌&&◌, leb, ltb, get_or, [], ◌∷◌, ℕ, zero, suc, Bool, true, false, not, ◌==◌, List,
  if◌then◌else◌, null,
}
use csc.Base.Ints.{ℤ}
use csc.Base.Ports.{Access, Device, inb}
use csc.Base.Outcome.{Outcome, ok, out_of_fuel, ◌>>=◌}
use csc.Base.Text.{codes}
use csc.Strings.{Memory}
use csc.Printk.Format.{Console, printk}
use csc.Exceptions.{say}
use csc.Pic.{pic_clear_mask}
use csc.Irq.{Irq, irq_set_handler}
use csc.Keyboard.{
  Keyboard, data_port, command_register_cmd, command_register_cmd_read, command_register_cmd_write,
  keyboard_read, keyboard_write, process_scan_code,
}

-- IRQ33_KEYBOARD.
abbrev pub keyboard_irq : ℕ
keyboard_irq = 0x21

unfoldable pub ps2_keyboard_irq_handler :
    Device → Keyboard → List Access → Outcome (ℤ × Keyboard × List Access)
ps2_keyboard_irq_handler dev s io = do
  (code, io) ← keyboard_read dev 1 false io
  let (key, s) = process_scan_code code s
  ok (key, s, io)

-- The configuration byte: the clock of port 2 off and the system flag on; the clock of port 1 on and
-- the interrupts off, but for that of port 1 where it is asked for.
abbrev pub configure : Bool → ℕ → ℕ
configure irq_enable b =
    let b1 = bit_and (bit_or b 0x24) 0xEC in if irq_enable then bit_or b1 0x01 else b1

-- The ports are disabled, the data is flushed, and the configuration is changed.
unfoldable pub prepare : Device → Bool → List Access → ℕ × List Access
unfolding command_register_cmd command_register_cmd_read command_register_cmd_write
prepare dev irq_enable io =
    let io = command_register_cmd 0xA7 (command_register_cmd 0xAD io) in
    let io = (inb dev data_port (inb dev data_port io).1).1 in
    let (byte, io) = command_register_cmd_read dev 0x20 io in
    let config = configure irq_enable byte in (config, command_register_cmd_write 0x60 config io)

-- How the tests end; a failure has the byte that its message shows.
pub data Tested : Type 0 where
  passed : Tested
  bad_controller bad_port bad_reset : ℕ → Tested

-- The tests of the controller and of port 1, and the reset; the configuration is restored.
unfoldable pub self_test : Device → ℕ → List Access → Tested × List Access
unfolding command_register_cmd_read command_register_cmd_write
self_test dev config io =
    let (tested, io1) = command_register_cmd_read dev 0xAA io in
    let (now, io2) = command_register_cmd_read dev 0x20 io1 in
    let io3 = if not (now == config) then command_register_cmd_write 0x60 config io2 else io2 in
    let (port, io4) = command_register_cmd_read dev 0xAB io3 in
    let (reset, io5) = command_register_cmd_read dev 0xFF io4 in
    if not (tested == 0x55)
    then (bad_controller tested, io1)
    else if not (port == 0x00)
    then (bad_port port, io4)
    else if not (reset == 0)
    then (bad_reset reset, io5)
    else (passed, io5)

-- The switch over the result of the test of port 1.
abbrev pub port_error : ℕ → List ℕ
port_error status =
    if status == 0x01
    then codes "clock line stuck low"
    else if status == 0x02
    then codes "clock line stuck high"
    else if status == 0x03
    then codes "data line stuck low"
    else if status == 0x04
    then codes "data line stuck high"
    else codes "unknown error"

-- The array of 32 characters at `err_msg`, cleared, with the text in it.
abbrev pub with_message : ℕ → List ℕ → Memory → Memory
with_message err_msg text mem a =
    if leb err_msg a && ltb a (err_msg + 32) then get_or text (a - err_msg) 0 else mem a

-- The scan code set is sent until the keyboard takes it, or answers something else; the answer is
-- handed back. `wait` is the fuel of each wait.
unfoldable pub set_scan_code : Device → ℕ → ℕ → List Access → Outcome (ℕ × List Access)
unfolding keyboard_read keyboard_write
set_scan_code dev wait zero io = out_of_fuel
set_scan_code dev wait (suc k) io = do
  io ← keyboard_write dev wait 0xF0 true io
  io ← keyboard_write dev wait 0x02 true io
  (status, io) ← keyboard_read dev wait true io
  let again = set_scan_code dev wait k io
  if status == 0xFE then again else ok (status, io)

-- Whether the set is the right one, and the status byte, which the read of the set replaces.
unfoldable pub verify_scan_code : Device → ℕ → ℕ → List Access → Outcome (Bool × ℕ × List Access)
unfolding keyboard_read keyboard_write
verify_scan_code dev wait status io = do
  io ← keyboard_write dev wait 0xF0 true io
  io ← keyboard_write dev wait 0x00 true io
  (answer, io) ← keyboard_read dev wait true io
  if not (answer == 0xFA)
      then ok (false, status, io)
      else (do (code, io) ← keyboard_read dev wait true io; ok (code == 0x41, code, io))

-- Port 1 is enabled, and its interrupt where it is asked for.
unfoldable pub enable_port : Device → ℕ → Bool → Irq → Irq
unfolding command_register_cmd irq_set_handler pic_clear_mask
enable_port dev handler irq_enable q =
    let q1 = record q { io = command_register_cmd 0xAE q.io } in
    let q2 = (irq_set_handler keyboard_irq handler null q1).1 in
    if irq_enable then record q2 { io = (pic_clear_mask dev keyboard_irq q2.io).1 } else q1

abbrev pub with_io : List Access → Irq → Irq
with_io io q = record q { io = io }

-- OS_ERROR with a status byte, and FAILURE.
unfoldable pub failure :
    Device → Memory → String → List ℕ → List Access → Console → Outcome (Bool × Console)
unfolding printk
failure dev mem text args io s = do
  s ←
      say dev mem text args
        (record s { serial = record s.serial { irq = with_io io s.serial.irq } })
  ok (false, s)

-- From the scan code set on.
unfoldable pub set_up_keyboard :
    Device → Memory → ℕ → ℕ → ℕ → Bool → List Access → Console → Outcome (Bool × Console)
unfolding set_scan_code verify_scan_code enable_port failure
set_up_keyboard dev mem wait fuel handler irq_enable io s = do
  (status, io) ← set_scan_code dev wait fuel io
  if not (status == 0xFA)
      then failure dev mem "ERROR: Get scan code returned 0x%X\n" (status ∷ []) io s
      else (do
        (same, shown, io) ← verify_scan_code dev wait status io
        if not same
            then failure dev mem "ERROR: Get scan code returned 0x%X\n\n" (shown ∷ []) io s
            else ok (
              true,
              record s {
                serial = record s.serial {
                  irq = enable_port dev handler irq_enable (with_io io s.serial.irq);
                };
              },
            ))

-- The result is true for SUCCESS. The interrupt state is that of the serial port in the console;
-- `err_msg` is the address of the text of an error, on the stack.
unfoldable pub ps2_keyboard_driver_init :
    Device → Memory → ℕ → ℕ → ℕ → ℕ → Bool → Console → Outcome (Bool × Console)
unfolding prepare self_test failure set_up_keyboard
ps2_keyboard_driver_init dev mem err_msg wait fuel handler irq_enable s =
    let (config, io) = prepare dev irq_enable s.serial.irq.io in
    let (tested, io) = self_test dev config io in
    let set_up = set_up_keyboard dev mem wait fuel handler irq_enable io s in
    elim tested [
      | passed ↦ set_up
      | bad_controller b ↦
          failure dev mem "ERROR: PS/2 Controller Self Test Failed! Exit code = 0x%X\n\n" (b ∷ [])
            io s
      | bad_port b ↦
          failure dev (with_message err_msg (port_error b) mem)
            "ERROR: PS/2 Port 1 Interface Test Failed! Exit code = 0x%X ( %s )\n\n"
            (b ∷ err_msg ∷ []) io s
      | bad_reset b ↦
          failure dev mem "ERROR: PS/2 Port 1 Reset Failed! Exit code = 0x%X\n\n" (b ∷ []) io s
    ]
