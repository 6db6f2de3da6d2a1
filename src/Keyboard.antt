-- ===== src/Keyboard.antt =====
-- The PS/2 keyboard, Bric_OS/src/drivers/ps2_keyboard_driver.c: the port accesses, the scan codes.
-- The start of the controller and the interrupt are in Start.
-- Bit 7 of a byte is the test `128 ≤ byte`. Messages are left out; so is what the keys are shown
-- with, VGA_display_char, which Vga models.
pub mod Tables
pub mod Keys
pub mod Case
pub mod Start
pub mod Ready
mod Tests
use Prim.Native.Nat.{bit_and}
use csc.Base.{
  ℕ, zero, suc, ◌+◌, ◌-◌, ◌%◌, ◌<◌, Bool, true, false, ◌&&◌, ◌||◌, not, ◌==◌, ltb, leb, List,
  if◌then◌else◌, get_or,
}
use csc.Base.Ints.{ℤ, pos, minus_one}
use csc.Base.Outcome.{Outcome, ok, out_of_fuel, ◌>>=◌}
use csc.Base.Ports.{Access, Device, inb, outb, io_wait_n}
use Tables.{standard_lower, standard_upper, caps_lower, caps_upper}

pub record Keyboard : Type 0 where
  pub ascii_table_lower : List ℕ
  pub ascii_table_upper : List ℕ
  -- true for PRESSED
  pub key_state : Bool
  pub caps_state : Bool
  pub shift_state : Bool
  pub ctrl_state : Bool
  pub alt_state : Bool
  pub prev_code : ℕ
  pub curr_code : ℕ

-- The initial values of the globals.
abbrev pub initial : Keyboard
initial = record {
  ascii_table_lower = standard_lower;
  ascii_table_upper = standard_upper;
  key_state = false;
  caps_state = false;
  shift_state = false;
  ctrl_state = false;
  alt_state = false;
  prev_code = 0;
  curr_code = 0;
}

abbrev pub caps : ℕ
caps = 0x3A

abbrev pub lsft : ℕ
lsft = 0x2A

abbrev pub rsft : ℕ
rsft = 0x36

abbrev pub ctrl : ℕ
ctrl = 0x1D

abbrev pub alt : ℕ
alt = 0x38

abbrev pub is_shft : ℕ → Bool
is_shft c = (c == lsft) || (c == rsft)

abbrev pub is_arrow : ℕ → Bool
is_arrow c = (c == 0x48) || (c == 0x4B) || (c == 0x4D) || (c == 0x50)

-- The switch on a released key.
pub release_key : ℕ → Keyboard → Keyboard
release_key c s =
    if is_shft c
    then record s { shift_state = false }
    else if c == caps
    then record s {
      caps_state = false;
      ascii_table_lower = standard_lower;
      ascii_table_upper = standard_upper;
    }
    else if c == ctrl
    then record s { ctrl_state = false }
    else if c == alt
    then record s { alt_state = false }
    else s

-- The last case of the switch on a pressed key.
pub character : ℕ → Keyboard → ℤ
character c s =
    let key = get_or (if s.shift_state then s.ascii_table_upper else s.ascii_table_lower) c 0 in
    if leb 128 c then minus_one else if key == 0 then minus_one else pos key

pub press_key : ℕ → Keyboard → ℤ × Keyboard
press_key c s =
    if is_shft c
    then (minus_one, record s { shift_state = true })
    else if c == caps
    then (
      minus_one,
      record s {
        caps_state = true;
        ascii_table_lower = caps_lower;
        ascii_table_upper = caps_upper;
      },
    )
    else if c == ctrl
    then (minus_one, record s { ctrl_state = true })
    else if c == alt
    then (minus_one, record s { alt_state = true })
    else if is_arrow c
    then (minus_one, s)
    else (character c s, s)

-- The first assignments keep the scan code as a byte.
pub process_scan_code : ℕ → Keyboard → ℤ × Keyboard
process_scan_code scan_code s =
    let c = scan_code % 256 in
    let s1 = record s { prev_code = s.curr_code; curr_code = c } in
    if leb 128 c
    then (minus_one, release_key (c - 128) (record s1 { key_state = false }))
    else press_key c (record s1 { key_state = true })

abbrev pub io_wait_len : ℕ
io_wait_len = 100

abbrev pub status_register : ℕ
status_register = 0x64

abbrev pub command_register : ℕ
command_register = 0x64

abbrev pub data_port : ℕ
data_port = 0x60

pub command_register_cmd : ℕ → List Access → List Access
command_register_cmd command io = io_wait_n io_wait_len (outb command_register command io)

pub command_register_cmd_read : Device → ℕ → List Access → ℕ × List Access
command_register_cmd_read dev command io = inb dev data_port (command_register_cmd command io)

pub command_register_cmd_write : ℕ → ℕ → List Access → List Access
command_register_cmd_write command byte io = outb data_port byte (command_register_cmd command io)

-- The wait of keyboard_read: bit 0 of the status says that a byte is there.
pub poll_output : Device → ℕ → Bool → List Access → Outcome (List Access)
poll_output dev zero blocking io = out_of_fuel
poll_output dev (suc k) blocking io =
    let (status, io) = inb dev status_register (io_wait_n io_wait_len io) in
    let on = poll_output dev k blocking io in
    if (bit_and status 1 == 0) && blocking then on else ok io

pub keyboard_read : Device → ℕ → Bool → List Access → Outcome (ℕ × List Access)
keyboard_read dev fuel blocking io = do
  io ← poll_output dev fuel blocking io
  ok (inb dev data_port io)

-- The wait of keyboard_write: bit 1 of the status says that the last byte is not yet taken.
pub poll_input : Device → ℕ → Bool → List Access → Outcome (List Access)
poll_input dev zero blocking io = out_of_fuel
poll_input dev (suc k) blocking io =
    let (status, io) = inb dev status_register (io_wait_n io_wait_len io) in
    let on = poll_input dev k blocking io in
    if not (bit_and status 2 == 0) && blocking then on else ok io

pub keyboard_write : Device → ℕ → ℕ → Bool → List Access → Outcome (List Access)
keyboard_write dev fuel byte blocking io = do
  io ← poll_input dev fuel blocking io
  ok (io_wait_n io_wait_len (outb data_port byte io))

-- Each round reads without waiting for a byte.
pub polling_keyboard_get_char :
    Device → ℕ → Keyboard → List Access → Outcome (ℕ × Keyboard × List Access)
polling_keyboard_get_char dev zero s io = out_of_fuel
polling_keyboard_get_char dev (suc k) s io = do
  (code, io) ← keyboard_read dev 1 false io
  let (key, s) = process_scan_code code s
  let on = polling_keyboard_get_char dev k s io
  found key s io on
  where
    found :
        ℤ
        → Keyboard
        → List Access
        → Outcome (ℕ × Keyboard × List Access)
        → Outcome (ℕ × Keyboard × List Access)
    found (pos key) s io on = ok (key, s, io)
    found _ s io on = on
