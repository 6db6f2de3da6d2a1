-- ===== src/Vga.antt =====
-- The text screen, Bric_OS/src/drivers/vga_driver.c and vga_driver.h.
-- The buffer at 0xB8000 is a memory of 16-bit cells, so that the byte counts of memset and memcpy
-- are halved; a cell is `attr * 256 + ch`. Strings are the lists of their characters without the NUL.
pub mod Bounds
pub mod Scroll
pub mod Place
mod Tests
use Prim.Native.Nat.{bit_and, bit_or}
use csc.Base.{
  ℕ, zero, suc, ◌+◌, ◌-◌, ◌*◌, ◌/◌, ◌%◌, ◌^◌, Bool, true, false, ◌&&◌, ◌||◌, not, ◌==◌, ltb, leb,
  List, [], ◌∷◌, if◌then◌else◌, update,
}
use csc.Base.Ports.{Access, Device, inb, outb}
use csc.Strings.{Memory, memset, memcpy}
use csc.Irq.{Irq, irq_disable, irq_reenable}

pub record Vga : Type 0 where
  pub cells : Memory
  pub row : ℕ
  pub col : ℕ
  pub irq : Irq

abbrev pub num_cols : ℕ
num_cols = 80

abbrev pub num_rows : ℕ
num_rows = 25

abbrev pub total_size : ℕ
total_size = num_cols * num_rows

abbrev pub data_port_a : ℕ
data_port_a = 0x3D4

abbrev pub data_port_b : ℕ
data_port_b = 0x3D5

-- VGA_CHAR_DEFAULT_ATTR: white on black.
abbrev pub default_attr : ℕ
default_attr = 0x0F

abbrev pub convert_pos : ℕ → ℕ → ℕ
convert_pos row col = row * num_cols + col

abbrev pub convert_ch_attr : ℕ → ℕ → ℕ
convert_ch_attr ch attr = attr % 256 * 256 + ch % 256

abbrev pub putc : ℕ → ℕ → Vga → Vga
putc ch attr s = record s {
  cells = update s.cells (convert_pos s.row s.col) (convert_ch_attr ch attr);
}

abbrev with_io : (List Access → List Access) → Vga → Vga
with_io f s = record s { irq = record s.irq { io = f s.irq.io } }

-- The index is sent low byte first.
abbrev pub set_cursor_pos : ℕ → ℕ → Vga → Vga
set_cursor_pos row col s =
    let i = convert_pos row col % 2 ^ 16 in
    with_io
      (λ io.
        outb data_port_b (i / 256)
          (outb data_port_a 0xE (outb data_port_b (i % 256) (outb data_port_a 0xF io))))
      s

abbrev pub update_cursor : Vga → Vga
update_cursor s = set_cursor_pos s.row s.col s

-- One cursor register: read, masked, and written back with its new low bits.
abbrev pub change_register : Device → ℕ → ℕ → ℕ → List Access → List Access
change_register dev reg mask low io =
    let (v, io) = inb dev data_port_b (outb data_port_a reg io) in
    outb data_port_b (bit_or (bit_and v mask) low) io

abbrev pub enable_cursor : Device → Vga → Vga
enable_cursor dev s =
    with_io (λ io. change_register dev 0x0B 0xE0 num_rows (change_register dev 0x0A 0xC0 0 io))
      (update_cursor s)

abbrev pub disable_cursor : Vga → Vga
disable_cursor s =
    putc 0 default_attr (with_io (λ io. outb data_port_b 0x20 (outb data_port_a 0xA io)) s)

abbrev pub get_char : ℕ → ℕ → Vga → ℕ
get_char row col s = s.cells (convert_pos row col) % 256

abbrev pub clear : Vga → Vga
clear s = update_cursor (record s { cells = memset 0 0 total_size s.cells; row = 0; col = 0 })

unfoldable pub scroll : ℕ → Vga → Vga
scroll lines s =
    let moved = memcpy 0 (lines * num_cols) (total_size - lines * num_cols) s.cells in
    let blank = memset ((num_rows - lines) * num_cols) 0 (lines * num_cols) moved in
    if lines == 0
    then s
    else if leb num_rows lines
    then update_cursor (record (clear s) { row = 0; col = 0 })
    else update_cursor
        (record s { cells = blank; row = if ltb lines s.row then s.row - lines else 0 })

-- The loop of VGA_process_backspace; it starts at a column that is not 0.
unfoldable pub back : ℕ → ℕ → Vga → ℕ
back row zero s = 0
back row (suc k) s = let on = back row k s in if (get_char row k s == 0) && ltb 0 k then on else k

unfoldable pub process_backspace : Vga → Vga
unfolding back
process_backspace s =
    let r = if s.col == 0 then s.row - 1 else s.row in
    let c = if s.col == 0 then num_cols else s.col in
    if (s.col == 0) && (s.row == 0)
    then s
    else putc 0 default_attr (record s { row = r; col = back r c s })

-- The loop of the tab character; three steps are enough.
unfoldable pub tab_stop : ℕ → ℕ → ℕ
tab_stop zero col = col
tab_stop (suc k) col = let on = tab_stop k ((col + 1) % 256) in if col % 4 == 0 then col else on

-- A line feed behind a full line without one is ignored.
abbrev pub line_feed : ℕ → Vga → Vga
line_feed attr s =
    if (s.col == 0)
      && ltb 0 s.row
      && not (get_char (s.row - 1) (num_cols - 1) s == 0)
      && not (get_char (s.row - 1) (num_cols - 1) s == 0x0A)
    then s
    else record (putc 0x20 attr s) { col = num_cols }

-- The switch, but for the escape character.
unfoldable pub place_char : ℕ → ℕ → Vga → Vga
unfolding process_backspace tab_stop
place_char c attr s =
    if c == 0x0D
    then record (putc 0x20 attr s) { col = 0 }
    else if c == 0x0A
    then line_feed attr s
    else if c == 0x09
    then record (putc 0x20 attr s) { col = tab_stop 4 s.col }
    else if (c == 0x08) || (c == 0x7F)
    then process_backspace s
    else record (putc c attr s) { col = (s.col + 1) % 256 }

-- The step to the next line.
unfoldable pub wrap_line : Vga → Vga
unfolding scroll
wrap_line s =
    let down = record s { col = 0; row = (s.row + 1) % 256 } in
    if ltb s.col num_cols
    then s
    else if ltb down.row num_rows
    then down
    else record (scroll 1 down) { row = num_rows - 1 }

abbrev leave_irq : (Irq → Irq) → Vga → Vga
leave_irq f s = record s { irq = f s.irq }

-- VGA_display_attr_char on any character but the escape character.
unfoldable pub print_char : ℕ → ℕ → Vga → Vga
unfolding place_char wrap_line irq_disable irq_reenable
print_char c attr s =
    leave_irq irq_reenable (wrap_line (place_char c attr (leave_irq irq_disable s)))

unfoldable pub print_chars : List ℕ → ℕ → Vga → Vga
unfolding print_char
print_chars [] attr s = s
print_chars (c ∷ cs) attr s = print_chars cs attr (print_char c attr s)

-- "Escape sequences are not yet supported! :(\n"
abbrev pub escape_message : List ℕ
escape_message =
    69 ∷ 115 ∷ 99 ∷ 97 ∷ 112 ∷ 101 ∷ 32 ∷ 115 ∷ 101 ∷ 113 ∷ 117 ∷ 101 ∷ 110 ∷ 99 ∷ 101 ∷ 115 ∷ 32
    ∷ 97 ∷ 114 ∷ 101 ∷ 32 ∷ 110 ∷ 111 ∷ 116 ∷ 32 ∷ 121 ∷ 101 ∷ 116 ∷ 32 ∷ 115 ∷ 117 ∷ 112 ∷ 112
    ∷ 111 ∷ 114 ∷ 116 ∷ 101 ∷ 100 ∷ 33 ∷ 32 ∷ 58 ∷ 40 ∷ 10 ∷ []

-- The escape character prints a message, and returns without IRQ_reenable.
unfoldable pub display_attr_char : Device → ℕ → ℕ → Vga → Vga
unfolding print_char print_chars irq_disable
display_attr_char dev c attr s =
    let start = disable_cursor (leave_irq irq_disable s) in
    if c == 0x1B
    then enable_cursor dev (print_chars escape_message default_attr start)
    else print_char c attr s

unfoldable pub display_chars : Device → List ℕ → ℕ → Vga → Vga
unfolding display_attr_char
display_chars dev [] attr s = s
display_chars dev (c ∷ cs) attr s = display_chars dev cs attr (display_attr_char dev c attr s)

unfoldable pub display_attr_str : Device → List ℕ → ℕ → Vga → Vga
unfolding display_chars
display_attr_str dev cs attr s = enable_cursor dev (display_chars dev cs attr (disable_cursor s))
