-- ===== src/Vga/Place.antt =====
-- The position of the cursor of vga_driver.c as the screen holds it, the start of the screen, and
-- characters at a position.
use Prim.Native.Nat.{bit_or}
use mathlib.Core.Path.{ap₂}
use csc.Base.Bits.{all_below, all_below_sound}
use csc.Base.{
  Bool, true, refl, ==→eq, ℕ, ◌^◌, ◌+◌, ◌*◌, ◌/◌, ◌%◌, ◌-◌, ◌<◌, ◌≡◌, List, [], ◌∷◌, if◌then◌else◌,
  ltb, ◌==◌, ◌&&◌, ◌∙◌, ap, arith,
}
use csc.Base.Ports.{Access, Device, got, sent, inb, outb}
use csc.Vga.{
  Vga, num_cols, num_rows, data_port_a, data_port_b, default_attr, set_cursor_pos, update_cursor,
  enable_cursor, disable_cursor, get_char, clear, display_attr_char, display_attr_str,
}

-- The row and the column, from the two registers.
abbrev pub get_cursor_pos : Device → Vga → (ℕ × ℕ) × Vga
get_cursor_pos dev s =
    let (low, io) = inb dev data_port_b (outb data_port_a 0x0F s.irq.io) in
    let (high, io) = inb dev data_port_b (outb data_port_a 0x0E io) in
    let pos = bit_or low (high * 256) in
    ((pos / num_cols % 256, pos % num_cols % 256), record s { irq = record s.irq { io = io } })

abbrev pub get_char_at_cursor : Vga → ℕ
get_char_at_cursor s = get_char s.row s.col s

abbrev pub cursor_home : Vga → Vga
cursor_home s = update_cursor (record s { row = 0; col = 0 })

abbrev pub vga_driver_init : Device → Vga → Vga
vga_driver_init dev s = enable_cursor dev (clear s)

abbrev pub display_str : Device → List ℕ → Vga → Vga
display_str dev cs s = display_attr_str dev cs default_attr s

-- The address of the character is taken for that of a string: `behind` is what stands behind the
-- character in memory, up to the next NUL.
abbrev pub display_char : Device → ℕ → List ℕ → Vga → Vga
display_char dev c behind s = display_str dev (if c == 0 then [] else c ∷ behind) s

-- VGA_CHAR_ATTR without the two flags, as a byte.
abbrev pub char_attr : ℕ → ℕ → ℕ
char_attr bkgnd frgnd = bit_or (bkgnd * 16) frgnd % 256

-- The position is given to the screen only: the character goes where the driver's own cursor is.
unfoldable pub display_attr_char_pos : Device → ℕ → ℕ → ℕ → ℕ → ℕ → Vga → Vga
unfolding display_attr_char
display_attr_char_pos dev x y c fg_color bg_color s =
    let row = if ltb x num_cols then x else num_cols - 1 in
    let col = if ltb y num_rows then y else num_rows - 1 in
    enable_cursor dev (
      display_attr_char dev c (char_attr bg_color fg_color)
        (set_cursor_pos row col (disable_cursor s)))

-- The register that is chosen, and what was last sent to a register.
abbrev pub chosen : List Access → ℕ
chosen [] = 0
chosen (got port v ∷ io) = chosen io
chosen (sent port v ∷ io) = if port == data_port_a then v else chosen io

abbrev pub register : ℕ → List Access → ℕ
register reg [] = 0
register reg (got port v ∷ io) = register reg io
register reg (sent port v ∷ io) =
    if (port == data_port_b) && (chosen io == reg) then v else register reg io

-- A screen whose data port gives the byte last sent to the chosen register.
abbrev pub Remembers : Device → Type 0
Remembers dev = (io : List Access) → dev io data_port_b ≡ register (chosen io) io

abbrev at_cell : ℕ → ℕ → ℕ × ℕ
at_cell low high = let pos = bit_or low (high * 256) in (pos / 80 % 256, pos % 80 % 256)

get_cursor_pos-bytes :
    (dev : Device) (row col : ℕ) (s : Vga)
    → Remembers dev
    → let i = (row * 80 + col) % 2 ^ 16 in
      (get_cursor_pos dev (set_cursor_pos row col s)).0
      ≡ at_cell (i % 256 % 256 % 256) (i / 256 % 256 % 256)
get_cursor_pos-bytes dev row col s remembers =
    ap₂ (λ low high. at_cell (low % 256) (high % 256)) (remembers _) (remembers _)

abbrev kept : ℕ → Bool
kept p = bit_or (p % 256) (p / 256 * 256) == p

kept-all : all_below 2000 kept ≡ true
unfolding all_below
kept-all = refl

-- On a screen whose data port gives the byte last sent to the chosen register, VGA_get_cursor_pos
-- after VGA_set_cursor_pos answers the row and the column of every position of the screen.
pub get_cursor_pos-set_cursor_pos :
    (dev : Device) (row col : ℕ) (s : Vga)
    → Remembers dev
    → row < 25
    → col < 80
    → (get_cursor_pos dev (set_cursor_pos row col s)).0 ≡ (row, col)
get_cursor_pos-set_cursor_pos dev row col s remembers row_in col_in =
    let p = row * 80 + col in
    let whole = ==→eq _ p (all_below_sound 2000 kept p kept-all (omega arith)) in
    get_cursor_pos-bytes dev row col s remembers
    ∙ ap₂ at_cell bytes_low bytes_high
    ∙ ap (λ pos. (pos / 80 % 256, pos % 80 % 256)) whole
    ∙ ap₂ (λ r c. (r, c)) (omega arith) (omega arith)
  where
    bytes_low : (row * 80 + col) % 2 ^ 16 % 256 % 256 % 256 ≡ (row * 80 + col) % 256
    bytes_low = omega arith

    bytes_high : (row * 80 + col) % 2 ^ 16 / 256 % 256 % 256 ≡ (row * 80 + col) / 256
    bytes_high = omega arith
