-- ===== src/Vga/Tests.antt =====
-- The screen's theorems at a screen that is full to its last line.
use csc.Base.{refl, ℕ, ◌≡◌, true, false, List, [], ◌∷◌, arith}
use csc.Base.Ports.{Device}
use csc.Vga.{set_cursor_pos, Vga, display_attr_str, default_attr}
use csc.Vga.Place.{get_cursor_pos, register, chosen, get_cursor_pos-set_cursor_pos}
use csc.Vga.Bounds.{OnScreen, SameOutside, display_attr_str-OnScreen}

abbrev full : Vga
full = record {
  cells = λ i. 3904;
  row = 24;
  col = 78;
  irq = record {
    irq_handler_table = [];
    status_prev = false;
    status_curr = true;
    interrupt_flag = false;
    io = [];
  };
}

abbrev silent : Device
silent io port = 0

-- A tab, two letters, a line feed, a backspace and an escape character.
abbrev text : List ℕ
text = 9 ∷ 65 ∷ 66 ∷ 10 ∷ 8 ∷ 27 ∷ []

display_attr_str-OnScreen_example :
    OnScreen (display_attr_str silent text default_attr full)
    × SameOutside full (display_attr_str silent text default_attr full)
display_attr_str-OnScreen_example =
    display_attr_str-OnScreen silent text default_attr full (omega arith, omega arith)

-- A screen that keeps what is sent to its registers.
abbrev latch : Device
latch io port = register (chosen io) io

get_cursor_pos-set_cursor_pos_example :
    (get_cursor_pos latch (set_cursor_pos 24 78 full)).0 ≡ (24, 78)
get_cursor_pos-set_cursor_pos_example =
    get_cursor_pos-set_cursor_pos latch 24 78 full (λ io. refl) (omega arith) (omega arith)
