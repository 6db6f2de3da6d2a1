-- ===== src/Vga/Scroll.antt =====
-- VGA_scroll.
use csc.Base.{ℕ, ◌+◌, ◌-◌, ◌*◌, ◌<◌, ◌≡◌, ap, ◌∙◌, ltb, if◌then◌else◌, arith}
use csc.Strings.{memset, memcpy}
use csc.Strings.Blocks.{memset_lem, memcpy_lem}
use csc.Vga.{Vga, num_rows, num_cols, total_size, scroll}

-- Scrolling by a part of the screen.
scroll_cells :
    (lines : ℕ) (s : Vga)
    → 0 < lines
    → lines < num_rows
    → (scroll lines s).cells
      ≡ memset
          ((num_rows - lines) * num_cols)
          0
          (lines * num_cols)
          (memcpy 0 (lines * num_cols) (total_size - lines * num_cols) s.cells)
unfolding scroll
scroll_cells lines s pos part = ground arith

-- Scrolling by less than the screen moves every cell up by that many lines, blanks the lines at
-- the bottom, and keeps what lies behind the screen.
pub scroll-cell :
    (lines : ℕ) (s : Vga) (x : ℕ)
    → 0 < lines
    → lines < num_rows
    → (scroll lines s).cells x ≡ (
        if ltb x ((num_rows - lines) * num_cols)
        then s.cells (x + lines * num_cols)
        else if ltb x total_size
        then 0
        else s.cells x)
scroll-cell lines s x pos part =
    let copied =
      memcpy_lem 0 (lines * num_cols) (total_size - lines * num_cols) s.cells x (omega arith) in
    let moved = memcpy 0 (lines * num_cols) (total_size - lines * num_cols) s.cells in
    let blank = memset_lem ((num_rows - lines) * num_cols) 0 (lines * num_cols) moved x in
    ap (λ f. f x) (scroll_cells lines s pos part) ∙ ground (arith, copied, blank)
