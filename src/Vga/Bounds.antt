-- ===== src/Vga/Bounds.antt =====
-- The cursor stays on the screen, and nothing is written outside of it.
use csc.Base.{
  ℕ, zero, suc, ◌+◌, ◌-◌, ◌%◌, ◌<◌, ◌≤◌, ◌≡◌, refl, ◌∙◌, List, [], ◌∷◌, ◌&&◌, ◌||◌, not, ◌==◌, ltb,
  Bool-cases, inl, inr, arith, update, update_ne,
}
use csc.Base.Ports.{Device}
use csc.Vga.Scroll.{scroll-cell}
use csc.Irq.{irq_disable}
use csc.Vga.{
  Vga, num_rows, num_cols, total_size, default_attr, putc, get_char, back, process_backspace,
  tab_stop, line_feed, place_char, wrap_line, print_char, print_chars, display_attr_char,
  display_chars, display_attr_str, scroll, disable_cursor, escape_message,
}

abbrev pub OnScreen : Vga → Type 0
OnScreen s = (s.row < num_rows) × (s.col < num_cols)

-- The cells behind the screen are the same.
abbrev pub SameOutside : Vga → Vga → Type 0
SameOutside s s' = (x : ℕ) → total_size ≤ x → s'.cells x ≡ s.cells x

back-lt : (row k : ℕ) (s : Vga) → back row (suc k) s ≤ k
unfolding back
back-lt row zero s = ground arith
back-lt row (suc k) s = ground (arith, back-lt row k s)

tab_stop-le : (col : ℕ) → col < num_cols → tab_stop 4 col ≤ num_cols
unfolding tab_stop
tab_stop-le col low = ground arith

abbrev Placed : Vga → Vga → Type 0
Placed s s' = (s'.row < num_rows) × (s'.col ≤ num_cols) × SameOutside s s'

back-below : (row k : ℕ) (s : Vga) → 0 < k → back row k s < k
back-below row zero s pos = absurd (omega arith)
back-below row (suc k) s pos = omega (arith, back-lt row k s)

process_backspace-Placed : (s : Vga) → OnScreen s → Placed s (process_backspace s)
unfolding process_backspace
process_backspace-Placed s (low, left) = elim (Bool-cases (s.col == 0)) [
  | inl e ↦ elim (Bool-cases (s.row == 0)) [
    | inl f ↦ rw (e, f) (low, omega arith, λ x out. refl)
    | inr f ↦
        let b = back-below (s.row - 1) 80 s (omega arith) in
        rw (e, f)
          (
            omega (arith, low),
            omega (arith, b),
            λ x out. update_ne s.cells _ _ x (omega (arith, b, low)),
          )
  ]
  | inr e ↦
      let b = back-below s.row s.col s (ground arith) in
      rw e (
        low,
        omega (arith, b, left),
        λ x out. update_ne s.cells _ _ x (omega (arith, b, left, low)),
      )
]

putc-outside : (c attr : ℕ) (s : Vga) → OnScreen s → SameOutside s (putc c attr s)
unfolding update
putc-outside c attr s (low, left) x out = ground arith

line_feed-Placed : (attr : ℕ) (s : Vga) → OnScreen s → Placed s (line_feed attr s)
line_feed-Placed attr s on =
    elim (Bool-cases (
      (s.col == 0)
      && ltb 0 s.row
      && not (get_char (s.row - 1) (num_cols - 1) s == 0)
      && not (get_char (s.row - 1) (num_cols - 1) s == 0x0A))) [
        | inl e ↦ rw e (on.0, omega (arith, on), λ x out. refl)
        | inr e ↦ rw e (on.0, omega arith, putc-outside 0x20 attr s on)
      ]

place_char-Placed : (c attr : ℕ) (s : Vga) → OnScreen s → Placed s (place_char c attr s)
unfolding place_char
place_char-Placed c attr s on = elim (Bool-cases (c == 0x0D)) [
  | inl e ↦ rw e (on.0, omega arith, putc-outside 0x20 attr s on)
  | inr e ↦ rw e (elim (Bool-cases (c == 0x0A)) [
    | inl e ↦ rw e (line_feed-Placed attr s on)
    | inr e ↦ rw e (elim (Bool-cases (c == 0x09)) [
      | inl e ↦ rw e (on.0, tab_stop-le s.col on.1, putc-outside 0x20 attr s on)
      | inr e ↦ rw e (elim (Bool-cases ((c == 0x08) || (c == 0x7F))) [
        | inl e ↦ rw e (process_backspace-Placed s on)
        | inr e ↦ rw e (on.0, omega (arith, on), putc-outside c attr s on)
      ])
    ])
  ])
]

scroll_col : (s : Vga) → s.col < num_cols → (scroll 1 s).col < num_cols
unfolding scroll
scroll_col s left = ground arith

wrap_line-OnScreen :
    (s s' : Vga) → Placed s s' → OnScreen (wrap_line s') × SameOutside s (wrap_line s')
unfolding wrap_line
wrap_line-OnScreen s s' (low, left, same) = elim (Bool-cases (ltb s'.col num_cols)) [
  | inl e ↦ rw e ((low, ground arith), same)
  | inr e ↦ elim (Bool-cases (ltb ((s'.row + 1) % 256) num_rows)) [
    | inl f ↦ rw (e, f) ((ground arith, omega arith), same)
    | inr f ↦
        let down = record s' { col = 0; row = (s'.row + 1) % 256 } in
        rw (e, f)
          (
            (omega arith, scroll_col down (omega arith)),
            λ x out. scroll-cell 1 down x (omega arith) (omega arith) ∙ ground (arith, same x out),
          )
  ]
]

print_char-OnScreen :
    (c attr : ℕ) (s : Vga)
    → OnScreen s
    → OnScreen (print_char c attr s) × SameOutside s (print_char c attr s)
unfolding print_char
print_char-OnScreen c attr s on =
    let start = record s { irq = irq_disable s.irq } in
    wrap_line-OnScreen s (place_char c attr start) (place_char-Placed c attr start on)

print_chars-OnScreen :
    (cs : List ℕ) (attr : ℕ) (s : Vga)
    → OnScreen s
    → OnScreen (print_chars cs attr s) × SameOutside s (print_chars cs attr s)
unfolding print_chars
print_chars-OnScreen [] attr s on = (on, λ x out. refl)
print_chars-OnScreen (c ∷ cs) attr s on =
    let (on1, same1) = print_char-OnScreen c attr s on in
    let (on2, same2) = print_chars-OnScreen cs attr (print_char c attr s) on1 in
    (on2, λ x out. same2 x out ∙ same1 x out)

display_attr_char-OnScreen :
    (dev : Device) (c attr : ℕ) (s : Vga)
    → OnScreen s
    → OnScreen (display_attr_char dev c attr s) × SameOutside s (display_attr_char dev c attr s)
unfolding display_attr_char
display_attr_char-OnScreen dev c attr s on = elim (Bool-cases (c == 0x1B)) [
  | inl e ↦
      let start = disable_cursor (record s { irq = irq_disable s.irq }) in
      let (shown, same) = print_chars-OnScreen escape_message default_attr start on in
      rw e (shown, λ x out. same x out ∙ putc-outside 0 default_attr s on x out)
  | inr e ↦ rw e (print_char-OnScreen c attr s on)
]

display_chars-OnScreen :
    (dev : Device) (cs : List ℕ) (attr : ℕ) (s : Vga)
    → OnScreen s
    → OnScreen (display_chars dev cs attr s) × SameOutside s (display_chars dev cs attr s)
unfolding display_chars
display_chars-OnScreen dev [] attr s on = (on, λ x out. refl)
display_chars-OnScreen dev (c ∷ cs) attr s on =
    let (on1, same1) = display_attr_char-OnScreen dev c attr s on in
    let (on2, same2) = display_chars-OnScreen dev cs attr (display_attr_char dev c attr s) on1 in
    (on2, λ x out. same2 x out ∙ same1 x out)

-- Whatever string is displayed, control characters included, a cursor on the screen stays there,
-- and no cell outside of the 2000 of the screen is written.
pub display_attr_str-OnScreen :
    (dev : Device) (cs : List ℕ) (attr : ℕ) (s : Vga)
    → OnScreen s
    → OnScreen (display_attr_str dev cs attr s) × SameOutside s (display_attr_str dev cs attr s)
unfolding display_attr_str
display_attr_str-OnScreen dev cs attr s on =
    let (shown, same) = display_chars-OnScreen dev cs attr (disable_cursor s) on in
    (shown, λ x out. same x out ∙ putc-outside 0 default_attr s on x out)
