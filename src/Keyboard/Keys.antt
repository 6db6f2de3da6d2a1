-- ===== src/Keyboard/Keys.antt =====
-- The modifier keys of process_scan_code.
use csc.Base.{ℕ, ◌+◌, ◌<◌, ◌≡◌, ◌&&◌, ◌||◌, not, ◌==◌, if◌then◌else◌, arith}
use csc.Base.Ints.{minus_one}
use csc.Keyboard.{Keyboard, process_scan_code, press_key, release_key, caps, ctrl, alt, is_shft}
use csc.Keyboard.Tables.{standard_lower, standard_upper, caps_lower, caps_upper}

-- The tables in use are the ones of the caps lock state.
abbrev pub TablesMatch : Keyboard → Type 0
TablesMatch s =
    (s.ascii_table_lower ≡ (if s.caps_state then caps_lower else standard_lower))
    × (s.ascii_table_upper ≡ (if s.caps_state then caps_upper else standard_upper))

-- When a key is pressed the modifier that it is goes on, when it is released that modifier goes
-- off and NO_CHAR comes back; the other modifiers stay as they were, and the tables in use stay
-- those of the caps lock state.
pub process_scan_code-modifiers :
    (c : ℕ) (s : Keyboard)
    → c < 128
    → TablesMatch s
    → let (key, down) = process_scan_code c s in
      let (none, up) = process_scan_code (c + 128) s in
      TablesMatch down
      × TablesMatch up
      × (down.shift_state ≡ (is_shft c || s.shift_state))
      × (down.caps_state ≡ ((c == caps) || s.caps_state))
      × (down.ctrl_state ≡ ((c == ctrl) || s.ctrl_state))
      × (down.alt_state ≡ ((c == alt) || s.alt_state))
      × (up.shift_state ≡ (not (is_shft c) && s.shift_state))
      × (up.caps_state ≡ (not (c == caps) && s.caps_state))
      × (up.ctrl_state ≡ (not (c == ctrl) && s.ctrl_state))
      × (up.alt_state ≡ (not (c == alt) && s.alt_state))
      × (none ≡ minus_one)
unfolding process_scan_code press_key release_key
process_scan_code-modifiers c s low (lower, upper) = ground (arith, lower, upper)
