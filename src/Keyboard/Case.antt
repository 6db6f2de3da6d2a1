-- ===== src/Keyboard/Case.antt =====
-- The character of a key under caps lock and shift.
use csc.Base.{
  ℕ, ◌-◌, ◌<◌, ◌≡◌, refl, sym, ap, ◌∙◌, Bool, true, false, ◌&&◌, ◌||◌, ◌==◌, leb, if◌then◌else◌,
  Bool-cases, inl, inr, arith, ==→eq, get_or,
}
use csc.Base.Bits.{all_below, all_below_sound}
use csc.Base.Ints.{pos, minus_one}
use csc.Keyboard.{
  Keyboard, process_scan_code, press_key, character, caps, ctrl, alt, is_shft, is_arrow,
}
use csc.Keyboard.Tables.{standard_lower, standard_upper, caps_lower, caps_upper}
use csc.Keyboard.Keys.{TablesMatch}

abbrev pub is_mod : ℕ → Bool
is_mod c = is_shft c || (c == caps) || (c == ctrl) || (c == alt) || is_arrow c

-- What a key means, from the two tables of a keyboard without caps lock: caps lock and shift take
-- each other back on a letter, and caps lock has no effect on any other key.
abbrev pub meaning : Bool → Bool → ℕ → ℕ
meaning caps_on shift_on c =
    let low = get_or standard_lower c 0 in
    let high = get_or standard_upper c 0 in
    let is_letter = leb 97 low && leb low 122 in
    if is_letter && caps_on
    then (if shift_on then low else low - 32)
    else if shift_on
    then high
    else low

-- The table that is read.
abbrev table_of : Bool → Bool → ℕ → ℕ
table_of caps_on shift_on c =
    if shift_on
    then get_or (if caps_on then caps_upper else standard_upper) c 0
    else get_or (if caps_on then caps_lower else standard_lower) c 0

abbrev tables_agree : Bool → Bool → Bool
tables_agree caps_on shift_on =
    all_below 128 λ c. is_mod c || (table_of caps_on shift_on c == meaning caps_on shift_on c)

tables_agree-all : (caps_on shift_on : Bool) → tables_agree caps_on shift_on ≡ true
unfolding all_below
tables_agree-all true true = refl
tables_agree-all true false = refl
tables_agree-all false true = refl
tables_agree-all false false = refl

table_lem :
    (caps_on shift_on : Bool) (c : ℕ)
    → c < 128
    → is_mod c ≡ false
    → table_of caps_on shift_on c ≡ meaning caps_on shift_on c
table_lem caps_on shift_on c low plain =
    let h = all_below_sound 128 _ c (tables_agree-all caps_on shift_on) low in
    ==→eq _ _
      (ap (λ b. b || (table_of caps_on shift_on c == meaning caps_on shift_on c)) (sym plain) ∙ h)

-- A key that is no modifier and no arrow is looked up.
plain_key :
    (c : ℕ) (s : Keyboard) → c < 128 → is_mod c ≡ false → (process_scan_code c s).0 ≡ character c s
unfolding process_scan_code press_key character
plain_key c s low plain = ground arith

character-table :
    (c : ℕ) (s : Keyboard)
    → c < 128
    → TablesMatch s
    → character c s ≡ (
        if table_of s.caps_state s.shift_state c == 0
        then minus_one
        else pos (table_of s.caps_state s.shift_state c))
unfolding character
character-table c s low (lower, upper) =
    let byte : leb 128 c ≡ false = ground arith in
    elim (Bool-cases s.shift_state) [
      | inl e ↦ rw (byte, e, upper) refl
      | inr e ↦ rw (byte, e, lower) refl
    ]

-- A key that is no modifier and no arrow gives the character that it means under caps lock and
-- shift, and NO_CHAR if it means none: the two take each other back on a letter, and caps lock has
-- no effect on any other key. The tables in use are those of the caps lock state.
pub process_scan_code-meaning :
    (c : ℕ) (s : Keyboard)
    → c < 128
    → is_mod c ≡ false
    → TablesMatch s
    → (process_scan_code c s).0 ≡ (
        if meaning s.caps_state s.shift_state c == 0
        then minus_one
        else pos (meaning s.caps_state s.shift_state c))
process_scan_code-meaning c s low plain match =
    rw
      (
        plain_key c s low plain,
        character-table c s low match,
        table_lem s.caps_state s.shift_state c low plain,
      )
      refl
