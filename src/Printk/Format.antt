-- ===== src/Printk/Format.antt =====
-- printk itself, Bric_OS/lib/printk.c: the format, its arguments, the buffer of 1024 characters and
-- the two outputs. The arguments are the 64-bit words that the caller passed, and the characters of
-- a string argument are read from memory. The result of printk, always 0, is left out.
use csc.Base.{
  ℕ, zero, suc, ◌+◌, ◌-◌, ◌%◌, ◌^◌, ◌||◌, ◌==◌, ltb, leb, List, [], ◌∷◌, ◌++◌, length, get_or,
  if◌then◌else◌, null,
}
use csc.Base.Ints.{ℤ, pos, negsuc}
use csc.Base.Ports.{Device}
use csc.Base.Outcome.{Outcome, ok, fault, ◌>>=◌}
use csc.Strings.{Memory, strlen, max_str_len}
use csc.Vga.{Vga, display_attr_str}
use csc.Vga.Place.{display_str}
use csc.Serial.{Serial, serial_write}
use csc.Printk.{lowercase, uppercase, format_char, format_llu_base_n, format_ll_base_n}

-- The characters of a string argument; strncat takes NULL for no string.
abbrev pub characters : ℕ → ℕ → Memory → List ℕ
characters p zero mem = []
characters p (suc n) mem = mem p ∷ characters (p + 1) n mem

unfoldable pub string_at : ℕ → Memory → List ℕ
unfolding strlen
string_at p mem = if p == null then [] else characters p (strlen p mem) mem

unfoldable pub format_str : List ℕ → ℕ → Memory → List ℕ
unfolding string_at
format_str str p mem = if length str == max_str_len - 1 then str else str ++ string_at p mem

-- 22 octal digits hold 64 bits.
abbrev pub digits_fuel : ℕ
digits_fuel = 22

unfoldable pub format_ll : List ℕ → ℤ → Outcome (List ℕ)
unfolding format_ll_base_n
format_ll str n = format_ll_base_n digits_fuel str n 10 lowercase 0

unfoldable pub format_llu : List ℕ → ℕ → Outcome (List ℕ)
unfolding format_llu_base_n
format_llu str n = format_llu_base_n digits_fuel str n 10 lowercase 0

unfoldable pub format_hex : List ℕ → ℕ → ℕ → Outcome (List ℕ)
unfolding format_llu_base_n
format_hex str n text_case = format_llu_base_n digits_fuel str n 16 text_case 0

unfoldable pub format_oct : List ℕ → ℕ → Outcome (List ℕ)
unfolding format_llu_base_n
format_oct str n = format_llu_base_n digits_fuel str n 8 lowercase 0

-- format_str with "0x", and eight digits at least.
unfoldable pub format_ptr : List ℕ → ℕ → ℕ → Outcome (List ℕ)
unfolding format_llu_base_n
format_ptr str n text_case =
    format_llu_base_n digits_fuel
      (if length str == max_str_len - 1 then str else str ++ b'0' ∷ b'x' ∷ []) n 16 text_case 8

-- `va_arg` at a signed and at an unsigned type of that many bits.
abbrev pub signed : ℕ → ℕ → ℤ
signed bits a =
    let n = a % 2 ^ bits in if ltb n (2 ^ (bits - 1)) then pos n else negsuc (2 ^ bits - n - 1)

abbrev pub unsigned : ℕ → ℕ → ℕ
unsigned bits a = a % 2 ^ bits

-- The next argument goes to `f`. One that was not passed cannot be read.
abbrev pub take_arg : List ℕ → (ℕ → Outcome (List ℕ)) → Outcome (List ℕ × List ℕ)
take_arg [] f = fault
take_arg (a ∷ args) f = f a >>= λ str. ok (str, args)

-- The string, and the arguments that are left.
unfoldable pub parse_specifier : ℕ → ℕ → List ℕ → List ℕ → Outcome (List ℕ × List ℕ)
unfolding format_char format_ll format_llu format_hex format_oct
parse_specifier sp bits args str =
    if (sp == b'd') || (sp == b'i')
    then take_arg args (λ a. format_ll str (signed bits a))
    else if sp == b'u'
    then take_arg args (λ a. format_llu str (unsigned bits a))
    else if sp == b'x'
    then take_arg args (λ a. format_hex str (unsigned bits a) lowercase)
    else if sp == b'X'
    then take_arg args (λ a. format_hex str (unsigned bits a) uppercase)
    else if sp == b'o'
    then take_arg args (λ a. format_oct str (unsigned bits a))
    else ok (format_char (format_char str b'%') sp, args)

-- How far the index moves on, the string, and the arguments that are left.
abbrev pub moving : ℕ → Outcome (List ℕ × List ℕ) → Outcome (ℕ × List ℕ × List ℕ)
moving k m = m >>= λ (str, args). ok (k, str, args)

-- The switch on the characters behind '%'; the index moves on with the loop by one more.
unfoldable pub specifier : Memory → ℕ → ℕ → ℕ → List ℕ → List ℕ → Outcome (ℕ × List ℕ × List ℕ)
unfolding parse_specifier format_char format_str format_ptr
specifier mem c1 c2 c3 args str =
    if c1 == b'%'
    then ok (1, format_char str b'%', args)
    else if c1 == b'c'
    then moving 1 (take_arg args (λ a. ok (format_char str a)))
    else if c1 == b's'
    then moving 1 (take_arg args (λ a. ok (format_str str a mem)))
    else if c1 == b'p'
    then moving 1 (take_arg args (λ a. format_ptr str (a % 2 ^ 64) lowercase))
    else if c1 == b'l'
    then if c2 == b'l'
      then moving 3 (parse_specifier c3 64 args str)
      else moving 2 (parse_specifier c2 64 args str)
    else if c1 == b'q'
    then moving 2 (parse_specifier c2 64 args str)
    else if c1 == b'h'
    then moving 2 (parse_specifier c2 32 args str)
    else moving 1 (parse_specifier c1 32 args str)

-- One round of the loop at the character `c`, with those behind it.
unfoldable pub format_at : Memory → ℕ → List ℕ → List ℕ → List ℕ → Outcome (ℕ × List ℕ × List ℕ)
unfolding specifier format_char
format_at mem c cs args str =
    if c == b'%'
    then specifier mem (get_or cs 0 0) (get_or cs 1 0) (get_or cs 2 0) args str
    else ok (0, format_char str c, args)

-- The screen and the serial port. The interrupt state that they share is the serial port's.
pub record Console : Type 0 where
  pub vga : Vga
  pub serial : Serial

unfoldable pub print_clear_buff : Device → List ℕ → Console → Console
unfolding display_attr_str serial_write
print_clear_buff dev buff s =
    let shown = display_str dev buff (record s.vga { irq = s.serial.irq }) in
    record { vga = shown; serial = (serial_write dev buff (record s.serial { irq = shown.irq })).1 }

abbrev pub output_len : ℕ
output_len = 1024

-- What is behind the end of the buffer is not the buffer's; its last place is that of the NUL.
abbrev pub in_buffer : List ℕ → Outcome (List ℕ)
in_buffer str = if ltb (length str) output_len then ok str else fault

-- The loop over the first `len` characters of the format; a specifier may read on behind them.
-- `skip` characters were taken by the specifier in front of them.
unfoldable pub print_from :
    Device → Memory → ℕ → ℕ → List ℕ → List ℕ → List ℕ → Console → Outcome (List ℕ × Console)
unfolding format_at print_clear_buff
print_from dev mem zero skip cs args str s = ok (str, s)
print_from dev mem (suc len) skip [] args str s = ok (str, s)
print_from dev mem (suc len) (suc k) (c ∷ cs) args str s = print_from dev mem len k cs args str s
print_from dev mem (suc len) zero (c ∷ cs) args str s =
    let full = leb (output_len - 32) (length str) in
    let str1 = if full then [] else str in
    let s1 = if full then print_clear_buff dev str s else s in
    format_at mem c cs args str1 >>= λ (skip, str2, args2).
    in_buffer str2 >>= λ str3. print_from dev mem len skip cs args2 str3 s1

unfoldable pub printk : Device → Memory → List ℕ → List ℕ → Console → Outcome Console
unfolding print_from print_clear_buff
printk dev mem fmt args s = do
  (str, s) ← print_from dev mem max_str_len 0 fmt args [] s
  ok (print_clear_buff dev str s)
