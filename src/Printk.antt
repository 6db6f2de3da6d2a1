-- ===== src/Printk.antt =====
-- The numbers that printk prints, Bric_OS/lib/printk.c.
-- A string buffer is zero behind its last character, as printk leaves it, so it is the list of its
-- characters. The format, the arguments and the outputs are in Format.
pub mod Digits
pub mod Format
pub mod Pieces
pub mod Shows
pub mod Means
pub mod Safe
mod Tests
use csc.Base.{
  ℕ, zero, suc, ◌+◌, ◌-◌, ◌*◌, ◌/◌, ◌%◌, Bool, true, false, not, ◌==◌, ltb, List, [], ◌∷◌, ◌++◌,
  length, if◌then◌else◌,
}
use csc.Base.Ints.{ℤ, pos, negsuc}
use csc.Base.Outcome.{Outcome, ok, out_of_fuel, ◌>>=◌}
use csc.Strings.{max_str_len}

abbrev pub lowercase : ℕ
lowercase = 32

abbrev pub uppercase : ℕ
uppercase = 0

-- strncat of one character: a NUL adds nothing.
unfoldable pub format_char : List ℕ → ℕ → List ℕ
format_char str c = if c % 256 == 0 then str else str ++ (c % 256 ∷ [])

-- The loop that pads with '0'.
unfoldable pub pad : ℕ → List ℕ → List ℕ
unfolding format_char
pad zero str = str
pad (suc k) str = pad k (format_char str 48)

-- The character of a digit.
abbrev pub digit_char : ℕ → ℕ → ℕ
digit_char d text_case = if ltb d 10 then d + 48 else d - 10 + 65 + text_case

-- The fuel bounds the number of digits.
unfoldable pub format_llu_base_n : ℕ → List ℕ → ℕ → ℕ → ℕ → ℕ → Outcome (List ℕ)
unfolding pad format_char
format_llu_base_n zero str n base text_case num_len = out_of_fuel
format_llu_base_n (suc k) str n base text_case num_len =
    let higher = format_llu_base_n k str (n / base) base text_case (num_len - 1) in
    let front = if not (n / base == 0) then higher else ok (pad (num_len - 1) str) in
    if length str == max_str_len - 1
    then ok str
    else front >>= λ s. ok (format_char s (digit_char (n % base) text_case))

-- A minus sign, and the number behind it: the recursion gets the string from its second character on.
abbrev behind_first : List ℕ → (List ℕ → Outcome (List ℕ)) → Outcome (List ℕ)
behind_first [] f = f []
behind_first (c ∷ cs) f = f cs >>= λ s. ok (c ∷ s)

unfoldable pub format_ll_base_n : ℕ → List ℕ → ℤ → ℕ → ℕ → ℕ → Outcome (List ℕ)
unfolding format_llu_base_n format_char
format_ll_base_n fuel str (pos n) base text_case num_len =
    format_llu_base_n fuel str n base text_case num_len
format_ll_base_n fuel str (negsuc n) base text_case num_len =
    behind_first (format_char str 45) (λ s. format_llu_base_n fuel s (suc n) base text_case num_len)
