-- ===== src/Printk/Safe.antt =====
-- printk on any format: the buffer is never overrun, and the screen and the serial port stay sound.
use csc.Base.{
  ℕ, zero, suc, ◌+◌, ◌≤◌, ◌<◌, ◌≡◌, refl, ap, ◌∙◌, ◌==◌, leb, List, [], ◌∷◌, length, length-append,
  get_or, if◌then◌else◌, if_both, if_split, Bool-cases, inl, inr, arith,
}
use csc.Base.Ports.{Device}
use csc.Base.Outcome.{Outcome, ok, ◌>>=◌, Returns, Returns-bind}
use csc.Strings.{Memory}
use csc.Vga.{default_attr}
use csc.Vga.Bounds.{OnScreen, SameOutside, display_attr_str-OnScreen}
use csc.Serial.Ring.{IsRing}
use csc.Serial.Order.{serial_write-stream}
use csc.Printk.{lowercase, uppercase, format_char}
use csc.Printk.Digits.{format_char-le}
use csc.Printk.Format.{
  Console, string_at, format_llu, format_hex, format_oct, signed, unsigned, take_arg,
  parse_specifier, specifier, format_at, print_clear_buff, print_from, printk,
}
use csc.Printk.Shows.{
  Adds, HasRoom, IsWidth, ll_lem, number_lem, ptr_lem, below_64, signed-IsSmall, format_str-append,
}
use csc.Printk.Means.{in_buffer_lem}

-- `n` arguments at least, and each of them, read as a string, is short.
abbrev pub ShortStrings : Memory → List ℕ → Type 0
ShortStrings mem [] = Unit
ShortStrings mem (a ∷ args) = (length (string_at a mem) ≤ 31) × ShortStrings mem args

abbrev pub Enough : Memory → ℕ → List ℕ → Type 0
Enough mem n args = (n ≤ length args) × ShortStrings mem args

Enough-suc : (mem : Memory) (n : ℕ) (args : List ℕ) → Enough mem (suc n) args → Enough mem n args
Enough-suc mem n args (many, short) = (omega arith, short)

abbrev Longer : List ℕ → List ℕ → Type 0
Longer str s = length s ≤ length str + 31

Adds-Longer :
    {P : List ℕ → Type 0} (m : Outcome (List ℕ)) (str : List ℕ)
    → Returns m (Adds str P)
    → Returns m (Longer str)
Adds-Longer m str (s, e, (a, appended, p, few)) =
    (s, e, omega (arith, ap length appended, length-append str a))

abbrev Went : Memory → ℕ → List ℕ → ℕ × List ℕ × List ℕ → Type 0
Went mem n str (k, s, args) = Longer str s × Enough mem n args

abbrev Left : Memory → ℕ → List ℕ → List ℕ × List ℕ → Type 0
Left mem n str (s, args) = Longer str s × Enough mem n args

take_arg-Left :
    (mem : Memory) (n : ℕ) (args str : List ℕ) (f : ℕ → Outcome (List ℕ))
    → Enough mem (suc n) args
    → ((a : ℕ) → length (string_at a mem) ≤ 31 → Returns (f a) (Longer str))
    → Returns (take_arg args f) (Left mem n str)
take_arg-Left mem n [] str f (many, short) each = absurd (omega arith)
take_arg-Left mem n (a ∷ args) str f (many, (here, short)) each =
    Returns-bind {Q = Left mem n str} (each a here)
      (λ s longer. ((s, args), refl, (longer, (omega arith, short))))

module _ (mem : Memory) (n : ℕ) (args str : List ℕ) (room : HasRoom str)
    (enough : Enough mem (suc n) args) where
  parse_specifier-Left :
      (sp w : ℕ) → IsWidth w → Returns (parse_specifier sp w args str) (Left mem n str)
  unfolding parse_specifier format_llu format_hex format_oct
  parse_specifier-Left sp w is =
      let P = λ (m : Outcome (List ℕ × List ℕ)). Returns m (Left mem n str) in
      let percent = format_char str b'%' in
      if_both P _
        (take_arg-Left mem n args str _ enough
          λ a h. Adds-Longer _ str (ll_lem str (signed w a) room (signed-IsSmall w a is)))
        (if_both P _
          (take_arg-Left mem n args str _ enough λ a h. Adds-Longer _ str (
            number_lem str (unsigned w a) 10 lowercase room (inr (inl refl)) (inl refl)
              (below_64 w a is)))
          (if_both P _
            (take_arg-Left mem n args str _ enough λ a h. Adds-Longer _ str (
              number_lem str (unsigned w a) 16 lowercase room (inr (inr refl)) (inl refl)
                (below_64 w a is)))
            (if_both P _
              (take_arg-Left mem n args str _ enough λ a h. Adds-Longer _ str (
                number_lem str (unsigned w a) 16 uppercase room (inr (inr refl)) (inr refl)
                  (below_64 w a is)))
              (if_both P _
                (take_arg-Left mem n args str _ enough λ a h. Adds-Longer _ str (
                  number_lem str (unsigned w a) 8 lowercase room (inl refl) (inl refl)
                    (below_64 w a is)))
                (
                  (format_char percent sp, args),
                  refl,
                  (
                    omega (arith, format_char-le str b'%', format_char-le percent sp),
                    Enough-suc mem n args enough,
                  ),
                )))))

  went :
      (k : ℕ) (m : Outcome (List ℕ × List ℕ))
      → Returns m (Left mem n str)
      → Returns (m >>= λ (s, args). ok (k, s, args)) (Went mem n str)
  went k m h =
      Returns-bind {P = Left mem n str} {Q = Went mem n str} h
        (λ (s, args) left. ((k, s, args), refl, left))

  specifier-Went : (c1 c2 c3 : ℕ) → Returns (specifier mem c1 c2 c3 args str) (Went mem n str)
  unfolding specifier
  specifier-Went c1 c2 c3 =
      let P = λ (m : Outcome (ℕ × List ℕ × List ℕ)). Returns m (Went mem n str) in
      let number = λ (k c w : ℕ) (is : IsWidth w). went k _ (parse_specifier-Left c w is) in
      if_both P (c1 == b'%')
        (
          (1, format_char str b'%', args),
          refl,
          (omega (arith, format_char-le str b'%'), Enough-suc mem n args enough),
        )
        (if_both P (c1 == b'c')
          (went 1 _ (
            take_arg-Left mem n args str _ enough
              λ a h. (_, refl, omega (arith, format_char-le str a))))
          (if_both P (c1 == b's')
            (went 1 _ (
              take_arg-Left mem n args str _ enough λ a h. (
                _,
                refl,
                omega (
                  arith,
                  ap length (format_str-append mem str a room),
                  length-append str (string_at a mem),
                ),
              )))
            (if_both P (c1 == b'p')
              (went 1 _ (
                take_arg-Left mem n args str _ enough
                  λ a h. Adds-Longer _ str (ptr_lem mem str a room)))
              (if_both P (c1 == b'l')
                (if_both P (c2 == b'l') (number 3 c3 64 (inr refl)) (number 2 c2 64 (inr refl)))
                (if_both P (c1 == b'q') (number 2 c2 64 (inr refl)) (
                  if_both P (c1 == b'h') (number 2 c2 32 (inl refl))
                    (number 1 c1 32 (inl refl))))))))

-- The percent signs of a format.
abbrev pub percents : List ℕ → ℕ
percents [] = 0
percents (c ∷ cs) = if c == b'%' then suc (percents cs) else percents cs

format_at-Went :
    (mem : Memory) (c : ℕ) (cs args str : List ℕ)
    → HasRoom str
    → Enough mem (percents (c ∷ cs)) args
    → Returns (format_at mem c cs args str) (Went mem (percents cs) str)
unfolding format_at
format_at-Went mem c cs args str room enough =
    if_split (λ (m : Outcome (ℕ × List ℕ × List ℕ)). Returns m (Went mem (percents cs) str))
      (c == b'%')
      (λ e.
        specifier-Went mem (percents cs) args str room (rw e at enough) (get_or cs 0 0)
          (get_or cs 1 0) (get_or cs 2 0))
      (λ e.
        ((0, format_char str c, args), refl, (omega (arith, format_char-le str c), rw e at enough)))

fewer :
    (mem : Memory) (c : ℕ) (cs args : List ℕ)
    → Enough mem (percents (c ∷ cs)) args
    → Enough mem (percents cs) args
fewer mem c cs args (many, short) = elim (Bool-cases (c == b'%')) [
  | inl e ↦ (omega (arith, rw e at many), short)
  | inr e ↦ (rw e at many, short)
]

-- The cursor is on the screen, the ring is well formed, and no cell behind the screen has changed.
abbrev pub IsSound : Console → Console → Type 0
IsSound s s' = OnScreen s'.vga × IsRing s'.serial × SameOutside s.vga s'.vga

pub print_clear_buff-IsSound :
    (dev : Device) (buff : List ℕ) (s s' : Console)
    → IsSound s s'
    → IsSound s (print_clear_buff dev buff s')
unfolding print_clear_buff
print_clear_buff-IsSound dev buff s s' (on, ring, same) =
    let v = record s'.vga { irq = s'.serial.irq } in
    let (on', same') = display_attr_str-OnScreen dev buff default_attr v on in
    (on', (serial_write-stream dev buff _ ring).0, λ x out. same' x out ∙ same x out)

print_from-IsSound :
    (dev : Device) (mem : Memory) (len skip : ℕ) (cs args str : List ℕ) (s s' : Console)
    → length str < 1024
    → Enough mem (percents cs) args
    → IsSound s s'
    → Returns (print_from dev mem len skip cs args str s') (λ (str', t). IsSound s t)
unfolding print_from
print_from-IsSound dev mem zero skip cs args str s s' few enough sound = ((str, s'), refl, sound)
print_from-IsSound dev mem (suc len) skip [] args str s s' few enough sound =
    ((str, s'), refl, sound)
print_from-IsSound dev mem (suc len) (suc k) (c ∷ cs) args str s s' few enough sound =
    print_from-IsSound dev mem len k cs args str s s' few (fewer mem c cs args enough) sound
print_from-IsSound dev mem (suc len) zero (c ∷ cs) args str s s' few enough sound =
    let full = leb 992 (length str) in
    let str1 = if full then [] else str in
    let s1 = if full then print_clear_buff dev str s' else s' in
    let room : length str1 < 992 = ground arith in
    let sound1 = if_both (IsSound s) full (print_clear_buff-IsSound dev str s s' sound) sound in
    Returns-bind {P = Went mem (percents cs) str1}
      (format_at-Went mem c cs args str1 (omega arith) enough)
      λ (skip, str2, args2) (longer, enough2).
        Returns-bind {P = λ t. t ≡ str2} (str2, in_buffer_lem str2 (omega arith), refl)
          λ str3 is.
            print_from-IsSound dev mem len skip cs args2 str3 s s1 (omega (arith, ap length is))
              enough2 sound1

-- printk of any format at all, with as many arguments as it has percent signs, each of which is a
-- string of 31 characters at most if it is read as one: it returns without writing behind its
-- buffer of 1024 characters, the cursor of the screen is still on it, no cell behind the screen
-- has changed, and the ring of the serial port is well formed. The cursor is on the screen and the
-- ring well formed before.
pub printk-IsSound :
    (dev : Device) (mem : Memory) (fmt args : List ℕ) (s : Console)
    → OnScreen s.vga
    → IsRing s.serial
    → percents fmt ≤ length args
    → ShortStrings mem args
    → Returns (printk dev mem fmt args s) (IsSound s)
unfolding printk
printk-IsSound dev mem fmt args s on ring many short =
    Returns-bind {P = λ (str, t). IsSound s t}
      (print_from-IsSound dev mem 65536 0 fmt args [] s s (omega arith) (many, short)
        (on, ring, λ x out. refl))
      λ (str, t) sound. (_, refl, print_clear_buff-IsSound dev str s t sound)
