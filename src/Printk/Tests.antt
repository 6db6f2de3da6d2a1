-- ===== src/Printk/Tests.antt =====
-- The digits of a number.
use csc.Base.{
  ℕ, ◌≡◌, refl, List, [], ◌∷◌, ◌==◌, true, false, length, replicate, if◌then◌else◌, arith,
}
use csc.Base.Outcome.{ok, Returns}
use csc.Base.Ints.{negsuc}
use csc.Printk.{format_llu_base_n, format_ll_base_n, format_char, pad, lowercase, uppercase}
use csc.Base.Ports.{Device}
use csc.Irq.{Irq}
use csc.Strings.{Memory, strlen}
use csc.Printk.Format.{Console, string_at, printk}
use csc.Printk.Pieces.{
  Piece, plain_char, percent, string, pointer, number, short, long_long, decimal, hex, format,
  arguments, ShowsAll,
}
use csc.Printk.Means.{print_chunks, joined, printk-ShowsAll}
use csc.Printk.Safe.{IsSound, printk-IsSound}

abbrev silent : Device
silent io port = 0

abbrev console : Console
console =
    let irq : Irq = record {
      irq_handler_table = [];
      status_prev = false;
      status_curr = true;
      interrupt_flag = false;
      io = [];
    } in
    record {
      vga = record { cells = λ i. 0; row = 24; col = 78; irq = irq };
      serial = record {
        buff = replicate 16 0;
        prod = 5;
        cons = 3;
        count = 2;
        idle_flag = false;
        irq = irq;
      };
    }

-- "ok" at 256.
abbrev memory : Memory
memory a = if a == 256 then b'o' else if a == 257 then b'k' else 0

-- "x%s %lld%%%hx%p" with "ok", -5, 0xBEEF and NULL.
abbrev pieces : List Piece
pieces =
    plain_char b'x'
    ∷ string 256
    ∷ plain_char b' '
    ∷ number long_long decimal 18446744073709551611
    ∷ percent
    ∷ number short hex 48879
    ∷ pointer 0
    ∷ []

two_long : length (string_at 256 memory) ≡ 2
unfolding string_at strlen
two_long = refl

printk-ShowsAll_example :
    Returns (printk silent memory (format pieces) (arguments pieces) console) λ (s : Console).
      (chunks : List (List ℕ)) × (s ≡ print_chunks silent chunks console)
      × ShowsAll memory pieces (joined chunks)
printk-ShowsAll_example =
    printk-ShowsAll silent memory pieces console (omega arith)
      (omega arith, (omega (arith, two_long), (omega arith, (tt, (tt, (tt, (tt, tt)))))))

-- "%s%", where the last percent sign takes no argument.
printk-IsSound_example :
    Returns
      (printk silent memory (b'%' ∷ b's' ∷ b'%' ∷ []) (256 ∷ 256 ∷ []) console)
      (IsSound console)
printk-IsSound_example =
    printk-IsSound silent memory (b'%' ∷ b's' ∷ b'%' ∷ []) (256 ∷ 256 ∷ []) console
      (omega arith, omega arith)
      (record { full_length = refl; cons_in = omega arith; room = omega arith; prod_at = refl })
      (omega arith) (omega (arith, two_long))

-- 0xBEEF, and -17.
beef : format_llu_base_n 64 [] 48879 16 uppercase 0 ≡ ok (66 ∷ 69 ∷ 69 ∷ 70 ∷ [])
unfolding format_llu_base_n format_char pad
beef = refl

minus_seventeen : format_ll_base_n 64 [] (negsuc 16) 10 lowercase 0 ≡ ok (45 ∷ 49 ∷ 55 ∷ [])
unfolding format_ll_base_n format_llu_base_n format_char pad
minus_seventeen = refl
