-- ===== src/Exceptions/Report.antt =====
-- The report of an exception comes out whole, and leaves the screen and the serial port sound.
use csc.Base.{
  ℕ, zero, suc, ◌-◌, ◌<◌, leb, length, length-append, Bool-cases, inl, inr, ◌∙◌, ◌/◌, ◌%◌, ◌≡◌,
  refl, ap, Bool, true, ◌&&◌, ◌||◌, not, ◌==◌, ltb, List, [], ◌∷◌, ◌++◌, map, if_both, arith,
  ltb→lt,
}
use mathlib.Core.Path.{subst}
use csc.Base.Ports.{Device}
use csc.Base.Outcome.{Outcome, Returns, Returns-bind}
use csc.Base.Text.{codes}
use csc.Strings.{Memory}
use csc.Irq.{is_exception}
use csc.Printk.Format.{Console, print_from, print_clear_buff, printk}
use csc.Printk.Pieces.{
  Piece, plain_char, number, plain, upper_hex, decimal, format, arguments, IsPiece, ArePieces,
}
use csc.Printk.Shows.{behind}
use csc.Printk.Means.{from_none, from_end, round_lem, print_from-round}
use csc.Vga.Bounds.{OnScreen}
use csc.Serial.Ring.{IsRing}
use csc.Printk.Safe.{IsSound, print_clear_buff-IsSound}
use csc.Exceptions.{irq_name, table_name, print_irq, print_error, exception_handler}

-- The loop on pieces, of which it may reach the first ones only.
from_pieces-IsSound :
    (dev : Device) (mem : Memory) (len : ℕ) (ps : List Piece) (str : List ℕ) (s t : Console)
    → length str < 1024
    → ArePieces mem ps
    → IsSound s t
    → Returns (print_from dev mem len 0 (format ps) (arguments ps) str t) λ (str', u). IsSound s u
from_pieces-IsSound dev mem zero ps str s t few are sound =
    ((str, t), from_none dev mem (arguments ps) str t 0 (format ps), sound)
from_pieces-IsSound dev mem (suc len) [] str s t few are sound =
    ((str, t), from_end dev mem [] str t (suc len) 0, sound)
from_pieces-IsSound dev mem (suc len) (p ∷ ps) str s t few (is, are) sound =
    let left = len - length (behind p) in
    elim (Bool-cases (leb 992 (length str))) [
      | inl full ↦
          let t1 = print_clear_buff dev str t in
          let (a, step, shows, short) =
            round_lem dev mem len p (arguments ps) [] (format ps) t1 (omega arith) is in
          let (u, rest, out) =
            from_pieces-IsSound dev mem left ps a s t1 (omega arith) are
              (print_clear_buff-IsSound dev str s t sound) in
          (u, print_from-round dev mem len p (format ps) _ str t full ∙ step ∙ rest, out)
      | inr space ↦
          let room : length str < 992 = ground arith in
          let (a, step, shows, short) =
            round_lem dev mem len p (arguments ps) str (format ps) t room is in
          let (u, rest, out) =
            from_pieces-IsSound dev mem left ps (str ++ a) s t (omega (arith, length-append str a))
              are sound in
          (u, print_from-round dev mem len p (format ps) _ str t space ∙ step ∙ rest, out)
    ]

-- printk of pieces, from a console that is sound since `s`.
pub pieces-IsSound :
    (dev : Device) (mem : Memory) (ps : List Piece) (s t : Console)
    → ArePieces mem ps
    → IsSound s t
    → Returns (printk dev mem (format ps) (arguments ps) t) (IsSound s)
unfolding printk
pieces-IsSound dev mem ps s t are sound =
    Returns-bind {P = λ (str, u). IsSound s u}
      (from_pieces-IsSound dev mem 65536 ps [] s t (omega arith) are sound)
      λ (str, u) out. (_, refl, print_clear_buff-IsSound dev str s u out)

-- Characters that stand for themselves.
abbrev pub is_plain : List ℕ → Bool
is_plain [] = true
is_plain (c ∷ cs) = not (c == b'%') && ltb 0 c && ltb c 256 && is_plain cs

abbrev pub plain_text : List ℕ → List Piece
plain_text cs = map plain_char cs

and_parts :
    (a b c d : Bool) → (a && b && c && d) ≡ true → (a ≡ true) × (b ≡ true) × (c ≡ true) × (d ≡ true)
and_parts a b c d h = ground arith

pub plain_text-ArePieces :
    (mem : Memory) (cs : List ℕ) → is_plain cs ≡ true → ArePieces mem (plain_text cs)
plain_text-ArePieces mem [] h = tt
plain_text-ArePieces mem (c ∷ cs) h =
    let (other, some, byte, rest) =
      and_parts (not (c == b'%')) (ltb 0 c) (ltb c 256) (is_plain cs) h in
    ((ground arith, ltb→lt 0 c some, ltb→lt c 256 byte), plain_text-ArePieces mem cs rest)

format-plain_text : (cs : List ℕ) → format (plain_text cs) ≡ cs
format-plain_text [] = refl
format-plain_text (c ∷ cs) = ap (λ r. c ∷ r) (format-plain_text cs)

arguments-plain_text : (cs : List ℕ) → arguments (plain_text cs) ≡ []
arguments-plain_text [] = refl
arguments-plain_text (c ∷ cs) = arguments-plain_text cs

pub plain-IsSound :
    (dev : Device) (mem : Memory) (cs : List ℕ) (s t : Console)
    → is_plain cs ≡ true
    → IsSound s t
    → Returns (printk dev mem cs [] t) (IsSound s)
plain-IsSound dev mem cs s t h sound =
    subst (λ args. Returns (printk dev mem cs args t) (IsSound s)) (arguments-plain_text cs)
      (subst (λ f. Returns (printk dev mem f (arguments (plain_text cs)) t) (IsSound s))
        (format-plain_text cs)
        (pieces-IsSound dev mem (plain_text cs) s t (plain_text-ArePieces mem cs h) sound))

-- A text with one number in it.
abbrev pub around : Piece → List ℕ → List ℕ → List Piece
around p before behind = plain_text before ++ p ∷ plain_text behind

pub ArePieces-append :
    (mem : Memory) (ps qs : List Piece)
    → ArePieces mem ps
    → ArePieces mem qs
    → ArePieces mem (ps ++ qs)
ArePieces-append mem [] qs h k = k
ArePieces-append mem (p ∷ ps) qs (is, h) k = (is, ArePieces-append mem ps qs h k)

around-ArePieces :
    (mem : Memory) (p : Piece) (before behind : List ℕ)
    → IsPiece mem p
    → is_plain before ≡ true
    → is_plain behind ≡ true
    → ArePieces mem (around p before behind)
around-ArePieces mem p before behind is h k =
    ArePieces-append mem (plain_text before) (p ∷ plain_text behind)
      (plain_text-ArePieces mem before h) (is, plain_text-ArePieces mem behind k)

irq_name-plain : (irq : ℕ) → is_plain (irq_name irq) ≡ true
unfolding irq_name
irq_name-plain irq =
    let P = λ (cs : List ℕ). is_plain cs ≡ true in
    if_both P (irq == 0) refl (
      if_both P (irq == 1) refl (
        if_both P (irq == 2) refl (
          if_both P (irq == 3) refl (
            if_both P (irq == 4) refl (
              if_both P (irq == 5) refl (
                if_both P (irq == 6) refl (
                  if_both P (irq == 7) refl (
                    if_both P (irq == 8) refl (
                      if_both P (irq == 9) refl (
                        if_both P (irq == 10) refl (
                          if_both P (irq == 11) refl (
                            if_both P (irq == 12) refl (
                              if_both P (irq == 13) refl (
                                if_both P (irq == 14) refl (
                                  if_both P (irq == 16) refl (
                                    if_both P (irq == 17) refl (
                                      if_both P (irq == 18) refl (
                                        if_both P (irq == 19) refl (
                                          if_both P (irq == 20) refl (
                                            if_both P (irq == 21) refl
                                              (if_both P (irq == 30) refl refl)))))))))))))))))))))

table_name-plain : (error : ℕ) → is_plain (table_name error) ≡ true
unfolding table_name
table_name-plain error =
    let P = λ (cs : List ℕ). is_plain cs ≡ true in
    if_both P (error / 2 % 4 == 0) refl
      (if_both P ((error / 2 % 4 == 1) || (error / 2 % 4 == 3)) refl refl)

module _ (dev : Device) (mem : Memory) (s : Console) where
  pub around-IsSound :
      (p : Piece) (before behind : List ℕ) (t : Console)
      → IsPiece mem p
      → is_plain before ≡ true
      → is_plain behind ≡ true
      → IsSound s t
      → Returns
          (printk dev mem (format (around p before behind)) (arguments (around p before behind)) t)
          (IsSound s)
  around-IsSound p before behind t is h k sound =
      pieces-IsSound dev mem (around p before behind) s t
        (around-ArePieces mem p before behind is h k) sound

  print_irq-IsSound :
      (irq : ℕ) (t : Console) → IsSound s t → Returns (print_irq dev mem irq t) (IsSound s)
  unfolding print_irq
  print_irq-IsSound irq t sound =
      let n = number plain upper_hex irq in
      Returns-bind {P = IsSound s}
        (if_both (λ (m : Outcome Console). Returns m (IsSound s)) (is_exception irq)
          (around-IsSound n (codes "  Exception 0x") (codes ": ") t tt refl refl sound)
          (around-IsSound n (codes "  IRQ 0x") (codes ": ") t tt refl refl sound))
        λ u sound'. plain-IsSound dev mem (irq_name irq) s u (irq_name-plain irq) sound'

  print_error-IsSound :
      (error : ℕ) (t : Console) → IsSound s t → Returns (print_error dev mem error t) (IsSound s)
  unfolding print_error
  print_error-IsSound error t sound =
      Returns-bind {P = IsSound s}
        (around-IsSound (number plain upper_hex error) (codes "Selector Error Code: 0x")
          (codes "\n") t tt refl refl sound)
        λ t1 s1.
          Returns-bind {P = IsSound s}
            (around-IsSound (number plain decimal (error % 2)) (codes "External: ") (codes "\n") t1
              tt refl refl s1)
            λ t2 s2.
              Returns-bind {P = IsSound s} (plain-IsSound dev mem (codes "Table: ") s t2 refl s2)
                λ t3 s3.
                  Returns-bind {P = IsSound s}
                    (plain-IsSound dev mem (table_name error) s t3 (table_name-plain error) s3)
                    λ t4 s4.
                      around-IsSound (number plain upper_hex (error / 8 % 0x2000))
                        (codes "Index: 0x") (codes "\n") t4 tt refl refl s4

  -- exception_handler, whatever the number of the exception and its error code: it gets to the
  -- halt without writing behind the buffer of printk; the cursor of the screen is still on it, no
  -- cell behind the screen has changed, and the ring of the serial port is well formed. The cursor
  -- is on the screen and the ring well formed before.
  pub exception_handler-IsSound :
      (irq error : ℕ)
      → OnScreen s.vga
      → IsRing s.serial
      → Returns (exception_handler dev mem irq error s) (IsSound s)
  unfolding exception_handler
  exception_handler-IsSound irq error on ring =
      Returns-bind {P = IsSound s} (print_irq-IsSound irq s (on, ring, λ x out. refl)) λ t1 s1.
        Returns-bind {P = IsSound s}
          (if_both (λ (m : Outcome Console). Returns m (IsSound s)) (error == 0) (t1, refl, s1)
            (print_error-IsSound error t1 s1))
          λ t2 s2. plain-IsSound dev mem (codes "  Halting... \n\n") s t2 refl s2
