-- ===== src/Printk/Means.antt =====
-- The loop of printk, and printk on a format that is a list of pieces.
use csc.Base.{
  ℕ, zero, suc, ◌+◌, ◌-◌, ◌≤◌, ◌<◌, ◌≡◌, refl, sym, ap, ◌∙◌, Bool, leb, List, [], ◌∷◌, ◌++◌, length,
  length-append, if◌then◌else◌, Bool-cases, inl, inr, arith, lt→ltb,
}
use mathlib.Core.List.{append_assoc, append-nil}
use mathlib.Core.Path.{subst}
use csc.Base.Ports.{Device}
use csc.Base.Outcome.{Outcome, ok, ◌>>=◌, Returns}
use csc.Strings.{Memory, max_str_len}
use csc.Printk.Format.{
  Console, format_at, in_buffer, output_len, print_clear_buff, print_from, printk,
}
use csc.Printk.Pieces.{
  Piece, written, passed, format, arguments, Shows, ShowsAll, ArePieces, IsPiece,
}
use csc.Printk.Shows.{first, behind, first-behind, format_at-Shows}

-- Texts that are put out one after the other.
abbrev pub print_chunks : Device → List (List ℕ) → Console → Console
print_chunks dev [] s = s
print_chunks dev (t ∷ ts) s = print_chunks dev ts (print_clear_buff dev t s)

abbrev pub joined : List (List ℕ) → List ℕ
joined [] = []
joined (t ∷ ts) = t ++ joined ts

module _ (dev : Device) (mem : Memory) (args str : List ℕ) (s : Console) where
  pub from_none : (k : ℕ) (cs : List ℕ) → print_from dev mem 0 k cs args str s ≡ ok (str, s)
  unfolding print_from
  from_none k cs = refl

  pub from_end : (len k : ℕ) → print_from dev mem len k [] args str s ≡ ok (str, s)
  unfolding print_from
  from_end zero k = refl
  from_end (suc len) k = refl

  from_next :
      (len k c : ℕ) (cs : List ℕ)
      → print_from dev mem (suc len) (suc k) (c ∷ cs) args str s
        ≡ print_from dev mem len k cs args str s
  unfolding print_from
  from_next len k c cs = refl

  skipped :
      (len : ℕ) (xs cs : List ℕ)
      → print_from dev mem len (length xs) (xs ++ cs) args str s
        ≡ print_from dev mem (len - length xs) 0 cs args str s
  skipped len [] cs = ap (λ n. print_from dev mem n 0 cs args str s) (omega arith)
  skipped zero (x ∷ xs) cs =
      from_none (length (x ∷ xs)) (x ∷ xs ++ cs)
      ∙ sym (from_none 0 cs)
      ∙ ap (λ n. print_from dev mem n 0 cs args str s) (omega arith)
  skipped (suc len) (x ∷ xs) cs =
      from_next len (length xs) x (xs ++ cs)
      ∙ skipped len xs cs
      ∙ ap (λ n. print_from dev mem n 0 cs args str s) (omega arith)

abbrev round :
    Device → Memory → ℕ → ℕ → List ℕ → List ℕ → List ℕ → Console → Outcome (List ℕ × Console)
round dev mem len c cs args str s = format_at mem c cs args str >>= λ (skip, str2, args2).
    in_buffer str2 >>= λ str3. print_from dev mem len skip cs args2 str3 s

pub in_buffer_lem : (str : List ℕ) → length str < output_len → in_buffer str ≡ ok str
in_buffer_lem str few = rw (lt→ltb _ _ few) refl

-- One piece is put into the buffer, and the loop goes on behind it.
pub round_lem :
    (dev : Device) (mem : Memory) (len : ℕ) (p : Piece) (args str cs : List ℕ) (s : Console)
    → length str < 992
    → IsPiece mem p
    → (a : List ℕ) × (round dev mem len (first p) (behind p ++ cs) (passed p ++ args) str s
        ≡ print_from dev mem (len - length (behind p)) 0 cs args (str ++ a) s)
      × Shows mem p a
      × (length a ≤ 31)
round_lem dev mem len p args str cs s room is =
    let ((skip, str2, args2), e, (k, same, (a, appended, shows, few))) =
      format_at-Shows mem p args str cs (omega arith) is in
    let rest = behind p ++ cs in
    (
      a,
      ap
            (λ m. m >>= λ (skip, str2, args2).
              in_buffer str2 >>= λ str3. print_from dev mem len skip rest args2 str3 s)
            e
          ∙ ap (λ m. m >>= λ str3. print_from dev mem len skip rest args2 str3 s)
              (in_buffer_lem str2 (omega (arith, ap length appended, length-append str a)))
          ∙ ap (λ k. print_from dev mem len k rest args2 str2 s) k
          ∙ ap (λ r. print_from dev mem len (length (behind p)) rest r str2 s) same
          ∙ ap (λ t. print_from dev mem len (length (behind p)) rest args t s) appended
          ∙ skipped dev mem args (str ++ a) s len (behind p) cs,
      shows,
      few,
    )

-- One round, where the buffer is put out first or not.
pub print_from-round :
    (dev : Device) (mem : Memory) (len : ℕ) (p : Piece) (cs args str : List ℕ) (s : Console)
    {full : Bool}
    → leb 992 (length str) ≡ full
    → print_from dev mem (suc len) 0 (written p ++ cs) args str s
      ≡ round dev mem len
          (first p)
          (behind p ++ cs)
          args
          (if full then [] else str)
          (if full then print_clear_buff dev str s else s)
unfolding print_from
print_from-round dev mem len p cs args str s e =
    ap (λ w. print_from dev mem (suc len) 0 (w ++ cs) args str s) (first-behind p)
    ∙ ap
        (λ t.
          round dev mem len (first p) (behind p ++ cs) args (if t then [] else str)
            (if t then print_clear_buff dev str s else s))
        e

length-written :
    (p : Piece) (ps : List Piece)
    → length (format (p ∷ ps)) ≡ suc (length (behind p)) + length (format ps)
length-written p ps =
    length-append (written p) (format ps) ∙ ap (λ w. length w + length (format ps)) (first-behind p)

-- What the loop leaves: texts that were put out, and the rest in the buffer.
abbrev Printed : Device → Memory → List Piece → List ℕ → Console → List ℕ × Console → Type 0
Printed dev mem ps str s (str', s') =
    (chunks : List (List ℕ)) × (text : List ℕ) × (s' ≡ print_chunks dev chunks s)
    × (joined chunks ++ str' ≡ str ++ text)
    × ShowsAll mem ps text

print_from-Printed :
    (dev : Device) (mem : Memory) (len : ℕ) (ps : List Piece) (str : List ℕ) (s : Console)
    → length str < 1024
    → length (format ps) ≤ len
    → ArePieces mem ps
    → Returns (print_from dev mem len 0 (format ps) (arguments ps) str s) (Printed dev mem ps str s)
print_from-Printed dev mem len [] str s few enough are =
    ((str, s), from_end dev mem [] str s len 0, ([], [], refl, sym (append-nil str), refl))
print_from-Printed dev mem zero (p ∷ ps) str s few enough are =
    absurd (omega (arith, enough, length-written p ps))
print_from-Printed dev mem (suc len) (p ∷ ps) str s few enough (is, are) =
    let left : length (format ps) ≤ len - length (behind p) =
      omega (arith, enough, length-written p ps) in
    elim (Bool-cases (leb 992 (length str))) [
      | inl full ↦
          let s1 = print_clear_buff dev str s in
          let (a, step, shows, short) =
            round_lem dev mem len p (arguments ps) [] (format ps) s1 (omega arith) is in
          let ((str', s'), rest, (chunks, text, out, all, show)) =
            print_from-Printed dev mem (len - length (behind p)) ps a s1 (omega arith) left are in
          (
            (str', s'),
            print_from-round dev mem len p (format ps) _ str s full ∙ step ∙ rest,
            (
              str ∷ chunks,
              a ++ text,
              out,
              append_assoc str _ _ ∙ ap (λ t. str ++ t) all,
              (a, text, refl, shows, show),
            ),
          )
      | inr space ↦
          let room : length str < 992 = ground arith in
          let (a, step, shows, short) =
            round_lem dev mem len p (arguments ps) str (format ps) s room is in
          let ((str', s'), rest, (chunks, text, out, all, show)) =
            print_from-Printed dev mem (len - length (behind p)) ps (str ++ a) s
              (omega (arith, length-append str a)) left are in
          (
            (str', s'),
            print_from-round dev mem len p (format ps) _ str s space ∙ step ∙ rest,
            (chunks, a ++ text, out, all ∙ append_assoc str a text, (a, text, refl, shows, show)),
          )
    ]

print_chunks-append :
    (dev : Device) (ts : List (List ℕ)) (t : List ℕ) (s : Console)
    → print_chunks dev (ts ++ t ∷ []) s ≡ print_clear_buff dev t (print_chunks dev ts s)
print_chunks-append dev [] t s = refl
print_chunks-append dev (u ∷ ts) t s = print_chunks-append dev ts t (print_clear_buff dev u s)

joined-append : (ts : List (List ℕ)) (t : List ℕ) → joined (ts ++ t ∷ []) ≡ joined ts ++ t
joined-append [] t = append-nil t
joined-append (u ∷ ts) t =
    ap (λ r. u ++ r) (joined-append ts t) ∙ sym (append_assoc u (joined ts) t)

-- printk of a format that is a list of pieces, of 65536 characters at most, with their arguments,
-- returns, and puts out, in chunks one after the other, the text of the pieces in their order: a
-- character other than a percent sign and NUL as it is; a percent sign; a character argument,
-- nothing for NUL; a string argument, of 31 characters at most; a pointer, 0x and at least eight
-- digits that read as it; and a number in any of the five sizes and six conversions, digits in the
-- base of the conversion that read as the lowest 32 or 64 bits of the argument, behind a minus
-- sign if these are negative.
pub printk-ShowsAll :
    (dev : Device) (mem : Memory) (ps : List Piece) (s : Console)
    → length (format ps) ≤ max_str_len
    → ArePieces mem ps
    → Returns (printk dev mem (format ps) (arguments ps) s) λ (s' : Console).
      (chunks : List (List ℕ)) × (s' ≡ print_chunks dev chunks s) × ShowsAll mem ps (joined chunks)
unfolding printk
printk-ShowsAll dev mem ps s short are =
    let ((str, s'), e, (chunks, text, out, all, shows)) =
      print_from-Printed dev mem max_str_len ps [] s (omega arith) short are in
    (
      print_clear_buff dev str s',
      ap (λ m. m >>= λ (str, s). ok (print_clear_buff dev str s)) e,
      (
        chunks ++ str ∷ [],
        ap (print_clear_buff dev str) out ∙ sym (print_chunks-append dev chunks str s),
        subst (ShowsAll mem ps) (sym (joined-append chunks str ∙ all)) shows,
      ),
    )
