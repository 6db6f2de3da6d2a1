-- ===== src/Printk/Shows.antt =====
-- printk prints what its format means.
use csc.Base.{
  ℕ, suc, ◌+◌, ◌-◌, ◌%◌, ◌^◌, ◌≤◌, ◌<◌, ◌≡◌, ◌≢◌, ◌⊎◌, refl, sym, ap, ◌∙◌, false, ◌==◌, List, [],
  ◌∷◌, ◌++◌, length, get_or, length-append, if◌then◌else◌, Bool-cases, inl, inr, arith, ne→==,
}
use mathlib.Core.List.{append_assoc, append-nil}
use mathlib.Core.Path.{subst}
use csc.Base.Ints.{ℤ, pos, negsuc}
use csc.Base.Outcome.{Outcome, ok, ◌>>=◌, Returns}
use csc.Strings.{Memory, max_str_len}
use csc.Printk.{lowercase, uppercase, format_char, format_llu_base_n, format_ll_base_n}
use csc.Printk.Digits.{IsBase, IsCase, Within, format_llu_base_n-value, format_llu_base_n-Within}
use csc.Printk.Format.{
  string_at, format_str, format_ll, format_llu, format_hex, format_oct, format_ptr, signed,
  unsigned, parse_specifier, specifier, format_at,
}
use csc.Printk.Pieces.{
  Size, plain, short, long, long_long, quad, Kind, decimal, integer, natural, hex, upper_hex, octal,
  Piece, plain_char, percent, char, string, pointer, number, letter, letters, bits, written, passed,
  Digits, ShowsInt, ShowsNumber, Shows, IsPiece,
}

-- The string has grown by a text with that property, of 31 characters at most.
abbrev pub Adds : List ℕ → (List ℕ → Type 0) → List ℕ → Type 0
Adds str P s = (a : List ℕ) × (s ≡ str ++ a) × P a × (length a ≤ 31)

abbrev pub HasRoom : List ℕ → Type 0
HasRoom str = length str < 1000

llu_lem :
    (str : List ℕ) (n base t w : ℕ)
    → length str < 1010
    → IsBase base
    → IsCase t
    → n ≤ 2 ^ 64
    → w ≤ 22
    → Returns
        (format_llu_base_n 22 str n base t w)
        (λ s. (a : List ℕ) × (s ≡ str ++ a) × Digits base t n w a × (length a ≤ 22))
llu_lem str n base t w room is case small wide =
    let (s, printed, (ds, appended, worth, least)) =
      format_llu_base_n-value 21 n base t w str is case (λ e. omega arith) (omega arith) in
    let few : length s ≤ length str + 22 =
      subst (Within (length str + 22)) printed
        (format_llu_base_n-Within 22 n base t w 22 str (omega arith) wide) in
    (
      s,
      printed,
      (
        ds,
        appended,
        (ds, refl, worth, least),
        omega (arith, ap length appended, length-append str ds),
      ),
    )

abbrev pub IsSmall : ℤ → Type 0
IsSmall (pos n) = n ≤ 2 ^ 64
IsSmall (negsuc n) = suc n ≤ 2 ^ 64

pub ll_lem :
    (str : List ℕ) (z : ℤ)
    → HasRoom str
    → IsSmall z
    → Returns (format_ll str z) (Adds str (ShowsInt z))
unfolding format_ll format_ll_base_n
ll_lem str (pos n) room small =
    let (s, printed, (a, appended, digits, few)) =
      llu_lem str n 10 lowercase 0 (omega arith) (inr (inl refl)) (inl refl) small (omega arith) in
    (s, printed, (a, appended, digits, omega arith))
ll_lem [] (negsuc n) room small =
    let (s, printed, (a, appended, digits, few)) =
      llu_lem [] (suc n) 10 lowercase 0 (omega arith) (inr (inl refl)) (inl refl) small
        (omega arith) in
    (
      b'-' ∷ a,
      rw printed (ap (λ l. ok (b'-' ∷ l)) appended),
      (b'-' ∷ a, refl, (a, refl, digits), omega arith),
    )
ll_lem (c ∷ cs) (negsuc n) room small =
    let (s, printed, (a, appended, digits, few)) =
      llu_lem (cs ++ b'-' ∷ []) (suc n) 10 lowercase 0 (omega (arith, length-append cs (b'-' ∷ [])))
        (inr (inl refl)) (inl refl) small (omega arith) in
    (
      (c ∷ cs) ++ (b'-' ∷ a),
      rw printed (ap (λ l. ok (c ∷ l)) (appended ∙ append_assoc cs (b'-' ∷ []) a)),
      (b'-' ∷ a, refl, (a, refl, digits), omega arith),
    )

-- A number of 32 or 64 bits.
abbrev pub IsWidth : ℕ → Type 0
IsWidth w = (w ≡ 32) ⊎ (w ≡ 64)

pub below_64 : (w a : ℕ) → IsWidth w → a % 2 ^ w ≤ 2 ^ 64
below_64 w a (inl e) = rw e (omega arith)
below_64 w a (inr e) = rw e (omega arith)

pub signed-IsSmall : (w a : ℕ) → IsWidth w → IsSmall (signed w a)
signed-IsSmall w a (inl e) = rw e (ground arith)
signed-IsSmall w a (inr e) = rw e (ground arith)

pub number_lem :
    (str : List ℕ) (n base t : ℕ)
    → HasRoom str
    → IsBase base
    → IsCase t
    → n ≤ 2 ^ 64
    → Returns (format_llu_base_n 22 str n base t 0) (Adds str (Digits base t n 0))
number_lem str n base t room is case small =
    let (s, printed, (a, appended, digits, few)) =
      llu_lem str n base t 0 (omega arith) is case small (omega arith) in
    (s, printed, (a, appended, digits, omega arith))

-- The call returns with the argument gone.
abbrev pub Took : List ℕ → List ℕ → (List ℕ → Type 0) → List ℕ × List ℕ → Type 0
Took args str P (s, args') = (args' ≡ args) × Adds str P s

took :
    {P : List ℕ → Type 0} (m : Outcome (List ℕ)) (args str : List ℕ)
    → Returns m (Adds str P)
    → Returns (m >>= λ s. ok (s, args)) (Took args str P)
took m args str (s, e, h) = ((s, args), ap (λ m. m >>= λ s. ok (s, args)) e, (refl, h))

parse_specifier-ShowsNumber :
    (kind : Kind) (w a : ℕ) (args str : List ℕ)
    → HasRoom str
    → IsWidth w
    → Returns
        (parse_specifier (letter kind) w (a ∷ args) str)
        (Took args str (ShowsNumber kind w a))
unfolding parse_specifier format_llu format_hex format_oct
parse_specifier-ShowsNumber decimal w a args str room is =
    took _ args str (ll_lem str (signed w a) room (signed-IsSmall w a is))
parse_specifier-ShowsNumber integer w a args str room is =
    took _ args str (ll_lem str (signed w a) room (signed-IsSmall w a is))
parse_specifier-ShowsNumber natural w a args str room is =
    took _ args str (
      number_lem str (unsigned w a) 10 lowercase room (inr (inl refl)) (inl refl) (below_64 w a is))
parse_specifier-ShowsNumber hex w a args str room is =
    took _ args str (
      number_lem str (unsigned w a) 16 lowercase room (inr (inr refl)) (inl refl) (below_64 w a is))
parse_specifier-ShowsNumber upper_hex w a args str room is =
    took _ args str (
      number_lem str (unsigned w a) 16 uppercase room (inr (inr refl)) (inr refl) (below_64 w a is))
parse_specifier-ShowsNumber octal w a args str room is =
    took _ args str
      (number_lem str (unsigned w a) 8 lowercase room (inl refl) (inl refl) (below_64 w a is))

-- One piece of the format: the characters of it behind the first are skipped.
abbrev pub Did : ℕ → List ℕ → List ℕ → (List ℕ → Type 0) → ℕ × List ℕ × List ℕ → Type 0
Did k args str P (skip, str', args') = (skip ≡ k) × (args' ≡ args) × Adds str P str'

moved :
    {P : List ℕ → Type 0} (k : ℕ) (m : Outcome (List ℕ × List ℕ)) (args str : List ℕ)
    → Returns m (Took args str P)
    → Returns (m >>= λ (s, args). ok (k, s, args)) (Did k args str P)
moved k m args str ((s, args'), e, (same, h)) =
    ((k, s, args'), ap (λ m. m >>= λ (s, args). ok (k, s, args)) e, (refl, same, h))

moved_number :
    (k : ℕ) (kind : Kind) (w a : ℕ) (args str : List ℕ)
    → HasRoom str
    → IsWidth w
    → Returns
        (parse_specifier (letter kind) w (a ∷ args) str >>= λ (s, args). ok (k, s, args))
        (Did k args str (ShowsNumber kind w a))
moved_number k kind w a args str room is =
    moved k _ args str (parse_specifier-ShowsNumber kind w a args str room is)

specifier-number :
    (mem : Memory) (size : Size) (kind : Kind) (a : ℕ) (args str cs : List ℕ)
    → HasRoom str
    → Returns
        (format_at mem b'%' ((letters size ++ letter kind ∷ []) ++ cs) (a ∷ args) str)
        (Did (length (letters size) + 1) args str (ShowsNumber kind (bits size) a))
unfolding format_at specifier
specifier-number mem plain decimal a args str cs room =
    moved_number 1 decimal 32 a args str room (inl refl)
specifier-number mem plain integer a args str cs room =
    moved_number 1 integer 32 a args str room (inl refl)
specifier-number mem plain natural a args str cs room =
    moved_number 1 natural 32 a args str room (inl refl)
specifier-number mem plain hex a args str cs room = moved_number 1 hex 32 a args str room (inl refl)
specifier-number mem plain upper_hex a args str cs room =
    moved_number 1 upper_hex 32 a args str room (inl refl)
specifier-number mem plain octal a args str cs room =
    moved_number 1 octal 32 a args str room (inl refl)
specifier-number mem short kind a args str cs room =
    moved_number 2 kind 32 a args str room (inl refl)
specifier-number mem long decimal a args str cs room =
    moved_number 2 decimal 64 a args str room (inr refl)
specifier-number mem long integer a args str cs room =
    moved_number 2 integer 64 a args str room (inr refl)
specifier-number mem long natural a args str cs room =
    moved_number 2 natural 64 a args str room (inr refl)
specifier-number mem long hex a args str cs room = moved_number 2 hex 64 a args str room (inr refl)
specifier-number mem long upper_hex a args str cs room =
    moved_number 2 upper_hex 64 a args str room (inr refl)
specifier-number mem long octal a args str cs room =
    moved_number 2 octal 64 a args str room (inr refl)
specifier-number mem long_long kind a args str cs room =
    moved_number 3 kind 64 a args str room (inr refl)
specifier-number mem quad kind a args str cs room =
    moved_number 2 kind 64 a args str room (inr refl)

-- A piece is its first character and what is behind it.
abbrev pub first : Piece → ℕ
first (plain_char c) = c
first _ = b'%'

abbrev pub behind : Piece → List ℕ
behind (plain_char c) = []
behind percent = b'%' ∷ []
behind (char a) = b'c' ∷ []
behind (string p) = b's' ∷ []
behind (pointer p) = b'p' ∷ []
behind (number size kind a) = letters size ++ letter kind ∷ []

pub first-behind : (p : Piece) → written p ≡ first p ∷ behind p
first-behind (plain_char c) = refl
first-behind percent = refl
first-behind (char a) = refl
first-behind (string p) = refl
first-behind (pointer p) = refl
first-behind (number size kind a) = refl

char_lem :
    (str : List ℕ) (c : ℕ)
    → Adds str (λ s. s ≡ (if c % 256 == 0 then [] else c % 256 ∷ [])) (format_char str c)
unfolding format_char
char_lem str c = elim (Bool-cases (c % 256 == 0)) [
  | inl e ↦ rw e ([], sym (append-nil str), refl, omega arith)
  | inr e ↦ rw e (c % 256 ∷ [], refl, refl, omega arith)
]

pub format_str-append :
    (mem : Memory) (str : List ℕ) (p : ℕ)
    → HasRoom str
    → format_str str p mem ≡ str ++ string_at p mem
unfolding format_str
format_str-append mem str p room =
    ap (λ t. if t then str else str ++ string_at p mem)
      (ne→== (length str) (max_str_len - 1) (λ e. omega arith))

pub ptr_lem :
    (mem : Memory) (str : List ℕ) (p : ℕ)
    → HasRoom str
    → Returns (format_ptr str (p % 2 ^ 64) lowercase) (Adds str (Shows mem (pointer p)))
unfolding format_ptr
ptr_lem mem str p room =
    let fits : (length str == max_str_len - 1) ≡ false = ne→== _ _ (λ e. omega arith) in
    let (s, printed, (a, appended, digits, few)) =
      llu_lem (str ++ b'0' ∷ b'x' ∷ []) (p % 2 ^ 64) 16 lowercase 8
        (omega (arith, length-append str (b'0' ∷ b'x' ∷ []))) (inr (inr refl)) (inl refl)
        (omega arith) (omega arith) in
    (
      s,
      rw fits printed,
      (
        b'0' ∷ b'x' ∷ a,
        appended ∙ append_assoc str (b'0' ∷ b'x' ∷ []) a,
        (a, refl, digits),
        omega arith,
      ),
    )

format_at-char :
    (mem : Memory) (c : ℕ) (cs args str : List ℕ)
    → c ≢ b'%'
    → format_at mem c cs args str ≡ ok (0, format_char str c, args)
unfolding format_at
format_at-char mem c cs args str other =
    ap
      (λ t.
        if t
        then specifier mem (get_or cs 0 0) (get_or cs 1 0) (get_or cs 2 0) args str
        else ok (0, format_char str c, args))
      (ne→== c b'%' other)

pub format_at-Shows :
    (mem : Memory) (p : Piece) (args str cs : List ℕ)
    → HasRoom str
    → IsPiece mem p
    → Returns
        (format_at mem (first p) (behind p ++ cs) (passed p ++ args) str)
        (Did (length (behind p)) args str (Shows mem p))
unfolding format_at specifier
format_at-Shows mem (plain_char c) args str cs room (other, some, byte) =
    let (a, appended, is, few) = char_lem str c in
    let same : c % 256 ≡ c = omega arith in
    let shown : a ≡ c ∷ [] = is ∙ rw (same, ne→== c 0 (λ e. omega arith)) refl in
    (_, format_at-char mem c cs args str other, (refl, refl, (a, appended, shown, few)))
format_at-Shows mem percent args str cs room is = (_, refl, (refl, refl, char_lem str b'%'))
format_at-Shows mem (char a) args str cs room is = (_, refl, (refl, refl, char_lem str a))
format_at-Shows mem (string p) args str cs room few =
    (_, refl, (refl, refl, (string_at p mem, format_str-append mem str p room, refl, few)))
format_at-Shows mem (pointer p) args str cs room is =
    moved 1 _ args str (took _ args str (ptr_lem mem str p room))
format_at-Shows mem (number size kind a) args str cs room is =
    subst
      (λ k.
        Returns (format_at mem b'%' (behind (number size kind a) ++ cs) (a ∷ args) str)
          (Did k args str (ShowsNumber kind (bits size) a)))
      (sym (length-append (letters size) (letter kind ∷ [])))
      (specifier-number mem size kind a args str cs room)
