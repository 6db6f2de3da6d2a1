-- ===== src/Printk/Pieces.antt =====
-- What a format of printk means: a format is a list of pieces, each with its argument and its text.
use csc.Base.{
  ℕ, suc, ◌-◌, ◌%◌, ◌^◌, ◌≤◌, ◌<◌, ◌≡◌, ◌≢◌, ◌==◌, ltb, List, [], ◌∷◌, ◌++◌, length, if◌then◌else◌,
}
use csc.Base.Ints.{ℤ, pos, negsuc}
use csc.Strings.{Memory}
use csc.Printk.{lowercase, uppercase}
use csc.Printk.Digits.{Prints}
use csc.Printk.Format.{string_at}

-- The length modifiers, and the conversions of a number.
pub data Size : Type 0 where
  plain short long long_long quad : Size

pub data Kind : Type 0 where
  decimal integer natural hex upper_hex octal : Kind

pub data Piece : Type 0 where
  -- a character, and "%%"
  plain_char : ℕ → Piece
  percent : Piece
  -- "%c", "%s", "%p" and a number, each with the word that is passed
  char : ℕ → Piece
  string : ℕ → Piece
  pointer : ℕ → Piece
  number : Size → Kind → ℕ → Piece

abbrev pub letters : Size → List ℕ
letters plain = []
letters short = b'h' ∷ []
letters long = b'l' ∷ []
letters long_long = b'l' ∷ b'l' ∷ []
letters quad = b'q' ∷ []

abbrev pub letter : Kind → ℕ
letter decimal = b'd'
letter integer = b'i'
letter natural = b'u'
letter hex = b'x'
letter upper_hex = b'X'
letter octal = b'o'

abbrev pub bits : Size → ℕ
bits plain = 32
bits short = 32
bits _ = 64

abbrev pub written : Piece → List ℕ
written (plain_char c) = c ∷ []
written percent = b'%' ∷ b'%' ∷ []
written (char a) = b'%' ∷ b'c' ∷ []
written (string p) = b'%' ∷ b's' ∷ []
written (pointer p) = b'%' ∷ b'p' ∷ []
written (number size kind a) = b'%' ∷ letters size ++ letter kind ∷ []

abbrev pub passed : Piece → List ℕ
passed (plain_char c) = []
passed percent = []
passed (char a) = a ∷ []
passed (string p) = p ∷ []
passed (pointer p) = p ∷ []
passed (number size kind a) = a ∷ []

abbrev pub format : List Piece → List ℕ
format [] = []
format (p ∷ ps) = written p ++ format ps

abbrev pub arguments : List Piece → List ℕ
arguments [] = []
arguments (p ∷ ps) = passed p ++ arguments ps

-- The digits of a number in a base.
abbrev pub Digits : ℕ → ℕ → ℕ → ℕ → List ℕ → Type 0
Digits base text_case n w s = Prints base text_case [] n w s

-- A minus sign in front of what a negative number lacks to zero.
abbrev pub ShowsInt : ℤ → List ℕ → Type 0
ShowsInt (pos n) s = Digits 10 lowercase n 0 s
ShowsInt (negsuc n) s = (t : List ℕ) × (s ≡ b'-' ∷ t) × Digits 10 lowercase (suc n) 0 t

-- The number that the lowest bits of a word stand for in two's complement.
abbrev pub in_bits : ℕ → ℕ → ℤ
in_bits w a = let n = a % 2 ^ w in if ltb n (2 ^ (w - 1)) then pos n else negsuc (2 ^ w - n - 1)

abbrev pub ShowsNumber : Kind → ℕ → ℕ → List ℕ → Type 0
ShowsNumber decimal w a s = ShowsInt (in_bits w a) s
ShowsNumber integer w a s = ShowsInt (in_bits w a) s
ShowsNumber natural w a s = Digits 10 lowercase (a % 2 ^ w) 0 s
ShowsNumber hex w a s = Digits 16 lowercase (a % 2 ^ w) 0 s
ShowsNumber upper_hex w a s = Digits 16 uppercase (a % 2 ^ w) 0 s
ShowsNumber octal w a s = Digits 8 lowercase (a % 2 ^ w) 0 s

abbrev pub Shows : Memory → Piece → List ℕ → Type 0
Shows mem (plain_char c) s = s ≡ c ∷ []
Shows mem percent s = s ≡ b'%' ∷ []
Shows mem (char a) s = s ≡ (if a % 256 == 0 then [] else a % 256 ∷ [])
Shows mem (string p) s = s ≡ string_at p mem
Shows mem (pointer p) s =
    (t : List ℕ) × (s ≡ b'0' ∷ b'x' ∷ t) × Digits 16 lowercase (p % 2 ^ 64) 8 t
Shows mem (number size kind a) s = ShowsNumber kind (bits size) a s

abbrev pub ShowsAll : Memory → List Piece → List ℕ → Type 0
ShowsAll mem [] s = s ≡ []
ShowsAll mem (p ∷ ps) s =
    (a : List ℕ) × (b : List ℕ) × (s ≡ a ++ b) × Shows mem p a × ShowsAll mem ps b

-- A plain character is no '%' and no NUL, and a string has 31 characters at most.
abbrev pub IsPiece : Memory → Piece → Type 0
IsPiece mem (plain_char c) = (c ≢ b'%') × (0 < c) × (c < 256)
IsPiece mem (string p) = length (string_at p mem) ≤ 31
IsPiece mem _ = Unit

abbrev pub ArePieces : Memory → List Piece → Type 0
ArePieces mem [] = Unit
ArePieces mem (p ∷ ps) = IsPiece mem p × ArePieces mem ps
