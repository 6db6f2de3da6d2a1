-- ===== src/Printk/Digits.antt =====
-- The digits that are printed give the number back.
use csc.Base.{
  ℕ, zero, suc, ◌+◌, ◌-◌, ◌*◌, ◌/◌, ◌%◌, ◌^◌, ◌<◌, ◌≤◌, ◌≡◌, ◌≢◌, ◌⊎◌, refl, sym, ap, ◌∙◌, true,
  false, not, ◌==◌, ltb, List, [], ◌∷◌, ◌++◌, length, length-append, if◌then◌else◌, Bool-cases, inl,
  inr, arith, ne→==,
}
use native.Mathlib.Nat.{pow-suc}
use mathlib.Core.List.{append_assoc, append-nil}
use mathlib.Core.Path.{subst}
use csc.Base.Outcome.{Outcome, ok, halted, fault, out_of_fuel, ◌>>=◌, Returns}
use csc.Strings.{max_str_len}
use csc.Printk.{format_llu_base_n, format_char, pad, digit_char, lowercase, uppercase}

-- The value of a digit, and of a list of digits that is read from the left.
abbrev pub digit_value : ℕ → ℕ → ℕ
digit_value text_case c = if ltb c 58 then c - 48 else c - 55 - text_case

abbrev pub value : ℕ → ℕ → ℕ → List ℕ → ℕ
value base text_case v [] = v
value base text_case v (c ∷ cs) = value base text_case (v * base + digit_value text_case c) cs

abbrev pub IsCase : ℕ → Type 0
IsCase t = (t ≡ lowercase) ⊎ (t ≡ uppercase)

value-snoc :
    (base t v : ℕ) (cs : List ℕ) (c : ℕ)
    → value base t v (cs ++ c ∷ []) ≡ value base t v cs * base + digit_value t c
value-snoc base t v [] c = refl
value-snoc base t v (d ∷ cs) c = value-snoc base t (v * base + digit_value t d) cs c

format_char-digit :
    (str : List ℕ) (d t : ℕ)
    → d < 16
    → IsCase t
    → (format_char str (digit_char d t) ≡ str ++ (digit_char d t ∷ []))
      × (digit_value t (digit_char d t) ≡ d)
unfolding format_char
format_char-digit str d t low (inl e) =
    let byte : digit_char d t % 256 ≡ digit_char d t = ground arith in
    let some : (digit_char d t == 0) ≡ false = ground arith in
    (rw byte (rw some refl), ground arith)
format_char-digit str d t low (inr e) =
    let byte : digit_char d t % 256 ≡ digit_char d t = ground arith in
    let some : (digit_char d t == 0) ≡ false = ground arith in
    (rw byte (rw some refl), ground arith)

abbrev zeros : ℕ → List ℕ
zeros zero = []
zeros (suc k) = 48 ∷ zeros k

pad-zeros : (k : ℕ) (str : List ℕ) → pad k str ≡ str ++ zeros k
unfolding pad format_char
pad-zeros zero str = sym (append-nil str)
pad-zeros (suc k) str = pad-zeros k (str ++ 48 ∷ []) ∙ append_assoc str (48 ∷ []) (zeros k)

value-zeros : (base t k : ℕ) → value base t 0 (zeros k) ≡ 0
value-zeros base t zero = refl
value-zeros base t (suc k) = ap (λ v. value base t v (zeros k)) (omega arith) ∙ value-zeros base t k

length-zeros : (k : ℕ) → length (zeros k) ≡ k
length-zeros zero = refl
length-zeros (suc k) = ap suc (length-zeros k)

-- What is printed for `n`: digits of that value, `w` of them at least.
abbrev pub Prints : ℕ → ℕ → List ℕ → ℕ → ℕ → List ℕ → Type 0
Prints base t str n w s =
    (ds : List ℕ) × (s ≡ str ++ ds) × (value base t 0 ds ≡ n) × (w ≤ length ds)

module _ (base : ℕ) (eighth : (n : ℕ) → n / base ≤ n / 8)
    (divide : (n : ℕ) → n / base * base + n % base ≡ n) (low : (n : ℕ) → n % base < 16) where
  -- The last digit, behind the others.
  last_digit :
      (k n t w : ℕ) (str s : List ℕ)
      → IsCase t
      → length str ≢ max_str_len - 1
      → (if not (n / base == 0)
          then format_llu_base_n k str (n / base) base t (w - 1)
          else ok (pad (w - 1) str))
        ≡ ok s
      → Prints base t str (n / base) (w - 1) s
      → Returns (format_llu_base_n (suc k) str n base t w) (Prints base t str n w)
  unfolding format_llu_base_n
  last_digit k n t w str s case room front (ds, appended, worth, wide) =
      let d = n % base in
      let c = digit_char d t in
      let (shown, read) = format_char-digit s d t (low n) case in
      let fits : (length str == max_str_len - 1) ≡ false = ne→== _ _ room in
      (
        s ++ (c ∷ []),
        rw fits (rw front (ap ok shown)),
        (
          ds ++ (c ∷ []),
          ap (λ l. l ++ (c ∷ [])) appended ∙ append_assoc str ds (c ∷ []),
          value-snoc base t 0 ds c
              ∙ ap (λ v. v * base + digit_value t c) worth
              ∙ ap (λ v. n / base * base + v) read
              ∙ divide n,
          omega (arith, wide, length-append ds (c ∷ [])),
        ),
      )

  one_digit :
      (k n t w : ℕ) (str : List ℕ)
      → IsCase t
      → length str ≢ max_str_len - 1
      → (n / base == 0) ≡ true
      → Returns (format_llu_base_n (suc k) str n base t w) (Prints base t str n w)
  one_digit k n t w str case room e =
      last_digit k n t w str (pad (w - 1) str) case room (rw e refl) (
        zeros (w - 1),
        pad-zeros (w - 1) str,
        value-zeros base t (w - 1) ∙ ground arith,
        omega (arith, length-zeros (w - 1)),
      )

  format-value :
      (k n t w : ℕ) (str : List ℕ)
      → IsCase t
      → length str ≢ max_str_len - 1
      → n < 8 ^ suc k
      → Returns (format_llu_base_n (suc k) str n base t w) (Prints base t str n w)
  format-value zero n t w str case room small =
      one_digit zero n t w str case room (ground (arith, eighth n, small))
  format-value (suc k) n t w str case room small = elim (Bool-cases (n / base == 0)) [
    | inl e ↦ one_digit (suc k) n t w str case room e
    | inr e ↦
        let (s, printed, p) =
          format-value k (n / base) t (w - 1) str case room
            (omega (arith, eighth n, small, pow-suc 8 (suc k))) in
        last_digit (suc k) n t w str s case room (rw e printed) p
  ]

-- A string that is returned has at most `b` characters.
abbrev pub Within : ℕ → Outcome (List ℕ) → Type 0
Within b (ok s) = length s ≤ b
Within b _ = Unit

pub format_char-le : (str : List ℕ) (c : ℕ) → length (format_char str c) ≤ length str + 1
unfolding format_char
format_char-le str c = elim (Bool-cases (c % 256 == 0)) [
  | inl e ↦ rw e (omega arith)
  | inr e ↦ rw e (omega (arith, length-append str (c % 256 ∷ [])))
]

length-pad : (k : ℕ) (str : List ℕ) → length (pad k str) ≡ length str + k
length-pad k str =
    omega (arith, ap length (pad-zeros k str), length-append str (zeros k), length-zeros k)

one_more :
    (m : Outcome (List ℕ)) (b c : ℕ) → Within b m → Within (b + 1) (m >>= λ s. ok (format_char s c))
one_more (ok s) b c h = omega (arith, format_char-le s c)
one_more halted b c h = tt
one_more fault b c h = tt
one_more out_of_fuel b c h = tt

-- Each unit of fuel gives one digit, and the width the zeros in front.
pub format_llu_base_n-Within :
    (k n base t w b : ℕ) (str : List ℕ)
    → k ≤ b
    → w ≤ b
    → Within (length str + b) (format_llu_base_n k str n base t w)
unfolding format_llu_base_n
format_llu_base_n-Within zero n base t w b str fuel wide = tt
format_llu_base_n-Within (suc k) n base t w zero str fuel wide = absurd (omega arith)
format_llu_base_n-Within (suc k) n base t w (suc b) str fuel wide =
    let c = digit_char (n % base) t in
    let one : length str + b + 1 ≡ length str + suc b = omega arith in
    elim (Bool-cases (length str == max_str_len - 1)) [
      | inl full ↦ rw full (omega arith)
      | inr room ↦ elim (Bool-cases (n / base == 0)) [
        | inl top ↦
            rw (room, top)
              (omega (arith, format_char-le (pad (w - 1) str) c, length-pad (w - 1) str))
        | inr more ↦
            let higher = format_llu_base_n k str (n / base) base t (w - 1) in
            let ih =
              format_llu_base_n-Within k (n / base) base t (w - 1) b str (omega arith)
                (omega arith) in
            rw (room, more)
              (subst (λ l. Within l (higher >>= λ s. ok (format_char s c))) one
                (one_more higher (length str + b) c ih))
      ]
    ]

abbrev pub IsBase : ℕ → Type 0
IsBase base = (base ≡ 8) ⊎ (base ≡ 10) ⊎ (base ≡ 16)

-- A number below 8^(k + 1), printed in base 8, 10 or 16 with fuel k + 1 behind a string that is
-- not full: the call returns, and what it adds are digits that read as that number, at least as
-- many as asked for.
pub format_llu_base_n-value :
    (k n base t w : ℕ) (str : List ℕ)
    → IsBase base
    → IsCase t
    → length str ≢ max_str_len - 1
    → n < 8 ^ suc k
    → Returns (format_llu_base_n (suc k) str n base t w) (Prints base t str n w)
format_llu_base_n-value k n base t w str is case room small = elim is [
  | inl e ↦ rw e (
      format-value 8 (λ n. omega arith) (λ n. omega arith) (λ n. omega arith) k n t w str case room
        small)
  | inr (inl e) ↦ rw e (
      format-value 10 (λ n. omega arith) (λ n. omega arith) (λ n. omega arith) k n t w str case room
        small)
  | inr (inr e) ↦ rw e (
      format-value 16 (λ n. omega arith) (λ n. omega arith) (λ n. omega arith) k n t w str case room
        small)
]
