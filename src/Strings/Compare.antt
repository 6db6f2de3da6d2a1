-- ===== src/Strings/Compare.antt =====
-- strncmp.
use csc.Base.{
  ℕ, zero, suc, ◌+◌, ◌≡◌, ◌≢◌, refl, ◌∙◌, List, [], ◌∷◌, Bool, true, false, ◌==◌, leb,
  if◌then◌else◌, Bool-cases, inl, inr, arith, null, ne→==,
}
use csc.Base.Ints.{ℤ, pos, negsuc, sub_int}
use csc.Strings.{Memory, strncmp, compare_bytes}
use csc.Strings.Content.{content}

abbrev pub is_zero : ℤ → Bool
is_zero (pos n) = n == 0
is_zero (negsuc n) = false

-- Two lists of numbers are the same, as a test.
abbrev pub same : List ℕ → List ℕ → Bool
same [] [] = true
same (x ∷ xs) (y ∷ ys) = if x == y then same xs ys else false
same _ _ = false

sub_int-zero : (a b : ℕ) → is_zero (sub_int a b) ≡ (a == b)
sub_int-zero a b = elim (Bool-cases (leb b a)) [
  | inl e ↦ rw e (ground arith)
  | inr e ↦ rw e (ground arith)
]

compare_bytes-same :
    (s1 s2 n : ℕ) (mem : Memory)
    → is_zero (compare_bytes s1 s2 n mem) ≡ same (content s1 n mem) (content s2 n mem)
unfolding compare_bytes
compare_bytes-same s1 s2 zero mem = refl
compare_bytes-same s1 s2 (suc n) mem = elim (Bool-cases (mem s1 == 0)) [
  | inl e ↦ elim (Bool-cases (mem s2 == 0)) [
    | inl f ↦ rw (e, f) (sub_int-zero (mem s1) (mem s2) ∙ ground arith)
    | inr f ↦ rw (e, f) (sub_int-zero (mem s1) (mem s2) ∙ ground arith)
  ]
  | inr e ↦ elim (Bool-cases (mem s2 == 0)) [
    | inl f ↦
        let other : (mem s1 == mem s2) ≡ false = ground arith in
        rw (e, f, other) (sub_int-zero (mem s1) (mem s2) ∙ other)
    | inr f ↦ elim (Bool-cases (mem s1 == mem s2)) [
      | inl g ↦ rw (e, f, g) (compare_bytes-same (s1 + 1) (s2 + 1) n mem)
      | inr g ↦ rw (e, f, g) (sub_int-zero (mem s1) (mem s2) ∙ g)
    ]
  ]
]

-- strncmp of two strings that are not NULL answers 0 exactly if they have the same characters, n
-- at most.
pub strncmp-same :
    (s1 s2 n : ℕ) (mem : Memory)
    → s1 ≢ null
    → s2 ≢ null
    → is_zero (strncmp s1 s2 n mem) ≡ same (content s1 n mem) (content s2 n mem)
unfolding strncmp
strncmp-same s1 s2 n mem a b =
    rw (ne→== s1 null a, ne→== s2 null b) (compare_bytes-same s1 s2 n mem)
