-- ===== src/Sched/Queue.antt =====
-- What the linked list of ksched.c stands for: a queue of distinct threads.
use csc.Base.{ℕ, ◌≡◌, ◌≢◌, List, [], ◌∷◌, true, false, arith, null, length, has, Distinct}
use csc.Base.Outcome.{ok}
use csc.Sched.{Sched, validate_ll}

abbrev pub head_or : ℕ → List ℕ → ℕ
head_or d [] = d
head_or d (x ∷ xs) = x

abbrev pub last_or : ℕ → List ℕ → ℕ
last_or d [] = d
last_or d (x ∷ xs) = last_or x xs

-- Each thread points at the one behind it, and that one back. Nothing is said of the outer ends:
-- the code leaves old values there, and never reads them.
abbrev pub Links : (ℕ → ℕ) → (ℕ → ℕ) → List ℕ → Type 0
Links n p [] = Unit
Links n p (a ∷ []) = Unit
Links n p (a ∷ b ∷ r) = (n a ≡ b) × (p b ≡ a) × Links n p (b ∷ r)

pub record IsQueue (s : Sched) (q : List ℕ) : Type 0 where
  pub head : s.ll_head ≡ head_or null q
  pub tail : s.ll_tail ≡ last_or null q
  pub size : s.ll_len ≡ length q
  pub links : Links s.next s.prev q
  pub no_null : has null q ≡ false
  pub distinct : Distinct q

pub has-last_or : (a : ℕ) (q : List ℕ) → has (last_or a q) (a ∷ q) ≡ true
has-last_or a [] = ground arith
has-last_or a (b ∷ q) = ground (arith, has-last_or b q)

pub ne_of_has : (a b : ℕ) (q : List ℕ) → has a q ≡ true → has b q ≡ false → a ≢ b
ne_of_has a b q h k e = ground arith

-- A state that stands for a queue passes every assertion of `validate_ll`.
pub IsQueue-valid : (s : Sched) (q : List ℕ) → IsQueue s q → validate_ll s ≡ ok tt
unfolding validate_ll
IsQueue-valid s [] is = ground (arith, is.head, is.tail)
IsQueue-valid s (a ∷ []) is = ground (arith, is.head, is.tail)
IsQueue-valid s (a ∷ b ∷ q) is = ground (
  arith,
  is.head,
  is.tail,
  has-last_or b q,
  ne_of_has (last_or b q) null (b ∷ q) (has-last_or b q),
  ne_of_has (last_or b q) a (b ∷ q) (has-last_or b q),
)
