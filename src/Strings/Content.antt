-- ===== src/Strings/Content.antt =====
-- The characters of a string, and strnlen.
use csc.Base.{
  ℕ, zero, suc, ◌+◌, ◌≡◌, ◌≢◌, refl, ap, List, [], ◌∷◌, length, false, ◌==◌, if◌then◌else◌,
  Bool-cases, inl, inr, arith, null, ne→==,
}
use csc.Strings.{Memory, strnlen, count}

-- The bytes from an address up to a NUL, n at most.
abbrev pub content : ℕ → ℕ → Memory → List ℕ
content s zero mem = []
content s (suc n) mem = if mem s == 0 then [] else mem s ∷ content (s + 1) n mem

count-length : (s n : ℕ) (mem : Memory) → count s n mem ≡ length (content s n mem)
unfolding count
count-length s zero mem = refl
count-length s (suc n) mem = elim (Bool-cases (mem s == 0)) [
  | inl e ↦ rw e refl
  | inr e ↦ rw e (ap suc (count-length (s + 1) n mem))
]

-- strnlen of a string that is not NULL is the number of its characters, maxlen at most.
pub strnlen-length :
    (s n : ℕ) (mem : Memory) → s ≢ null → strnlen s n mem ≡ length (content s n mem)
unfolding strnlen
strnlen-length s zero mem there = rw (ne→== s null there) refl
strnlen-length s (suc n) mem there =
    let live = ne→== s null there in
    let bound : (suc n == 0) ≡ false = ground arith in
    elim (Bool-cases (mem s == 0)) [
      | inl e ↦ rw (live, bound, e) refl
      | inr e ↦ rw (live, bound, e) (ap suc (count-length (s + 1) n mem))
    ]
