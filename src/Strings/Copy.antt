-- ===== src/Strings/Copy.antt =====
-- strncpy.
use csc.Base.{
  ℕ, zero, suc, ◌+◌, ◌-◌, ◌<◌, ◌≤◌, ◌≡◌, ◌≢◌, refl, ◌∙◌, Bool, true, false, ◌&&◌, ◌||◌, ◌==◌, leb,
  ltb, if◌then◌else◌, Bool-cases, inl, inr, arith, ==→ne, null, ne→==, update, ◌⊎◌,
}
use csc.Strings.{Memory, strncpy, copy, strnlen, count}

count-update : (s k a v : ℕ) (mem : Memory) → a < s → count s k (update mem a v) ≡ count s k mem
unfolding count update
count-update s zero a v mem below = refl
count-update s (suc k) a v mem below = ground (arith, count-update (s + 1) k a v mem (omega arith))

count-end : (s k : ℕ) (mem : Memory) → mem s ≡ 0 → count s k mem ≡ 0
unfolding count
count-end s zero mem e = refl
count-end s (suc k) mem e = ground arith

-- The copy ends before the source begins, so that the source is not written.
copy_lem :
    (d s k : ℕ) (mem : Memory) (x : ℕ)
    → d + k ≤ s
    → mem s ≢ 0
    → copy d s k mem x ≡ (if leb d x && ltb x (d + count s k mem) then mem (s + (x - d)) else mem x)
unfolding copy count update
copy_lem d s zero mem x apart live = ground arith
copy_lem d s (suc k) mem x apart live = elim (Bool-cases (mem (s + 1) == 0)) [
  | inl e ↦ ground (arith, count-end (s + 1) k mem)
  | inr e ↦
      let there : update mem d (mem s) (s + 1) ≢ 0 = ground arith in
      ground (
        arith,
        copy_lem (d + 1) (s + 1) k (update mem d (mem s)) x (omega arith) there,
        count-update (s + 1) k d (mem s) mem (omega arith),
      )
]

or_true : (b : Bool) → (b || true) ≡ true
or_true true = refl
or_true false = refl

-- The two ways of strncpy, with the count of what it copies.
strncpy-cases :
    (d s n : ℕ) (mem : Memory)
    → d ≢ null
    → s ≢ null
    → ((strncpy d s n mem ≡ (d, mem)) × (strnlen s n mem ≡ 0))
      ⊎ ((strncpy d s n mem ≡ (d, copy d s n mem))
          × (strnlen s n mem ≡ count s n mem)
          × (mem s ≢ 0))
unfolding strncpy strnlen
strncpy-cases d s n mem dest src =
    let a = ne→== d null dest in
    let b = ne→== s null src in
    elim (Bool-cases (mem s == 0)) [
      | inl e ↦
          let skipped : ((n == 0) || true) ≡ true = or_true (n == 0) in
          inl (rw (a, b, e) refl, rw (b, e, skipped) refl)
      | inr e ↦ elim (Bool-cases (n == 0)) [
        | inl z ↦ inl (rw (a, b, e, z) refl, rw (b, e, z) refl)
        | inr z ↦ inr (rw (a, b, e, z) refl, rw (b, e, z) refl, ==→ne _ _ e)
      ]
    ]

-- strncpy, between pointers that are not NULL, into n bytes of room in front of the source, copies
-- the characters of the source, n at most, and writes nothing else; the byte behind the copy keeps
-- its value.
pub strncpy_lem :
    (d s n : ℕ) (mem : Memory) (x : ℕ)
    → d ≢ null
    → s ≢ null
    → d + n ≤ s
    → ((strncpy d s n mem).0 ≡ d)
      × ((strncpy d s n mem).1 x
          ≡ (if leb d x && ltb x (d + strnlen s n mem) then mem (s + (x - d)) else mem x))
      × ((strncpy d s n mem).1 (d + strnlen s n mem) ≡ mem (d + strnlen s n mem))
strncpy_lem d s n mem x dest src apart = elim (strncpy-cases d s n mem dest src) [
  | inl (r, none) ↦ rw (r, none) (refl, ground arith, refl)
  | inr (r, some, live) ↦
      rw (r, some)
        (
          refl,
          copy_lem d s n mem x apart live,
          (copy_lem d s n mem (d + count s n mem) apart live ∙ ground arith),
        )
]
