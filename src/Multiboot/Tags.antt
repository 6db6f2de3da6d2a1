-- ===== src/Multiboot/Tags.antt =====
-- The tags as a list: the walk ends, and finds the first tag of a type.
use csc.Base.{
  ℕ, zero, suc, ◌+◌, ◌*◌, ◌/◌, ◌%◌, ◌^◌, ◌≤◌, ◌<◌, ◌≡◌, ◌≢◌, refl, Bool, true, false, ◌==◌, List,
  [], ◌∷◌, if◌then◌else◌, null, length, arith, ne→==,
}
use native.Mathlib.Nat.{mul-div_cancel}
use csc.Base.Words.{add64, sub64}
use csc.Base.Outcome.{ok}
use csc.Multiboot.{
  tag_type, tag_size, entry_size, next_tag, find_tag, find_multiboot2_tag, get_multiboot2_mmap_info,
  tag_type_end, tag_type_mmap,
}

pub record Tag : Type 0 where
  pub type : ℕ
  pub size : ℕ

-- The size with its padding.
abbrev pub room : Tag → ℕ
room t = (t.size + 7) / 8 * 8

-- The tags stand one behind the other from `a` on, each on a multiple of 8 bytes from the one before,
-- and end below 4 GiB with a tag of type 0.
abbrev pub TagsAt : (ℕ → ℕ) → ℕ → List Tag → Type 0
TagsAt mem a [] = tag_type mem a ≡ tag_type_end
TagsAt mem a (t ∷ ts) =
    (tag_type mem a ≡ t.type)
    × (t.type ≢ tag_type_end)
    × (tag_size mem a ≡ t.size)
    × (a + room t < 2 ^ 32)
    × TagsAt mem (a + room t) ts

-- Where the first tag of a type stands; NULL if there is none.
abbrev pub place : ℕ → ℕ → List Tag → ℕ
place type a [] = null
place type a (t ∷ ts) = if t.type == type then a else place type (a + room t) ts

next_tag-room :
    (mem : ℕ → ℕ) (a : ℕ) (t : Tag)
    → tag_size mem a ≡ t.size
    → a + room t < 2 ^ 32
    → next_tag mem a ≡ a + room t
next_tag-room mem a t is below = omega arith

ok_if : (b : Bool) (x y : ℕ) → (if b then ok x else ok y) ≡ ok (if b then x else y)
ok_if true x y = refl
ok_if false x y = refl

find_tag-place :
    (fuel : ℕ) (mem : ℕ → ℕ) (type a : ℕ) (ts : List Tag)
    → TagsAt mem a ts
    → length ts < fuel
    → find_tag fuel mem type a ≡ ok (place type a ts)
unfolding find_tag
find_tag-place zero mem type a ts at enough = absurd (omega arith)
find_tag-place (suc k) mem type a [] at enough = rw at refl
find_tag-place (suc k) mem type a (t ∷ ts) at enough =
    let ih = find_tag-place k mem type (a + room t) ts at.4 (omega arith) in
    rw (at.0, next_tag-room mem a t at.2 at.3, ne→== t.type 0 at.1, ih)
      (ok_if (t.type == type) a (place type (a + room t) ts))

-- On tags that stand one behind the other below 4 GiB, each padded to 8 bytes, with one of type 0
-- at the end, find_multiboot2_tag ends after one round for each tag and one more, with the first
-- tag of the type that is looked for, or NULL if there is none.
pub find_multiboot2_tag-place :
    (fuel : ℕ) (mem : ℕ → ℕ) (addr type : ℕ) (ts : List Tag)
    → addr < 2 ^ 32
    → TagsAt mem (addr + 8) ts
    → length ts < fuel
    → find_multiboot2_tag fuel mem addr type ≡ ok (place type (addr + 8) ts)
unfolding find_multiboot2_tag
find_multiboot2_tag-place fuel mem addr type ts below at enough =
    let start : add64 addr 8 ≡ addr + 8 = omega arith in
    rw start (find_tag-place fuel mem type (addr + 8) ts at enough)

num_entries : (n e : ℕ) → 0 < e → n * e < 2 ^ 32 → sub64 (16 + n * e) 16 / e % 2 ^ 32 ≡ n
num_entries n e pos small =
    let bytes : sub64 (16 + n * e) 16 ≡ n * e = omega arith in
    rw (bytes, mul-div_cancel n pos) (omega (arith, le_mul n e pos))
  where
    le_mul : (n e : ℕ) → 0 < e → n ≤ n * e
    le_mul n zero pos = absurd (omega arith)
    le_mul n (suc e) pos = grind arith

-- Where the first memory map has `n` entries of `e` bytes behind its 16 bytes, they are what is
-- returned.
pub get_multiboot2_mmap_info-entries :
    (fuel : ℕ) (mem : ℕ → ℕ) (addr : ℕ) (ts : List Tag) (a e n : ℕ)
    → addr < 2 ^ 32
    → TagsAt mem (addr + 8) ts
    → length ts < fuel
    → place tag_type_mmap (addr + 8) ts ≡ a
    → 0 < a
    → entry_size mem a ≡ e
    → 0 < e
    → tag_size mem a ≡ 16 + n * e
    → n * e < 2 ^ 32
    → get_multiboot2_mmap_info fuel mem addr ≡ ok (a + 16, n)
unfolding get_multiboot2_mmap_info
get_multiboot2_mmap_info-entries fuel mem addr ts a e n below at enough is_place there is_e pos
      is_size small =
    rw
      (
        find_multiboot2_tag-place fuel mem addr tag_type_mmap ts below at enough,
        is_place,
        is_e,
        is_size,
        ne→== a 0 (λ z. omega arith),
        ne→== e 0 (λ z. omega arith),
        num_entries n e pos small,
      )
      refl
