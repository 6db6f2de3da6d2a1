-- ===== src/Multiboot.antt =====
-- The information of the boot loader, Bric_OS/src/boot/multiboot2.c: a list of tags in memory.
-- Memory is a function that gives the 32-bit word at an address. Messages are left out; of the
-- tables that are printed, what stays is the addresses of the printed rows.
pub mod Names
pub mod Tags
mod Tests
use csc.Base.{
  ℕ, zero, suc, ◌+◌, ◌-◌, ◌*◌, ◌/◌, ◌%◌, ◌^◌, Bool, true, false, not, ◌==◌, ltb, List, [], ◌∷◌,
  if◌then◌else◌, null,
}
use csc.Base.Words.{add64, sub64}
use csc.Base.Outcome.{Outcome, ok, fault, out_of_fuel, ◌>>=◌, ◌>>◌}

abbrev pub tag_type_end : ℕ
tag_type_end = 0

abbrev pub tag_type_mmap : ℕ
tag_type_mmap = 6

abbrev pub tag_type_elf_sections : ℕ
tag_type_elf_sections = 9

-- The fields of a tag, of the memory map and of the section table.
abbrev pub tag_type : (ℕ → ℕ) → ℕ → ℕ
tag_type mem tag = mem tag

abbrev pub tag_size : (ℕ → ℕ) → ℕ → ℕ
tag_size mem tag = mem (tag + 4)

abbrev pub entry_size : (ℕ → ℕ) → ℕ → ℕ
entry_size mem tag = mem (tag + 8)

abbrev pub num_sections : (ℕ → ℕ) → ℕ → ℕ
num_sections mem tag = mem (tag + 8)

-- ( tag->size + 7 ) & ~7, in 32 bits.
abbrev pub padded_size : ℕ → ℕ
padded_size size = (size + 7) % 2 ^ 32 / 8 * 8

abbrev pub next_tag : (ℕ → ℕ) → ℕ → ℕ
next_tag mem tag = add64 tag (padded_size (tag_size mem tag))

-- The loop of find_multiboot2_tag.
unfoldable pub find_tag : ℕ → (ℕ → ℕ) → ℕ → ℕ → Outcome ℕ
find_tag zero mem type tag = out_of_fuel
find_tag (suc k) mem type tag =
    let rest = find_tag k mem type (next_tag mem tag) in
    if tag_type mem tag == tag_type_end
    then ok null
    else if tag_type mem tag == type
    then ok tag
    else rest

unfoldable pub find_multiboot2_tag : ℕ → (ℕ → ℕ) → ℕ → ℕ → Outcome ℕ
find_multiboot2_tag fuel mem addr type = find_tag fuel mem type (add64 addr 8)

-- The address of the entries, and how many there are. A missing tag is read through NULL, and an
-- entry size of 0 is divided by.
unfoldable pub get_multiboot2_mmap_info : ℕ → (ℕ → ℕ) → ℕ → Outcome (ℕ × ℕ)
get_multiboot2_mmap_info fuel mem tag_addr = do
  tag ← find_multiboot2_tag fuel mem tag_addr tag_type_mmap
  if tag == null
      then fault
      else if entry_size mem tag == 0
      then fault
      else ok (tag + 16, sub64 (tag_size mem tag) 16 / entry_size mem tag % 2 ^ 32)

unfoldable pub get_multiboot2_elf_info : ℕ → (ℕ → ℕ) → ℕ → Outcome (ℕ × ℕ)
get_multiboot2_elf_info fuel mem tag_addr = do
  tag ← find_multiboot2_tag fuel mem tag_addr tag_type_elf_sections
  if tag == null then fault else ok (tag + 20, num_sections mem tag)

-- The rows of the memory map that parse_mmap prints, from `mmap` on.
unfoldable pub parse_mmap : ℕ → (ℕ → ℕ) → ℕ → ℕ → Outcome (List ℕ)
parse_mmap zero mem tag mmap = out_of_fuel
parse_mmap (suc k) mem tag mmap =
    let rest = parse_mmap k mem tag (add64 mmap (entry_size mem tag)) in
    if ltb mmap (add64 tag (tag_size mem tag)) then (do rows ← rest; ok (mmap ∷ rows)) else ok []

-- The sections that parse_ELF prints: those with the flag SHF_ALLOC, of `n` from `sect` on.
unfoldable pub parse_elf : ℕ → (ℕ → ℕ) → ℕ → List ℕ
parse_elf zero mem sect = []
parse_elf (suc n) mem sect =
    let rest = parse_elf n mem (add64 sect 64) in
    if mem (sect + 8) / 2 % 2 == 0 then rest else sect ∷ rest

-- What is printed of one tag.
unfoldable pub parse_tag : ℕ → (ℕ → ℕ) → ℕ → Outcome (List ℕ)
parse_tag fuel mem tag =
    if tag_type mem tag == tag_type_mmap
    then parse_mmap fuel mem tag (tag + 16)
    else if tag_type mem tag == tag_type_elf_sections
    then ok (parse_elf (num_sections mem tag) mem (tag + 20))
    else ok []

-- The loop over the tags; the rows of each tag are one list.
unfoldable pub parse_tags : ℕ → (ℕ → ℕ) → ℕ → Outcome (List (List ℕ))
parse_tags zero mem tag = out_of_fuel
parse_tags (suc k) mem tag =
    let rest = parse_tags k mem (next_tag mem tag) in
    if tag_type mem tag == tag_type_end
    then ok []
    else do rows ← parse_tag (suc k) mem tag; others ← rest; ok (rows ∷ others)

abbrev pub bootloader_magic : ℕ
bootloader_magic = 0x36D76289

-- 1 where the magic number or the address is wrong.
unfoldable pub parse_multiboot2 : ℕ → (ℕ → ℕ) → ℕ → ℕ → Outcome (ℕ × List (List ℕ))
parse_multiboot2 fuel mem magic addr =
    let m = magic % 2 ^ 32 in
    let a = addr % 2 ^ 32 in
    if not (m == bootloader_magic)
    then ok (1, [])
    else if a == 0
    then ok (1, [])
    else if not (a % 8 == 0)
    then ok (1, [])
    else do rows ← parse_tags fuel mem (a + 8); ok (0, rows)
