-- ===== src/Multiboot/Tests.antt =====
-- The theorem on the tags at two tags.
use csc.Base.{ℕ, ◌≡◌, refl, List, [], ◌∷◌, ◌==◌, if◌then◌else◌, arith}
use csc.Base.Outcome.{ok}
use csc.Multiboot.{
  find_multiboot2_tag, get_multiboot2_mmap_info, tag_type_mmap, parse_tags, next_tag,
}
use csc.Multiboot.Tags.{Tag, TagsAt, find_multiboot2_tag-place}

-- A tag of 9 bytes, a memory map with one entry of 24 bytes, and the end.
abbrev words : ℕ → ℕ
words a =
    if a == 4104
    then 1
    else if a == 4108
    then 9
    else if a == 4120
    then 6
    else if a == 4124
    then 40
    else if a == 4128
    then 24
    else 0

abbrev tags : List Tag
tags = record { type = 1; size = 9 } ∷ record { type = 6; size = 40 } ∷ []

tags-at : TagsAt words 4104 tags
tags-at = (
  refl,
  (λ e. omega arith),
  refl,
  omega arith,
  (refl, (λ e. omega arith), refl, omega arith, refl),
)

find_multiboot2_tag-place_example : find_multiboot2_tag 3 words 4096 tag_type_mmap ≡ ok 4120
find_multiboot2_tag-place_example =
    find_multiboot2_tag-place 3 words 4096 tag_type_mmap tags (omega arith) tags-at (omega arith)

one_entry : get_multiboot2_mmap_info 3 words 4096 ≡ ok (4136, 1)
unfolding get_multiboot2_mmap_info find_multiboot2_tag csc.Multiboot.find_tag
one_entry = refl
