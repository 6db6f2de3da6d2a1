-- ===== src/Mmu/Tests.antt =====
-- The theorems of the memory manager at small tables.
use csc.Base.{
  ℕ, zero, suc, ◌+◌, ◌*◌, ◌%◌, ◌^◌, ◌≤◌, ◌<◌, ◌≡◌, ◌≢◌, refl, inl, inr, ◌⊎◌, [], ◌∷◌, List, none,
  some, update, update_self, true, false, ◌==◌, if◌then◌else◌, arith, length, has, null, false,
}
use mathlib.Core.Path.{ap₂}
use csc.Base.Outcome.{Returns}
use csc.Mmu.{
  mmu_vaddr_kheap, Mmu, Range, present, read_frame_addr, entry_at, map_page, virt_to_phys,
  page_fault_irq, mmu_pf_alloc, mmu_pf_free, write, page_entry, mmu_free_page,
}
use csc.Mmu.Stock.{Span, frames_from}
use csc.Mmu.Frames.{Stands, Takes, mmu_pf_alloc-stack}
use csc.Mmu.Walk.{Owner, page, idle, table, Idle, Idle-other, translate, walk}
use csc.Mmu.Tables.{Space}
use csc.Mmu.Path.{OnDemand}
use csc.Mmu.Identity.{Started}
use csc.Mmu.Start.{Usable, start_tables-Started}
use csc.Mmu.Init.{start_tables, start_list, map_entries}
use csc.Mmu.Listing.{Built, all_ranges, map_entries-start_list}
use csc.Mmu.Map.{Maps, virt_to_phys-translate, map_page-translate}
use csc.Mmu.Brk.{Grows}
use csc.Kmalloc.{Heap, none_set}
use csc.Kmalloc.Break.{kbrk-refines}
use csc.Mmu.Fault.{page_fault_irq-Maps}
use csc.Mmu.Leaf.{leaf-Space}
use csc.Mmu.Taken.{page-Tree}
use csc.Mmu.Freed.{Unmaps, mmu_free_page-Unmaps}

-- The first page of the kernel heap is on demand, behind three tables.
abbrev words : ℕ → ℕ
words a =
    if a == 8208
    then 12291
    else if a == 12288
    then 16387
    else if a == 16384
    then 20483
    else if a == 20480
    then 1024
    else 0

abbrev owners : ℕ → Owner
owners a =
    if a == 8192
    then table 0 0
    else if a == 12288
    then table 1 2
    else if a == 16384
    then table 2 1024
    else if a == 20480
    then table 3 524288
    else idle

abbrev span : Span
span = record { entry = 4096; start = 0; base = 24576; more = 18; end = 102400 }

abbrev mmu : Mmu
mmu = record {
  word = words;
  range = λ a. record { start = 0; curr_frame = 24576; end = 102400; next_entry = null };
  addr_range_head = 4096;
  addr_range_curr = 4096;
  addr_range_tail = 4096;
  pml4 = 8192;
  pf_free_list_head = null;
  local_heap_ptr = 4128;
  virt_addr_bank = λ r. 2 ^ 40 + 4096;
}

abbrev frames : List ℕ
frames = frames_from 24576 18

stands : Stands mmu frames
stands = record {
  free = [];
  spans = span ∷ [];
  stock = record {
    chain = refl;
    curr = refl;
    ranges = (
      refl,
      record {
        there = λ e. omega arith;
        above_null = omega arith;
        below_end = omega arith;
        reaches_end = omega arith;
        in_memory = omega arith;
      },
      tt,
    );
    distinct = (refl, tt);
  };
  frames_are = refl;
}

entry-cases : (a : ℕ) → present (words a) ≢ 0 → (a ≡ 8208) ⊎ ((a ≡ 12288) ⊎ (a ≡ 16384))
entry-cases a there = ground arith

owner-cases :
    (f k q : ℕ)
    → owners f ≡ table k q
    → ((f ≡ 8192) × (k ≡ 0) × (q ≡ 0))
      ⊎ (((f ≡ 12288) × (k ≡ 1) × (q ≡ 2))
          ⊎ (((f ≡ 16384) × (k ≡ 2) × (q ≡ 1024)) ⊎ ((f ≡ 20480) × (k ≡ 3) × (q ≡ 524288))))
owner-cases f k q is = ground arith

child_at :
    (f k q i a : ℕ)
    → entry_at f i ≡ a
    → owners f ≡ table k q
    → i < 512
    → (a ≡ 8208) ⊎ ((a ≡ 12288) ⊎ (a ≡ 16384))
    → owners (read_frame_addr (words a)) ≡ table (suc k) (q * 512 + i)
child_at f k q i a at is small (inl e) =
    rw e (ap₂ table (ground (arith, owner-cases f k q is)) (ground (arith, owner-cases f k q is)))
child_at f k q i a at is small (inr (inl e)) =
    rw e (ap₂ table (ground (arith, owner-cases f k q is)) (ground (arith, owner-cases f k q is)))
child_at f k q i a at is small (inr (inr e)) =
    rw e (ap₂ table (ground (arith, owner-cases f k q is)) (ground (arith, owner-cases f k q is)))

owner_whole : (f k q : ℕ) → owners f ≡ table k q → f % 4096 ≡ 0
owner_whole f k q is = ground (arith, owner-cases f k q is)

owner_idle : (a : ℕ) → 20480 < a → owners a ≡ idle
owner_idle a h = ground arith

frame_new : (n a b : ℕ) → a < b → has a (frames_from b n) ≡ false
frame_new zero a b h = refl
frame_new (suc n) a b h = let ih = frame_new n a (b + 4096) (omega arith) in ground (arith, ih)

Idle-from :
    (n a : ℕ) → a % 4096 ≡ 0 → 20480 < a → a + n * 4096 < 2 ^ 52 → Idle owners (frames_from a n)
Idle-from zero a whole low high = tt
Idle-from (suc n) a whole low high = (
  owner_idle a low,
  whole,
  omega arith,
  omega arith,
  frame_new n a (a + 4096) (omega arith),
  Idle-from n (a + 4096) (omega arith) (omega arith) (omega arith),
)

space : Space owners mmu frames
space = record {
  tree = record {
    root = refl;
    child = λ f k q i is upper small there.
        child_at f k q i (entry_at f i) refl is small (entry-cases (entry_at f i) there);
    whole = owner_whole;
  };
  idle_frames = Idle-from 18 24576 refl (omega arith) (omega arith);
  stands = stands;
}

heap_page : OnDemand owners mmu (2 ^ 40)
unfolding walk
heap_page = record {
  lowest = 20480;
  is_table = refl;
  reached = refl;
  absent = refl;
  demanded = λ e. omega arith;
}

mmu_pf_alloc-stack_example :
    Takes mmu frames
    × (Returns
        (mmu_pf_free 131072 mmu)
        λ (s' : Mmu). Stands s' (131072 ∷ frames) × Takes s' (131072 ∷ frames))
mmu_pf_alloc-stack_example =
    mmu_pf_alloc-stack mmu frames 131072 stands refl (omega arith) (omega arith) refl

unmapped : translate mmu (2 ^ 40 + 4096) ≡ none
unfolding walk
unmapped = refl

map_page-translate_example :
    Returns (map_page 98304 (2 ^ 40 + 4096) mmu) (Maps 3 owners mmu frames (2 ^ 40 + 4096) 98304)
map_page-translate_example =
    map_page-translate owners mmu frames 98304 (2 ^ 40 + 4096) space (omega arith) refl
      (omega arith) refl unmapped

page_fault_irq-Maps_example :
    Returns
      (page_fault_irq (2 ^ 40 + 5) mmu)
      λ (s' : Mmu). (g : ℕ) × (has g frames ≡ true) × Maps 7 owners mmu frames (2 ^ 40) g s'
page_fault_irq-Maps_example =
    page_fault_irq-Maps owners mmu frames (2 ^ 40 + 5) space (omega arith) heap_page

abbrev heap : Heap
heap = record {
  hdr = λ a. record { ptr = 0; size = 0; free = false; next = null; prev = null };
  kernel_heap_head = null;
  brk = 2 ^ 40 + 4096;
  errno = none_set;
}

kbrk-refines_example : Returns (csc.Mmu.kbrk 8192 mmu) λ (r : ℕ × Mmu).
    (r.0 ≡ (csc.Kmalloc.kbrk 8192 heap).0)
    × (r.1.virt_addr_bank mmu_vaddr_kheap ≡ (csc.Kmalloc.kbrk 8192 heap).1.brk)
    × Grows owners mmu frames mmu_vaddr_kheap (2 ^ 40 + 4096) 2 r.1
kbrk-refines_example =
    kbrk-refines 8192 owners mmu frames heap space refl (omega arith) refl (omega arith)

virt_to_phys-translate_example : Returns (virt_to_phys (2 ^ 40 + 4096) mmu) λ (r : ℕ × Mmu).
    (r.0 ≡ null)
    × ((u : ℕ) → translate r.1 u ≡ translate mmu u)
    × ((own' : ℕ → Owner) × (fs' : List ℕ) × Space own' r.1 fs' × (18 ≤ 3 + length fs'))
unfolding walk
virt_to_phys-translate_example =
    virt_to_phys-translate owners mmu frames (2 ^ 40 + 4096) space (omega arith) refl

-- One range of `n` frames and one more, and nothing mapped yet.
abbrev empty : ℕ → Mmu
empty n = record mmu {
  word = λ a. 0;
  range = λ a. record {
    start = 0;
    curr_frame = 24576;
    end = 24576 + n * 4096 + 4096;
    next_entry = null;
  };
}

empty-Stands : (n : ℕ) → n < 2 ^ 20 → Stands (empty n) (frames_from 24576 n)
empty-Stands n small = record {
  free = [];
  spans =
      record { entry = 4096; start = 0; base = 24576; more = n; end = 24576 + n * 4096 + 4096 }
      ∷ [];
  stock = record {
    chain = refl;
    curr = refl;
    ranges = (
      refl,
      record {
        there = λ e. omega arith;
        above_null = omega arith;
        below_end = omega arith;
        reaches_end = omega arith;
        in_memory = omega arith;
      },
      tt,
    );
    distinct = (refl, tt);
  };
  frames_are = refl;
}

Usable-from : (n a : ℕ) → a % 4096 ≡ 0 → 0 < a → a + n * 4096 < 2 ^ 52 → Usable (frames_from a n)
Usable-from zero a whole low high = tt
Usable-from (suc n) a whole low high = (
  whole,
  low,
  omega arith,
  frame_new n a (a + 4096) (omega arith),
  Usable-from n (a + 4096) (omega arith) (omega arith) (omega arith),
)

length-frames_from : (n a : ℕ) → length (frames_from a n) ≡ n
length-frames_from zero a = refl
length-frames_from (suc n) a = omega (arith, length-frames_from n (a + 4096))

start_tables-Started_example : Returns (start_tables (empty 4000)) (Started 513)
start_tables-Started_example =
    start_tables-Started (empty 4000) (frames_from 24576 4000) (empty-Stands 4000 (omega arith))
      (Usable-from 4000 24576 refl (omega arith) (omega arith))
      (omega (arith, length-frames_from 4000 24576))

-- Memory below the video memory, a reserved part, and the memory with the kernel at its start.
abbrev memory_map : ℕ → ℕ
memory_map a =
    if a == 108
    then 654336
    else if a == 116
    then 1
    else if a == 140
    then 2
    else if a == 148
    then 1048576
    else if a == 156
    then 132120576
    else if a == 164
    then 1
    else 0

abbrev unlisted : Mmu
unlisted = record mmu { local_heap_ptr = 4096 }

map_entries-start_list_example :
    Returns
      (map_entries 3 memory_map 1048576 1280000 100 (start_list unlisted))
      λ (s : Mmu). Built 4096 s (all_ranges 3 memory_map 1048576 1280000 100)
map_entries-start_list_example =
    map_entries-start_list 3 unlisted memory_map 1048576 1280000 100 (omega arith) (omega arith)

-- The first page of the kernel heap is mapped to a frame that the allocator does not hold.
abbrev mapped : Mmu
mapped = write 20480 (page_entry 131072) mmu

abbrev mapped_owners : ℕ → Owner
mapped_owners = update owners 131072 page

mapped-Space : Space mapped_owners mapped frames
mapped-Space =
    let before = leaf-Space owners mmu frames space (2 ^ 40) 20480 (page_entry 131072) refl in
    record {
      tree = page-Tree owners 131072 refl mapped.word 8192 before.tree;
      idle_frames = Idle-other owners 131072 page frames refl before.idle_frames;
      stands = before.stands;
    }

is_mapped : translate mapped (2 ^ 40) ≡ some 131072
unfolding walk update
is_mapped = refl

mmu_free_page-Unmaps_example :
    Returns (mmu_free_page (2 ^ 40) mapped) (Unmaps mapped_owners mapped frames (2 ^ 40) 131072)
mmu_free_page-Unmaps_example =
    mmu_free_page-Unmaps mapped_owners mapped frames (2 ^ 40) 131072 mapped-Space refl is_mapped
      (update_self owners 131072 page) refl (omega arith) (omega arith)
