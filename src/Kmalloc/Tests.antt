-- ===== src/Kmalloc/Tests.antt =====
-- The allocator's theorems at a heap of three blocks.
use csc.Base.{
  ◌+◌, ◌≤◌, ◌≡◌, refl, inl, inr, [], ◌∷◌, ◌++◌, true, false, ◌==◌, ◌&&◌, leb, ltb, if◌then◌else◌,
  arith, null,
}
use csc.Base.Outcome.{Returns}
use csc.Kmalloc.{
  Heap, none_set, merge_blocks, split_block, kmalloc, kfree, extend_mem, round_up, align_size,
}
use csc.Kmalloc.Chain.{Block, header_of, IsHeap}
use csc.Kmalloc.Round.{round_up_align, round_up_bin}
use csc.Kmalloc.Merge.{merge_blocks-join_next, join_next}
use csc.Kmalloc.Cut.{split}
use csc.Kmalloc.Split.{split_block-split}
use csc.Kmalloc.Free.{kfree-freed, freed}
use csc.Kmalloc.Search.{kmalloc-allocated, allocated}
use csc.Kmalloc.Zeroed.{kcalloc, kcalloc-zeroed, given}
use csc.Kmalloc.Resize.{krealloc, resized, krealloc-resized}
use csc.Kmalloc.Extend.{extend_mem-overrun}

-- In use, free and free; the last one ends the heap.
abbrev block_a : Block
block_a = record { addr = 4096; size = 64; free = false }

abbrev block_b : Block
block_b = record { addr = 4192; size = 128; free = true }

abbrev block_c : Block
block_c = record { addr = 4352; size = 16; free = true }

abbrev heap : Heap
heap = record {
  hdr = λ a.
      if a == 4096
      then header_of block_a null 4192
      else if a == 4192
      then header_of block_b 4096 4352
      else header_of block_c 4192 null;
  kernel_heap_head = 4096;
  brk = 4400;
  errno = none_set;
}

heap-IsHeap : IsHeap 4096 heap (block_a ∷ block_b ∷ block_c ∷ [])
heap-IsHeap = record {
  head = refl;
  linked = (refl, (refl, (refl, tt)));
  ordered = (
    omega arith,
    omega arith,
    (omega arith, omega arith, (omega arith, omega arith, omega arith)),
  );
  above_null = omega arith;
  near = omega arith;
  in_range = omega arith;
}

merge_blocks-join_next_example :
    IsHeap 4096
      (merge_blocks 4192 (heap.hdr 4192).next heap)
      ((block_a ∷ []) ++ join_next block_b (block_c ∷ []))
merge_blocks-join_next_example =
    merge_blocks-join_next 4096 heap (block_a ∷ []) block_b (block_c ∷ []) heap-IsHeap

split_block-split_example :
    Returns
      (split_block 4192 32 heap)
      λ h'. IsHeap 4096 h' ((block_a ∷ []) ++ split block_b 32 (block_c ∷ [])) × (h'.brk ≡ 4400)
split_block-split_example =
    split_block-split 4096 heap (block_a ∷ []) block_b (block_c ∷ []) 32 heap-IsHeap (omega arith)
      (omega arith) (λ long. omega arith)

kfree-freed_example :
    Returns (kfree 3 4128 heap) (λ h'. IsHeap 4096 h' (freed [] block_a (block_b ∷ block_c ∷ [])))
kfree-freed_example =
    kfree-freed 4096 3 heap [] block_a (block_b ∷ block_c ∷ []) 4128 heap-IsHeap (omega arith)
      (omega arith) (omega arith) (omega arith)

kmalloc-allocated_example : Returns (kmalloc 3 120 heap) (λ (p, h').
    (p ≡ 4224)
    × IsHeap 4096 h' ((block_a ∷ []) ++ allocated block_b (round_up 120 align_size) (block_c ∷ []))
    × (h'.brk ≡ 4400))
kmalloc-allocated_example =
    kmalloc-allocated 4096 3 120 heap (block_a ∷ []) block_b (block_c ∷ []) heap-IsHeap
      (omega arith) (omega arith) (refl, tt)
      (refl, inl (omega (arith, round_up_align 120 (omega arith) (omega arith))))
      (λ long. omega (arith, round_up_align 120 (omega arith) (omega arith))) (omega arith)

abbrev unused : Heap
unused = record {
  hdr = λ a. header_of block_a null null;
  kernel_heap_head = null;
  brk = 8192;
  errno = none_set;
}

extend_mem-overrun_example : Returns (extend_mem 65536 null null unused) λ (b, h').
    (b ≡ 8192)
    × ((h'.hdr b).ptr + (h'.hdr b).size ≡ h'.brk + 32)
    × Returns (extend_mem 65536 b null h') (λ (c, h2). c ≡ h'.brk)
    × ((h'.hdr b).ptr ≤ h'.brk)
extend_mem-overrun_example =
    extend_mem-overrun 65536 null null unused (omega arith) (omega arith) (omega arith)
      (omega arith) (omega (arith, round_up_bin 65536 (omega arith) (omega arith)))

-- Three times 40 bytes, where every byte was 7.
kcalloc-zeroed_example : Returns (kcalloc 3 3 40 heap (λ a. 7)) (λ (p, h', mem').
    (p ≡ 4224)
    × IsHeap 4096 h' ((block_a ∷ []) ++ allocated block_b (round_up 120 align_size) (block_c ∷ []))
    × (mem' 4300
        ≡ (if leb p 4300 && ltb 4300 (p + given block_b (round_up 120 align_size)) then 0 else 7))
    × (120 ≤ given block_b (round_up 120 align_size)))
kcalloc-zeroed_example =
    kcalloc-zeroed 4096 3 3 40 heap (λ a. 7) (block_a ∷ []) block_b (block_c ∷ []) 4300 heap-IsHeap
      (omega arith) (omega arith) (omega arith) (omega arith) (refl, tt)
      (refl, inl (omega (arith, round_up_align 120 (omega arith) (omega arith))))
      (λ long. omega (arith, round_up_align 120 (omega arith) (omega arith))) (λ short. omega arith)
      (omega arith)

-- The first block grows from 64 bytes to 100, into the free one behind it.
krealloc-resized_example : Returns (krealloc 3 4128 100 heap (λ a. 7)) λ (p, h', mem').
    (p ≡ 4128)
    × (mem' ≡ λ a. 7)
    × IsHeap 4096 h' ([] ++ resized block_a 100 (round_up 100 align_size) (block_b ∷ block_c ∷ []))
krealloc-resized_example =
    krealloc-resized 4096 3 100 heap (λ a. 7) [] block_a (block_b ∷ block_c ∷ []) heap-IsHeap
      (omega arith) (omega arith)
      (inr (
        omega (arith, round_up_align 100 (omega arith) (omega arith)),
        omega (arith, round_up_align 100 (omega arith) (omega arith)),
        λ long. omega arith,
      ))
