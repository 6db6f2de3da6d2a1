-- ===== src/Kmalloc/Break.antt =====
-- The program break of the heap, and the pages that kbrk of mmu_driver.c puts behind it.
use csc.Base.{
  ℕ, ◌+◌, ◌*◌, ◌/◌, ◌%◌, ◌^◌, ◌≤◌, ◌≡◌, refl, sym, inl, inr, ◌∙◌, List, arith, length, ◌==◌,
  Bool-cases, ==→eq,
}
use csc.Base.Outcome.{Returns}
use csc.Kmalloc.{Heap, kbrk}
use csc.Mmu.{Mmu, mmu_vaddr_kheap}
use csc.Mmu.Walk.{Owner}
use csc.Mmu.Tables.{Space}
use csc.Mmu.Brk.{Grows, grow_region-Grows}

kbrk-values :
    (increment : ℕ) (h : Heap)
    → h.brk + increment ≤ 2 ^ 48
    → ((kbrk increment h).0 ≡ h.brk) × ((kbrk increment h).1.brk ≡ h.brk + increment / 4096 * 4096)
unfolding kbrk
kbrk-values increment h below = elim (Bool-cases (increment == 0)) [
  | inl e ↦ rw e (refl, omega (arith, ==→eq _ _ e))
  | inr e ↦ rw e (refl, omega arith)
]

-- kbrk of the memory manager does what the heap relies on: it returns the old break and moves the
-- break by whole pages, where the bank of the heap's region is the break; each page in between
-- then waits for its first access, and no other page changes its translation. The break is aligned
-- and stays below 2^48, and there are three frames for each page; the tables form a tree, and the
-- allocator holds idle frames, each once.
pub kbrk-refines :
    (increment : ℕ) (own : ℕ → Owner) (s : Mmu) (fs : List ℕ) (h : Heap)
    → Space own s fs
    → s.virt_addr_bank mmu_vaddr_kheap ≡ h.brk
    → 3 * (increment / 4096) ≤ length fs
    → h.brk % 4096 ≡ 0
    → h.brk + increment ≤ 2 ^ 48
    → Returns (csc.Mmu.kbrk increment s) λ (r : ℕ × Mmu).
      (r.0 ≡ (kbrk increment h).0)
      × (r.1.virt_addr_bank mmu_vaddr_kheap ≡ (kbrk increment h).1.brk)
      × Grows own s fs mmu_vaddr_kheap h.brk (increment / 4096) r.1
unfolding csc.Mmu.kbrk
kbrk-refines increment own s fs h space is enough whole below =
    let (r, call, (old, x)) =
      grow_region-Grows increment own s fs mmu_vaddr_kheap h.brk space enough whole below is in
    let (value, brk) = kbrk-values increment h below in
    (r, call, (old ∙ sym value, x.bank ∙ sym brk, x))
