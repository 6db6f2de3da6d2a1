-- ===== src/Mmu/Regions.antt =====
-- Where the regions of virtual memory start, the first values of virt_addr_bank in mmu_driver.c.
use csc.Base.{ℕ, ◌%◌, ◌≤◌, ◌≡◌, refl, ◌==◌, if◌then◌else◌, arith}
use csc.Base.Outcome.{halted}
use csc.Mmu.{Mmu, page_size, get_pt_entry, mmu_alloc_page}

-- MMU_VADDR_PHYS to MMU_VADDR_UHEAP.
abbrev pub region_start : ℕ → ℕ
region_start region =
    if region == 0
    then page_size
    else if region == 1
    then 0x010000000000
    else if region == 2
    then 0x020000000000
    else if region == 3
    then 0x0D7FFFFFFFFF
    else if region == 4
    then 0x0DFFFFFFFFFF
    else if region == 5
    then 0x0E7FFFFFFFFF
    else if region == 6
    then 0x0EFFFFFFFFFF
    else if region == 7
    then 0x0FFFFFFFFFFF
    else if region == 8
    then 0x1FFFFFFFFFFF
    else 0x200000000000

-- The regions from 3 to 8 are those of the stacks.
stack_start : (region : ℕ) → 3 ≤ region → region ≤ 8 → region_start region % page_size ≡ 4095
stack_start region low high = ground arith

heap_start : (region : ℕ) → region ≤ 2 → region_start region % page_size ≡ 0
heap_start region high = ground arith

-- MMU_alloc_page halts in a region of a stack that has not been used: the last byte of the region,
-- where the stack starts, is not the start of a page.
pub mmu_alloc_page-stack_halts :
    (region : ℕ) (s : Mmu)
    → 3 ≤ region
    → region ≤ 8
    → s.virt_addr_bank region ≡ region_start region
    → mmu_alloc_page region s ≡ halted
unfolding mmu_alloc_page get_pt_entry
mmu_alloc_page-stack_halts region s low high is = rw (is, stack_start region low high) refl
