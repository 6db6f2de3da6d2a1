-- ===== src/Mmu/Init.antt =====
-- The start of the memory manager, addr_map_init and MMU_init of mmu_driver.c. The memory map is read
-- from the information of the boot loader, through the function that gives its 32-bit words; where
-- the kernel stands is known to the linker only.
use Prim.Native.Nat.{bit_or}
use csc.Base.{
  ℕ, zero, suc, ◌+◌, ◌-◌, ◌*◌, ◌/◌, ◌^◌, not, ◌&&◌, ◌||◌, ◌==◌, leb, ltb, if◌then◌else◌, null,
  update,
}
use csc.Base.Ints.{pos}
use csc.Base.Words.{add64, sub64}
use csc.Base.Outcome.{Outcome, ok, halted, ◌>>=◌}
use csc.Irq.{Irq, irq_set_exception_handler}
use csc.Multiboot.{get_multiboot2_mmap_info}
use csc.Mmu.{Range, Mmu, page_size, clear_page, mmu_pf_alloc, map_page, virt_to_phys}

-- The fields of `mb_mmap_entry_t`.
abbrev pub read64 : (ℕ → ℕ) → ℕ → ℕ
read64 mem a = mem a + mem (a + 4) * 2 ^ 32

abbrev pub mmap_addr : (ℕ → ℕ) → ℕ → ℕ
mmap_addr mem entry = read64 mem entry

abbrev pub mmap_len : (ℕ → ℕ) → ℕ → ℕ
mmap_len mem entry = read64 mem (entry + 8)

abbrev pub mmap_type : (ℕ → ℕ) → ℕ → ℕ
mmap_type mem entry = mem (entry + 16)

abbrev pub mmap_entry_size : ℕ
mmap_entry_size = 24

abbrev pub range_entry_size : ℕ
range_entry_size = 32

-- The next entry is taken from the local heap, and becomes the current one.
unfoldable pub link_range : Mmu → Mmu
link_range s =
    let c = s.addr_range_curr in
    record s {
      range = update s.range c (record (s.range c) { next_entry = s.local_heap_ptr });
      local_heap_ptr = add64 s.local_heap_ptr range_entry_size;
      addr_range_curr = s.local_heap_ptr;
    }

unfoldable pub fill_range : ℕ → ℕ → Mmu → Mmu
fill_range start end s =
    let c = s.addr_range_curr in
    record s {
      range =
          update s.range c (record (s.range c) { start = start; end = end; curr_frame = start });
    }

unfoldable pub fill_last : ℕ → ℕ → Mmu → Mmu
fill_last start end s =
    let s1 = fill_range start end s in
    let c = s1.addr_range_curr in
    record s1 { range = update s1.range c (record (s1.range c) { next_entry = null }) }

-- PAGE_ALIGN_ADDR.
unfoldable pub page_align : ℕ → ℕ
page_align addr = add64 (bit_or (sub64 addr 1) (page_size - 1)) 1

-- The entry is left out where the kernel starts with it.
unfoldable pub around_kernel : ℕ → ℕ → ℕ → ℕ → Mmu → Mmu
around_kernel kernel_start kernel_end start end s =
    let s1 = if kernel_start == start then s else link_range (fill_range start kernel_start s) in
    fill_last (page_align kernel_end) end s1

-- One round of the loop over the memory map.
unfoldable pub map_entry : (ℕ → ℕ) → ℕ → ℕ → ℕ → Mmu → Outcome Mmu
map_entry mem kernel_start kernel_end entry s =
    let start = mmap_addr mem entry in
    let end = add64 start (mmap_len mem entry) in
    let s1 = link_range s in
    let s2 =
      if leb start kernel_start && leb kernel_end end
      then around_kernel kernel_start kernel_end start end s1
      else fill_last start end s1 in
    if not (mmap_type mem entry == 1)
    then ok s
    else if (s.local_heap_ptr == null) || ltb (page_size * 2) s.local_heap_ptr
    then halted
    else if s2.addr_range_curr == null
    then halted
    else ok s2

unfoldable pub map_entries : ℕ → (ℕ → ℕ) → ℕ → ℕ → ℕ → Mmu → Outcome Mmu
map_entries zero mem kernel_start kernel_end entry s = ok s
map_entries (suc n) mem kernel_start kernel_end entry s = do
  s ← map_entry mem kernel_start kernel_end entry s
  map_entries n mem kernel_start kernel_end (entry + mmap_entry_size) s

abbrev no_range : Range
no_range = record { start = 0; curr_frame = null; end = 0; next_entry = null }

-- The page of the local heap is cleared, and the list starts there.
unfoldable pub start_list : Mmu → Mmu
start_list s = record s {
  range = λ a.
      if leb s.local_heap_ptr a && ltb a (s.local_heap_ptr + page_size)
      then no_range
      else s.range a;
  addr_range_head = s.local_heap_ptr;
  addr_range_curr = s.local_heap_ptr;
}

-- The first range goes on at the third page.
unfoldable pub finish_list : Mmu → Mmu
finish_list s =
    let c = s.addr_range_head in
    record s {
      addr_range_tail = s.addr_range_curr;
      addr_range_curr = c;
      range = update s.range c (record (s.range c) { curr_frame = page_size * 2 });
    }

unfoldable pub addr_map_init : ℕ → (ℕ → ℕ) → ℕ → ℕ → ℕ → Mmu → Outcome Mmu
addr_map_init fuel mem kernel_start kernel_end tag_ptr s = if tag_ptr == null then halted else do
  (entries, num) ← get_multiboot2_mmap_info fuel mem tag_ptr
  if num == 0
      then halted
      else if leb kernel_end kernel_start
      then halted
      else if not (kernel_start == 0x100000)
      then halted
      else if not (mmap_addr mem entries == 0)
      then halted
      else (do
        s ← map_entries num mem kernel_start kernel_end entries (start_list s)
        let s1 = finish_list s
        if (s1.addr_range_head == null) || (s1.addr_range_tail == null) then halted else ok s1)

-- `n` pages from `i` on are mapped to the frames of the same addresses.
unfoldable pub map_identity : ℕ → ℕ → Mmu → Outcome Mmu
map_identity zero i s = ok s
map_identity (suc n) i s = do s ← map_page i i s; map_identity n (i + page_size) s

unfoldable pub check_identity : ℕ → ℕ → Mmu → Outcome Mmu
check_identity zero i s = ok s
check_identity (suc n) i s = do
  (p, s) ← virt_to_phys i s
  if not (i == p) then halted else check_identity n (i + page_size) s

abbrev pub map_init_size : ℕ
map_init_size = 0x200000

-- The top table is made and cleared, and the first pages are mapped and checked.
unfoldable pub start_tables : Mmu → Outcome Mmu
start_tables s = do
  (pml4, s) ← mmu_pf_alloc s
  s ← map_identity (map_init_size / page_size + 1) 0 (clear_page pml4 (record s { pml4 = pml4 }))
  check_identity (map_init_size / page_size - 1) page_size s

-- The address of page_fault_irq is the argument `handler`.
unfoldable pub mmu_init : ℕ → (ℕ → ℕ) → ℕ → ℕ → ℕ → ℕ → Mmu → Irq → Outcome (Mmu × Irq)
mmu_init fuel mem kernel_start kernel_end tag_ptr handler s q = do
  s ← addr_map_init fuel mem kernel_start kernel_end tag_ptr s
  s ← start_tables s
  let (ret, q1) = irq_set_exception_handler 14 handler null q
  elim ret [ pos zero ↦ ok (s, q1) | _ ↦ halted ]
