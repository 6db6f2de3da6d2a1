-- ===== src/Mmu.antt =====
-- The memory manager, Bric_OS/src/drivers/mmu_driver.c: page frames, page tables and virtual pages.
-- Memory is a map from the addresses of its 64-bit words, which are physical addresses: the code
-- reads tables through them. The entries of the list of ranges are a map of their own. Messages and
-- the flushing of the processor's cache of translations are left out; Mmu.Report has what is printed
-- of a fault that cannot be handled.
pub mod Stock
pub mod Frames
pub mod Walk
pub mod Grow
pub mod Tables
pub mod Down
pub mod Find
pub mod Path
pub mod Leaf
pub mod Map
pub mod Pages
pub mod Taken
pub mod Fault
pub mod Freed
pub mod Brk
pub mod Init
pub mod Identity
pub mod Start
pub mod Listing
pub mod Report
pub mod Regions
mod Tests
use csc.Base.{
  ℕ, zero, suc, ◌+◌, ◌*◌, ◌/◌, ◌%◌, ◌^◌, Bool, true, false, not, ◌&&◌, ◌||◌, ◌==◌, leb, ltb,
  if◌then◌else◌, null, update,
}
use csc.Base.Words.{add64, get_field, set_field}
use csc.Base.Outcome.{Outcome, ok, halted, ◌>>=◌}

-- `pf_range_entry_t`.
pub record Range : Type 0 where
  pub start : ℕ
  pub curr_frame : ℕ
  pub end : ℕ
  pub next_entry : ℕ

-- The globals, with the memory that frames are made of.
pub record Mmu : Type 0 where
  pub word : ℕ → ℕ
  pub range : ℕ → Range
  pub addr_range_head : ℕ
  pub addr_range_curr : ℕ
  pub addr_range_tail : ℕ
  pub pml4 : ℕ
  pub pf_free_list_head : ℕ
  pub local_heap_ptr : ℕ
  pub virt_addr_bank : ℕ → ℕ

abbrev pub page_size : ℕ
page_size = 4096

abbrev pub phys_end : ℕ
phys_end = 0x00FFFFFFFFFF

-- MMU_VADDR_KHEAP and MMU_VADDR_UHEAP.
abbrev pub mmu_vaddr_kheap : ℕ
mmu_vaddr_kheap = 1

abbrev pub mmu_vaddr_uheap : ℕ
mmu_vaddr_uheap = 9

-- The fields of `pg_dir_entry_t`.
abbrev pub present : ℕ → ℕ
present w = get_field 0 1 w

abbrev pub alloc : ℕ → ℕ
alloc w = get_field 10 1 w

abbrev pub set_present : ℕ → ℕ → ℕ
set_present v w = set_field 0 1 v w

abbrev pub set_writable : ℕ → ℕ → ℕ
set_writable v w = set_field 1 1 v w

abbrev pub set_alloc : ℕ → ℕ → ℕ
set_alloc v w = set_field 10 1 v w

-- READ_FRAME_ADDR and WRITE_FRAME_ADDR.
abbrev pub read_frame_addr : ℕ → ℕ
read_frame_addr w = get_field 12 40 w * 4096

abbrev pub write_frame_addr : ℕ → ℕ → ℕ
write_frame_addr addr w = set_field 12 40 (addr / 4096) w

abbrev pub write : ℕ → ℕ → Mmu → Mmu
write a w s = record s { word = update s.word a w }

-- memset of a whole page to 0.
unfoldable pub clear_page : ℕ → Mmu → Mmu
clear_page p s = record s { word = λ a. if leb p a && ltb a (p + page_size) then 0 else s.word a }

-- alloc_new_pf, where `r` stands in the current entry `c`.
unfoldable pub take_frame : ℕ → Range → Mmu → Outcome (ℕ × Mmu)
take_frame c r s =
    let frame = add64 r.curr_frame page_size in
    let s1 = record s { range = update s.range c (record r { curr_frame = frame }) } in
    if (c == null) || (r.curr_frame == null)
    then halted
    else if leb r.end frame
    then if r.next_entry == null
      then halted
      else ok (r.curr_frame, record s1 { addr_range_curr = r.next_entry })
    else ok (r.curr_frame, s1)

unfoldable pub alloc_new_pf : Mmu → Outcome (ℕ × Mmu)
alloc_new_pf s = take_frame s.addr_range_curr (s.range s.addr_range_curr) s

unfoldable pub mmu_pf_alloc : Mmu → Outcome (ℕ × Mmu)
mmu_pf_alloc s =
    let pf = s.pf_free_list_head in
    if pf == null then alloc_new_pf s else ok (pf, record s { pf_free_list_head = s.word pf })

unfoldable pub mmu_pf_free : ℕ → Mmu → Outcome Mmu
mmu_pf_free pf s =
    if not (pf % page_size == 0)
    then halted
    else if pf == null
    then halted
    else if ltb phys_end pf
    then halted
    else ok (record (write pf s.pf_free_list_head s) { pf_free_list_head = pf })

unfoldable pub alloc_table_entry : ℕ → Mmu → Outcome Mmu
alloc_table_entry parent_entry s = do
  (new_pd, s) ← mmu_pf_alloc s
  let s1 = clear_page new_pd s
  let s2 = write parent_entry (write_frame_addr new_pd (s1.word parent_entry)) s1
  ok (write parent_entry (set_present 1 (s2.word parent_entry)) s2)

-- One level of get_pt_entry: the table behind an entry, which is made where it is missing.
unfoldable pub next_table : ℕ → Mmu → Outcome (ℕ × Mmu)
next_table entry s =
    if not (present (s.word entry) == 0) then ok (read_frame_addr (s.word entry), s) else do
      s ← alloc_table_entry entry s
      let s = write entry (set_writable 1 (s.word entry)) s
      ok (read_frame_addr (s.word entry), s)

-- GET_PAGE_MAP_INDEX and the three below it.
abbrev pub page_map_index : ℕ → ℕ
page_map_index x = get_field 39 9 x

abbrev pub page_dir_ptr_index : ℕ → ℕ
page_dir_ptr_index x = get_field 30 9 x

abbrev pub page_dir_index : ℕ → ℕ
page_dir_index x = get_field 21 9 x

abbrev pub page_tbl_index : ℕ → ℕ
page_tbl_index x = get_field 12 9 x

-- Entry `i` of a table.
abbrev pub entry_at : ℕ → ℕ → ℕ
entry_at table i = table + 8 * i

unfoldable pub get_pt_entry : ℕ → Mmu → Outcome (ℕ × Mmu)
get_pt_entry virt_addr s = if not (virt_addr % page_size == 0) then halted else do
  (t, s) ← next_table (entry_at s.pml4 (page_map_index virt_addr)) s
  (t, s) ← next_table (entry_at t (page_dir_ptr_index virt_addr)) s
  (t, s) ← next_table (entry_at t (page_dir_index virt_addr)) s
  ok (entry_at t (page_tbl_index virt_addr), s)

-- What map_page makes of the entry, which it clears first.
abbrev pub page_entry : ℕ → ℕ
page_entry phys_addr = set_alloc 0 (set_writable 1 (set_present 1 (write_frame_addr phys_addr 0)))

unfoldable pub map_page : ℕ → ℕ → Mmu → Outcome Mmu
map_page phys_addr virt_addr s = if not (phys_addr % page_size == 0) then halted else do
  (pt_entry, s) ← get_pt_entry virt_addr s
  if not (present (s.word pt_entry) == 0)
      then halted
      else ok (write pt_entry (page_entry phys_addr) s)

-- NULL where the page is not present.
unfoldable pub virt_to_phys : ℕ → Mmu → Outcome (ℕ × Mmu)
virt_to_phys virt_addr s = do
  (pt_entry, s) ← get_pt_entry virt_addr s
  if present (s.word pt_entry) == 0
      then ok (null, s)
      else ok (read_frame_addr (s.word pt_entry) + virt_addr % page_size, s)

-- The address that faulted is the argument, the register CR2. What is not a page to be allocated
-- halts the machine.
unfoldable pub page_fault_irq : ℕ → Mmu → Outcome Mmu
page_fault_irq cr2 s = do
  let page = cr2 / page_size * page_size
  (pt_entry, s) ← get_pt_entry page s
  if (present (s.word pt_entry) == 0) && not (alloc (s.word pt_entry) == 0)
      then (do
        (phys_page, s) ← mmu_pf_alloc s
        s ← map_page phys_page page s
        let s = write pt_entry (set_alloc 0 (s.word pt_entry)) s
        ok (write pt_entry (set_writable 1 (s.word pt_entry)) s))
      else halted

unfoldable pub mmu_alloc_page : ℕ → Mmu → Outcome (ℕ × Mmu)
mmu_alloc_page region s = do
  let virt_page = s.virt_addr_bank region
  (pt_entry, s) ← get_pt_entry virt_page s
  let s = write pt_entry (set_alloc 1 (s.word pt_entry)) s
  let s = write pt_entry (set_present 0 (s.word pt_entry)) s
  ok (
    virt_page,
    record s {
      virt_addr_bank = update s.virt_addr_bank region (add64 (s.virt_addr_bank region) page_size);
    },
  )

-- The calls of the loop, then the address of the first page.
unfoldable pub alloc_pages : ℕ → ℕ → Mmu → Outcome Mmu
alloc_pages zero region s = ok s
alloc_pages (suc n) region s = do (p, s) ← mmu_alloc_page region s; alloc_pages n region s

unfoldable pub mmu_alloc_pages : ℕ → ℕ → Mmu → Outcome (ℕ × Mmu)
mmu_alloc_pages num_pages region s = do
  let starting_page = s.virt_addr_bank region
  s ← alloc_pages num_pages region s
  ok (starting_page, s)

unfoldable pub mmu_free_page : ℕ → Mmu → Outcome Mmu
mmu_free_page page s = if not (page % page_size == 0) then halted else do
  (pt_entry, s) ← get_pt_entry page s
  s ← mmu_pf_free (read_frame_addr (s.word pt_entry)) s
  ok (write pt_entry 0 s)

-- The loop frees `page`, and then as many pages behind it as are left.
unfoldable pub mmu_free_pages : ℕ → ℕ → Mmu → Outcome Mmu
mmu_free_pages page zero s = ok s
mmu_free_pages page (suc n) s = do
  s ← mmu_free_page page s
  mmu_free_pages (add64 page page_size) n s

unfoldable pub grow_region : ℕ → ℕ → Mmu → Outcome (ℕ × Mmu)
grow_region region increment s = do
  let old_brk = s.virt_addr_bank region
  if increment == 0
      then ok (old_brk, s)
      else (do (p, s) ← mmu_alloc_pages (increment / page_size) region s; ok (old_brk, s))

unfoldable pub kbrk : ℕ → Mmu → Outcome (ℕ × Mmu)
kbrk increment s = grow_region mmu_vaddr_kheap increment s

unfoldable pub sbrk : ℕ → Mmu → Outcome (ℕ × Mmu)
sbrk increment s = grow_region mmu_vaddr_uheap increment s
