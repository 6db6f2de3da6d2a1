-- ===== src/Mmu/Report.antt =====
-- What mmu_driver.c prints of a page fault that it cannot handle, with the macro OS_ERROR_HALT of
-- Bric_OS/lib/common.h. Where the name of the file stands in memory and the number of the line are
-- the compiler's, two arguments here.
pub mod Whole
mod Tests
use Prim.Native.String.{String}
use csc.Base.{ℕ, ◌+◌, ◌/◌, ◌%◌, ◌^◌, ◌==◌, not, List, [], ◌∷◌, ◌++◌, if◌then◌else◌, null}
use csc.Base.Ports.{Device}
use csc.Base.Words.{get_field}
use csc.Base.Outcome.{Outcome, ok, ◌>>=◌}
use csc.Base.Text.{codes}
use csc.Strings.{Memory}
use csc.Printk.Format.{Console, printk}
use csc.Exceptions.{say}
use csc.Mmu.{
  Mmu, present, alloc, read_frame_addr, entry_at, page_map_index, page_dir_ptr_index,
  page_dir_index, page_tbl_index, page_size,
}

-- Bit `i` of a word.
abbrev pub flag : ℕ → ℕ → ℕ
flag i w = w / 2 ^ i % 2

-- The argument is a `uint16_t`.
unfoldable pub decode_error_flags : Device → Memory → ℕ → Console → Outcome Console
unfolding printk
decode_error_flags dev mem err s = do
  s ←
      say dev mem
        "Error Flags:\n------------\nPresent: %d \nR/W:     %d \nUser:    %d \n------------\nRSVD:    %d \nI/D:     %d \nPK:      %d \nSS:      %d \nSGX:     %d \n\n"
        (flag 0 err
          ∷ flag 1 err
          ∷ flag 2 err
          ∷ flag 3 err
          ∷ flag 4 err
          ∷ flag 5 err
          ∷ flag 6 err
          ∷ flag 15 err
          ∷ [])
        s
  s ←
      (if not (flag 2 err == 0)
        then say dev mem "User process " [] s
        else say dev mem "Supervisory process " [] s)
  s ← say dev mem "tried to " [] s
  s ← (if not (flag 1 err == 0) then say dev mem "write " [] s else say dev mem "read " [] s)
  if not (flag 0 err == 0)
      then say dev mem "a page and caused a protection fault\n" [] s
      else say dev mem "to a non-present page entry\n" [] s

-- The message; the instruction behind it is left out.
unfoldable pub flush_pg_tbl : Device → Memory → ℕ → Console → Outcome Console
unfolding printk
flush_pg_tbl dev mem addr s =
    if addr == null
    then say dev mem "INFO: Reloading CR3 Register...\n" [] s
    else say dev mem "INFO: Flushing Page Table Entry...\n" [] s

-- The fields of an entry, under the name of its level.
unfoldable pub show_entry : Device → Memory → String → ℕ → Mmu → Console → Outcome Console
unfolding printk
show_entry dev mem level entry m s =
    let w = m.word entry in
    printk dev mem
      (codes level
        ++ codes
            "    Address: %p  \n    Present: %d  \n    Writable: %d \n    User: %d     \n    Accessed: %d \n    Dirty: %d    \n    Alloc: %d    \n    Frame: %p    \n    \n")
      (entry
        ∷ present w
        ∷ flag 1 w
        ∷ flag 2 w
        ∷ flag 5 w
        ∷ flag 9 w
        ∷ alloc w
        ∷ read_frame_addr w
        ∷ [])
      s

-- One level of the walk: the entry, and then what is missing, or the rest of the walk.
unfoldable pub show_level :
    Device
    → Memory
    → String
    → String
    → ℕ
    → Mmu
    → (Console → Outcome Console)
    → Console
    → Outcome Console
unfolding show_entry printk
show_level dev mem level missing entry m on s = do
  s ← show_entry dev mem level entry m s
  if present (m.word entry) == 0 then say dev mem missing [] s else on s

-- The frame that an entry leads to.
abbrev frame_of : Mmu → ℕ → ℕ
frame_of m entry = read_frame_addr (m.word entry)

-- The four parts of walk_virt_addr, from the last one.
unfoldable pub walk_frame : Device → Memory → ℕ → ℕ → Mmu → Console → Outcome Console
unfolding printk
walk_frame dev mem virt_addr entry m s =
    say dev mem "Physical Address: %p\n\n" ((frame_of m entry + virt_addr % page_size) ∷ []) s

unfoldable pub walk_pt : Device → Memory → ℕ → ℕ → Mmu → Console → Outcome Console
unfolding show_level walk_frame
walk_pt dev mem virt_addr entry m s =
    show_level dev mem "PT Entry:        \n" "PT entry is not present!\n" entry m
      (walk_frame dev mem virt_addr entry m) s

unfoldable pub walk_pd : Device → Memory → ℕ → ℕ → Mmu → Console → Outcome Console
unfolding show_level walk_pt
walk_pd dev mem virt_addr entry m s =
    let next = entry_at (frame_of m entry) (page_tbl_index virt_addr) in
    show_level dev mem "PD Entry:        \n" "PT entry is not present!\n" entry m
      (walk_pt dev mem virt_addr next m) s

unfoldable pub walk_pdpt : Device → Memory → ℕ → ℕ → Mmu → Console → Outcome Console
unfolding show_level walk_pd
walk_pdpt dev mem virt_addr entry m s =
    let next = entry_at (frame_of m entry) (page_dir_index virt_addr) in
    show_level dev mem "PDPT Entry:      \n" "PD entry is not present!\n" entry m
      (walk_pd dev mem virt_addr next m) s

unfoldable pub walk_virt_addr : Device → Memory → ℕ → Mmu → Console → Outcome Console
unfolding show_level walk_pdpt printk
walk_virt_addr dev mem virt_addr m s = do
  let entry = entry_at m.pml4 (page_map_index virt_addr)
  let next = entry_at (frame_of m entry) (page_dir_ptr_index virt_addr)
  s ← say dev mem "\n" [] s
  s ← say dev mem "INFO: Walking virtual address: %p\n" (virt_addr ∷ []) s
  show_level dev mem "PML4 Entry:      \n" "PDPT entry in PML4 is not present!\n" entry m
      (walk_pdpt dev mem virt_addr next m) s

-- What has been put out when the machine halts.
unfoldable pub os_error_halt : Device → Memory → ℕ → ℕ → List ℕ → List ℕ → Console → Outcome Console
unfolding printk
os_error_halt dev mem file line fmt args s = do
  s ← say dev mem "\n" [] s
  s ← printk dev mem (codes "ERROR: " ++ fmt) args s
  s ← say dev mem "ERROR: This error has occurred at %s:%d\n" (file ∷ line ∷ []) s
  say dev mem "ERROR: The system will now halt.\n" [] s

-- The last branch of page_fault_irq, at the aligned address and the entry that was found; `err` is
-- the error code, of which decode_error_flags takes 16 bits.
unfoldable pub fault_report : Device → Memory → ℕ → ℕ → ℕ → ℕ → ℕ → Mmu → Console → Outcome Console
unfolding walk_virt_addr decode_error_flags os_error_halt
fault_report dev mem file line cr2 err pt_entry m s = do
  let w = m.word pt_entry
  s ← walk_virt_addr dev mem cr2 m s
  s ← decode_error_flags dev mem (err % 2 ^ 16) s
  os_error_halt dev mem file line
      (codes
        "Page fault at virtual address %p cannot be recovered!\npt_entry->present ......... %d\npt_entry->writable ........ %d\npt_entry->user ............ %d\npt_entry->write_through ... %d\npt_entry->cache_disabled .. %d\npt_entry->accessed ........ %d\npt_entry->bit_6 ........... %d\npt_entry->bit_7 ........... %d\npt_entry->bit_8 ........... %d\npt_entry->dirty ........... %d\npt_entry->alloc ........... %d\npt_entry->bit_B ........... %d\npt_entry->frame_addr ...... %p\npt_entry->unused .......... %d\npt_entry->no_execute ...... %d\n\n")
      (cr2
        ∷ present w
        ∷ flag 1 w
        ∷ flag 2 w
        ∷ flag 3 w
        ∷ flag 4 w
        ∷ flag 5 w
        ∷ flag 6 w
        ∷ flag 7 w
        ∷ flag 8 w
        ∷ flag 9 w
        ∷ alloc w
        ∷ flag 11 w
        ∷ read_frame_addr w
        ∷ get_field 52 11 w
        ∷ flag 63 w
        ∷ [])
      s
