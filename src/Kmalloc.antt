-- ===== src/Kmalloc.antt =====
-- The kernel heap, Bric_OS/lib/kmalloc.c and kmalloc.h: a doubly linked list of block headers that
-- stand in front of the memory they describe.
-- The headers are a map from addresses; the bytes that clients write are no part of it. A call that
-- would write a new header, or bytes, over the next header or behind the break is a fault: in the
-- program it destroys that header, or halts in the page fault. `kbrk` is the program break of
-- Bric_OS/src/drivers/mmu_driver.c, without the page table entries that it makes. Messages are left
-- out.
pub mod Round
pub mod Chain
pub mod Merge
pub mod Cut
pub mod Split
pub mod Free
pub mod Extend
pub mod Search
pub mod Zeroed
pub mod Resize
pub mod Cleanup
pub mod Break
mod Tests
use Prim.Native.Nat.{bit_or}
use csc.Base.{
  ℕ, zero, suc, ◌+◌, ◌-◌, ◌*◌, ◌/◌, ◌%◌, ◌^◌, Bool, true, false, ◌&&◌, ◌||◌, not, ◌==◌, ltb, leb,
  if◌then◌else◌, null, update,
}
pub use csc.Base.Words.{add64, sub64}
use csc.Base.Outcome.{Outcome, ok, fault, out_of_fuel, ◌>>=◌, ◌>>◌}

-- `header_t`.
pub record Header : Type 0 where
  pub ptr : ℕ
  pub size : ℕ
  pub free : Bool
  pub next : ℕ
  pub prev : ℕ

pub data Errno : Type 0 where
  none_set enomem efault : Errno

pub record Heap : Type 0 where
  pub hdr : ℕ → Header
  pub kernel_heap_head : ℕ
  pub brk : ℕ
  pub errno : Errno

abbrev pub bin_size : ℕ
bin_size = 65536

abbrev pub header_size : ℕ
header_size = 32

abbrev pub align_size : ℕ
align_size = 16

abbrev pub min_blk_size : ℕ
min_blk_size = header_size + align_size

abbrev pub page_size : ℕ
page_size = 4096

abbrev pub uint32_max : ℕ
uint32_max = 2 ^ 32 - 1

-- The value that a `uint32_t` keeps.
abbrev pub u32 : ℕ → ℕ
u32 a = a % 2 ^ 32

-- ROUND_UP( n, d ) on `size_t`.
pub round_up : ℕ → ℕ → ℕ
round_up n d = add64 (bit_or (sub64 n 1) (d - 1)) 1

-- GET_HEADER( ptr ).
abbrev pub get_header : ℕ → ℕ
get_header p = sub64 p header_size

abbrev pub write : ℕ → Header → Heap → Heap
write b c h = record h { hdr = update h.hdr b c }

pub set_size : ℕ → ℕ → Heap → Heap
set_size b n h = write b (record (h.hdr b) { size = u32 n }) h

pub set_free : ℕ → Bool → Heap → Heap
set_free b f h = write b (record (h.hdr b) { free = f }) h

pub set_next : ℕ → ℕ → Heap → Heap
set_next b n h = write b (record (h.hdr b) { next = n }) h

pub set_prev : ℕ → ℕ → Heap → Heap
set_prev b p h = write b (record (h.hdr b) { prev = p }) h

-- kbrk: the old break; the break moves by whole pages.
pub kbrk : ℕ → Heap → ℕ × Heap
kbrk increment h =
    if increment == 0
    then (h.brk, h)
    else (h.brk, record h { brk = add64 h.brk (increment / page_size * page_size) })

-- The two blocks are there, both are free, and the second starts where the first ends.
pub can_merge : ℕ → ℕ → Heap → Bool
can_merge b1 b2 h =
    not (b1 == null)
    && not (b2 == null)
    && (h.hdr b1).free
    && (h.hdr b2).free
    && (add64 (h.hdr b1).ptr (h.hdr b1).size == b2)

-- What merge_blocks writes once its two guards are passed.
pub join_blocks : ℕ → ℕ → Heap → Heap
join_blocks b1 b2 h =
    let h1 = set_size b1 ((h.hdr b1).size + ((h.hdr b2).size + header_size)) h in
    let h2 = set_next b1 (h1.hdr b2).next h1 in
    if (h2.hdr b2).next == null then h2 else set_prev (h2.hdr b2).next b1 h2

pub merge_blocks : ℕ → ℕ → Heap → Heap
merge_blocks b1 b2 h = if can_merge b1 b2 h then join_blocks b1 b2 h else h

-- The header of the second part.
pub new_header : ℕ → ℕ → Heap → Header
new_header block size h = record {
  ptr = add64 (add64 (h.hdr block).ptr size) header_size;
  size = u32 (sub64 (sub64 (h.hdr block).size size) header_size);
  free = true;
  next = null;
  prev = block;
}

-- The second part takes its place in front of the next block, and is merged with it if it is free.
pub link_next : ℕ → ℕ → Heap → Heap
link_next new_b next h =
    let h1 = set_next new_b next h in let h2 = set_prev next new_b h1 in merge_blocks new_b next h2

pub carve : ℕ → ℕ → Heap → Heap
carve block size h =
    let new_b = add64 (h.hdr block).ptr size in
    let h1 = write new_b (new_header block size h) h in
    let h2 = if (h1.hdr block).next == null then h1 else link_next new_b (h1.hdr block).next h1 in
    set_next block new_b (set_size block size h2)

-- Whether `n` bytes at `p`, of the memory of a block, lie in front of the next header, or of the
-- break if there is none.
pub in_front : ℕ → ℕ → ℕ → Heap → Bool
in_front block p n h =
    let next = (h.hdr block).next in leb (p + n) (if next == null then h.brk else next)

-- A block with less than 48 bytes to spare stays whole.
pub cut_or_keep : ℕ → ℕ → Heap → Heap
cut_or_keep block size h =
    if ltb (h.hdr block).size (add64 size min_blk_size) then h else carve block size h

pub split_block : ℕ → ℕ → Heap → Outcome Heap
split_block block size h =
    if ltb (h.hdr block).size (add64 size min_blk_size)
      || in_front block (add64 (h.hdr block).ptr size) header_size h
    then ok (cut_or_keep block size h)
    else fault

-- extend_mem: the new block, which is NULL only if kbrk fails; it never does.
pub align_brk : Heap → Heap
align_brk h = if h.brk % align_size == 0 then h else (kbrk (align_size - h.brk % align_size) h).1

pub extend_mem : ℕ → ℕ → ℕ → Heap → Outcome (ℕ × Heap)
extend_mem size prev next h =
    let total_size = round_up size bin_size in
    let (b, h1) = kbrk (add64 total_size header_size) (align_brk h) in
    let fresh : Header = record {
      ptr = add64 b header_size;
      size = u32 total_size;
      free = true;
      next = next;
      prev = prev;
    } in
    split_block b size (write b fresh h1) >>= λ h'. ok (b, h')

-- The tail is extended where the walk has come to it.
pub next_block : ℕ → ℕ → Heap → Outcome Heap
next_block size b h =
    if (h.hdr b).next == null
    then (do (n, h) ← extend_mem size b null h; ok (set_next b n h))
    else ok h

-- The walk of get_empty_mem: where it stops, the block kept as a backup, and the heap.
pub walk : ℕ → ℕ → ℕ → ℕ → Heap → Outcome (ℕ × ℕ × Heap)
walk zero size b b_alt h = out_of_fuel
walk (suc k) size b b_alt h =
    let c = h.hdr b in
    let on = next_block size b h >>= λ (h' : Heap).
    walk k size (h'.hdr b).next (if c.free && ltb size c.size then b else b_alt) h' in
    if b == null
    then ok (null, b_alt, h)
    else if c.free && (c.size == size)
    then ok (b, b_alt, h)
    else if c.free && ltb size c.size && (c.next == null)
    then ok (b, b, h)
    else on

-- The first call makes the heap.
pub ensure_head : Heap → Outcome Heap
ensure_head h =
    if h.kernel_heap_head == null
    then (do (b, h) ← extend_mem bin_size null null h; ok (record h { kernel_heap_head = b }))
    else ok h

pub get_empty_mem : ℕ → ℕ → Heap → Outcome (ℕ × Heap)
get_empty_mem fuel size h = do
  h0 ← ensure_head h
  (b, b_alt, h) ← walk fuel size h0.kernel_heap_head null h0
  let found = if b == null then b_alt else b
  if found == null
      then ok (null, h)
      else (do h ← split_block found size h; ok (found, set_free found false h))

pub kmalloc : ℕ → ℕ → Heap → Outcome (ℕ × Heap)
kmalloc fuel size0 h =
    let size = if ltb size0 1 then size0 + 1 else size0 in
    let total_size = round_up size align_size in
    if ltb uint32_max size || ltb uint32_max total_size
    then ok (null, record h { errno = enomem })
    else do
      (b, h) ← get_empty_mem fuel total_size h
      if b == null then ok (null, record h { errno = enomem }) else ok ((h.hdr b).ptr, h)

-- The walk of kfree to the block that holds the pointer; NULL if there is none.
pub find_block : ℕ → ℕ → ℕ → Heap → Outcome ℕ
find_block zero p b h = out_of_fuel
find_block (suc k) p b h =
    let on = find_block k p (h.hdr b).next h in
    if b == null
    then ok null
    else if leb b p && ltb p (add64 (h.hdr b).ptr (h.hdr b).size)
    then ok b
    else on

pub release : ℕ → Heap → Heap
release b h =
    let h1 = set_free b true h in
    let h2 = merge_blocks b (h1.hdr b).next h1 in merge_blocks (h2.hdr b).prev b h2

pub kfree : ℕ → ℕ → Heap → Outcome Heap
kfree fuel p h =
    if p == null
    then ok h
    else if ltb p h.kernel_heap_head || ltb (sub64 h.brk min_blk_size) p
    then ok (record h { errno = efault })
    else do
      b ← find_block fuel p h.kernel_heap_head h
      ok (if b == null then record h { errno = efault } else release b h)
