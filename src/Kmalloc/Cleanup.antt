-- ===== src/Kmalloc/Cleanup.antt =====
-- kmalloc_cleanup of kmalloc.c, which nothing calls. Its messages are left out, with the count of
-- blocks that they report.
use csc.Base.{ℕ, zero, suc, not, ◌==◌, if◌then◌else◌, null}
use csc.Base.Words.{add64, sub64}
use csc.Base.Outcome.{Outcome, ok, out_of_fuel, ◌>>=◌}
use csc.Kmalloc.{Heap, kbrk, kfree}

-- A block that is in use is freed, and the walk starts again behind the head; the last block is
-- never freed.
pub cleanup_walk : ℕ → ℕ → ℕ → Heap → Outcome Heap
cleanup_walk zero fuel b h = out_of_fuel
cleanup_walk (suc k) fuel b h =
    let again =
      kfree fuel (h.hdr b).ptr h >>= λ h. cleanup_walk k fuel (h.hdr h.kernel_heap_head).next h in
    let on = cleanup_walk k fuel (h.hdr b).next h in
    if (b == null)
    then ok h
    else if (h.hdr b).next == null
    then ok h
    else if not (h.hdr b).free
    then again
    else on

-- The increment is the size of the head, negated, as a `uint64_t`.
pub kmalloc_cleanup : ℕ → ℕ → Heap → Outcome Heap
kmalloc_cleanup rounds fuel h =
    let walked = cleanup_walk rounds fuel h.kernel_heap_head h >>= λ h.
    let c = h.hdr h.kernel_heap_head in
    ok (if add64 c.ptr c.size == (kbrk 0 h).0 then (kbrk (sub64 0 c.size) h).1 else h) in
    if h.kernel_heap_head == null then ok h else walked
